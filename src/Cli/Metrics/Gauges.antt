-- ===== src/Cli/Metrics/Gauges.antt =====
-- The gauges that observe_scan of cmd/snmp-discovery/metrics.go sets from the catalog.
use snmp_sd.Base.{
  ℕ, ◌+◌, ◌≡◌, refl, ap, ◌∙◌, arith, Text, true, some, ◌&&◌, List, [], ◌∷◌, ◌==◌, ltb,
  if◌then◌else◌, eq_iff, contains, length, ◌↔◌,
}
use snmp_sd.Target.{AlloyTarget}
use snmp_sd.Catalog.{CatalogEntry}
use snmp_sd.Tiers.{tier_targets}
use snmp_sd.Run.{ScanStats}
use snmp_sd.Cli.Metrics.{
  Vec, CliMetrics, same_labels, add_to, set_to, count_entries, count_stale, count_tiers,
  device_labels, group_of, by_group, shown_tiers, observe_scan,
}

-- What a vector shows for the labels, 0 where it has none.
unfoldable pub value : List Text → Vec → ℕ
unfolding same_labels
value labels [] = 0
value labels ((ls, n) ∷ vec) = if same_labels ls labels then n else value labels vec

same_iff : (a b : List Text) → (same_labels a b ≡ true) ↔ (a ≡ b)
unfolding same_labels
same_iff [] [] = ground arith
same_iff (x ∷ a) (y ∷ b) = let heads = eq_iff x y in let tails = same_iff a b in grind arith
same_iff [] (y ∷ b) = ground arith
same_iff (x ∷ a) [] = ground arith

value-add_to :
    (labels : List Text) (n : ℕ) (vec : Vec) (ls : List Text)
    → value ls (add_to labels n vec) ≡ value ls vec + (if same_labels labels ls then n else 0)
unfolding value add_to
value-add_to labels n [] ls = ground arith
value-add_to labels n ((k, m) ∷ vec) ls =
    let rest = value-add_to labels n vec ls in
    let a = same_iff k labels in let b = same_iff k ls in let c = same_iff labels ls in grind arith

value-set_to :
    (labels : List Text) (n : ℕ) (vec : Vec) (ls : List Text)
    → value ls (set_to labels n vec) ≡ (if same_labels labels ls then n else value ls vec)
unfolding value set_to
value-set_to labels n [] ls = refl
value-set_to labels n ((k, m) ∷ vec) ls =
    let rest = value-set_to labels n vec ls in
    let a = same_iff k labels in let b = same_iff k ls in let c = same_iff labels ls in grind arith

same_labels-one : (a b : Text) → same_labels (a ∷ []) (b ∷ []) ≡ (a == b)
unfolding same_labels
same_labels-one a b = ground arith

-- The devices of a group, and those of them that the last scan missed.
unfoldable pub group_size : Text → List CatalogEntry → ℕ
group_size g [] = 0
group_size g (e ∷ entries) = (if group_of e == g then 1 else 0) + group_size g entries

unfoldable pub stale_size : Text → List CatalogEntry → ℕ
stale_size g [] = 0
stale_size g (e ∷ entries) =
    (if group_of e == g && ltb 0 e.misses then 1 else 0) + stale_size g entries

value-add_one :
    (label : Text) (vec : Vec) (g : Text)
    → value (g ∷ []) (add_to (label ∷ []) 1 vec)
      ≡ value (g ∷ []) vec + (if label == g then 1 else 0)
value-add_one label vec g =
    let here = same_labels-one label g in
    value-add_to (label ∷ []) 1 vec (g ∷ [])
    ∙ ap (λ b. value (g ∷ []) vec + (if b then 1 else 0)) here

value-count_stale :
    (e : CatalogEntry) (stale : Vec) (g : Text)
    → value (g ∷ []) (count_stale e stale)
      ≡ value (g ∷ []) stale + (if group_of e == g && ltb 0 e.misses then 1 else 0)
unfolding count_stale
value-count_stale e stale g = let added = value-add_one (group_of e) stale g in ground arith

count_entries_lem :
    (g : Text) (entries : List CatalogEntry) (devices stale info : Vec)
    → let r = count_entries entries (devices, stale, info) in
      (value (g ∷ []) r.0 ≡ value (g ∷ []) devices + group_size g entries)
      × (value (g ∷ []) r.1 ≡ value (g ∷ []) stale + stale_size g entries)
unfolding count_entries group_size stale_size
count_entries_lem g [] devices stale info = (omega arith, omega arith)
count_entries_lem g (e ∷ entries) devices stale info =
    let d = value-add_one (group_of e) devices g in
    let s = value-count_stale e stale g in
    let (x, y) =
      count_entries_lem g entries (add_to (group_of e ∷ []) 1 devices) (count_stale e stale)
        (set_to (device_labels e) 1 info) in
    (omega arith, omega arith)

count_tiers_lem :
    (tier : Text) (rows : List AlloyTarget) (tiers : List Text) (targets : Vec)
    → value (tier ∷ []) (count_tiers rows tiers targets)
      ≡ (if contains tier tiers then length (tier_targets rows tier) else value (tier ∷ []) targets)
unfolding count_tiers
count_tiers_lem tier rows [] targets = refl
count_tiers_lem tier rows (t ∷ tiers) targets =
    let n = length (tier_targets rows t) in
    let rest = count_tiers_lem tier rows tiers (set_to (t ∷ []) n targets) in
    let here = value-set_to (t ∷ []) n targets (tier ∷ []) in
    let same = same_labels-one t tier in
    let equal = eq_iff t tier in let turned = eq_iff tier t in grind arith

-- The gauges of `m` show the devices of each group, those that are stale, and the rows of each tier.
unfoldable pub Shows : List CatalogEntry → List AlloyTarget → List Text → CliMetrics → Type 0
Shows entries rows tiers m =
    ((g : Text)
      → (value (g ∷ []) m.devices ≡ group_size g entries)
        × (value (g ∷ []) m.stale ≡ stale_size g entries))
    × ((tier : Text)
        → value (tier ∷ []) m.targets
          ≡ (if contains tier (shown_tiers tiers) then length (tier_targets rows tier) else 0))

pub observe_scan-Shows :
    (stats : ScanStats) (took : ℕ) (rows : List AlloyTarget) (entries : List CatalogEntry)
    (tiers : List Text) (m : CliMetrics)
    → Shows entries rows tiers (observe_scan stats took rows (some entries) tiers m)
unfolding Shows observe_scan by_group value
observe_scan-Shows stats took rows entries tiers m = (
  λ g. (let (x, y) = count_entries_lem g entries [] [] [] in (x ∙ omega arith, y ∙ omega arith)),
  λ tier. count_tiers_lem tier rows (shown_tiers tiers) [],
)
