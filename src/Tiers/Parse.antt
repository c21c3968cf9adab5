-- ===== src/Tiers/Parse.antt =====
-- What `ParseEnabledTiers` and `NormalizeTiers` accept and return.
use mathlib.Core.Bool.{◌&&◌}
use snmp_sd.Base.{
  Text, codes, ◌==◌, ◌≡◌, ◌≢◌, refl, Bool, true, false, ◌||◌, List, [], ◌∷◌, map, Result, ok, err,
  if◌then◌else◌, arith, lower, trim, split, join, keep, contains, text_dec, eq_iff, eq_refl,
  ok-injective, ◌++◌, Bool-cases, inl, inr, ap, Distinct, sym, ◌∙◌,
}
use snmp_sd.Tiers.{
  hot, cold, topology, all_tiers, Wanted, every, these, collect_tiers, wanted_tiers, bind_wanted,
  parse_enabled_tiers, normalize_tiers,
}

-- The pieces of a list of tiers as the user wrote it.
abbrev pub pieces : Text → List Text
pieces s = map trim (split b',' s)

-- Whether a text asks for a tier: it is blank, or `all` or the tier is one of its pieces.
abbrev pub asks_for : Text → Text → Bool
asks_for text t =
    let s = trim (lower text) in
    s == [] || s == codes "all" || contains (codes "all") (pieces s) || contains t (pieces s)

tells : Wanted → Text → Bool
tells every t = true
tells (these want) t = contains t want

collect_tiers-tells :
    (want parts : List Text) (w : Wanted) (t : Text)
    → collect_tiers want parts ≡ ok w
    → t ≢ []
    → tells w t
      ≡ (contains t want || contains (codes "all") (map trim parts) || contains t (map trim parts))
unfolding collect_tiers tells
collect_tiers-tells want [] w t h ne = ground arith
collect_tiers-tells want (p ∷ ps) w t h ne = ground (
  arith,
  collect_tiers-tells want ps w t,
  collect_tiers-tells (trim p ∷ want) ps w t,
  eq_iff (codes "all") (trim p),
  eq_iff (trim p) (codes "all"),
  eq_iff (trim p) [],
  eq_iff t (trim p),
)

contains_tier :
    (b : Text → Bool) (t : Text) → contains t all_tiers ≡ true → contains t (keep b all_tiers) ≡ b t
unfolding ◌==◌
contains_tier b t h = ground arith

wanted_tiers-tells :
    (w : Wanted) (l : List Text) (t : Text)
    → wanted_tiers w ≡ ok l
    → contains t all_tiers ≡ true
    → contains t l ≡ tells w t
unfolding wanted_tiers tells
wanted_tiers-tells every l t h k = ground arith
wanted_tiers-tells (these []) l t h k = cc
wanted_tiers-tells (these (w ∷ want)) l t h k =
    rw (← ok-injective h) (contains_tier (λ x. contains x (w ∷ want)) t k)

tier_ne_nil : (t : Text) → contains t all_tiers ≡ true → t ≢ []
unfolding ◌==◌
tier_ne_nil t h = ground arith

bind_wanted-tells :
    (r : Result Wanted) (l : List Text) (t : Text)
    → bind_wanted r ≡ ok l
    → contains t all_tiers ≡ true
    → (w : Wanted) × (r ≡ ok w) × (contains t l ≡ tells w t)
unfolding bind_wanted
bind_wanted-tells (ok w) l t h k = (w, refl, wanted_tiers-tells w l t h k)
bind_wanted-tells (err e) l t h k = cc

contains_all :
    (l : List Text) (t : Text) → all_tiers ≡ l → contains t all_tiers ≡ true → contains t l ≡ true
contains_all l t e k = rw (← e) k

-- A text that is accepted yields exactly the tiers that it asks for.
pub parse_enabled_tiers-asks_for :
    (text : Text) (l : List Text) (t : Text)
    → parse_enabled_tiers text ≡ ok l
    → contains t all_tiers ≡ true
    → contains t l ≡ asks_for text t
unfolding parse_enabled_tiers
parse_enabled_tiers-asks_for text l t h k =
    elim (Bool-cases (trim (lower text) == [] || trim (lower text) == codes "all")) [
      | inl whole ↦
          ground (arith, contains_all l t (ok-injective (rw (whole, parse_enabled_tiers) at h)) k)
      | inr listed ↦
          let (w, collected, told) =
            bind_wanted-tells (collect_tiers [] (split b',' (trim (lower text)))) l t
              (rw (listed, parse_enabled_tiers) at h) k in
          let told' =
            collect_tiers-tells [] (split b',' (trim (lower text))) w t collected
              (tier_ne_nil t k) in
          ground (arith, told, told')
    ]

-- The lists that the parser can return: the tiers in their order, each at most once.
pub tier_list : Bool → Bool → Bool → List Text
tier_list h c o =
    (if h then hot ∷ [] else [])
    ++ (if c then cold ∷ [] else [])
    ++ (if o then topology ∷ [] else [])

normalize-tier_list :
    (h c o : Bool) → tier_list h c o ≢ [] → normalize_tiers (tier_list h c o) ≡ ok (tier_list h c o)
unfolding tier_list normalize_tiers split join trim lower ◌==◌ text_dec
normalize-tier_list true true true _ = refl
normalize-tier_list true true false _ = refl
normalize-tier_list true false true _ = refl
normalize-tier_list true false false _ = refl
normalize-tier_list false true true _ = refl
normalize-tier_list false true false _ = refl
normalize-tier_list false false true _ = refl
normalize-tier_list false false false h = absurd (h refl)

keep-tier_list : (b : Text → Bool) → keep b all_tiers ≡ tier_list (b hot) (b cold) (b topology)
unfolding tier_list
keep-tier_list b = ground arith

unfoldable pub are_tiers : List Text → Bool
are_tiers [] = true
are_tiers (t ∷ ts) = contains t all_tiers && are_tiers ts

names_tiers : Wanted → Bool
unfolding are_tiers
names_tiers every = true
names_tiers (these want) = are_tiers want

names_tiers-collect_tiers :
    (want parts : List Text) (w : Wanted)
    → are_tiers want ≡ true
    → collect_tiers want parts ≡ ok w
    → names_tiers w ≡ true
unfolding collect_tiers names_tiers
names_tiers-collect_tiers want [] w a h = ground arith
names_tiers-collect_tiers want (p ∷ ps) w a h =
    ground
      (arith, names_tiers-collect_tiers want ps w a, names_tiers-collect_tiers (trim p ∷ want) ps w)

-- What is accepted is a list of tiers in the order of `all_tiers`, and is not empty.
wanted_tiers-tier_list :
    (w : Wanted) (l : List Text)
    → names_tiers w ≡ true
    → wanted_tiers w ≡ ok l
    → (h : Bool) × (c : Bool) × (o : Bool) × (l ≡ tier_list h c o) × (l ≢ [])
unfolding wanted_tiers names_tiers tells
wanted_tiers-tier_list every l n h =
    (true, true, true, unfold tier_list in sym (ok-injective h), λ e. cc)
wanted_tiers-tier_list (these []) l n h = cc
wanted_tiers-tier_list (these (w ∷ want)) l n h =
    let b = λ (x : Text). contains x (w ∷ want) in
    (
      b hot,
      b cold,
      b topology,
      sym (ok-injective h) ∙ keep-tier_list b,
      λ e.
          ground (arith, wanted_tiers-tells (these (w ∷ want)) l w h, eq_refl w, ap (contains w) e),
    )

normalize_of_tier_list :
    (l : List Text) (h c o : Bool) → l ≡ tier_list h c o → l ≢ [] → normalize_tiers l ≡ ok l
normalize_of_tier_list l h c o e ne = rw e (normalize-tier_list h c o (λ z. ne (e ∙ z)))

bind_wanted-ok :
    (r : Result Wanted) (l : List Text)
    → bind_wanted r ≡ ok l
    → (w : Wanted) × (r ≡ ok w) × (wanted_tiers w ≡ ok l)
unfolding bind_wanted
bind_wanted-ok (ok w) l h = (w, refl, h)
bind_wanted-ok (err e) l h = cc

-- Every list that the parser returns is one of the `tier_list`s.
parse_enabled_tiers-tier_list :
    (text : Text) (l : List Text)
    → parse_enabled_tiers text ≡ ok l
    → (h : Bool) × (c : Bool) × (o : Bool) × (l ≡ tier_list h c o) × (l ≢ [])
unfolding parse_enabled_tiers
parse_enabled_tiers-tier_list text l h =
    elim (Bool-cases (trim (lower text) == [] || trim (lower text) == codes "all")) [
      | inl whole ↦
          let e = ok-injective (rw (whole, parse_enabled_tiers) at h) in
          (true, true, true, unfold tier_list in sym e, rw (← e) (λ z. cc))
      | inr listed ↦
          let (w, collected, wanted) =
            bind_wanted-ok (collect_tiers [] (split b',' (trim (lower text)))) l
              (rw (listed, parse_enabled_tiers) at h) in
          let named = names_tiers-collect_tiers [] _ w (unfold are_tiers in refl) collected in
          wanted_tiers-tier_list w l named wanted
    ]

-- Normalising what the parser returned changes nothing.
pub normalize_tiers-parse_enabled_tiers :
    (text : Text) (l : List Text) → parse_enabled_tiers text ≡ ok l → normalize_tiers l ≡ ok l
normalize_tiers-parse_enabled_tiers text l h =
    let (a, b, c, e, ne) = parse_enabled_tiers-tier_list text l h in
    normalize_of_tier_list l a b c e ne

pub normalize_tiers-tier_list :
    (tiers l : List Text)
    → normalize_tiers tiers ≡ ok l
    → (h : Bool) × (c : Bool) × (o : Bool) × (l ≡ tier_list h c o) × (l ≢ [])
unfolding normalize_tiers
normalize_tiers-tier_list [] l h =
    (true, true, true, unfold tier_list in sym (ok-injective h), rw (← (ok-injective h)) (λ z. cc))
normalize_tiers-tier_list (t ∷ tiers) l h =
    parse_enabled_tiers-tier_list (join b',' (t ∷ tiers)) l h

pub are_tiers-tier_list :
    (h c o : Bool) → (are_tiers (tier_list h c o) ≡ true) × Distinct (tier_list h c o)
unfolding are_tiers tier_list ◌==◌ text_dec
are_tiers-tier_list true true true = (refl, (refl, (refl, (refl, tt))))
are_tiers-tier_list true true false = (refl, (refl, (refl, tt)))
are_tiers-tier_list true false true = (refl, (refl, (refl, tt)))
are_tiers-tier_list true false false = (refl, (refl, tt))
are_tiers-tier_list false true true = (refl, (refl, (refl, tt)))
are_tiers-tier_list false true false = (refl, (refl, tt))
are_tiers-tier_list false false true = (refl, (refl, tt))
are_tiers-tier_list false false false = (refl, tt)
