-- ===== src/Catalog/Sticky.antt =====
-- The housekeeping of `MergeFound` over several scans, and `DropAddresses`.
use snmp_sd.Base.{
  ℕ, Bool, false, All, map, not, ◌&&◌, ◌||◌, ap, sym, ◌∙◌, trim, ◌+◌, ◌<◌, Text, ◌≡◌, refl, none,
  some, List, [], ◌∷◌, ℤ, if◌then◌else◌, ◌==◌, arith, contains, length, keep,
}
use snmp_sd.Target.{AlloyTarget}
use snmp_sd.Catalog.{
  CatalogEntry, Catalog, address_of, drop_set, entries_without, drop_addresses, merge_found,
}
use snmp_sd.Catalog.Merge.{entry_at, target_at, merged, merge_time, drops, entry_at-merge_found}

-- A row of scans: what each found, at the given times.
unfoldable pub merge_scans : ℤ → List (ℕ × List AlloyTarget) → Catalog → Catalog
merge_scans mx [] c = c
merge_scans mx ((now, found) ∷ scans) c = merge_scans mx scans (merge_found found now now mx c).0

-- None of the scans found the address; they may have found others.
abbrev pub AllMiss : Text → List (ℕ × List AlloyTarget) → Type 0
AllMiss a = All (λ (s : ℕ × List AlloyTarget). contains a (map (λ t. t.address) s.1) ≡ false)

target_at_absent :
    (a : Text) (found : List AlloyTarget)
    → contains a (map (λ t. t.address) found) ≡ false
    → target_at a found ≡ none
unfolding ◌==◌
target_at_absent a [] h = refl
target_at_absent a (t ∷ found) h = ground (arith, target_at_absent a found)

-- One scan that misses the address.
entry_at-missed :
    (a : Text) (mx : ℤ) (now : ℕ) (found : List AlloyTarget) (c : Catalog)
    → contains a (map (λ t. t.address) found) ≡ false
    → entry_at a (merge_found found now now mx c).0.entries
      ≡ merged mx (merge_time now now) none (entry_at a c.entries)
entry_at-missed a mx now found c miss =
    entry_at-merge_found a found now now mx c
    ∙ ap (λ t. merged mx (merge_time now now) t (entry_at a c.entries))
        (target_at_absent a found miss)

missed_stays_absent :
    (a : Text) (mx : ℤ) (scans : List (ℕ × List AlloyTarget)) (c : Catalog)
    → AllMiss a scans
    → entry_at a c.entries ≡ none
    → entry_at a (merge_scans mx scans c).entries ≡ none
unfolding merge_scans merged
missed_stays_absent a mx [] c miss h = h
missed_stays_absent a mx ((now, found) ∷ scans) c (m, miss) h =
    missed_stays_absent a mx scans (merge_found found now now mx c).0 miss
      (ground (arith, entry_at-missed a mx now found c m))

-- An entry that `n` scans in a row miss, `n` not 0, whatever else they find, is still there with `n`
-- more misses if the limit is not positive or not yet reached, and is gone otherwise.
pub entry_at-merge_scans :
    (a : Text) (mx : ℤ) (scans : List (ℕ × List AlloyTarget)) (c : Catalog) (e : CatalogEntry)
    → 0 < length scans
    → AllMiss a scans
    → entry_at a c.entries ≡ some e
    → entry_at a (merge_scans mx scans c).entries ≡ (
        if drops mx (e.misses + length scans)
        then none
        else some (record e { misses = e.misses + length scans }))
unfolding merge_scans merged
entry_at-merge_scans a mx [] c e h _ _ = elim h [ ]
entry_at-merge_scans a mx ((now, found) ∷ []) c e _ (m, _) h =
    ground (arith, entry_at-missed a mx now found c m)
entry_at-merge_scans a mx ((now, found) ∷ later ∷ scans) c e _ (m, miss) h =
    let c' = (merge_found found now now mx c).0 in
    ground (
      arith,
      entry_at-missed a mx now found c m,
      entry_at-merge_scans a mx (later ∷ scans) c' (record e { misses = e.misses + 1 })
          (omega arith) miss,
      missed_stays_absent a mx (later ∷ scans) c' miss,
    )

entry_at-entries_without :
    (a : Text) (dropped : List Text) (es : List CatalogEntry)
    → entry_at a (entries_without dropped es) ≡ (if contains a dropped then none else entry_at a es)
unfolding ◌==◌
entry_at-entries_without a dropped [] = ground arith
entry_at-entries_without a dropped (e ∷ es) = ground (arith, entry_at-entries_without a dropped es)

count-entries_without :
    (dropped : List Text) (es : List CatalogEntry)
    → length (keep (λ e. contains (address_of e) dropped) es) + length (entries_without dropped es)
      ≡ length es
count-entries_without dropped [] = refl
count-entries_without dropped (e ∷ es) = ground (arith, count-entries_without dropped es)

entries_without_none : (es : List CatalogEntry) → entries_without [] es ≡ es
entries_without_none [] = refl
entries_without_none (e ∷ es) = ground (arith, entries_without_none es)

-- Whether the list names the address: one of its texts is the address up to white space at its ends.
-- A blank text names none.
abbrev pub is_named : Text → List Text → Bool
is_named a [] = false
is_named a (b ∷ addrs) = (not (trim b == []) && trim b == a) || is_named a addrs

contains-drop_set : (a : Text) (addrs : List Text) → contains a (drop_set addrs) ≡ is_named a addrs
unfolding ◌==◌
contains-drop_set a [] = refl
contains-drop_set a (b ∷ addrs) = ground (arith, contains-drop_set a addrs)

-- After `DropAddresses` an address that the list names has no entry, and every other address has the
-- entry that it had; a text of the list names an address that it is without the white space at its
-- ends, and a blank one names none. The count returned is the number of entries lost.
pub drop_addresses_lem :
    (a : Text) (addrs : List Text) (c : Catalog)
    → (entry_at a (drop_addresses addrs c).0.entries
        ≡ (if is_named a addrs then none else entry_at a c.entries))
      × ((drop_addresses addrs c).1 + length (drop_addresses addrs c).0.entries ≡ length c.entries)
unfolding drop_addresses
drop_addresses_lem a [] c = (refl, omega arith)
drop_addresses_lem a (b ∷ addrs) c = (
  entry_at-entries_without a (drop_set (b ∷ addrs)) c.entries
      ∙ ap (λ q. if q then none else entry_at a c.entries) (contains-drop_set a (b ∷ addrs)),
  count-entries_without (drop_set (b ∷ addrs)) c.entries,
)

-- The same by the set of addresses that the code makes.
pub entry_at-drop_addresses :
    (a : Text) (addrs : List Text) (c : Catalog)
    → entry_at a (drop_addresses addrs c).0.entries
      ≡ (if contains a (drop_set addrs) then none else entry_at a c.entries)
entry_at-drop_addresses a addrs c =
    (drop_addresses_lem a addrs c).0
    ∙ ap (λ q. if q then none else entry_at a c.entries) (sym (contains-drop_set a addrs))
