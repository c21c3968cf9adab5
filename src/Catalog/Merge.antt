-- ===== src/Catalog/Merge.antt =====
-- `MergeFound` of snmpdiscovery/httpsd.go seen as a change of the map from addresses to entries.
use snmp_sd.Base.{
  ℕ, zero, suc, ◌+◌, pos, negsuc, ltb, Bool, ◌∙◌, Text, ◌≡◌, refl, true, false, Option, none, some,
  List, [], ◌∷◌, map, ℤ, eqb, if◌then◌else◌, ◌==◌, arith, contains, Distinct, All, Assoc, keys,
  lookup, insert, lookup-insert, insert-Distinct, lookup_absent,
}
use snmp_sd.Target.{AlloyTarget}
use snmp_sd.Catalog.{
  CatalogEntry, Catalog, address_of, fresh_entry, put_entries, is_expired, age, survivor, onto,
  survivors, merge_found,
}

-- The entry that a catalog holds for an address: the last one, should there be several.
abbrev pub entry_at : Text → List CatalogEntry → Option CatalogEntry
entry_at a [] = none
entry_at a (e ∷ es) = elim (entry_at a es) [
  | some x ↦ some x
  | none ↦ if address_of e == a then some e else none
]

abbrev pub target_at : Text → List AlloyTarget → Option AlloyTarget
target_at a [] = none
target_at a (t ∷ ts) = elim (target_at a ts) [
  | some x ↦ some x
  | none ↦ if t.address == a then some t else none
]

abbrev pub or_else {ℓ} : {A : Type ℓ} → Option A → Option A → Option A
or_else (some x) o = some x
or_else none o = o

abbrev pub and_then {ℓ κ} : {A : Type ℓ} {B : Type κ} → Option A → (A → Option B) → Option B
and_then (some x) f = f x
and_then none f = none

lookup-put_entries :
    (a : Text) (es : List CatalogEntry) (m : Assoc CatalogEntry)
    → lookup a (put_entries m es) ≡ or_else (entry_at a es) (lookup a m)
unfolding put_entries
lookup-put_entries a [] m = refl
lookup-put_entries a (e ∷ es) m =
    ground (
      arith,
      lookup-put_entries a es (insert (address_of e) e m),
      lookup-insert (address_of e) a e m,
    )

put_entries-Distinct :
    (es : List CatalogEntry) (m : Assoc CatalogEntry)
    → Distinct (keys m)
    → Distinct (keys (put_entries m es))
unfolding put_entries
put_entries-Distinct [] m h = h
put_entries-Distinct (e ∷ es) m h =
    put_entries-Distinct es (insert (address_of e) e m) (insert-Distinct (address_of e) e m h)

-- Every entry stands under its own address.
abbrev Keyed : Assoc CatalogEntry → Type 0
Keyed = All (λ p. address_of p.1 ≡ p.0)

insert-Keyed :
    (e : CatalogEntry) (m : Assoc CatalogEntry) → Keyed m → Keyed (insert (address_of e) e m)
unfolding insert
insert-Keyed e [] h = (refl, tt)
insert-Keyed e ((a, x) ∷ m) h = ground (arith, insert-Keyed e m)

put_entries-Keyed :
    (es : List CatalogEntry) (m : Assoc CatalogEntry) → Keyed m → Keyed (put_entries m es)
unfolding put_entries
put_entries-Keyed [] m h = h
put_entries-Keyed (e ∷ es) m h =
    put_entries-Keyed es (insert (address_of e) e m) (insert-Keyed e m h)

-- A survivor stands at the address of its entry.
address-survivor :
    (mx : ℤ) (seen : List Text) (a : Text) (e x : CatalogEntry)
    → survivor mx seen a e ≡ some x
    → address_of x ≡ address_of e
unfolding survivor age
address-survivor mx seen a e x h = ground arith

contains-survivors :
    (a : Text) (mx : ℤ) (seen : List Text) (m : Assoc CatalogEntry)
    → Keyed m
    → contains a (keys m) ≡ false
    → contains a (map address_of (survivors mx seen m)) ≡ false
unfolding survivors onto survivor age
contains-survivors a mx seen [] k h = refl
contains-survivors a mx seen ((b, e) ∷ m) (k, ks) h =
    ground (arith, contains-survivors a mx seen m ks)

entry_at_absent :
    (a : Text) (es : List CatalogEntry)
    → contains a (map address_of es) ≡ false
    → entry_at a es ≡ none
unfolding ◌==◌
entry_at_absent a [] h = refl
entry_at_absent a (e ∷ es) h = ground (arith, entry_at_absent a es)

entry_at-survivors :
    (a : Text) (mx : ℤ) (seen : List Text) (m : Assoc CatalogEntry)
    → Keyed m
    → Distinct (keys m)
    → entry_at a (survivors mx seen m) ≡ and_then (lookup a m) (survivor mx seen a)
unfolding survivors lookup onto survivor age ◌==◌
entry_at-survivors a mx seen [] k d = refl
entry_at-survivors a mx seen ((b, e) ∷ m) (k, ks) (d, ds) = ground (
  arith,
  entry_at-survivors a mx seen m ks ds,
  entry_at_absent b (survivors mx seen m),
  contains-survivors b mx seen m ks d,
  lookup_absent b m d,
)

Distinct-survivors :
    (mx : ℤ) (seen : List Text) (m : Assoc CatalogEntry)
    → Keyed m
    → Distinct (keys m)
    → Distinct (map address_of (survivors mx seen m))
unfolding survivors onto survivor age
Distinct-survivors mx seen [] k d = tt
Distinct-survivors mx seen ((b, e) ∷ m) (k, ks) (d, ds) =
    ground (arith, Distinct-survivors mx seen m ks ds, contains-survivors b mx seen m ks d)

entry_at-map_fresh :
    (a : Text) (now : ℕ) (found : List AlloyTarget)
    → entry_at a (map (fresh_entry now) found)
      ≡ elim (target_at a found) [ none ↦ none | some t ↦ some (fresh_entry now t) ]
entry_at-map_fresh a now [] = refl
entry_at-map_fresh a now (t ∷ ts) = ground (arith, entry_at-map_fresh a now ts)

contains-target_at :
    (a : Text) (found : List AlloyTarget)
    → contains a (map (λ t. t.address) found)
      ≡ elim (target_at a found) [ none ↦ false | some t ↦ true ]
unfolding ◌==◌
contains-target_at a [] = refl
contains-target_at a (t ∷ ts) = ground (arith, contains-target_at a ts)

-- The time that the found entries get: the clock's reading stands in for a zero time.
abbrev pub merge_time : ℕ → ℕ → ℕ
merge_time now clock = if eqb now 0 then clock else now

-- Whether so many misses in a row end an entry: never, unless the limit is positive.
abbrev pub drops : ℤ → ℕ → Bool
drops (pos zero) n = false
drops (pos (suc k)) n = ltb k n
drops (negsuc k) n = false

-- What a scan that does not find its device leaves of an entry.
abbrev pub missed : ℤ → CatalogEntry → Option CatalogEntry
missed mx e = if drops mx (e.misses + 1) then none else some (record e { misses = e.misses + 1 })

-- What one scan does to the entry of one address.
unfoldable pub merged : ℤ → ℕ → Option AlloyTarget → Option CatalogEntry → Option CatalogEntry
merged mx now (some t) old = some (fresh_entry now t)
merged mx now none old = and_then old (missed mx)

age-missed : (mx : ℤ) (e : CatalogEntry) → age mx e ≡ missed mx e
unfolding age is_expired
age-missed (pos zero) e = ground arith
age-missed (pos (suc k)) e = ground arith
age-missed (negsuc k) e = ground arith

and_then-age : (mx : ℤ) (o : Option CatalogEntry) → and_then o (age mx) ≡ and_then o (missed mx)
and_then-age mx none = refl
and_then-age mx (some e) = age-missed mx e

-- The same by the code's own step.
aged : ℤ → ℕ → Option AlloyTarget → Option CatalogEntry → Option CatalogEntry
aged mx now (some t) old = some (fresh_entry now t)
aged mx now none old = and_then old (age mx)

aged-merged :
    (mx : ℤ) (now : ℕ) (t : Option AlloyTarget) (old : Option CatalogEntry)
    → aged mx now t old ≡ merged mx now t old
unfolding aged merged
aged-merged mx now (some t) old = refl
aged-merged mx now none old = and_then-age mx old

entry_at-merge_found-aged :
    (a : Text) (found : List AlloyTarget) (now clock : ℕ) (mx : ℤ) (c : Catalog)
    → entry_at a (merge_found found now clock mx c).0.entries
      ≡ aged mx (merge_time now clock) (target_at a found) (entry_at a c.entries)
unfolding merge_found aged survivor lookup
entry_at-merge_found-aged a found now clock mx c =
    let at = merge_time now clock in
    let m = put_entries (put_entries [] c.entries) (map (fresh_entry at) found) in
    let old = put_entries [] c.entries in
    ground (
      arith,
      entry_at-survivors a mx (map (λ t. t.address) found) m
          (put_entries-Keyed (map (fresh_entry at) found) old (put_entries-Keyed c.entries [] tt))
          (put_entries-Distinct (map (fresh_entry at) found) old
            (put_entries-Distinct c.entries [] tt)),
      lookup-put_entries a (map (fresh_entry at) found) old,
      lookup-put_entries a c.entries [],
      entry_at-map_fresh a at found,
      contains-target_at a found,
    )

-- After a merge an address that the scan found has a fresh entry with no misses; any other address
-- that had an entry keeps it with one more miss, unless that reaches a positive limit, and then it
-- has none; an address with neither has none.
pub entry_at-merge_found :
    (a : Text) (found : List AlloyTarget) (now clock : ℕ) (mx : ℤ) (c : Catalog)
    → entry_at a (merge_found found now clock mx c).0.entries
      ≡ merged mx (merge_time now clock) (target_at a found) (entry_at a c.entries)
entry_at-merge_found a found now clock mx c =
    entry_at-merge_found-aged a found now clock mx c
    ∙ aged-merged mx (merge_time now clock) (target_at a found) (entry_at a c.entries)

-- After a merge no two entries have one address.
pub merge_found-Distinct :
    (found : List AlloyTarget) (now clock : ℕ) (mx : ℤ) (c : Catalog)
    → Distinct (map address_of (merge_found found now clock mx c).0.entries)
unfolding merge_found
merge_found-Distinct found now clock mx c =
    let at = merge_time now clock in
    let old = put_entries [] c.entries in
    Distinct-survivors mx (map (λ t. t.address) found)
      (put_entries old (map (fresh_entry at) found))
      (put_entries-Keyed (map (fresh_entry at) found) old (put_entries-Keyed c.entries [] tt))
      (put_entries-Distinct (map (fresh_entry at) found) old (put_entries-Distinct c.entries [] tt))
