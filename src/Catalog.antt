-- ===== src/Catalog.antt =====
-- The catalog of snmpdiscovery/httpsd.go: the entries that survive from scan to scan. The mutex makes
-- every method one step, so a method is a function of the catalog. A time is a number, 0 for the zero
-- time. Where the code ranges over a map, whose order Go leaves open, the model takes the order of
-- insertion; the theorems speak of entries by address.
pub mod Merge
pub mod Sticky
use snmp_sd.Base.{
  ℕ, zero, suc, ◌+◌, ◌-◌, Text, Bool, true, false, not, Option, none, some, List, [], ◌∷◌, map, ℤ,
  pos_part, ltb, leb, eqb, if◌then◌else◌, ◌==◌, ◌&&◌, trim, length, keep, contains, Assoc, lookup,
  insert,
}
use snmp_sd.Target.{AlloyTarget}

pub record CatalogEntry : Type 0 where
  pub target : AlloyTarget
  pub last_seen : ℕ
  pub misses : ℕ

pub record Catalog : Type 0 where
  pub entries : List CatalogEntry
  pub updated : ℕ

abbrev pub new_catalog : Catalog
new_catalog = record { entries = []; updated = 0 }

abbrev pub fresh_entry : ℕ → AlloyTarget → CatalogEntry
fresh_entry now t = record { target = t; last_seen = now; misses = 0 }

-- `now` is the clock's reading.
unfoldable pub replace : List AlloyTarget → ℕ → Catalog → Catalog
replace targets now c = record { entries = map (fresh_entry now) targets; updated = now }

unfoldable pub load_entries : List CatalogEntry → ℕ → Catalog → Catalog
load_entries entries now c = record { entries = entries; updated = now }

unfoldable pub snapshot : Catalog → List AlloyTarget × ℕ
snapshot c = (map (λ e. e.target) c.entries, c.updated)

unfoldable pub snapshot_entries : Catalog → List CatalogEntry
snapshot_entries c = c.entries

abbrev pub address_of : CatalogEntry → Text
address_of e = e.target.address

-- The addresses to drop, trimmed, the blank ones left out.
abbrev pub drop_set : List Text → List Text
drop_set addrs = keep (λ a. not (a == [])) (map trim addrs)

abbrev pub entries_without : List Text → List CatalogEntry → List CatalogEntry
entries_without dropped = keep (λ e. not (contains (address_of e) dropped))

-- The new catalog, and how many entries were dropped.
unfoldable pub drop_addresses : List Text → Catalog → Catalog × ℕ
drop_addresses [] c = (c, 0)
drop_addresses (a ∷ addrs) c =
    let dropped = drop_set (a ∷ addrs) in
    (
      record c { entries = entries_without dropped c.entries },
      length (keep (λ e. contains (address_of e) dropped) c.entries),
    )

-- `byAddr[e.Target.Address] = e` for each entry: a later one replaces an earlier one.
unfoldable pub put_entries : Assoc CatalogEntry → List CatalogEntry → Assoc CatalogEntry
put_entries m [] = m
put_entries m (e ∷ es) = put_entries (insert (address_of e) e m) es

-- Whether an entry that missed a scan is dropped: `maxMisses > 0 && e.Misses >= maxMisses`.
unfoldable pub is_expired : ℤ → ℕ → Bool
is_expired max_misses misses = ltb 0 (pos_part max_misses) && leb (pos_part max_misses) misses

-- What the second loop does to an entry that the scan did not find: one more miss, or gone.
unfoldable pub age : ℤ → CatalogEntry → Option CatalogEntry
unfolding is_expired
age max_misses e =
    if is_expired max_misses (e.misses + 1) then none else some (record e { misses = e.misses + 1 })

unfoldable pub survivor : ℤ → List Text → Text → CatalogEntry → Option CatalogEntry
unfolding age
survivor max_misses seen addr e = if contains addr seen then some e else age max_misses e

onto : Option CatalogEntry → List CatalogEntry → List CatalogEntry
onto none es = es
onto (some e) es = e ∷ es

unfoldable pub survivors : ℤ → List Text → Assoc CatalogEntry → List CatalogEntry
unfolding survivor onto
survivors max_misses seen [] = []
survivors max_misses seen ((addr, e) ∷ m) =
    onto (survivor max_misses seen addr e) (survivors max_misses seen m)

-- The new catalog, and the targets to publish. `clock` is the reading that replaces a zero time.
unfoldable pub merge_found : List AlloyTarget → ℕ → ℕ → ℤ → Catalog → Catalog × List AlloyTarget
unfolding put_entries survivors
merge_found found now clock max_misses c =
    let at = if eqb now 0 then clock else now in
    let by_addr = put_entries (put_entries [] c.entries) (map (fresh_entry at) found) in
    let kept = survivors max_misses (map (λ t. t.address) found) by_addr in
    (record { entries = kept; updated = at }, map (λ e. e.target) kept)
