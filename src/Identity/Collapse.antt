-- ===== src/Identity/Collapse.antt =====
-- After `collapseSameHostname` of snmpdiscovery/identity.go a host name has one row.
use mathlib.Core.List.{append_assoc}
use snmp_sd.Base.{
  ◌∙◌, sym, ℕ, ◌+◌, ◌≤◌, ◌<◌, Text, ◌≡◌, ◌≢◌, refl, Bool, true, false, not, Option, none, some,
  List, [], ◌∷◌, ◌++◌, map, ◌==◌, ◌&&◌, ◌||◌, ltb, eqb, eq_iff, arith, length, keep, contains,
  Distinct, Bool-cases, inl, inr,
}
use snmp_sd.Target.{AlloyTarget}
use snmp_sd.Identity.{
  Row, rows_from, key_of, rows_at, lowest, inherit, collapse_among, put_row, collapse_row,
  collapse_rows, collapse_same_hostname, hostname_collapse_key,
}

abbrev pub key_of_target : AlloyTarget → Text
key_of_target t = hostname_collapse_key t.device_name t.address

-- The host names of rows, the rows without one left out.
abbrev pub host_names : List AlloyTarget → List Text
host_names ts = keep (λ k. not (k == [])) (map key_of_target ts)

-- The index of the row that wins among the rows of a key.
winner_of : List Row → Option ℕ
winner_of [] = none
winner_of (first ∷ more) = some (lowest first more).0

has_index : ℕ → List Row → Bool
has_index i [] = false
has_index i (r ∷ rows) = eqb r.0 i || has_index i rows

has_row : ℕ → Text → List Row → Bool
has_row i k [] = false
has_row i k (r ∷ rows) = eqb r.0 i && key_of r == k || has_row i k rows

has_index-rows_at :
    (i : ℕ) (k : Text) (rows : List Row)
    → has_row i k rows ≡ true
    → has_index i (rows_at k rows) ≡ true
unfolding has_row has_index
has_index-rows_at i k [] h = h
has_index-rows_at i k (r ∷ rows) h = ground (arith, has_index-rows_at i k rows)

-- A row that stays among the rows of its key has won it.
collapse_among_lem :
    (at : List Row) (r : Row) (t : AlloyTarget)
    → has_index r.0 at ≡ true
    → collapse_among at r ≡ some t
    → (t.device_name ≡ r.1.device_name) × (t.address ≡ r.1.address) × (winner_of at ≡ some r.0)
unfolding collapse_among inherit winner_of has_index lowest
collapse_among_lem [] r t h e = cc
collapse_among_lem (first ∷ []) r t h e = ground arith
collapse_among_lem (first ∷ second ∷ more) r t h e = ground arith

-- A row that stays keeps its key, and has won it.
collapse_row_lem :
    (all : List Row) (r : Row) (t : AlloyTarget)
    → has_row r.0 (key_of r) all ≡ true
    → collapse_row all r ≡ some t
    → (key_of_target t ≡ key_of r) × (key_of r ≢ [] → winner_of (rows_at (key_of r) all) ≡ some r.0)
unfolding collapse_row
collapse_row_lem all r t h e = ground (
  arith,
  eq_iff (key_of r) [],
  collapse_among_lem (rows_at (key_of r) all) r t (has_index-rows_at r.0 (key_of r) all h),
)

-- The rows are among all of them, with growing indices from `i` on.
abbrev AreRows : List Row → ℕ → List Row → Type 0
AreRows all i [] = Unit
AreRows all i (r ∷ rows) =
    (i ≤ r.0) × (has_row r.0 (key_of r) all ≡ true) × AreRows all (r.0 + 1) rows

contains-put_row :
    (k : Text) (o : Option AlloyTarget) (out : List AlloyTarget)
    → ((t : AlloyTarget) → o ≡ some t → key_of_target t ≢ k)
    → contains k (host_names out) ≡ false
    → contains k (host_names (put_row o out)) ≡ false
unfolding put_row
contains-put_row k none out apart h = h
contains-put_row k (some t) out apart h =
    ground (arith, apart t refl, eq_iff (key_of_target t) [], eq_iff k (key_of_target t))

-- No later row stays under a key that a row before has won.
won_before :
    (all : List Row) (i w : ℕ) (k : Text) (rows : List Row)
    → AreRows all i rows
    → w < i
    → k ≢ []
    → winner_of (rows_at k all) ≡ some w
    → contains k (host_names (collapse_rows all rows)) ≡ false
unfolding collapse_rows
won_before all i w k [] a lt ne h = refl
won_before all i w k (r ∷ rows) (le, has, rest) lt ne h =
    contains-put_row k (collapse_row all r) (collapse_rows all rows)
      (λ t e same. lost_to t (collapse_row_lem all r t has e) same)
      (won_before all (r.0 + 1) w k rows rest (omega arith) ne h)
  where
    lost_to :
        (t : AlloyTarget)
        → (key_of_target t ≡ key_of r)
          × (key_of r ≢ [] → winner_of (rows_at (key_of r) all) ≡ some r.0)
        → key_of_target t ≢ k
    lost_to t (kept, won) same =
        let own : key_of r ≡ k = cc in
        let first : winner_of (rows_at k all) ≡ some r.0 = rw own at (won (rw own ne)) in
        ground arith

Distinct-put_row :
    (o : Option AlloyTarget) (out : List AlloyTarget)
    → ((t : AlloyTarget)
        → o ≡ some t
        → key_of_target t ≢ []
        → contains (key_of_target t) (host_names out) ≡ false)
    → Distinct (host_names out)
    → Distinct (host_names (put_row o out))
unfolding put_row
Distinct-put_row none out apart d = d
Distinct-put_row (some t) out apart d = ground (arith, apart t refl, eq_iff (key_of_target t) [])

host_names-Distinct :
    (all : List Row) (i : ℕ) (rows : List Row)
    → AreRows all i rows
    → Distinct (host_names (collapse_rows all rows))
unfolding collapse_rows
host_names-Distinct all i [] a = tt
host_names-Distinct all i (r ∷ rows) (le, has, rest) =
    Distinct-put_row (collapse_row all r) (collapse_rows all rows)
      (λ t e ne. won_by t (collapse_row_lem all r t has e) ne)
      (host_names-Distinct all (r.0 + 1) rows rest)
  where
    won_by :
        (t : AlloyTarget)
        → (key_of_target t ≡ key_of r)
          × (key_of r ≢ [] → winner_of (rows_at (key_of r) all) ≡ some r.0)
        → key_of_target t ≢ []
        → contains (key_of_target t) (host_names (collapse_rows all rows)) ≡ false
    won_by t (kept, won) ne = rw kept (
        won_before all (r.0 + 1) r.0 (key_of r) rows rest (omega arith) (rw kept at ne)
          (won (rw kept at ne)))

has_row-append :
    (i : ℕ) (k : Text) (xs : List Row) (r : Row) (ys : List Row)
    → r.0 ≡ i
    → key_of r ≡ k
    → has_row i k (xs ++ r ∷ ys) ≡ true
unfolding has_row
has_row-append i k [] r ys e e' = ground (arith, eq_iff (key_of r) k)
has_row-append i k (x ∷ xs) r ys e e' = ground (arith, has_row-append i k xs r ys)

rows_from-AreRows :
    (all before : List Row) (i : ℕ) (ts : List AlloyTarget)
    → all ≡ before ++ rows_from i ts
    → AreRows all i (rows_from i ts)
unfolding rows_from
rows_from-AreRows all before i [] e = tt
rows_from-AreRows all before i (t ∷ ts) e =
    let later = rows_from (i + 1) ts in
    (
      omega arith,
      rw e (has_row-append i (key_of (i, t)) before (i, t) later refl refl),
      rows_from-AreRows all (before ++ (i, t) ∷ []) (i + 1) ts
          (e ∙ sym (append_assoc before ((i, t) ∷ []) later)),
    )

few_names : (ts : List AlloyTarget) → ltb (length ts) 2 ≡ true → Distinct (host_names ts)
few_names [] h = tt
few_names (t ∷ []) h = ground arith
few_names (t ∷ u ∷ ts) h = ground arith

-- Unless duplicates are allowed, no two rows that stay have one host name: a name, trimmed and in lower
-- case, that is not blank, not the row's own address and no address at all.
pub collapse_same_hostname-Distinct :
    (targets : List AlloyTarget) → Distinct (host_names (collapse_same_hostname targets false).0)
unfolding collapse_same_hostname
collapse_same_hostname-Distinct targets = elim (Bool-cases (ltb (length targets) 2)) [
  | inl e ↦ rw e (few_names targets e)
  | inr e ↦ rw e (
      host_names-Distinct (rows_from 0 targets) 0 (rows_from 0 targets)
        (rows_from-AreRows (rows_from 0 targets) [] 0 targets refl))
]
