-- ===== src/Walk/Trie.antt =====
-- The tree of the walked OIDs: snmpdiscovery/walkcluster.go (oidTrie, buildTrie, childKeys,
-- instanceSuffixes). The children of a node stand in ascending order of their numbers, the order in
-- which `childKeys` gives them.
use snmp_sd.Base.{
  Bool, true, false, Option, none, some, List, [], ◌∷◌, ◌++◌, if◌then◌else◌, Text, ℤ,
}
use snmp_sd.Walk.Oid.{WalkVar, oid_parts, join_parts, int_ltb, int_eqb}

mutual
  pub data OidTrie : Type 0 where
    node : Option WalkVar → Kids → OidTrie

  pub data Kids : Type 0 where
    end : Kids
    kid : ℤ → OidTrie → Kids → Kids

-- The child under a number is replaced by its image; one that is not there yet starts empty.
with_kid : ℤ → (OidTrie → OidTrie) → Kids → Kids
unfolding int_ltb int_eqb
with_kid k f end = kid k (f (node none end)) end
with_kid k f (kid j t kids) =
    if int_eqb k j
    then kid j (f t) kids
    else if int_ltb k j
    then kid k (f (node none end)) (kid j t kids)
    else kid j t (with_kid k f kids)

put_path : List ℤ → WalkVar → OidTrie → OidTrie
unfolding with_kid
put_path [] v (node leaf kids) = node (some v) kids
put_path (k ∷ p) v (node leaf kids) = node leaf (with_kid k (put_path p v) kids)

-- A variable whose OID is not numeric is left out.
put_var : WalkVar → OidTrie → OidTrie
unfolding put_path oid_parts
put_var v t = elim (oid_parts v.oid) [ [] ↦ t | part ∷ parts ↦ put_path (part ∷ parts) v t ]

put_vars : List WalkVar → OidTrie → OidTrie
unfolding put_var
put_vars [] t = t
put_vars (v ∷ vars) t = put_vars vars (put_var v t)

unfoldable pub build_trie : List WalkVar → OidTrie
unfolding put_vars
build_trie vars = put_vars vars (node none end)

-- `n.leaf != nil && len(n.kids) == 0`
unfoldable pub is_lone_leaf : OidTrie → Bool
is_lone_leaf (node (some v) end) = true
is_lone_leaf _ = false

unfoldable pub child_keys : Kids → List ℤ
child_keys end = []
child_keys (kid k t kids) = k ∷ child_keys kids

-- The suffixes of the leaves below a node that `path` leads to.
unfoldable mutual
  unfolding join_parts

  pub suffixes_from : List ℤ → OidTrie → List Text
  suffixes_from path (node (some v) end) = join_parts path ∷ []
  suffixes_from path (node none end) = []
  suffixes_from path (node leaf (kid k t kids)) = suffixes_of path (kid k t kids)

  pub suffixes_of : List ℤ → Kids → List Text
  suffixes_of path end = []
  suffixes_of path (kid k t kids) = suffixes_from (path ++ (k ∷ [])) t ++ suffixes_of path kids

unfoldable pub instance_suffixes : OidTrie → List Text
unfolding suffixes_from
instance_suffixes n = suffixes_from [] n
