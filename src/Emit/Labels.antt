-- ===== src/Emit/Labels.antt =====
-- The labels of the groups that snmpdiscovery/emit.go serves.
use snmp_sd.Base.{
  Text, codes, ◌≡◌, refl, Bool, true, false, none, some, List, [], ◌∷◌, ◌==◌, text_dec, arith, join,
  Assoc, lookup, lookup-insert,
}
use snmp_sd.Target.{AlloyTarget}
use snmp_sd.Emit.{FileSdGroup, base_labels, with_label, labels_of, http_sd_groups}

lookup-with_label :
    (k j v : Text) (labels : Assoc Text)
    → (k == j) ≡ false
    → lookup j (with_label k v labels) ≡ lookup j labels
unfolding with_label
lookup-with_label k j v labels h = ground (arith, lookup-insert k j v labels)

-- A label other than the four optional ones is the one of the base labels.
lookup-labels_of :
    (p : Bool) (t : AlloyTarget) (j : Text)
    → (codes "sysObjectID" == j) ≡ false
    → (codes "snmp_group" == j) ≡ false
    → (codes "snmp_tier" == j) ≡ false
    → (codes "snmp_aliases" == j) ≡ false
    → lookup j (labels_of p t) ≡ lookup j (base_labels p t)
unfolding labels_of
lookup-labels_of p t j h1 h2 h3 h4 = ground (
  arith,
  lookup-with_label (codes "sysObjectID") j t.sys_object_id (base_labels p t),
  lookup-with_label (codes "snmp_group") j t.snmp_group
      (with_label (codes "sysObjectID") t.sys_object_id (base_labels p t)),
  lookup-with_label (codes "snmp_tier") j t.snmp_tier (
      with_label (codes "snmp_group") t.snmp_group
        (with_label (codes "sysObjectID") t.sys_object_id (base_labels p t))),
  lookup-insert (codes "snmp_aliases") j (join b',' t.aliases) (
      with_label (codes "snmp_tier") t.snmp_tier (
        with_label (codes "snmp_group") t.snmp_group
          (with_label (codes "sysObjectID") t.sys_object_id (base_labels p t)))),
)

-- For Prometheus: the parameters of the scrape, and none of the labels that Alloy reads.
abbrev pub HasParams : Assoc Text → AlloyTarget → Type 0
HasParams labels t =
    (lookup (codes "__param_module") labels ≡ some t.module_hot)
    × (lookup (codes "__param_auth") labels ≡ some t.auth)
    × (lookup (codes "name") labels ≡ none)
    × (lookup (codes "module") labels ≡ none)
    × (lookup (codes "auth") labels ≡ none)
    × (lookup (codes "address") labels ≡ none)

-- For Alloy: its own labels, and no parameter of a scrape.
abbrev pub HasNames : Assoc Text → AlloyTarget → Type 0
HasNames labels t =
    (lookup (codes "name") labels ≡ some t.name)
    × (lookup (codes "module") labels ≡ some t.module_hot)
    × (lookup (codes "auth") labels ≡ some t.auth)
    × (lookup (codes "address") labels ≡ some t.address)
    × (lookup (codes "__param_module") labels ≡ none)
    × (lookup (codes "__param_auth") labels ≡ none)

abbrev pub FitsTarget : Bool → FileSdGroup → AlloyTarget → Type 0
FitsTarget true g t =
    (g.targets ≡ t.address ∷ [])
    × (lookup (codes "device_name") g.labels ≡ some t.device_name)
    × HasParams g.labels t
FitsTarget false g t =
    (g.targets ≡ t.address ∷ [])
    × (lookup (codes "device_name") g.labels ≡ some t.device_name)
    × HasNames g.labels t

-- One group for each target, in order.
abbrev pub FitTargets : Bool → List FileSdGroup → List AlloyTarget → Type 0
FitTargets p [] [] = Unit
FitTargets p [] (t ∷ ts) = ⊥
FitTargets p (g ∷ gs) [] = ⊥
FitTargets p (g ∷ gs) (t ∷ ts) = FitsTarget p g t × FitTargets p gs ts

labels_of_lem :
    (p : Bool) (t : AlloyTarget)
    → FitsTarget p (record { targets = t.address ∷ []; labels = labels_of p t }) t
unfolding lookup base_labels ◌==◌ text_dec
labels_of_lem true t = (
  refl,
  lookup-labels_of true t (codes "device_name") refl refl refl refl,
  (
    lookup-labels_of true t (codes "__param_module") refl refl refl refl,
    lookup-labels_of true t (codes "__param_auth") refl refl refl refl,
    lookup-labels_of true t (codes "name") refl refl refl refl,
    lookup-labels_of true t (codes "module") refl refl refl refl,
    lookup-labels_of true t (codes "auth") refl refl refl refl,
    lookup-labels_of true t (codes "address") refl refl refl refl,
  ),
)
labels_of_lem false t = (
  refl,
  lookup-labels_of false t (codes "device_name") refl refl refl refl,
  (
    lookup-labels_of false t (codes "name") refl refl refl refl,
    lookup-labels_of false t (codes "module") refl refl refl refl,
    lookup-labels_of false t (codes "auth") refl refl refl refl,
    lookup-labels_of false t (codes "address") refl refl refl refl,
    lookup-labels_of false t (codes "__param_module") refl refl refl refl,
    lookup-labels_of false t (codes "__param_auth") refl refl refl refl,
  ),
)

-- Every target becomes one group that holds its address and nothing else. For Prometheus its labels
-- give the parameters of the scrape and have none of Alloy's labels; for Alloy they give Alloy's and
-- no parameter of a scrape.
pub http_sd_groups_lem :
    (targets : List AlloyTarget) (p : Bool) → FitTargets p (http_sd_groups targets p) targets
unfolding http_sd_groups
http_sd_groups_lem [] p = tt
http_sd_groups_lem (t ∷ ts) p = (labels_of_lem p t, http_sd_groups_lem ts p)
