-- ===== src/Walk/Names/Legal.antt =====
-- Names that Prometheus accepts: snmpdiscovery/walkpick.go (sanitizeIdent, sanitizeMetricName,
-- sanitizeLabelName).
use snmp_sd.Base.{
  ℕ, zero, suc, itoa, AllDigits, AllDigits-itoa, true, false, ◌&&◌, [], ◌∷◌, ◌++◌, ◌≡◌, refl, eqb,
  leb, if◌then◌else◌, Text, codes, ◌==◌, trim, has_prefix, All, All-append, arith, Bool-cases, inl,
  inr, length, drop, ◌≢◌,
}
use mathlib.Core.List.{reverse, reverse-cons}
use snmp_sd.Emit.{rune_width}
use snmp_sd.Walk.Names.{
  is_ident_byte, ident_loop, drop_underscores, trim_underscores, or_unnamed, sanitize_ident,
  index_labels_from, default_index_labels, sanitize_metric_name, label_from, sanitize_label_name,
}

-- Letters, digits and underscores.
abbrev pub IsIdent : Text → Type 0
IsIdent = All (λ c. is_ident_byte c ≡ true)

-- A name with a first byte, which is no digit.
abbrev pub IsLegalName : Text → Type 0
IsLegalName [] = ⊥
IsLegalName (c ∷ s) = ((leb b'0' c && leb c b'9') ≡ false) × IsIdent (c ∷ s)

ident_byte : (b : ℕ) → is_ident_byte (if is_ident_byte b then b else b'_') ≡ true
unfolding is_ident_byte
ident_byte b = ground arith

IsIdent-ident_loop : (fuel : ℕ) (s : Text) → IsIdent (ident_loop fuel s)
unfolding ident_loop
IsIdent-ident_loop fuel [] = tt
IsIdent-ident_loop zero (a ∷ s) = tt
IsIdent-ident_loop (suc fuel) (a ∷ s) = (
  ident_byte a,
  IsIdent-ident_loop fuel
      (if eqb (rune_width (a ∷ s)) 0 then s else drop (rune_width (a ∷ s)) (a ∷ s)),
)

IsIdent-drop_underscores : (s : Text) → IsIdent s → IsIdent (drop_underscores s)
unfolding drop_underscores
IsIdent-drop_underscores [] h = tt
IsIdent-drop_underscores (c ∷ s) (h, hs) = elim (Bool-cases (eqb c b'_')) [
  | inl e ↦ rw e (IsIdent-drop_underscores s hs)
  | inr e ↦ rw e (h, hs)
]

IsIdent-reverse : (s : Text) → IsIdent s → IsIdent (reverse s)
IsIdent-reverse [] h = tt
IsIdent-reverse (c ∷ s) (h, hs) =
    rw (reverse-cons c s)
      (All-append (λ b. is_ident_byte b ≡ true) (reverse s) (c ∷ []) (IsIdent-reverse s hs) (h, tt))

IsIdent-trim_underscores : (s : Text) → IsIdent s → IsIdent (trim_underscores s)
unfolding trim_underscores
IsIdent-trim_underscores s h =
    IsIdent-reverse _
      (IsIdent-drop_underscores _ (IsIdent-reverse _ (IsIdent-drop_underscores s h)))

IsIdent-or_unnamed : (s : Text) → IsIdent s → IsIdent (or_unnamed s)
unfolding or_unnamed is_ident_byte
IsIdent-or_unnamed [] h = (refl, (refl, (refl, (refl, (refl, (refl, (refl, tt)))))))
IsIdent-or_unnamed (c ∷ s) h = h

or_unnamed-ne-nil : (s : Text) → or_unnamed s ≢ []
unfolding or_unnamed
or_unnamed-ne-nil [] = λ e. cc
or_unnamed-ne-nil (c ∷ s) = λ e. cc

IsIdent-sanitize_ident : (text : Text) → IsIdent (sanitize_ident text) × (sanitize_ident text ≢ [])
unfolding sanitize_ident
IsIdent-sanitize_ident text =
    let loop = ident_loop (length (trim text)) (trim text) in
    let rest =
      IsIdent-or_unnamed (trim_underscores loop)
        (IsIdent-trim_underscores loop (IsIdent-ident_loop (length (trim text)) (trim text))) in
    elim (Bool-cases (trim text == [])) [
      | inl e ↦ rw e (IsIdent-or_unnamed [] tt, λ e. cc)
      | inr e ↦ rw e (rest, or_unnamed-ne-nil (trim_underscores loop))
    ]

IsLegalName-snmp : (s : Text) → IsIdent s → IsLegalName (codes "snmp_" ++ s)
unfolding is_ident_byte
IsLegalName-snmp s h = (refl, (refl, (refl, (refl, (refl, (refl, h))))))

IsLegalName-has_prefix :
    (s : Text) → IsIdent s → has_prefix (codes "snmp_") s ≡ true → IsLegalName s
unfolding has_prefix
IsLegalName-has_prefix [] h e = cc
IsLegalName-has_prefix (c ∷ s) h e = (ground arith, h)

IsLegalName-label_from : (s : Text) → IsIdent s → s ≢ [] → IsLegalName (label_from s)
unfolding label_from is_ident_byte
IsLegalName-label_from [] h n = absurd (n refl)
IsLegalName-label_from (c ∷ s) h n = elim (Bool-cases (leb b'0' c && leb c b'9')) [
  | inl e ↦ rw e (refl, (refl, h))
  | inr e ↦ rw e (e, h)
]

pub sanitize_metric_name-IsLegalName : (name : Text) → IsLegalName (sanitize_metric_name name)
unfolding sanitize_metric_name
sanitize_metric_name-IsLegalName name =
    let h = (IsIdent-sanitize_ident name).0 in
    elim (Bool-cases (has_prefix (codes "snmp_") (sanitize_ident name))) [
      | inl e ↦ rw e (IsLegalName-has_prefix (sanitize_ident name) h e)
      | inr e ↦ rw e (IsLegalName-snmp (sanitize_ident name) h)
    ]

pub sanitize_label_name-IsLegalName : (name : Text) → IsLegalName (sanitize_label_name name)
unfolding sanitize_label_name
sanitize_label_name-IsLegalName name =
    let (h, n) = IsIdent-sanitize_ident name in IsLegalName-label_from (sanitize_ident name) h n

IsIdent-digits : (s : Text) → AllDigits s → IsIdent s
unfolding is_ident_byte
IsIdent-digits [] h = tt
IsIdent-digits (c ∷ s) h = ground (arith, IsIdent-digits s)

IsLegalName-index : (n : ℕ) → IsLegalName (codes "index_" ++ itoa n)
unfolding is_ident_byte
IsLegalName-index n =
    let h = IsIdent-digits (itoa n) (AllDigits-itoa n) in
    (refl, (refl, (refl, (refl, (refl, (refl, (refl, h)))))))

pub IsLegalName-bare_index : IsLegalName (codes "index")
unfolding is_ident_byte
IsLegalName-bare_index = (refl, (refl, (refl, (refl, (refl, (refl, tt))))))

index_labels_from-IsLegal : (n i : ℕ) → All IsLegalName (index_labels_from n i)
unfolding index_labels_from
index_labels_from-IsLegal zero i = tt
index_labels_from-IsLegal (suc n) i =
    (IsLegalName-index (suc i), index_labels_from-IsLegal n (suc i))

pub default_index_labels-IsLegal : (n : ℕ) → All IsLegalName (default_index_labels n)
unfolding default_index_labels
default_index_labels-IsLegal n = elim (Bool-cases (leb n 1)) [
  | inl e ↦ rw (e, All) (IsLegalName-bare_index, tt)
  | inr e ↦ rw (e, All) (index_labels_from-IsLegal n 0)
]
