-- ===== src/Base/Order.antt =====
-- `sort.Strings`: texts in byte order.
use mathlib.Core.Path.{◌≡◌, refl}
use mathlib.Core.Bool.{Bool, true, false, ◌&&◌, ◌||◌}
use mathlib.Core.List.{List, [], ◌∷◌, map}
use mathlib.Core.List.Perm
use mathlib.Core.List.{Perm}
use mathlib.Core.Logic.{inl, inr}
use snmp_sd.Base.Tests.{ltb, eqb, if◌then◌else◌, Bool-cases}
use snmp_sd.Base.Texts.{Text, ◌==◌}
use snmp_sd.Base.Lists.{any, All, contains, Distinct}
use native.Mathlib.Omega.{arith}

unfoldable pub text_leb : Text → Text → Bool
text_leb [] t = true
text_leb (c ∷ s) [] = false
text_leb (c ∷ s) (d ∷ t) = ltb c d || eqb c d && text_leb s t

unfoldable pub insert_text : Text → List Text → List Text
insert_text s [] = s ∷ []
insert_text s (t ∷ ts) = if text_leb s t then s ∷ t ∷ ts else t ∷ insert_text s ts

unfoldable pub sort_texts : List Text → List Text
sort_texts [] = []
sort_texts (t ∷ ts) = insert_text t (sort_texts ts)

insert_text-perm : (s : Text) (ts : List Text) → Perm (insert_text s ts) (s ∷ ts)
unfolding insert_text
insert_text-perm s [] = Perm.refl (s ∷ [])
insert_text-perm s (t ∷ ts) = elim (Bool-cases (text_leb s t)) [
  | inl e ↦ rw e (Perm.refl (s ∷ t ∷ ts))
  | inr e ↦ rw e (Perm.trans (Perm.cons t (insert_text-perm s ts)) (Perm.swap s t ts))
]

pub sort_texts-perm : (ts : List Text) → Perm (sort_texts ts) ts
unfolding sort_texts
sort_texts-perm [] = Perm.refl []
sort_texts-perm (t ∷ ts) =
    Perm.trans (insert_text-perm t (sort_texts ts)) (Perm.cons t (sort_texts-perm ts))

-- `sort.Slice` under the test `less`. Go leaves the order of equal elements open; here they stay as
-- they were.
module _ {A : Type 0} (less : A → A → Bool) where
  unfoldable pub insert_by : A → List A → List A
  insert_by x [] = x ∷ []
  insert_by x (y ∷ ys) = if less y x then y ∷ insert_by x ys else x ∷ y ∷ ys

  unfoldable pub sort_by : List A → List A
  sort_by [] = []
  sort_by (x ∷ xs) = insert_by x (sort_by xs)

  any-insert_by : (p : A → Bool) (x : A) (ys : List A) → any p (insert_by x ys) ≡ (p x || any p ys)
  unfolding insert_by
  any-insert_by p x [] = refl
  any-insert_by p x (y ∷ ys) = ground (arith, any-insert_by p x ys)

  -- Sorting changes no test on the elements.
  pub any-sort_by : (p : A → Bool) (xs : List A) → any p (sort_by xs) ≡ any p xs
  unfolding sort_by
  any-sort_by p [] = refl
  any-sort_by p (x ∷ xs) = ground (arith, any-sort_by p xs, any-insert_by p x (sort_by xs))

  All-insert_by : (P : A → Type 0) (x : A) (ys : List A) → P x → All P ys → All P (insert_by x ys)
  unfolding insert_by
  All-insert_by P x [] h hs = (h, tt)
  All-insert_by P x (y ∷ ys) h (hy, hs) = elim (Bool-cases (less y x)) [
    | inl e ↦ rw e (hy, All-insert_by P x ys h hs)
    | inr e ↦ rw e (h, (hy, hs))
  ]

  pub All-sort_by : (P : A → Type 0) (xs : List A) → All P xs → All P (sort_by xs)
  unfolding sort_by
  All-sort_by P [] tt = tt
  All-sort_by P (x ∷ xs) (h, hs) = All-insert_by P x (sort_by xs) h (All-sort_by P xs hs)

  contains-insert_by :
      (key : A → Text) (a : Text) (x : A) (ys : List A)
      → contains a (map key (insert_by x ys)) ≡ (a == key x || contains a (map key ys))
  unfolding insert_by
  contains-insert_by key a x [] = refl
  contains-insert_by key a x (y ∷ ys) = ground (arith, contains-insert_by key a x ys)

  Distinct-insert_by :
      (key : A → Text) (x : A) (ys : List A)
      → Distinct (map key (x ∷ ys))
      → Distinct (map key (insert_by x ys))
  unfolding insert_by ◌==◌
  Distinct-insert_by key x [] h = h
  Distinct-insert_by key x (y ∷ ys) (h, (hy, hs)) =
      ground (arith, Distinct-insert_by key x ys, contains-insert_by key (key y) x ys)

  contains-sort_by :
      (key : A → Text) (a : Text) (xs : List A)
      → contains a (map key (sort_by xs)) ≡ contains a (map key xs)
  unfolding sort_by
  contains-sort_by key a [] = refl
  contains-sort_by key a (x ∷ xs) =
      ground (arith, contains-sort_by key a xs, contains-insert_by key a x (sort_by xs))

  -- Sorting keeps keys distinct.
  pub Distinct-sort_by :
      (key : A → Text) (xs : List A) → Distinct (map key xs) → Distinct (map key (sort_by xs))
  unfolding sort_by
  Distinct-sort_by key [] h = h
  Distinct-sort_by key (x ∷ xs) (h, hs) =
      Distinct-insert_by key x (sort_by xs)
        (rw (contains-sort_by key (key x) xs) h, Distinct-sort_by key xs hs)
