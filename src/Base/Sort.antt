-- ===== src/Base/Sort.antt =====
-- `sort.Strings` and `sort.Slice` by a name, as insertion sorts. Go leaves the order of items with
-- one name open; here they keep their order.
use Prim.Native.Nat.{ℕ, suc, Ordering, compare as compare_ℕ}
use Prim.Native.Char.{code}
use Prim.Native.String.{String, compare, then as then_order}
use Prim.Native.String.compare as compare_lem
use mathlib.Core.Path.{◌≡◌, refl}
use mathlib.Core.Bool.{◌||◌, Bool, true, false}
use mathlib.Core.List.{List, [], ◌∷◌, Perm}
use mathlib.Core.List.Perm
use mathlib.Core.Logic.{inl, inr}
use native.Mathlib.Omega.{arith}
use text.Mathlib.TextEquality.{eq_iff}
use mathlib.Core.List.{◌++◌}
use text.Mathlib.Text.{◌==◌, is_le}
use pgbouncer_aurora_operato.Base.Tests.{if◌then◌else◌, Bool-cases}
use pgbouncer_aurora_operato.Base.Lists.{length, count, any, All, filter, any-append}

-- Bytewise order, which UTF-8 shares with the order of the characters' numbers.
abbrev pub str_le : String → String → Bool
str_le s t = is_le (compare s t)

abbrev flip_order : Ordering → Ordering
flip_order Ordering.lt = Ordering.gt
flip_order Ordering.eq = Ordering.eq
flip_order Ordering.gt = Ordering.lt

compare_ℕ-flip : (a b : ℕ) → compare_ℕ b a ≡ flip_order (compare_ℕ a b)
compare_ℕ-flip a b = ground arith

then-flip :
    (o p : Ordering) → then_order (flip_order o) (flip_order p) ≡ flip_order (then_order o p)
then-flip Ordering.lt p = refl
then-flip Ordering.eq p = refl
then-flip Ordering.gt p = refl

compare-flip : (s t : String) → compare t s ≡ flip_order (compare s t)
compare-flip String.[] String.[] = refl
compare-flip String.[] (String.◌∷◌ d t) = rw (compare_lem.nil-cons d t) (compare_lem.cons-nil d t)
compare-flip (String.◌∷◌ c s) String.[] = rw (compare_lem.cons-nil c s) (compare_lem.nil-cons c s)
compare-flip (String.◌∷◌ c s) (String.◌∷◌ d t) =
    rw
      (
        compare_lem.cons-cons c d s t,
        compare_lem.cons-cons d c t s,
        compare_ℕ-flip (code c) (code d),
        compare-flip s t,
      )
      (then-flip (compare_ℕ (code c) (code d)) (compare s t))

pub str_le-total : (s t : String) → str_le s t ≡ false → str_le t s ≡ true
str_le-total s t h = ground (arith, compare-flip s t)

module _ {ℓ} {A : Type ℓ} (key : A → String) where
  unfoldable pub insert_sorted : A → List A → List A
  insert_sorted x [] = x ∷ []
  insert_sorted x (y ∷ ys) =
      let rest = insert_sorted x ys in if str_le (key x) (key y) then x ∷ y ∷ ys else y ∷ rest

  unfoldable pub sort_by : List A → List A
  unfolding insert_sorted
  sort_by [] = []
  sort_by (x ∷ xs) = insert_sorted x (sort_by xs)

  -- Names do not fall along the list.
  abbrev pub IsSortedBy : List A → Type 0
  IsSortedBy [] = Unit
  IsSortedBy (x ∷ []) = Unit
  IsSortedBy (x ∷ y ∷ l) = (str_le (key x) (key y) ≡ true) × IsSortedBy (y ∷ l)

  insert_sorted-perm : (x : A) (l : List A) → Perm (insert_sorted x l) (x ∷ l)
  unfolding insert_sorted
  insert_sorted-perm x [] = Perm.refl _
  insert_sorted-perm x (y ∷ ys) = elim (Bool-cases (str_le (key x) (key y))) [
    | inl e ↦ rw e (Perm.refl _)
    | inr e ↦ rw e (Perm.trans (Perm.cons y (insert_sorted-perm x ys)) (Perm.swap x y ys))
  ]

  pub sort_by-perm : (l : List A) → Perm (sort_by l) l
  unfolding sort_by
  sort_by-perm [] = Perm.refl _
  sort_by-perm (x ∷ xs) =
      Perm.trans (insert_sorted-perm x (sort_by xs)) (Perm.cons x (sort_by-perm xs))

  insert_sorted-IsSortedBy : (x : A) (l : List A) → IsSortedBy l → IsSortedBy (insert_sorted x l)
  unfolding insert_sorted
  insert_sorted-IsSortedBy x [] h = tt
  insert_sorted-IsSortedBy x (y ∷ []) h = ground (arith, str_le-total (key x) (key y))
  insert_sorted-IsSortedBy x (y ∷ z ∷ l) h =
      ground (arith, str_le-total (key x) (key y), insert_sorted-IsSortedBy x (z ∷ l) h.1)

  pub sort_by-IsSortedBy : (l : List A) → IsSortedBy (sort_by l)
  unfolding sort_by
  sort_by-IsSortedBy [] = tt
  sort_by-IsSortedBy (x ∷ xs) = insert_sorted-IsSortedBy x (sort_by xs) (sort_by-IsSortedBy xs)

  any-insert_sorted :
      (p : A → Bool) (x : A) (l : List A)
      → any p (insert_sorted x l) ≡ (if p x then true else any p l)
  unfolding insert_sorted
  any-insert_sorted p x [] = refl
  any-insert_sorted p x (y ∷ ys) = ground (arith, any-insert_sorted p x ys)

  -- Sorting keeps which items are there.
  pub any-sort_by : (p : A → Bool) (l : List A) → any p (sort_by l) ≡ any p l
  unfolding sort_by
  any-sort_by p [] = refl
  any-sort_by p (x ∷ xs) = ground (arith, any-insert_sorted p x (sort_by xs), any-sort_by p xs)

  count-insert_sorted :
      (p : A → Bool) (x : A) (l : List A) → count p (insert_sorted x l) ≡ count p (x ∷ l)
  unfolding insert_sorted
  count-insert_sorted p x [] = refl
  count-insert_sorted p x (y ∷ ys) = ground (arith, count-insert_sorted p x ys)

  -- Sorting keeps how many items pass a test.
  pub count-sort_by : (p : A → Bool) (l : List A) → count p (sort_by l) ≡ count p l
  unfolding sort_by
  count-sort_by p [] = refl
  count-sort_by p (x ∷ xs) =
      ground (arith, count-insert_sorted p x (sort_by xs), count-sort_by p xs)

  length-insert_sorted : (x : A) (l : List A) → length (insert_sorted x l) ≡ suc (length l)
  unfolding insert_sorted
  length-insert_sorted x [] = refl
  length-insert_sorted x (y ∷ ys) = ground (arith, length-insert_sorted x ys)

  pub length-sort_by : (l : List A) → length (sort_by l) ≡ length l
  unfolding sort_by
  length-sort_by [] = refl
  length-sort_by (x ∷ xs) = ground (arith, length-insert_sorted x (sort_by xs), length-sort_by xs)

module _ {ℓ κ} {A : Type ℓ} (key : A → String) (P : A → Type κ) where
  All-insert_sorted : (x : A) (l : List A) → P x → All P l → All P (insert_sorted key x l)
  unfolding insert_sorted
  All-insert_sorted x [] px pl = (px, pl)
  All-insert_sorted x (y ∷ ys) px pl = elim (Bool-cases (str_le (key x) (key y))) [
    | inl e ↦ rw e (px, pl)
    | inr e ↦ rw e (pl.0, All-insert_sorted x ys px pl.1)
  ]

  pub All-sort_by : (l : List A) → All P l → All P (sort_by key l)
  unfolding sort_by
  All-sort_by [] pl = pl
  All-sort_by (x ∷ xs) pl = All-insert_sorted x (sort_by key xs) pl.0 (All-sort_by xs pl.1)

-- `sort.Strings`.
abbrev pub sort_strings : List String → List String
sort_strings = sort_by (λ s. s)

-- `stringSet(values)[name]`: whether the name is among the values.
abbrev pub contains : List String → String → Bool
contains values name = any (λ value. value == name) values

pub contains-append :
    (xs ys : List String) (name : String)
    → contains (xs ++ ys) name ≡ (if contains xs name then true else contains ys name)
contains-append xs ys name = any-append (λ value. value == name) xs ys

pub contains-snoc :
    (xs : List String) (x name : String)
    → contains (xs ++ x ∷ []) name ≡ (contains xs name || x == name)
contains-snoc [] x name = elim (Bool-cases (x == name)) [ inl e ↦ rw e | inr e ↦ rw e ]
contains-snoc (y ∷ xs) x name = ground (arith, contains-snoc xs x name)

pub contains-filter :
    (p : String → Bool) (xs : List String) (name : String)
    → contains (filter p xs) name ≡ (if contains xs name then p name else false)
contains-filter p [] name = refl
contains-filter p (x ∷ xs) name = ground (arith, eq_iff x name, contains-filter p xs name)

pub contains-sort_strings :
    (xs : List String) (name : String) → contains (sort_strings xs) name ≡ contains xs name
contains-sort_strings xs name = any-sort_by (λ s. s) (λ value. value == name) xs
