-- ===== src/Base/Lists.antt =====
-- Lists measured by native numbers and filtered by Boolean tests.
use Prim.Native.Nat.{ℕ, suc, ◌+◌, ◌≤◌}
use mathlib.Core.Path.{◌≡◌, refl, sym, subst}
use mathlib.Core.Bool.{Bool, true, false, not, ◌&&◌}
use mathlib.Core.List.{List, [], ◌∷◌, ◌++◌, map}
use mathlib.Core.Logic.{◌⊎◌, inl, inr, Lift}
use native.Mathlib.Omega.{arith}
use pgbouncer_aurora_operato.Base.Tests.{if◌then◌else◌, Bool-cases, if_cases, if_true}

module _ {ℓ} {A : Type ℓ} where
  abbrev pub length : List A → ℕ
  length [] = 0
  length (x ∷ xs) = suc (length xs)

  abbrev pub is_empty : List A → Bool
  is_empty [] = true
  is_empty (x ∷ xs) = false

  -- A loop that appends the items that pass a test.
  abbrev pub filter : (A → Bool) → List A → List A
  filter p [] = []
  filter p (x ∷ xs) = let rest = filter p xs in if p x then x ∷ rest else rest

  -- A loop that counts the items that pass a test.
  abbrev pub count : (A → Bool) → List A → ℕ
  count p [] = 0
  count p (x ∷ xs) = let rest = count p xs in if p x then suc rest else rest

  -- A loop that returns true at the first item that passes a test.
  abbrev pub any : (A → Bool) → List A → Bool
  any p [] = false
  any p (x ∷ xs) = let rest = any p xs in if p x then true else rest

  -- A statement of every item.
  abbrev pub All {κ} : (A → Type κ) → List A → Type κ
  All P [] = Unit
  All P (x ∷ xs) = P x × All P xs

  pub length-filter-le : (p : A → Bool) (xs : List A) → length (filter p xs) ≤ length xs
  length-filter-le p [] = omega arith
  length-filter-le p (x ∷ xs) = ground (arith, length-filter-le p xs)

  pub is_empty-append : (xs ys : List A) → is_empty (xs ++ ys) ≡ (is_empty xs && is_empty ys)
  is_empty-append [] ys = refl
  is_empty-append (x ∷ xs) ys = refl

  pub is_empty-one : (b : Bool) (x : A) → is_empty (if b then x ∷ [] else []) ≡ not b
  is_empty-one true x = refl
  is_empty-one false x = refl

  pub length-append : (xs ys : List A) → length (xs ++ ys) ≡ length xs + length ys
  length-append [] ys = omega arith
  length-append (x ∷ xs) ys = omega (arith, length-append xs ys)

  pub any-append :
      (p : A → Bool) (xs ys : List A) → any p (xs ++ ys) ≡ (if any p xs then true else any p ys)
  any-append p [] ys = refl
  any-append p (x ∷ xs) ys = ground (arith, any-append p xs ys)

module _ {ℓ κ} {A : Type ℓ} (P : A → Type κ) where
  pub All-append : (xs ys : List A) → All P xs → All P ys → All P (xs ++ ys)
  All-append [] ys hx hy = hy
  All-append (x ∷ xs) ys hx hy = (hx.0, All-append xs ys hx.1 hy)

  pub All-filter : (p : A → Bool) (xs : List A) → All P xs → All P (filter p xs)
  All-filter p [] h = h
  All-filter p (x ∷ xs) h = elim (Bool-cases (p x)) [
    | inl e ↦ rw e (h.0, All-filter p xs h.1)
    | inr e ↦ rw e (All-filter p xs h.1)
  ]

  pub All-map {μ} : {Q : A → Type μ} (f : (a : A) → P a → Q a) (xs : List A) → All P xs → All Q xs
  All-map f [] h = tt
  All-map f (x ∷ xs) h = (f x h.0, All-map f xs h.1)

-- What a filter keeps passes its test.
pub All-filter_test {ℓ} :
    {A : Type ℓ} (p : A → Bool) (xs : List A) → All (λ x. p x ≡ true) (filter p xs)
All-filter_test p [] = tt
All-filter_test p (x ∷ xs) = elim (Bool-cases (p x)) [
  | inl e ↦ rw e (e, All-filter_test p xs)
  | inr e ↦ rw e (All-filter_test p xs)
]

pub length-map {ℓ κ} :
    {A : Type ℓ} {B : Type κ} (f : A → B) (xs : List A) → length (map f xs) ≡ length xs
length-map f [] = refl
length-map f (x ∷ xs) = omega (arith, length-map f xs)

-- The item stands in the list.
abbrev pub IsIn {ℓ} : {A : Type ℓ} → A → List A → Type ℓ
IsIn x [] = Lift ⊥
IsIn x (y ∷ ys) = (y ≡ x) ⊎ IsIn x ys

pub All-IsIn {ℓ κ} :
    {A : Type ℓ} (P : A → Type κ) (x : A) (xs : List A) → All P xs → IsIn x xs → P x
All-IsIn P x [] h i = absurd i.lower
All-IsIn P x (y ∷ ys) h (inl e) = subst P e h.0
All-IsIn P x (y ∷ ys) h (inr i) = All-IsIn P x ys h.1 i

IsIn-here {ℓ} :
    {A : Type ℓ} (p : A → Bool) (x : A) (xs : List A)
    → All (λ y. p y ≡ true → IsIn y (filter p xs)) xs
    → All (λ y. p y ≡ true → IsIn y (filter p (x ∷ xs))) xs
IsIn-here p x xs h =
    All-map (λ y. p y ≡ true → IsIn y (filter p xs))
      (λ y inside e. if_cases (IsIn y) (p x) _ _ (λ _. inr (inside e)) (λ _. inside e)) xs h

-- What passes the test stands in the filtered list.
pub IsIn-filter {ℓ} :
    {A : Type ℓ} (p : A → Bool) (xs : List A) → All (λ y. p y ≡ true → IsIn y (filter p xs)) xs
IsIn-filter p [] = tt
IsIn-filter p (x ∷ xs) =
    (λ e. subst (IsIn x) (sym (if_true _ _ e)) (inl refl), IsIn-here p x xs (IsIn-filter p xs))

pub any-IsIn {ℓ} :
    {A : Type ℓ} (p : A → Bool) (x : A) (ys : List A) → IsIn x ys → p x ≡ true → any p ys ≡ true
any-IsIn p x [] i e = absurd i.lower
any-IsIn p x (y ∷ ys) (inl same) e = if_true _ _ (subst (λ z. p z ≡ true) (sym same) e)
any-IsIn p x (y ∷ ys) (inr i) e = ground (arith, any-IsIn p x ys i e)

pub any-subset {ℓ} :
    {A : Type ℓ} (p : A → Bool) (xs ys : List A)
    → All (λ x. IsIn x ys) xs
    → any p xs ≡ true
    → any p ys ≡ true
any-subset p [] ys h e = cc
any-subset p (x ∷ xs) ys h e = elim (Bool-cases (p x)) [
  | inl here ↦ any-IsIn p x ys h.0 here
  | inr not_here ↦ any-subset p xs ys h.1 (ground (arith, e, not_here))
]

pub any-same {ℓ} :
    {A : Type ℓ} (p : A → Bool) (xs ys : List A)
    → All (λ x. IsIn x ys) xs
    → All (λ y. IsIn y xs) ys
    → any p xs ≡ any p ys
any-same p xs ys h k = ground (arith, any-subset p xs ys h, any-subset p ys xs k)

pub any-map {ℓ κ} :
    {A : Type ℓ} {B : Type κ} (p : B → Bool) (f : A → B) (xs : List A)
    → any p (map f xs) ≡ any (λ x. p (f x)) xs
any-map p f [] = refl
any-map p f (x ∷ xs) = ground (arith, any-map p f xs)
