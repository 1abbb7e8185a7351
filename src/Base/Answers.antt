-- ===== src/Base/Answers.antt =====
-- Go's pairs of a value and an error.
use Prim.Native.String.{String}
use mathlib.Core.Path.{◌≡◌, ap}

-- The answer of a call that may fail, with the text of the error.
pub data Answer {ℓ} (A : Type ℓ) : Type ℓ where
  ok : A → Answer A
  failed : String → Answer A

abbrev pub map_answer {ℓ κ} : {A : Type ℓ} {B : Type κ} → (A → B) → Answer A → Answer B
map_answer f (ok a) = ok (f a)
map_answer f (failed error) = failed error

infixl 5 ◌>>=◌ ◌>>◌
abbrev pub ◌>>=◌ {ℓ κ} : {A : Type ℓ} {B : Type κ} → Answer A → (A → Answer B) → Answer B
ok a >>= f = f a
failed error >>= f = failed error

abbrev pub ◌>>◌ {ℓ κ} : {A : Type ℓ} {B : Type κ} → Answer A → Answer B → Answer B
m >> k = m >>= λ _. k

pub bind_ok {ℓ κ} :
    {A : Type ℓ} {B : Type κ} {m : Answer A} {a : A} (f : A → Answer B) → m ≡ ok a → (m >>= f) ≡ f a
bind_ok f e = ap (λ m. m >>= f) e
