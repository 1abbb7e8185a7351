-- ===== src/Controller/Membership/Sets.antt =====
-- internal/controller/reconciler.go (`membershipChanged`): lengths and inclusion in one direction decide
-- whether two lists of names are the same set.
use pgbouncer_aurora_operato.Base.{
  if◌then◌else◌, Bool-cases, if_false, length, any, All, contains, suc, String, ◌≡◌, refl, sym, ◌∙◌,
  inl, inr, true, false, not, ◌||◌, List, [], ◌∷◌, arith, ◌==◌, eq_iff,
}
use pgbouncer_aurora_operato.Controller.Membership.{membership_changed}

-- No name stands twice in the list.
abbrev pub AreDistinct : List String → Type 0
AreDistinct [] = Unit
AreDistinct (name ∷ names) = (contains names name ≡ false) × AreDistinct names

-- The list without the first occurrence of a name.
remove : String → List String → List String
remove name [] = []
remove name (other ∷ names) =
    let rest = remove name names in if other == name then names else other ∷ rest

length-remove :
    (name : String) (names : List String)
    → contains names name ≡ true
    → suc (length (remove name names)) ≡ length names
unfolding remove
length-remove name [] h = cc
length-remove name (other ∷ names) h = elim (Bool-cases (other == name)) [
  | inl e ↦ rw e refl
  | inr e ↦
      let rest = length-remove name names (sym (if_false true (contains names name) e) ∙ h) in
      ground (arith, e, rest)
]

contains-remove :
    (name k : String) (names : List String)
    → contains names name ≡ true
    → contains names k ≡ (name == k || contains (remove name names) k)
unfolding remove
contains-remove name k [] h = cc
contains-remove name k (other ∷ names) h = elim (Bool-cases (other == name)) [
  | inl e ↦ ground (arith, e, eq_iff other name)
  | inr e ↦
      let rest = contains-remove name k names (sym (if_false true (contains names name) e) ∙ h) in
      ground (arith, e, rest)
]

-- Every name of one list stands in the other.
abbrev Includes : List String → List String → Type 0
Includes a b = All (λ name. contains a name ≡ true) b

Includes-remove :
    (a : List String) (name : String) (names : List String)
    → contains a name ≡ true
    → contains names name ≡ false
    → Includes a names
    → Includes (remove name a) names
Includes-remove a name [] h new i = tt
Includes-remove a name (other ∷ names) h new (here, rest) = (
  ground (arith, new, here, eq_iff other name, eq_iff name other, contains-remove name other a h),
  Includes-remove a name names h (ground (arith, new)) rest,
)

same_names :
    (a b : List String)
    → length a ≡ length b
    → AreDistinct b
    → Includes a b
    → (k : String) → contains a k ≡ contains b k
same_names [] [] l d i k = refl
same_names (x ∷ a) [] l d i k = absurd (omega (arith, l))
same_names a (y ∷ b) l (new, d) (here, i) k =
    let shorter = length-remove y a here in
    let rest =
      same_names (remove y a) b (omega (arith, l, shorter)) d (Includes-remove a y b here new i)
        k in
    contains-remove y k a here ∙ ground (arith, rest)

any-Includes : (a b : List String) → any (λ value. not (contains a value)) b ≡ false → Includes a b
any-Includes a [] h = tt
any-Includes a (y ∷ b) h = (ground (arith, h), any-Includes a b (ground (arith, h)))

-- If the second list names no one twice, and the membership has not changed from the first to the second,
-- then both name the same instances.
pub membership_changed-same :
    (a b : List String)
    → AreDistinct b
    → membership_changed a b ≡ false
    → (name : String) → contains a name ≡ contains b name
unfolding membership_changed
membership_changed-same a b distinct unchanged =
    same_names a b (ground (arith, unchanged)) distinct
      (any-Includes a b (ground (arith, unchanged)))
