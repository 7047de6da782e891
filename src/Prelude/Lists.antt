-- ===== src/Prelude/Lists.antt =====
-- Lists measured by native numbers, membership tests on texts, and predicates by recursion.
use Prim.Native.Nat.{ℕ, suc, ◌+◌}
use Prim.Native.String.{String}
use mathlib.Core.Path.{◌≡◌, refl, subst}
use mathlib.Core.Logic.{inl, inr}
use mathlib.Core.Bool.{Bool, true, false, ◌||◌, ◌&&◌}
use mathlib.Core.List.{List, [], ◌∷◌, ◌++◌}
use native.Mathlib.Omega.{arith}
use text.Mathlib.Text.{◌==◌}
use text.Mathlib.TextPositions.{eq_refl}
use specforge.Prelude.Tests.{Bool-cases}
use text.Mathlib.TextEquality.{eq_iff}

module _ {ℓ} {A : Type ℓ} where
  abbrev pub length : List A → ℕ
  length [] = 0
  length (x ∷ xs) = suc (length xs)

  abbrev pub is_empty : List A → Bool
  is_empty [] = true
  is_empty (_ ∷ _) = false

  -- A predicate that computes to a tuple, which the tactics read and build.
  abbrev pub All {κ} : (A → Type κ) → List A → Type κ
  All P [] = Unit
  All P (x ∷ xs) = P x × All P xs

  abbrev pub all : (A → Bool) → List A → Bool
  all p [] = true
  all p (x ∷ xs) = p x && all p xs

  abbrev pub any : (A → Bool) → List A → Bool
  any p [] = false
  any p (x ∷ xs) = p x || any p xs

  pub length-append : (xs ys : List A) → length (xs ++ ys) ≡ length xs + length ys
  length-append [] ys = omega arith
  length-append (x ∷ xs) ys = omega (arith, length-append xs ys)

  pub All-append {κ} : (P : A → Type κ) (xs ys : List A) → All P xs → All P ys → All P (xs ++ ys)
  All-append P [] ys h k = k
  All-append P (x ∷ xs) ys h k = (h.0, All-append P xs ys h.1 k)

  pub All-map {κ μ} :
      (P : A → Type κ) (Q : A → Type μ) (xs : List A) → ((x : A) → P x → Q x) → All P xs → All Q xs
  All-map P Q [] f h = tt
  All-map P Q (x ∷ xs) f h = (f x h.0, All-map P Q xs f h.1)

  pub append-ne-nil : (xs : List A) (x : A) → is_empty (xs ++ x ∷ []) ≡ false
  append-ne-nil [] x = refl
  append-ne-nil (y ∷ xs) x = refl

-- `_, ok := m[k]` for a map used as a set.
abbrev pub mem : String → List String → Bool
mem s [] = false
mem s (x ∷ xs) = x == s || mem s xs

-- What holds of every item holds of a member.
pub All-mem {κ} :
    (P : String → Type κ) (s : String) (xs : List String) → All P xs → mem s xs ≡ true → P s
All-mem P s [] h m = cc
All-mem P s (x ∷ xs) h m = elim (Bool-cases (x == s)) [
  | inl e ↦ subst P ((eq_iff x s).0 e) h.0
  | inr e ↦ All-mem P s xs h.1 (rw e at m)
]

or_right : (b c : Bool) → c ≡ true → (b || c) ≡ true
or_right b c h = ground arith

-- Every item of a list is a member of it.
pub mem_self : (xs : List String) → All (λ x. mem x xs ≡ true) xs
mem_self [] = tt
mem_self (x ∷ xs) = (
  rw (eq_refl x) refl,
  All-map (λ y. mem y xs ≡ true) (λ y. mem y (x ∷ xs) ≡ true) xs
      (λ y h. or_right (x == y) (mem y xs) h) (mem_self xs),
)
