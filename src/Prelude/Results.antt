-- ===== src/Prelude/Results.antt =====
-- Fallible results, with early returns as steps of a do block.
use mathlib.Core.Path.{◌≡◌, refl}
use mathlib.Core.Bool.{Bool, true, false}
use mathlib.Core.Option.{Option, none, some}
use specforge.Prelude.Tests.{if◌then◌else◌}

-- A Go pair of a value and an error of which one is nil.
pub data Result {ℓ κ} (E : Type ℓ) (A : Type κ) : Type (ℓ ⊔ κ) where
  ok : A → Result E A
  err : E → Result E A

infixl 5 ◌>>=◌ ◌>>◌
abbrev pub ◌>>=◌ {ℓ κ μ} :
    {E : Type ℓ} {A : Type κ} {B : Type μ} → Result E A → (A → Result E B) → Result E B
ok a >>= f = f a
err e >>= f = err e

abbrev pub ◌>>◌ {ℓ μ} : {E : Type ℓ} {B : Type μ} → Result E (Unit {0}) → Result E B → Result E B
m >> k = m >>= λ _. k

-- An early `return err` where the test holds.
abbrev pub fail_if {ℓ} : {E : Type ℓ} → Bool → E → Result E (Unit {0})
fail_if true e = err e
fail_if false e = ok tt

-- The early return `if err != nil { return err }`.
abbrev pub check {ℓ} : {E : Type ℓ} → Option E → Result E (Unit {0})
check none = ok tt
check (some e) = err e

abbrev pub is_ok {ℓ κ} : {E : Type ℓ} {A : Type κ} → Result E A → Bool
is_ok (ok _) = true
is_ok (err _) = false

pub ok-injective {ℓ κ} :
    {E : Type ℓ} {A : Type κ} (a b : A) → ◌≡◌ {A = Result E A} (ok a) (ok b) → a ≡ b
ok-injective a b h = cc

-- Inversion of the steps of a do block that returns.
pub fail_if_ok {ℓ μ} :
    {E : Type ℓ} {B : Type μ} (b : Bool) (e : E) (k : Result E B) (x : B)
    → (fail_if b e >> k) ≡ ok x
    → (b ≡ false) × (k ≡ ok x)
fail_if_ok true e k x h = cc
fail_if_ok false e k x h = (refl, h)

pub check_ok {ℓ μ} :
    {E : Type ℓ} {B : Type μ} (o : Option E) (k : Result E B) (x : B)
    → (check o >> k) ≡ ok x
    → (o ≡ none) × (k ≡ ok x)
check_ok (some e) k x h = cc
check_ok none k x h = (refl, h)

pub >>=_ok {ℓ κ μ} :
    {E : Type ℓ} {A : Type κ} {B : Type μ} (m : Result E A) (f : A → Result E B) (x : B)
    → (m >>= f) ≡ ok x
    → (a : A) × (m ≡ ok a) × (f a ≡ ok x)
>>=_ok (ok a) f x h = (a, refl, h)
>>=_ok (err e) f x h = cc

pub fail_if_last {ℓ} : {E : Type ℓ} (b : Bool) (e : E) → fail_if b e ≡ ok tt → b ≡ false
fail_if_last true e h = cc
fail_if_last false e h = refl

-- The rest runs where a statement reports no failure.
abbrev pub unless_failed {ℓ κ μ} :
    {F : Type ℓ} {E : Type κ} {A : Type μ} → Option F → (F → E) → Result E A → Result E A
unless_failed none translate rest = rest
unless_failed (some f) translate rest = err (translate f)

pub unless_failed_ok {ℓ κ μ} :
    {F : Type ℓ} {E : Type κ} {A : Type μ} (o : Option F) (translate : F → E) (rest : Result E A)
    (a : A)
    → unless_failed o translate rest ≡ ok a
    → (o ≡ none) × (rest ≡ ok a)
unless_failed_ok none translate rest a h = (refl, h)
unless_failed_ok (some f) translate rest a h = cc

-- Inversion of a test that fails in the second branch, or in the first.
pub then_ok {ℓ κ} :
    {E : Type ℓ} {A : Type κ} (b : Bool) (r : Result E A) (e : E) (a : A)
    → (if b then r else err e) ≡ ok a
    → (b ≡ true) × (r ≡ ok a)
then_ok true r e a h = (refl, h)
then_ok false r e a h = cc
