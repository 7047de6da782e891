-- ===== src/Prelude/Texts.antt =====
-- Equality tests on texts, as equations.
use Prim.Native.String.{String}
use mathlib.Core.Path.{◌≡◌}
use mathlib.Core.Logic.{◌≢◌, inl, inr}
use mathlib.Core.Bool.{true, false}
use text.Mathlib.Text.{◌==◌}
use text.Mathlib.TextEquality.{eq_iff}
use specforge.Prelude.Tests.{Bool-cases}

pub eq→== : (s t : String) → s ≡ t → (s == t) ≡ true
eq→== s t h = (eq_iff s t).1 h

pub ==→eq : (s t : String) → (s == t) ≡ true → s ≡ t
==→eq s t h = (eq_iff s t).0 h

pub ne→== : (s t : String) → s ≢ t → (s == t) ≡ false
ne→== s t h = elim (Bool-cases (s == t)) [ inl e ↦ absurd (h (==→eq s t e)) | inr e ↦ e ]

pub ==→ne : (s t : String) → (s == t) ≡ false → s ≢ t
==→ne s t h e = cc (h, eq→== s t e)
