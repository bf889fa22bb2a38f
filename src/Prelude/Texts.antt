-- ===== src/Prelude/Texts.antt =====
-- Equality of texts, as the tests of the program decide it.
use Prim.Native.String.{String}
use mathlib.Core.Path.{◌≡◌}
use mathlib.Core.Logic.{◌≢◌}
use mathlib.Core.Bool.{true, false}
use native.Mathlib.Omega.{arith}
use text.Mathlib.Text.{◌==◌}
use text.Mathlib.TextEquality.{eq_iff}

pub str_eq_true : (a b : String) → a ≡ b → (a == b) ≡ true
str_eq_true a b = (eq_iff a b).1

pub str_eq_false : (a b : String) → a ≢ b → (a == b) ≡ false
str_eq_false a b h = ground (arith, eq_iff a b)
