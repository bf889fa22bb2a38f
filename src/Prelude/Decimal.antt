-- ===== src/Prelude/Decimal.antt =====
-- The decimal text of a number, as a template literal makes it.
use Prim.Native.Char.{Char, code}
use Prim.Native.Nat.{ℕ, zero, suc, ◌+◌, ◌-◌, ◌*◌, ◌/◌, ◌%◌, ◌<◌}
use Prim.Native.String.{String, [], ◌∷◌}
use mathlib.Core.Path.{◌≡◌, ap, ◌∙◌}
use mathlib.Core.Bool.{Bool, true, false, ◌&&◌}
use native.Mathlib.Omega.{arith}
use nestjs_jwt.Prelude.Tests.{leb, ltb, if◌then◌else◌, Bool-cases}
use mathlib.Core.Logic.{inl, inr}

unfoldable pub digit : ℕ → Char
digit zero = "0"
digit (suc zero) = "1"
digit (suc (suc zero)) = "2"
digit (suc (suc (suc zero))) = "3"
digit (suc (suc (suc (suc zero)))) = "4"
digit (suc (suc (suc (suc (suc zero))))) = "5"
digit (suc (suc (suc (suc (suc (suc zero)))))) = "6"
digit (suc (suc (suc (suc (suc (suc (suc zero))))))) = "7"
digit (suc (suc (suc (suc (suc (suc (suc (suc zero)))))))) = "8"
digit (suc (suc (suc (suc (suc (suc (suc (suc (suc n))))))))) = "9"

pub code-digit : (n : ℕ) → n < 10 → code (digit n) ≡ b'0' + n
unfolding digit
code-digit zero h = omega arith
code-digit (suc zero) h = omega arith
code-digit (suc (suc zero)) h = omega arith
code-digit (suc (suc (suc zero))) h = omega arith
code-digit (suc (suc (suc (suc zero)))) h = omega arith
code-digit (suc (suc (suc (suc (suc zero))))) h = omega arith
code-digit (suc (suc (suc (suc (suc (suc zero)))))) h = omega arith
code-digit (suc (suc (suc (suc (suc (suc (suc zero))))))) h = omega arith
code-digit (suc (suc (suc (suc (suc (suc (suc (suc zero)))))))) h = omega arith
code-digit (suc (suc (suc (suc (suc (suc (suc (suc (suc zero))))))))) h = omega arith
code-digit (suc (suc (suc (suc (suc (suc (suc (suc (suc (suc n)))))))))) h = absurd (omega arith)

unfoldable pub emit : ℕ → ℕ → String → String
emit zero n out = out
emit (suc k) n out =
    let rest = emit k (n / 10) (digit (n % 10) ∷ out) in if ltb n 10 then digit n ∷ out else rest

-- Each round divides by ten, so the number bounds the rounds.
unfoldable pub to_text : ℕ → String
unfolding emit digit
to_text n = emit (suc n) n []

-- The value of the digits that a text starts with, behind those already read.
unfoldable pub scan : String → ℕ → ℕ
scan [] n = n
scan (c ∷ s) n =
    let rest = scan s (n * 10 + (code c - b'0')) in
    if leb b'0' (code c) && leb (code c) b'9' then rest else n

abbrev pub starts_with_digit : String → Bool
starts_with_digit [] = false
starts_with_digit (c ∷ s) = leb b'0' (code c) && leb (code c) b'9'

scan-digit : (n m : ℕ) (out : String) → n < 10 → scan (digit n ∷ out) m ≡ scan out (m * 10 + n)
unfolding scan
scan-digit n m out h =
    let low : leb b'0' (b'0' + n) ≡ true = ground arith in
    let high : leb (b'0' + n) b'9' ≡ true = ground arith in
    let back : b'0' + n - b'0' ≡ n = omega arith in rw (code-digit n h, low, high, back)

scan-emit : (k n : ℕ) (out : String) → n < k → scan (emit k n out) 0 ≡ scan out n
unfolding emit
scan-emit zero n out h = absurd (omega arith)
scan-emit (suc k) n out h = elim (Bool-cases (ltb n 10)) [
  | inl small ↦
      let same : 0 * 10 + n ≡ n = omega arith in
      rw small (scan-digit n 0 out (ground arith) ∙ ap (scan out) same)
  | inr big ↦
      let same : n / 10 * 10 + n % 10 ≡ n = omega arith in
      rw big (
        scan-emit k (n / 10) _ (ground arith)
        ∙ scan-digit (n % 10) (n / 10) out (omega arith)
        ∙ ap (scan out) same)
]

emit-starts : (k n : ℕ) (out : String) → n < k → starts_with_digit (emit k n out) ≡ true
unfolding emit
emit-starts zero n out h = absurd (omega arith)
emit-starts (suc k) n out h = elim (Bool-cases (ltb n 10)) [
  | inl small ↦ rw (small, code-digit n (ground arith)) (ground arith)
  | inr big ↦ rw big (emit-starts k (n / 10) _ (ground arith))
]

-- The digits of a number read back as that number.
pub scan-to_text : (n : ℕ) → scan (to_text n) 0 ≡ n
unfolding to_text scan
scan-to_text n = scan-emit (suc n) n [] (omega arith)

pub to_text-starts : (n : ℕ) → starts_with_digit (to_text n) ≡ true
unfolding to_text
to_text-starts n = emit-starts (suc n) n [] (omega arith)
