-- ===== src/Common/Token.antt =====
-- `generateSecureToken` of src/common/utils/crypto.util.ts: the bytes that `randomBytes` draws are an
-- argument.
use Prim.Native.Char.{Char, code}
use Prim.Native.String as Text
use nestjs_jwt.Prelude.{
  ℕ, ◌+◌, ◌-◌, ◌*◌, ◌/◌, ◌%◌, ◌<◌, ◌≡◌, refl, ap₂, ◌∙◌, String, List, [], ◌∷◌, arith, ltb,
  if◌then◌else◌, All, zero, suc, Bool-cases, inl, inr,
}
use nestjs_jwt.Prelude.Decimal.{code-digit}
use nestjs_jwt.Common.Stringify.{letter, hex}

-- `randomBytes(bytes).toString('hex')`
unfoldable pub generate_secure_token : List ℕ → String
generate_secure_token [] = ""
generate_secure_token (b ∷ bs) =
    Text.◌∷◌ (hex (b / 16)) (Text.◌∷◌ (hex (b % 16)) (generate_secure_token bs))

-- The value of a digit, and the bytes that a text spells.
abbrev value : Char → ℕ
value c = if ltb (code c) b'a' then code c - b'0' else 10 + (code c - b'a')

unfoldable pub bytes_of : String → List ℕ
bytes_of Text.[] = []
bytes_of (Text.◌∷◌ c Text.[]) = []
bytes_of (Text.◌∷◌ c (Text.◌∷◌ k s)) = (value c * 16 + value k) ∷ bytes_of s

value-letter : (n : ℕ) → n < 6 → value (letter n) ≡ 10 + n
value-letter zero h = refl
value-letter (suc zero) h = refl
value-letter (suc (suc zero)) h = refl
value-letter (suc (suc (suc zero))) h = refl
value-letter (suc (suc (suc (suc zero)))) h = refl
value-letter (suc (suc (suc (suc (suc zero))))) h = refl
value-letter (suc (suc (suc (suc (suc (suc n)))))) h = absurd (omega arith)

value-hex : (n : ℕ) → n < 16 → value (hex n) ≡ n
value-hex n h = elim (Bool-cases (ltb n 10)) [
  | inl e ↦
      let small : n < 10 = ground (arith, e) in rw (hex, e) (rw (code-digit n small) (ground arith))
  | inr e ↦
      let large : 10 + (n - 10) ≡ n = ground (arith, e) in
      rw (hex, e) (value-letter (n - 10) (ground (arith, h)) ∙ large)
]

-- A token spells the bytes that were drawn, so that different draws give different tokens.
pub generate_secure_token-bytes :
    (bs : List ℕ) → All (λ b. b < 256) bs → bytes_of (generate_secure_token bs) ≡ bs
unfolding generate_secure_token bytes_of
generate_secure_token-bytes [] h = refl
generate_secure_token-bytes (b ∷ bs) (h, hs) =
    let high = value-hex (b / 16) (ground arith) in
    let low = value-hex (b % 16) (ground arith) in
    ap₂ ◌∷◌ (rw (high, low) (ground arith)) (generate_secure_token-bytes bs hs)
