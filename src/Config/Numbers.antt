-- ===== src/Config/Numbers.antt =====
-- `parseInt(text, 10)`, as src/config uses it: white space, a sign, and the digits that follow; the
-- rest of the text is not looked at. The double that is nearest to an integer is a parameter.
use Prim.Native.Char.{code}
use Prim.Native.String.{[], ◌∷◌}
use nestjs_jwt.Prelude.{
  ℕ, ◌<◌, ◌≡◌, refl, ap, ◌∙◌, String, Bool, true, false, ◌&&◌, ◌||◌, arith, ◌==◌, leb,
  if◌then◌else◌,
}
use nestjs_jwt.Prelude.Decimal.{to_text, scan, starts_with_digit, scan-to_text, to_text-starts}

-- A number that `parseInt` can return; the flag is the sign.
pub data Number : Type 0 where
  nan : Number
  infinite : Bool → Number
  integer : (negative : Bool) → ℕ → Number

-- The white space and the line terminators of ECMAScript.
abbrev pub is_white_space : ℕ → Bool
is_white_space c =
    leb 9 c && leb c 13
    || c == 32
    || c == 160
    || c == 5760
    || leb 8192 c && leb c 8202
    || c == 8232
    || c == 8233
    || c == 8239
    || c == 8287
    || c == 12288
    || c == 65279

unfoldable pub trim_start : String → String
trim_start [] = []
trim_start (c ∷ s) = let rest = trim_start s in if is_white_space (code c) then rest else c ∷ s

digit-not_white_space : (c : ℕ) → (leb b'0' c && leb c b'9') ≡ true → is_white_space c ≡ false
digit-not_white_space c h = ground (arith, h)

-- The nearest double of an integer, by its sign and size.
module _ (nearest : Bool → ℕ → Number) where
  abbrev pub parse_digits : Bool → String → Number
  parse_digits negative s = if starts_with_digit s then nearest negative (scan s 0) else nan

  abbrev pub parse_signed : String → Number
  parse_signed [] = nan
  parse_signed (c ∷ s) =
      if code c == b'-'
      then parse_digits true s
      else if code c == b'+'
      then parse_digits false s
      else parse_digits false (c ∷ s)

  unfoldable pub parse_int : String → Number
  parse_int s = parse_signed (trim_start s)

  -- A text that starts with a digit has no white space and no sign before it.
  parse_int_digits :
      (s : String) → starts_with_digit s ≡ true → parse_int s ≡ nearest false (scan s 0)
  unfolding parse_int trim_start
  parse_int_digits [] h = absurd (ground (arith, h))
  parse_int_digits (c ∷ s) h =
      let space : is_white_space (code c) ≡ false = digit-not_white_space (code c) h in
      let minus : (code c == b'-') ≡ false = ground (arith, h) in
      let plus : (code c == b'+') ≡ false = ground (arith, h) in rw (space, minus, plus, h) refl

  -- Where integers below `2 ^ 53` are doubles, the decimal text of one reads back as it.
  pub parse_int-to_text :
      (n : ℕ)
      → ((b : Bool) (m : ℕ) → m < 9007199254740992 → nearest b m ≡ integer b m)
      → n < 9007199254740992
      → parse_int (to_text n) ≡ integer false n
  parse_int-to_text n exact h =
      parse_int_digits (to_text n) (to_text-starts n)
      ∙ ap (nearest false) (scan-to_text n)
      ∙ exact false n h
