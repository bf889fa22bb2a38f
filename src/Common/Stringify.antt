-- ===== src/Common/Stringify.antt =====
-- `JSON.stringify`, as src/logger/app-logger.service.ts prints its lines with it.
use Prim.Native.Char.{Char, code}
use Prim.Native.String as Text
use Prim.Native.String.{◌++◌}
use text.Mathlib.TextLemmas.{nil-append, cons-append}
use nestjs_jwt.Prelude.{
  ℕ, ◌-◌, ◌/◌, ◌%◌, ◌<◌, ◌≡◌, refl, String, Bool, true, false, ◌&&◌, arith, leb, ltb, ◌==◌,
  if◌then◌else◌, Bool-cases, inl, inr, zero, suc,
}
use nestjs_jwt.Prelude.Decimal.{digit, code-digit, emit, to_text}
use nestjs_jwt.Common.Json.{
  Json, null, bool, num, str, arr, obj, Items, nil, cons, Fields, end, field,
}

abbrev pub letter : ℕ → Char
letter zero = "a"
letter (suc zero) = "b"
letter (suc (suc zero)) = "c"
letter (suc (suc (suc zero))) = "d"
letter (suc (suc (suc (suc zero)))) = "e"
letter (suc (suc (suc (suc (suc n))))) = "f"

-- The digit of a number below 16.
abbrev pub hex : ℕ → Char
hex n = if ltb n 10 then digit n else letter (n - 10)

-- What stands for a character below the space.
abbrev control : ℕ → String
control c =
    if c == 8
    then "\\b"
    else if c == 9
    then "\\t"
    else if c == 10
    then "\\n"
    else if c == 12
    then "\\f"
    else if c == 13
    then "\\r"
    else "\\u00" ++ Text.◌∷◌ (digit (c / 16)) (Text.◌∷◌ (hex (c % 16)) "")

abbrev escaped : Char → String
escaped c =
    if ltb (code c) 32
    then control (code c)
    else if code c == b'"'
    then "\\\""
    else if code c == b'\\'
    then "\\\\"
    else Text.◌∷◌ c ""

escape : String → String
escape Text.[] = ""
escape (Text.◌∷◌ c s) = escaped c ++ escape s

abbrev quote : String → String
unfolding escape
quote s = "\"" ++ (escape s ++ "\"")

unfoldable mutual
  unfolding escape to_text

  pub stringify : Json → String
  stringify null = "null"
  stringify (bool b) = if b then "true" else "false"
  stringify (num n) = to_text n
  stringify (str s) = quote s
  stringify (arr xs) = "[" ++ stringify_items xs
  stringify (obj fs) = "{" ++ stringify_fields fs

  stringify_items : Items → String
  stringify_items nil = "]"
  stringify_items (cons x xs) = stringify x ++ more_items xs

  more_items : Items → String
  more_items nil = "]"
  more_items (cons x xs) = "," ++ (stringify x ++ more_items xs)

  stringify_fields : Fields → String
  stringify_fields end = "}"
  stringify_fields (field k v fs) = quote k ++ (":" ++ (stringify v ++ more_fields fs))

  more_fields : Fields → String
  more_fields end = "}"
  more_fields (field k v fs) = "," ++ (quote k ++ (":" ++ (stringify v ++ more_fields fs)))

-- A text without a control character, so without a line break.
unfoldable pub is_plain : String → Bool
is_plain Text.[] = true
is_plain (Text.◌∷◌ c s) = leb 32 (code c) && is_plain s

is_plain-append : (a b : String) → is_plain a ≡ true → is_plain b ≡ true → is_plain (a ++ b) ≡ true
unfolding is_plain
is_plain-append Text.[] b h k = rw (nil-append b) k
is_plain-append (Text.◌∷◌ c a) b h k =
    let rest = is_plain-append a b (ground (arith, h)) k in
    let first : leb 32 (code c) ≡ true = ground (arith, h) in rw (cons-append c a b, first) rest

is_plain-if :
    (b : Bool) (x y : String)
    → is_plain x ≡ true
    → is_plain y ≡ true
    → is_plain (if b then x else y) ≡ true
is_plain-if true x y h k = h
is_plain-if false x y h k = k

is_plain-digit : (n : ℕ) → n < 10 → leb 32 (code (digit n)) ≡ true
is_plain-digit n h = rw (code-digit n h) (ground arith)

is_plain-letter : (n : ℕ) → leb 32 (code (letter n)) ≡ true
is_plain-letter zero = refl
is_plain-letter (suc zero) = refl
is_plain-letter (suc (suc zero)) = refl
is_plain-letter (suc (suc (suc zero))) = refl
is_plain-letter (suc (suc (suc (suc zero)))) = refl
is_plain-letter (suc (suc (suc (suc (suc n))))) = refl

is_plain-hex : (n : ℕ) → leb 32 (code (hex n)) ≡ true
is_plain-hex n = elim (Bool-cases (ltb n 10)) [
  | inl h ↦ rw (hex, h) (is_plain-digit n (ground (arith, h)))
  | inr h ↦ rw (hex, h) (is_plain-letter (n - 10))
]

is_plain-emit : (k n : ℕ) (out : String) → is_plain out ≡ true → is_plain (emit k n out) ≡ true
unfolding emit is_plain
is_plain-emit zero n out h = h
is_plain-emit (suc k) n out h = elim (Bool-cases (ltb n 10)) [
  | inl e ↦ rw e (rw (is_plain-digit n (ground (arith, e))) h)
  | inr e ↦ rw e (
      is_plain-emit k (n / 10) (Text.◌∷◌ (digit (n % 10)) out)
        (rw (is_plain-digit (n % 10) (ground arith)) h))
]

is_plain-control : (c : ℕ) → c < 32 → is_plain (control c) ≡ true
unfolding is_plain
is_plain-control c h =
    let pair = Text.◌∷◌ (digit (c / 16)) (Text.◌∷◌ (hex (c % 16)) "") in
    is_plain-if (c == 8) _ _ refl (
      is_plain-if (c == 9) _ _ refl (
        is_plain-if (c == 10) _ _ refl (
          is_plain-if (c == 12) _ _ refl (
            is_plain-if (c == 13) _ _ refl (
              is_plain-append "\\u00" pair refl
                (rw (is_plain-digit (c / 16) (ground arith), is_plain-hex (c % 16)) refl))))))

is_plain-escaped : (c : Char) → is_plain (escaped c) ≡ true
unfolding is_plain
is_plain-escaped c = elim (Bool-cases (ltb (code c) 32)) [
  | inl h ↦ rw (escaped, h) (is_plain-control (code c) (ground (arith, h)))
  | inr h ↦
      let first : leb 32 (code c) ≡ true = ground (arith, h) in
      rw (escaped, h)
        (is_plain-if (code c == b'"') _ _ refl
          (is_plain-if (code c == b'\\') _ _ refl (rw first refl)))
]

is_plain-escape : (s : String) → is_plain (escape s) ≡ true
unfolding escape is_plain
is_plain-escape Text.[] = refl
is_plain-escape (Text.◌∷◌ c s) =
    is_plain-append (escaped c) (escape s) (is_plain-escaped c) (is_plain-escape s)

is_plain-quote : (s : String) → is_plain (quote s) ≡ true
unfolding is_plain quote escape
is_plain-quote s =
    is_plain-append "\"" (escape s ++ "\"") refl
      (is_plain-append (escape s) "\"" (is_plain-escape s) refl)

is_plain-member :
    (k v rest : String)
    → is_plain v ≡ true
    → is_plain rest ≡ true
    → is_plain (quote k ++ (":" ++ (v ++ rest))) ≡ true
unfolding is_plain
is_plain-member k v rest h r =
    is_plain-append (quote k) (":" ++ (v ++ rest)) (is_plain-quote k)
      (is_plain-append ":" (v ++ rest) refl (is_plain-append v rest h r))

mutual
  unfolding stringify is_plain to_text

  plain : (v : Json) → is_plain (stringify v) ≡ true
  plain null = refl
  plain (bool b) = is_plain-if b _ _ refl refl
  plain (num n) = is_plain-emit (suc n) n "" refl
  plain (str s) = is_plain-quote s
  plain (arr xs) = is_plain-append "[" (stringify_items xs) refl (plain_items xs)
  plain (obj fs) = is_plain-append "{" (stringify_fields fs) refl (plain_fields fs)

  plain_items : (xs : Items) → is_plain (stringify_items xs) ≡ true
  plain_items nil = refl
  plain_items (cons x xs) = is_plain-append (stringify x) (more_items xs) (plain x) (plain_more xs)

  plain_more : (xs : Items) → is_plain (more_items xs) ≡ true
  plain_more nil = refl
  plain_more (cons x xs) =
      is_plain-append "," (stringify x ++ more_items xs) refl
        (is_plain-append (stringify x) (more_items xs) (plain x) (plain_more xs))

  plain_fields : (fs : Fields) → is_plain (stringify_fields fs) ≡ true
  plain_fields end = refl
  plain_fields (field k v fs) =
      is_plain-member k (stringify v) (more_fields fs) (plain v) (plain_members fs)

  plain_members : (fs : Fields) → is_plain (more_fields fs) ≡ true
  plain_members end = refl
  plain_members (field k v fs) =
      is_plain-append "," (quote k ++ (":" ++ (stringify v ++ more_fields fs))) refl
        (is_plain-member k (stringify v) (more_fields fs) (plain v) (plain_members fs))

-- The text of a value has no control character.
pub is_plain-stringify : (v : Json) → is_plain (stringify v) ≡ true
is_plain-stringify v = plain v
