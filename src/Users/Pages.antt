-- ===== src/Users/Pages.antt =====
-- What a page of a listing holds, and what a search term matches.
use Prim.Native.String as Text
use Prim.Native.Char.{Char, code}
use nestjs_jwt.Prelude.{
  ℕ, suc, ◌≤◌, ◌≡◌, refl, sym, ap, ◌∙◌, String, Bool, true, false, Option, none, some, List, [],
  ◌∷◌, ◌++◌, arith, ◌==◌, ◌||◌, if◌then◌else◌, filter, length, ◌⊎◌, Bool-cases, inl, inr,
}
use mathlib.Core.Option
use mathlib.Core.List.{Permᴰ}
use nestjs_jwt.Users.Schema.{User}
use nestjs_jwt.Users.Collection.{Collection}
use nestjs_jwt.Users.Listing.{is_special, escape_regex}

length-Permᴰ : {as_ bs : List User} → Permᴰ as_ bs → length as_ ≡ length bs
length-Permᴰ Permᴰ.nil = refl
length-Permᴰ (Permᴰ.cons _ p) = ap suc (length-Permᴰ p)
length-Permᴰ (Permᴰ.swap _ _) = refl
length-Permᴰ (Permᴰ.trans p q) = length-Permᴰ p ∙ length-Permᴰ q

-- A list in three parts: so many, so many more, and what is left.
IsWindow : ℕ → ℕ → List User → List User → Type 0
IsWindow skip limit ds items =
    (before after : List User) × Permᴰ (before ++ (items ++ after)) ds
    × ((length before ≡ skip) ⊎ (items ≡ []))
    × (length items ≤ limit)
    × ((length items ≡ limit) ⊎ (after ≡ []))

module _ (c : Collection) (p : User → Bool) (limit : ℕ) (s : c.Store) where
  abbrev pub matches : List User
  matches = filter p (c.docs s)

-- The characters that are operators of a regular expression outside of a class, the `SyntaxCharacter`
-- of its grammar.
unfoldable pub is_syntax : Char → Bool
is_syntax c =
    (code c == b'^')
    || (code c == b'$')
    || (code c == b'\\')
    || (code c == b'.')
    || (code c == b'*')
    || (code c == b'+')
    || (code c == b'?')
    || (code c == b'(')
    || (code c == b')')
    || (code c == b'[')
    || (code c == b']')
    || (code c == b'{')
    || (code c == b'}')
    || (code c == b'|')

-- The text that a pattern stands for when it has no operator: a backslash takes the operator that
-- follows literally, and an operator without one is not literal. The flag says that a backslash was just
-- read.
abbrev pub literal : Bool → String → Option String
literal false Text.[] = some ""
literal true Text.[] = none
literal escaped (Text.◌∷◌ c s) =
    let plain = Option.map (Text.◌∷◌ c) (literal false s) in
    let after = literal true s in
    if escaped
    then if is_syntax c then plain else none
    else if code c == b'\\'
    then after
    else if is_syntax c
    then none
    else plain

is_special-is_syntax : (c : Char) → is_special c ≡ is_syntax c
unfolding is_special is_syntax
is_special-is_syntax c = ground arith

backslash_special : (c : Char) → is_special c ≡ false → (code c == b'\\') ≡ false
unfolding is_special
backslash_special c h = ground arith

-- The pattern that is built from a search term has no operator of a regular expression and stands
-- for the term itself.
pub literal-escape_regex : (s : String) → literal false (escape_regex s) ≡ some s
unfolding escape_regex
literal-escape_regex Text.[] = refl
literal-escape_regex (Text.◌∷◌ c s) = elim (Bool-cases (is_special c)) [
  | inl e ↦ rw e (rw (literal-escape_regex s, sym (is_special-is_syntax c) ∙ e))
  | inr e ↦
      rw e (rw (backslash_special c e, literal-escape_regex s, sym (is_special-is_syntax c) ∙ e))
]
