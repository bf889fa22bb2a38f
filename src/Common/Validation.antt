-- ===== src/Common/Validation.antt =====
-- `STRONG_PASSWORD_REGEX` of src/common/constants/validation.constants.ts, over UTF-16 code units.
use nestjs_jwt.Prelude.{
  ℕ, zero, suc, ◌≤◌, ◌≡◌, refl, sym, ◌∙◌, ◌↔◌, Bool, true, false, not, ◌&&◌, ◌||◌, List, [], ◌∷◌,
  arith, ◌==◌, leb, any, all, length,
}

-- `.`, which is no line terminator
abbrev pub dot : ℕ → Bool
dot c = not (c == 10 || c == 13 || c == 8232 || c == 8233)

abbrev pub between : ℕ → ℕ → ℕ → Bool
between a b c = leb a c && leb c b

abbrev pub lower : ℕ → Bool
lower = between b'a' b'z'

abbrev pub upper : ℕ → Bool
upper = between b'A' b'Z'

abbrev pub digit : ℕ → Bool
digit = between b'0' b'9'

abbrev pub special : ℕ → Bool
special c = not (upper c || lower c || digit c)

-- `(?=.*[class])`
unfoldable pub looks_ahead : (ℕ → Bool) → List ℕ → Bool
looks_ahead class [] = false
looks_ahead class (c ∷ cs) = class c || (dot c && looks_ahead class cs)

-- `.{n,}$`
unfoldable pub repeats : ℕ → List ℕ → Bool
repeats zero [] = true
repeats (suc n) [] = false
repeats zero (c ∷ cs) = dot c && repeats zero cs
repeats (suc n) (c ∷ cs) = dot c && repeats n cs

unfoldable pub is_strong_password : List ℕ → Bool
is_strong_password cs =
    looks_ahead lower cs
    && looks_ahead upper cs
    && looks_ahead digit cs
    && looks_ahead special cs
    && repeats 8 cs

repeats_lem : (n : ℕ) (cs : List ℕ) → repeats n cs ≡ (all dot cs && leb n (length cs))
unfolding repeats
repeats_lem zero [] = refl
repeats_lem (suc n) [] = ground arith
repeats_lem zero (c ∷ cs) = ground (arith, repeats_lem zero cs)
repeats_lem (suc n) (c ∷ cs) = ground (arith, repeats_lem n cs)

-- Within one line the prefix of a look-ahead passes everything.
looks_ahead_lem :
    (class : ℕ → Bool) (cs : List ℕ) → all dot cs ≡ true → looks_ahead class cs ≡ any class cs
unfolding looks_ahead
looks_ahead_lem class [] h = refl
looks_ahead_lem class (c ∷ cs) h = ground (arith, looks_ahead_lem class cs)

-- The rule that the message states: a password of one line, at least eight code units long, with a
-- lowercase letter, an uppercase letter, a digit and a character that is none of these.
abbrev pub IsStrong : List ℕ → Type 0
IsStrong cs =
    (all dot cs ≡ true)
    × (8 ≤ length cs)
    × (any lower cs ≡ true)
    × (any upper cs ≡ true)
    × (any digit cs ≡ true)
    × (any special cs ≡ true)

-- The expression accepts exactly the passwords of one line with at least eight code units, a
-- lowercase letter, an uppercase letter, a digit and a character that is none of these.
pub is_strong_password_iff : (cs : List ℕ) → (is_strong_password cs ≡ true) ↔ IsStrong cs
unfolding is_strong_password
is_strong_password_iff cs =
    let ahead : (class : ℕ → Bool) → all dot cs ≡ true → looks_ahead class cs ≡ any class cs =
      λ class. looks_ahead_lem class cs in
    (
      (λ h.
          let one_line : all dot cs ≡ true = ground (arith, repeats_lem 8 cs) in
          (
            one_line,
            ground (arith, repeats_lem 8 cs),
            sym (ahead lower one_line) ∙ ground arith,
            sym (ahead upper one_line) ∙ ground arith,
            sym (ahead digit one_line) ∙ ground arith,
            sym (ahead special one_line) ∙ ground arith,
          )),
      λ (o, n, l, u, g, s).
          rw
            (
              ahead lower o,
              ahead upper o,
              ahead digit o,
              ahead special o,
              l,
              u,
              g,
              s,
              repeats_lem 8 cs,
              o,
            )
            (ground arith),
    )
