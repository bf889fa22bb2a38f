-- ===== src/Tests/SamplePipe.antt =====
-- A pipe that does what the documentation of class-validator and class-transformer says, for texts and
-- numbers.
use nestjs_jwt.Prelude.{
  ℕ, ◌≡◌, refl, sym, ap, ◌∙◌, inl, inr, String, Bool, true, false, ◌&&◌, Option, none, some, List,
  [], ◌∷◌, arith, is_some, leb, length, all, Bool-cases, if◌then◌else◌, str_eq, eq_iff,
}
use nestjs_jwt.Common.Json.{get, Json, null, str, num, Fields, end, field}
use nestjs_jwt.Dto.Rules.{
  Decorator, is_string, is_email, is_url, is_jwt, is_int, min_length, max_length, min, max, matches,
  DesignType, string, number, Property, code_units,
}
use nestjs_jwt.Dto.Pipe.{
  PipeOptions, Instance, Piped, passed, stopped, declared, ValidationPipe, value_of, is_met, Passes,
  IsDocumented,
}

abbrev convert : DesignType → Json → Json
convert number v = v
convert string null = null
convert string (str s) = str s
convert string _ = str "[object Object]"

abbrev measure : String → ℕ
measure s = length (code_units s)

abbrev is_text : Option Json → Bool
is_text (some (str s)) = true
is_text _ = false

abbrev check : Decorator → Option Json → Bool
check is_int (some (num n)) = true
check (min k) (some (num n)) = leb k n
check (max k) (some (num n)) = leb n k
check (min_length n) (some (str s)) = leb n (measure s)
check (max_length n) (some (str s)) = leb (measure s) n
check (matches re message) (some (str s)) = re s
check is_string v = is_text v
check is_email v = is_text v
check is_url v = is_text v
check is_jwt v = is_text v
check _ _ = false

abbrev plain : ValidationPipe
plain = record {
  run = λ o ps body. stopped [];
  convert = convert;
  check = check;
  measure = measure;
}

abbrev is_known : List Property → Fields → Bool
is_known ps end = true
is_known ps (field k v fs) = is_some (declared k ps) && is_known ps fs

abbrev are_met : List Property → Fields → Bool
are_met ps body = all (λ p. is_met plain p (value_of plain p body)) ps

abbrev built : List Property → Fields → Instance
built ps body k = elim (declared k ps) [ none ↦ get k body | some p ↦ value_of plain p body ]

abbrev run : PipeOptions → List Property → Fields → Piped
run o ps body =
    if is_known ps body && are_met ps body
    then passed (built ps body)
    else stopped ("Bad Request" ∷ [])

abbrev pub sample_pipe : ValidationPipe
sample_pipe = record plain { run = run }

check-Passes : (c : Decorator) (v : Option Json) → check c v ≡ true → Passes sample_pipe c v
check-Passes c v h = ground (arith, h)

convert-null : (t : DesignType) (v : Json) → convert t v ≡ null → v ≡ null
convert-null number v h = h
convert-null string v h = ground (arith, h)

run-passed :
    (o : PipeOptions) (ps : List Property) (body : Fields) (i : Instance)
    → run o ps body ≡ passed i
    → (is_known ps body ≡ true) × (are_met ps body ≡ true) × (built ps body ≡ i)
run-passed o ps body i h = elim (Bool-cases (is_known ps body && are_met ps body)) [
  | inl e ↦ (ground (arith, e), ground (arith, e), passed-injective (sym (rw e refl) ∙ h))
  | inr e ↦ absurd (ground (arith, e, h))
]
  where
    passed-injective : {a b : Instance} → passed a ≡ passed b → a ≡ b
    passed-injective e = ground (arith, e)

built-declared :
    (ps : List Property) (body : Fields) (k : String) (p : Property)
    → declared k ps ≡ some p
    → built ps body k ≡ value_of plain p body
built-declared ps body k p d = rw (built, d) refl

are_met-declared :
    (ps : List Property) (body : Fields) (k : String) (p : Property)
    → are_met ps body ≡ true
    → declared k ps ≡ some p
    → is_met plain p (value_of plain p body) ≡ true
unfolding declared
are_met-declared [] body k p m d = absurd (ground (arith, d))
are_met-declared (q ∷ ps) body k p m d = elim (Bool-cases (str_eq q.name k)) [
  | inl e ↦
      let same : q ≡ p = ground (arith, d, e) in
      ap (λ x. is_met plain x (value_of plain x body)) (sym same) ∙ ground (arith, m)
  | inr e ↦ are_met-declared ps body k p (ground (arith, m)) (ground (arith, d, e))
]

is_known-get :
    (ps : List Property) (body : Fields) (k : String) (v : Json)
    → is_known ps body ≡ true
    → get k body ≡ some v
    → is_some (declared k ps) ≡ true
unfolding get
is_known-get ps end k v m g = absurd (ground (arith, g))
is_known-get ps (field j w fs) k v m g = elim (Bool-cases (str_eq j k)) [
  | inl e ↦ ap (λ x. is_some (declared x ps)) (sym ((eq_iff j k).0 e)) ∙ ground (arith, m)
  | inr e ↦ is_known-get ps fs k v (ground (arith, m)) (ground (arith, g, e))
]

pub sample_pipe-IsDocumented : IsDocumented sample_pipe
sample_pipe-IsDocumented = record {
  checks = check-Passes;
  converts = convert-null;
  transforms = λ o ps body i k p t c h d.
      let (_, _, same) = run-passed o ps body i h in
      ap (λ x. x k) (sym same) ∙ built-declared ps body k p d;
  validates = λ o ps body i k p t h d.
      let (_, met, same) = run-passed o ps body i h in
      ap (λ x. is_met plain p (x k)) (sym same)
      ∙ ap (is_met plain p) (built-declared ps body k p d)
      ∙ are_met-declared ps body k p met d;
  forbids = λ o ps body i k v a b h g.
      let (known, _, _) = run-passed o ps body i h in is_known-get ps body k v known g;
}
