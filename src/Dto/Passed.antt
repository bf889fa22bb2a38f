-- ===== src/Dto/Passed.antt =====
-- What the pipe of src/main.ts promises of the properties of an instance that it lets through.
use nestjs_jwt.Prelude.{
  ◌≡◌, refl, sym, ap, ◌∙◌, ◌≢◌, ◌⊎◌, inl, inr, String, Bool, true, false, Option, none, some, List,
  [], ◌∷◌, arith, Option-cases, all, All, Bool-cases, ◌&&◌,
}
use nestjs_jwt.Common.Json.{get, Json, null, Fields}
use nestjs_jwt.Dto.Rules.{Decorator, Property}
use nestjs_jwt.Dto.Pipe.{
  pipe_options, Instance, passed, declared, is_absent, ValidationPipe, IsDocumented, is_met, Passes,
  value_of,
}

-- No property of an object is null.
abbrev pub HasNoNull : Fields → Type 0
HasNoNull body = (k : String) → get k body ≢ some null

abbrev pub starts_null : Option Json → Bool
starts_null (some null) = true
starts_null _ = false

is_absent-cases : (v : Option Json) → is_absent v ≡ true → (v ≡ none) ⊎ (v ≡ some null)
is_absent-cases none h = inl refl
is_absent-cases (some null) h = inr refl
is_absent-cases (some _) h = absurd (ground (arith, h))

module _ (pipe : ValidationPipe) (doc : IsDocumented pipe) where
  open pipe use {run, convert, check}

  all-Passes :
      (cs : List Decorator) (v : Option Json)
      → all (λ c. check c v) cs ≡ true
      → All (λ c. Passes pipe c v) cs
  all-Passes [] v h = tt
  all-Passes (c ∷ cs) v h =
      (doc.checks c v (ground (arith, h)), all-Passes cs v (ground (arith, h)))

  -- Without a null in the body, a value is null only where the property starts with null, and missing
  -- only where it starts with nothing.
  value-null :
      (p : Property) (body : Fields)
      → HasNoNull body
      → value_of pipe p body ≡ some null
      → p.initial ≡ some null
  value-null p body full e = elim (Option-cases (get p.name body)) [
    | inl g ↦ ground (arith, g, e)
    | inr (v, g) ↦
        let same : convert p.design_type v ≡ null = ground (arith, g, e) in
        absurd (full p.name (g ∙ ap some (doc.converts p.design_type v same)))
  ]

  value-none : (p : Property) (body : Fields) → value_of pipe p body ≡ none → p.initial ≡ none
  value-none p body e = elim (Option-cases (get p.name body)) [
    | inl g ↦ ground (arith, g, e)
    | inr (v, g) ↦ absurd (ground (arith, g, e))
  ]

  -- A property that the class declares, of an instance that the pipe lets through.
  module _ (ps : List Property) (body : Fields) (i : Instance)
      (run_eq : run pipe_options ps body ≡ passed i) (k : String) (p : Property)
      (declared_eq : declared k ps ≡ some p) where
    value-eq : i k ≡ value_of pipe p body
    unfolding pipe_options
    value-eq = doc.transforms pipe_options ps body i k p refl refl run_eq declared_eq

    is_met-true : is_met pipe p (i k) ≡ true
    unfolding pipe_options
    is_met-true = doc.validates pipe_options ps body i k p refl run_eq declared_eq

    -- The value passes the decorators, or is absent and may be.
    pub cases :
        ((p.is_optional ≡ true) × (is_absent (i k) ≡ true))
        ⊎ All (λ c. Passes pipe c (i k)) p.decorators
    cases = elim (Bool-cases (p.is_optional && is_absent (i k))) [
      | inl a ↦ inl (ground (arith, a), ground (arith, a))
      | inr a ↦ inr (all-Passes p.decorators (i k) (ground (arith, is_met-true, a)))
    ]

    pub required : p.is_optional ≡ false → All (λ c. Passes pipe c (i k)) p.decorators
    required o = elim cases [ inl (a, _) ↦ absurd (ground (arith, o, a)) | inr h ↦ h ]

    -- Without a null in the body, an absent value is missing, and its property starts with nothing.
    pub optional :
        HasNoNull body
        → starts_null p.initial ≡ false
        → ((i k ≡ none) × (p.initial ≡ none)) ⊎ All (λ c. Passes pipe c (i k)) p.decorators
    optional full start = elim cases [
      | inr h ↦ inr h
      | inl (_, a) ↦ elim (is_absent-cases (i k) a) [
        | inl e ↦ inl (e, value-none p body (sym value-eq ∙ e))
        | inr e ↦ absurd (ground (arith, start, value-null p body full (sym value-eq ∙ e)))
      ]
    ]
