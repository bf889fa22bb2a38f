-- ===== src/Common/Sanitize.antt =====
-- src/common/middlewares/mongo-sanitize.middleware.ts over parsed JSON values.
use Prim.Native.Char.{code}
use Prim.Native.String as Text
use mathlib.Core.Option
use nestjs_jwt.Prelude.{
  ◌≡◌, refl, ap, ap₂, String, Bool, false, ◌||◌, ◌==◌, if◌then◌else◌, Bool-cases, inl, inr, ◌↔◌,
  ◌∙◌, arith, str_eq, eq_iff,
}
use nestjs_jwt.Common.Json.{
  Json, null, bool, num, str, arr, obj, Items, nil, cons, Fields, end, field, get,
}

has_dot : String → Bool
has_dot Text.[] = false
has_dot (Text.◌∷◌ c s) = (code c == b'.') || has_dot s

starts_with_dollar : String → Bool
starts_with_dollar Text.[] = false
starts_with_dollar (Text.◌∷◌ c s) = code c == b'$'

-- `/^\$|\./.test(key)`
unfoldable pub is_prohibited : String → Bool
unfolding has_dot starts_with_dollar
is_prohibited key = starts_with_dollar key || has_dot key

-- The keys of an array are its indices, which are never prohibited.
unfoldable mutual
  pub sanitize : Json → Json
  sanitize null = null
  sanitize (bool b) = bool b
  sanitize (num n) = num n
  sanitize (str s) = str s
  sanitize (arr xs) = arr (sanitize_items xs)
  sanitize (obj fs) = obj (sanitize_fields fs)

  pub sanitize_items : Items → Items
  sanitize_items nil = nil
  sanitize_items (cons x xs) = cons (sanitize x) (sanitize_items xs)

  pub sanitize_fields : Fields → Fields
  sanitize_fields end = end
  sanitize_fields (field k v fs) =
      let rest = sanitize_fields fs in
      let kept = field k (sanitize v) rest in if is_prohibited k then rest else kept

-- What a request sends.
pub record Inputs : Type 0 where
  pub body : Fields
  pub params : Fields
  pub query : Fields

-- `MongoSanitizeMiddleware.use`, as the handler sees it. The middleware changes three objects in place,
-- of which the handler gets the body alone: `req.query` of Express 5 is a getter that parses the URL
-- anew at each access, and its router gives each layer its own `req.params`.
unfoldable pub sanitize_inputs : Inputs → Inputs
sanitize_inputs r = record r { body = sanitize_fields r.body }

HasNoDot : String → Type 0
HasNoDot Text.[] = Unit {0}
HasNoDot (Text.◌∷◌ c s) = ((code c == b'.') ≡ false) × HasNoDot s

-- A key that does not start with `$` and whose characters are all other than a dot.
unfoldable pub IsPermitted : String → Type 0
unfolding HasNoDot
IsPermitted Text.[] = Unit {0}
IsPermitted (Text.◌∷◌ c s) = ((code c == b'$') ≡ false) × HasNoDot (Text.◌∷◌ c s)

has_dot_iff : (s : String) → (has_dot s ≡ false) ↔ HasNoDot s
unfolding has_dot HasNoDot
has_dot_iff Text.[] = (λ h. tt, λ h. refl)
has_dot_iff (Text.◌∷◌ c s) =
    let rest = has_dot_iff s in
    (
      λ h. (ground (arith, h), rest.0 (ground (arith, h))),
      λ (h, hs). let e = rest.1 hs in ground (arith, h, e),
    )

is_prohibited_iff : (k : String) → (is_prohibited k ≡ false) ↔ IsPermitted k
unfolding is_prohibited IsPermitted starts_with_dollar has_dot HasNoDot
is_prohibited_iff Text.[] = (λ h. tt, λ h. refl)
is_prohibited_iff (Text.◌∷◌ c s) =
    let rest = has_dot_iff (Text.◌∷◌ c s) in
    (
      λ h. (ground (arith, h), rest.0 (ground (arith, h))),
      λ (h, hs). let e = rest.1 hs in ground (arith, h, e),
    )

-- Only permitted keys, at any depth.
unfoldable mutual
  pub IsClean : Json → Type 0
  IsClean null = Unit {0}
  IsClean (bool b) = Unit {0}
  IsClean (num n) = Unit {0}
  IsClean (str s) = Unit {0}
  IsClean (arr xs) = IsCleanItems xs
  IsClean (obj fs) = IsCleanFields fs

  pub IsCleanItems : Items → Type 0
  IsCleanItems nil = Unit {0}
  IsCleanItems (cons x xs) = IsClean x × IsCleanItems xs

  pub IsCleanFields : Fields → Type 0
  IsCleanFields end = Unit {0}
  IsCleanFields (field k v fs) = IsPermitted k × IsClean v × IsCleanFields fs

clean_field :
    (k : String) (v : Json) (fs : Fields)
    → IsClean v
    → IsCleanFields fs
    → IsCleanFields (if is_prohibited k then fs else field k v fs)
unfolding IsClean
clean_field k v fs a b = elim (Bool-cases (is_prohibited k)) [
  | inl e ↦ rw e b
  | inr e ↦ rw e ((is_prohibited_iff k).0 e, a, b)
]

mutual
  unfolding sanitize IsClean

  clean : (v : Json) → IsClean (sanitize v)
  clean null = tt
  clean (bool b) = tt
  clean (num n) = tt
  clean (str s) = tt
  clean (arr xs) = clean_items xs
  clean (obj fs) = clean_fields fs

  clean_items : (xs : Items) → IsCleanItems (sanitize_items xs)
  clean_items nil = tt
  clean_items (cons x xs) = (clean x, clean_items xs)

  clean_fields : (fs : Fields) → IsCleanFields (sanitize_fields fs)
  clean_fields end = tt
  clean_fields (field k v fs) =
      clean_field k (sanitize v) (sanitize_fields fs) (clean v) (clean_fields fs)

-- A sanitized value has no key that starts with `$` or contains a dot, at any depth.
pub sanitize-IsClean : (v : Json) → IsClean (sanitize v)
sanitize-IsClean v = clean v

-- What the middleware leaves at a key is what was sent there, sanitized.
get_permitted :
    (k : String) (fs : Fields)
    → IsPermitted k
    → get k (sanitize_fields fs) ≡ Option.map sanitize (get k fs)
unfolding get sanitize_fields
get_permitted k end h = refl
get_permitted k (field j w fs) h =
    let rest = get_permitted k fs h in
    elim (Bool-cases (str_eq j k)) [
      | inl same ↦
          let kept : is_prohibited j ≡ false =
            ap is_prohibited ((eq_iff j k).0 same) ∙ (is_prohibited_iff k).1 h in
          rw (kept, same) refl
      | inr other ↦ elim (Bool-cases (is_prohibited j)) [
        | inl q ↦ rw (q, other) rest
        | inr q ↦ rw (q, other) rest
      ]
    ]

-- Behind the middleware the body of a request has no key that starts with `$` or contains a dot,
-- at any depth, and under every other key what was sent there, sanitized. The query is as it was
-- sent.
pub sanitize_inputs-IsClean :
    (r : Inputs)
    → let s = sanitize_inputs r in
      IsCleanFields s.body
      × ((k : String) → IsPermitted k → get k s.body ≡ Option.map sanitize (get k r.body))
      × (s.query ≡ r.query)
unfolding sanitize_inputs
sanitize_inputs-IsClean r = (clean_fields r.body, λ k h. get_permitted k r.body h, refl)

mutual
  unfolding sanitize IsClean

  same : (v : Json) → IsClean v → sanitize v ≡ v
  same null h = refl
  same (bool b) h = refl
  same (num n) h = refl
  same (str s) h = refl
  same (arr xs) h = ap arr (same_items xs h)
  same (obj fs) h = ap obj (same_fields fs h)

  same_items : (xs : Items) → IsCleanItems xs → sanitize_items xs ≡ xs
  same_items nil h = refl
  same_items (cons x xs) (h, hs) = ap₂ cons (same x h) (same_items xs hs)

  same_fields : (fs : Fields) → IsCleanFields fs → sanitize_fields fs ≡ fs
  same_fields end h = refl
  same_fields (field k v fs) (e, h, hs) =
      rw ((is_prohibited_iff k).1 e) (ap₂ (field k) (same v h) (same_fields fs hs))

-- A value without prohibited keys is left as it was sent, and sanitizing twice is sanitizing once.
pub sanitize_of_IsClean :
    (v : Json) → (IsClean v → sanitize v ≡ v) × (sanitize (sanitize v) ≡ sanitize v)
sanitize_of_IsClean v = (same v, same (sanitize v) (clean v))
