-- ===== src/Common/Response.antt =====
-- src/common/interceptors/response.interceptor.ts. What a controller returns is nothing, an object by
-- its two properties that are read, or another value; `V` is the type of values.
use nestjs_jwt.Prelude.{
  ◌≡◌, arith, String, Bool, true, false, ◌||◌, Option, none, some, if◌then◌else◌, get_or,
}
use nestjs_jwt.Common.Guards.{is_true}

-- A property that is missing, present with `undefined` or `null`, or present with a value.
pub data Property (A : Type 0) : Type 0 where
  missing nullish : Property A
  present : A → Property A

module _ (V : Type 0) where
  -- `whole` is the object itself as a value.
  pub data Returned : Type 0 where
    nothing : Returned
    object : (message : Property String) (data_ : Property V) (whole : V) → Returned
    value : V → Returned

  pub record ApiSuccessResponse : Type 0 where
    pub success : Bool
    pub message : String
    pub data_ : Option V

  pub data Sent : Type 0 where
    raw : Returned → Sent
    wrapped : ApiSuccessResponse → Sent

abbrev pub has : {A : Type 0} → Property A → Bool
has missing = false
has nullish = true
has (present a) = true

-- `property ?? null`
abbrev pub value_of : {A : Type 0} → Property A → Option A
value_of missing = none
value_of nullish = none
value_of (present a) = some a

module _ {V : Type 0} where
  abbrev pub success : String → Option V → Sent V
  success m v = wrapped (record { success = true; message = m; data_ = v })

  abbrev pub envelope : Returned V → Sent V
  envelope nothing = success "Request successful" none
  envelope (value v) = success "Request successful" (some v)
  envelope (object m v whole) =
      if has m || has v
      then success (get_or (value_of m) "Request successful") (value_of v)
      else success "Request successful" (some whole)

  unfoldable pub intercept : Option Bool → Returned V → Sent V
  intercept is_raw result = if is_true is_raw then raw result else envelope result

  -- An envelope as the object that a controller could return: `data` is null or a value.
  abbrev pub as_returned : ApiSuccessResponse V → V → Returned V
  as_returned b whole =
      object (present b.message) (elim b.data_ [ none ↦ nullish | some v ↦ present v ]) whole

  envelope-success :
      (r : Returned V) {b : ApiSuccessResponse V} → envelope r ≡ wrapped b → b.success ≡ true
  envelope-success nothing h = ground (arith, h)
  envelope-success (value v) h = ground (arith, h)
  envelope-success (object m v w) h = ground (arith, h)

  envelope-as_returned :
      (b : ApiSuccessResponse V) (whole : V)
      → b.success ≡ true
      → envelope (as_returned b whole) ≡ wrapped b
  envelope-as_returned b whole h = ground (arith, h)

  -- On a route that is not marked raw, the envelope that is sent for a result, returned by a
  -- controller in its turn, is sent as it is: its own message and data, neither wrapped again nor
  -- replaced by the defaults.
  pub intercept_twice :
      (r : Returned V) (b : ApiSuccessResponse V) (whole : V)
      → intercept none r ≡ wrapped b
      → intercept none (as_returned b whole) ≡ wrapped b
  unfolding intercept
  intercept_twice r b whole h = envelope-as_returned b whole (envelope-success r h)
