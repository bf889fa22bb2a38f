-- ===== src/Logger.antt =====
-- src/logger/app-logger.service.ts: what a call of the logger prints, and what `sanitize` keeps out of
-- it. A line of `console.log` is kept as the object that `JSON.stringify` is given; the clock's text is an
-- argument, and a value that is not there is `none`.
use nestjs_jwt.Prelude.{
  ◌≤◌, ◌≡◌, refl, ◌⊎◌, inl, inr, Bool-cases, String, Bool, true, Option, none, some, List, [], ◌∷◌,
  arith, str_eq, eq_iff, if◌then◌else◌, any, get_or, map, All, length,
}
use mathlib.Core.Option
use nestjs_jwt.Common.Json.{Json, str, obj, Fields, end, field, get}
use nestjs_jwt.Common.Stringify.{stringify, is_plain, is_plain-stringify}

-- The logger of a class: its context, and whether the process runs in production.
pub record AppLogger : Type 0 where
  pub context : Option String
  pub production : Bool

unfoldable pub set_context : String → AppLogger → AppLogger
set_context context l = record l { context = some context }

-- A call of a method: the message, and what goes with it.
pub data LogCall : Type 0 where
  log warn debug verbose : (message : Json) → (context : Option String) → LogCall
  error : (message : Json) → (trace : Option String) → (context : Option String) → LogCall
  auth : (message : String) → (meta : Option Fields) → LogCall

-- The objects that `console.log` gets as text, and the texts that `console.error` gets.
pub record Printed : Type 0 where
  pub out : List Fields
  pub err : List String

-- What `console.log` prints.
abbrev pub log_lines : Printed → List String
log_lines p = map (λ o. stringify (obj o)) p.out

abbrev pub sensitive_keys : List String
sensitive_keys =
    "password" ∷ "newPassword" ∷ "oldPassword" ∷ "refreshToken" ∷ "accessToken" ∷ "token" ∷ []

-- `if (key in clean) clean[key] = value`
abbrev overwrite : String → Json → Fields → Fields
overwrite k v end = end
overwrite k v (field j w fs) = field j (if str_eq j k then v else w) (overwrite k v fs)

abbrev pub redact : List String → Fields → Fields
redact [] clean = clean
redact (k ∷ ks) clean = redact ks (overwrite k (str "[REDACTED]") clean)

unfoldable pub sanitize_meta : Option Fields → Option Fields
sanitize_meta none = none
sanitize_meta (some meta) = some (redact sensitive_keys meta)

-- `...(meta ? { meta } : {})`
abbrev with_meta : Option Fields → Fields
with_meta none = end
with_meta (some meta) = field "meta" (obj meta) end

unfoldable pub payload : AppLogger → String → String → Json → Option String → Option Fields → Fields
payload l now level message context meta = field "timestamp" (str now) (
    field "level" (str level) (
      field "context" (str (get_or context (get_or l.context "Application")))
        (field "message" message (with_meta meta))))

unfoldable pub write : AppLogger → String → String → Json → Option String → Option Fields → Printed
write l now level message context meta = record {
  out = payload l now level message context meta ∷ [];
  err = [];
}

abbrev nothing : Printed
nothing = record { out = []; err = [] }

-- `if (trace) console.error(trace)`
abbrev traced : Option String → List String
traced none = []
traced (some t) = if str_eq t "" then [] else t ∷ []

unfoldable pub call : AppLogger → String → LogCall → Printed
unfolding write sanitize_meta
call l now (log message context) = write l now "LOG" message context none
call l now (warn message context) = write l now "WARN" message context none
call l now (debug message context) =
    if l.production then nothing else write l now "DEBUG" message context none
call l now (verbose message context) =
    if l.production then nothing else write l now "VERBOSE" message context none
call l now (error message trace context) = record (write l now "ERROR" message context none) {
  err = traced trace;
}
call l now (auth message meta) = write l now "AUTH" (str message) l.context (sanitize_meta meta)

get-overwrite :
    (k j : String) (v : Json) (fs : Fields)
    → get j (overwrite k v fs) ≡ (if str_eq k j then Option.map (λ _. v) (get j fs) else get j fs)
unfolding get
get-overwrite k j v end = ground arith
get-overwrite k j v (field i w fs) =
    ground (arith, eq_iff k j, eq_iff i k, eq_iff i j, get-overwrite k j v fs)

get-redact :
    (ks : List String) (j : String) (m : Fields)
    → get j (redact ks m)
      ≡ (if any (λ k. str_eq k j) ks then Option.map (λ _. str "[REDACTED]") (get j m) else get j m)
get-redact [] j m = refl
get-redact (k ∷ ks) j m = ground (
  arith,
  get-redact ks j (overwrite k (str "[REDACTED]") m),
  get-overwrite k j (str "[REDACTED]") m,
)

-- A call for an event with properties prints one object by console.log, which has its message, and
-- of the properties the six sensitive ones (the passwords and the tokens) as the placeholder and
-- every other as it is.
pub auth-redacts :
    (l : AppLogger) (now message : String) (m : Fields)
    → (p clean : Fields) × ((call l now (auth message (some m))).out ≡ p ∷ [])
      × (get "message" p ≡ some (str message))
      × (get "meta" p ≡ some (obj clean))
      × ((j : String)
          → get j clean ≡ (
              if any
                (λ k. str_eq k j)
                ("password" ∷ "newPassword" ∷ "oldPassword" ∷ "refreshToken" ∷ "accessToken"
                  ∷ "token" ∷ [])
              then Option.map (λ _. str "[REDACTED]") (get j m)
              else get j m))
unfolding call write payload sanitize_meta get
auth-redacts l now message m = (
  payload l now "AUTH" (str message) l.context (some (redact sensitive_keys m)),
  redact sensitive_keys m,
  refl,
  refl,
  refl,
  λ j. get-redact sensitive_keys j m,
)

-- What a call prints by console.log is at most one line: no character of its text is below the
-- space, so that it has no line break and no message can pass for a line of its own. Beside it, a
-- call prints only the trace that an error is given, as it is.
pub call-lines :
    (l : AppLogger) (now : String) (c : LogCall)
    → (length (call l now c).out ≤ 1)
      × All (λ line. is_plain line ≡ true) (log_lines (call l now c))
      × (((call l now c).err ≡ [])
          ⊎ ((message : Json) × (trace : String) × (context : Option String) × (c
                ≡ error message (some trace) context)
              × ((call l now c).err ≡ trace ∷ [])))
unfolding call write sanitize_meta
call-lines l now c = (ground arith, plain (call l now c).out, traces c)
  where
    plain :
        (ps : List Fields) → All (λ line. is_plain line ≡ true) (map (λ o. stringify (obj o)) ps)
    plain [] = tt
    plain (p ∷ ps) = (is_plain-stringify (obj p), plain ps)

    quiet : (p : Printed) → p.err ≡ [] → (if l.production then nothing else p).err ≡ []
    quiet p e = ground (arith, e)

    traces :
        (c : LogCall)
        → ((call l now c).err ≡ [])
          ⊎ ((message : Json) × (trace : String) × (context : Option String) × (c
                ≡ error message (some trace) context)
              × ((call l now c).err ≡ trace ∷ []))
    traces (log message context) = inl refl
    traces (warn message context) = inl refl
    traces (debug message context) = inl (quiet (write l now "DEBUG" message context none) refl)
    traces (verbose message context) = inl (quiet (write l now "VERBOSE" message context none) refl)
    traces (error message none context) = inl refl
    traces (error message (some t) context) = elim (Bool-cases (str_eq t "")) [
      | inl e ↦ inl (rw e refl)
      | inr e ↦ inr (message, t, context, refl, rw e refl)
    ]
    traces (auth message meta) = inl refl
