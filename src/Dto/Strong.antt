-- ===== src/Dto/Strong.antt =====
-- The pipe of src/main.ts and the passwords that src/auth/auth.service.ts stores.
use nestjs_jwt.Prelude.{
  ◌≡◌, sym, ap, subst, ◌∙◌, inl, inr, String, Option, none, some, List, [], ◌∷◌, All,
}
use nestjs_jwt.Common.Validation.{IsStrong}
use nestjs_jwt.Common.Role.{AuthenticatedUser}
use nestjs_jwt.Users.Schema.{User}
use nestjs_jwt.Users.Changes.{IsWellFormed}
use nestjs_jwt.Users.Documents.{get}
use nestjs_jwt.Auth.Deps.{Deps, State}
use nestjs_jwt.Auth.Login.{documents}
use nestjs_jwt.Auth.Steps.{Step, registers, changes_password, resets}
use nestjs_jwt.Auth.History.{Reach-IsWellFormed}
use nestjs_jwt.Auth.Strength.{IsVouched, IsGood, Step-IsVouched}
use nestjs_jwt.App.Routes.{Call}
use nestjs_jwt.App.Pipeline.{Framework, Request, serve}
use nestjs_jwt.App.Handlers.{IsOfCall, handle-keeps}
use nestjs_jwt.App.Refines.{serve-cases, serve-Reach, serve_all, AreFresh}
use nestjs_jwt.Dto.Rules.{code_units}
use nestjs_jwt.Dto.Pipe.{ValidationPipe, IsDocumented}
use nestjs_jwt.Dto.Receive.{Incoming, receive}
use nestjs_jwt.Dto.Vetted.{IsVetted, receive-IsVetted}

abbrev pub IsStrongText : String → Type 0
IsStrongText p = IsStrong (code_units p)

-- The stored hash is that of a strong password.
abbrev pub HasStrongPassword : Deps → User → Type 0
HasStrongPassword d u = IsVouched d IsStrongText u

-- The body of a request is what the sanitizer and the pipe make of what is sent.
abbrev pub IsReceived : ValidationPipe → Request → Type 0
IsReceived pipe r = (h : Incoming) × (receive pipe h ≡ some r.body)

module _ (d : Deps) (f : Framework) (pipe : ValidationPipe) where
  open d use {collection}

  vetted-IsGood :
      (call : Call) (user : Option AuthenticatedUser) {s t : State collection} (st : Step d s t)
      → IsOfCall d f call user st
      → IsVetted pipe call
      → IsGood d IsStrongText st
  vetted-IsGood call user (registers dto i salt raw now fresh) c v =
      let (_, _, _, _, _, strong) = subst (IsVetted pipe) c v in strong
  vetted-IsGood call user (changes_password i dto salt) c v = subst (IsVetted pipe) c.0 v
  vetted-IsGood call user (resets token new salt now) (dto, c, e) v =
      subst IsStrongText (sym e) (subst (IsVetted pipe) c v)
  vetted-IsGood call user _ c v = tt

  serve-strong :
      (r : Request) (s : State collection)
      → IsDocumented pipe
      → get r.identifier (documents d s) ≡ none
      → IsReceived pipe r
      → IsWellFormed (documents d s)
      → All (HasStrongPassword d) (documents d s)
      → All (HasStrongPassword d) (documents d (serve d f r s).1)
  serve-strong r s doc fresh (h, received) w strong = elim (serve-cases d f r s) [
    | inl e ↦ rw e strong
    | inr (call, user, b, _, e) ↦
        let vetted = receive-IsVetted pipe h call doc (received ∙ ap some b) in
        rw e (
          handle-keeps d f (λ t. All (HasStrongPassword d) (documents d t)) call user r s fresh
            strong
            (λ t st c.
              Step-IsVouched d IsStrongText w.ids st (vetted-IsGood call user st c vetted) strong))
  ]

  -- Whatever requests are served, where their bodies are what the sanitizer and the pipe let
  -- through, each stored password is the hash of a strong one, if each was before: with
  -- class-validator and class-transformer as documented, from a well-formed collection, where the
  -- identifier drawn for each request is that of no document.
  pub serve_all-strong :
      (rs : List Request) (s : State collection)
      → IsDocumented pipe
      → AreFresh d f rs s
      → All (IsReceived pipe) rs
      → IsWellFormed (documents d s)
      → All (HasStrongPassword d) (documents d s)
      → All (HasStrongPassword d) (documents d (serve_all d f rs s).1)
  serve_all-strong [] s doc fresh received w strong = strong
  serve_all-strong (r ∷ rs) s doc (fresh, later) (received, rest) w strong =
      serve_all-strong rs (serve d f r s).1 doc later rest
        (Reach-IsWellFormed d w (serve-Reach d f r s fresh))
        (serve-strong r s doc fresh received w strong)
