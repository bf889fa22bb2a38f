-- ===== src/App/Handlers.antt =====
-- The handlers of the controllers as steps of the services: each changes the documents as one call of
-- a service does.
use nestjs_jwt.Prelude.{ℕ, true, ◌≡◌, refl, Option, none, some}
use nestjs_jwt.Common.Role.{AuthenticatedUser}
use nestjs_jwt.Common.Action.{Result, ok, err, Action, pure, ◌>>=◌}
use nestjs_jwt.Common.Response.{Returned}
use nestjs_jwt.Users.Documents.{get}
use nestjs_jwt.Auth.Deps.{Deps, State}
use nestjs_jwt.Users.Updates.{RequestMetadata}
use nestjs_jwt.Users.Service as UsersService
use nestjs_jwt.Auth.Service as AuthService
use nestjs_jwt.Auth.Service.{Method, attempt}
use nestjs_jwt.Auth.Login.{documents}
use nestjs_jwt.Auth.Steps.{
  Step, Reach, here, next, registers, logs_in, refreshes, logs_out, changes_password, forgets,
  resets, verifies, resends, updates_profile, deletes,
}
use nestjs_jwt.App.Data.{Data}
use nestjs_jwt.App.AuthController.{ResetPasswordDto}
use nestjs_jwt.App.AuthController as AuthController
use nestjs_jwt.App.UserControllers as UserControllers
use nestjs_jwt.App.Routes.{
  Call, route_of, is_public, register_call, login_call, refresh_call, logout_call,
  change_password_call, forgot_password_call, reset_password_call, verify_email_call,
  resend_verification_call, get_profile_call, update_profile_call, list_call, remove_call,
  check_call,
}
use nestjs_jwt.App.Pipeline.{Framework, Request, as_user, handle}

-- What is done with a result after the last call changes no state.
then_pure :
    {S A B : Type 0} (m : Action S A) (f : A → B) (s : S) → ((m >>= λ a. pure (f a)) s).1 ≡ (m s).1
then_pure {S = S} {B = B} m f s =
    elim (m s).0
      as (λ r.
        let out : Result B × S = elim r [ ok a ↦ pure (f a) (m s).1 | err e ↦ (err e, (m s).1) ] in
        out.1 ≡ (m s).1) [ ok a ↦ refl | err e ↦ refl ]

module _ (d : Deps) (f : Framework) where
  open d use {collection, text}

  -- The user is there, with an identifier.
  abbrev pub IsOwn : Option AuthenticatedUser → ℕ → Type 0
  IsOwn user i = (u : AuthenticatedUser) × (user ≡ some u) × (u.user_id ≡ i)

  -- What a step has from the call and the user: the password that it may store, and the account that it
  -- is for. Other steps are those of public routes.
  abbrev pub IsOfCall :
      Call → Option AuthenticatedUser → {s t : State collection} → Step d s t → Type 0
  IsOfCall call user (registers dto i salt raw now fresh) = call ≡ register_call dto
  IsOfCall call user (changes_password i dto salt) =
      (call ≡ change_password_call dto) × IsOwn user i
  IsOfCall call user (resets token new salt now) =
      (dto : ResetPasswordDto) × (call ≡ reset_password_call dto) × (new ≡ dto.new_password)
  IsOfCall call user (logs_out i) = IsOwn user i
  IsOfCall call user (resends i raw now) = IsOwn user i
  IsOfCall call user (updates_profile i dto) = IsOwn user i
  IsOfCall call user (deletes i now) = call ≡ remove_call (some i)
  IsOfCall call user _ = is_public (route_of call) ≡ some true

  -- What holds of the state before a call and after each of its steps holds after its handler.
  module _ (G : State collection → Type 0) where
    calls :
        {A : Type 0} (m : Method d A) (g : A → Returned Data) (s : State collection)
        → G (m s).1
        → G ((m >>= λ a. pure (g a)) s).1
    calls m g s k = rw (then_pure m g s) k

    as_user-keeps :
        (user : Option AuthenticatedUser) (h : AuthenticatedUser → Method d (Returned Data))
        (s : State collection)
        → G s
        → ((u : AuthenticatedUser) → user ≡ some u → G (h u s).1)
        → G (as_user d f user h s).1
    as_user-keeps none h s z k = z
    as_user-keeps (some u) h s z k = k u refl

    pub handle-keeps :
        (call : Call) (user : Option AuthenticatedUser) (r : Request) (s : State collection)
        → get r.identifier (documents d s) ≡ none
        → G s
        → ((t : State collection) (st : Step d s t) → IsOfCall call user st → G t)
        → G (handle d f call user r s).1
    unfolding handle AuthController.register AuthController.login AuthController.refresh
        AuthController.logout AuthController.change_password AuthController.forgot_password
        AuthController.reset_password AuthController.verify_email AuthController.resend_verification
        UserControllers.get_profile UserControllers.update_profile UserControllers.list
        UserControllers.remove is_public
    handle-keeps (register_call dto) user r s fresh z k =
        calls (AuthService.register d dto r.identifier r.salt r.raw_token r.now) _ s
          (k _ (registers dto r.identifier r.salt r.raw_token r.now fresh) refl)
    handle-keeps (login_call dto ip user_agent) user r s fresh z k =
        let meta : RequestMetadata = record { ip_address = some ip; user_agent = user_agent } in
        calls (AuthService.login d dto meta r.now) _ s (k _ (logs_in dto meta r.now) refl)
    handle-keeps (refresh_call dto) user r s fresh z k =
        calls (AuthService.refresh_tokens d dto.refresh_token r.now) _ s
          (k _ (refreshes dto.refresh_token r.now) refl)
    handle-keeps logout_call user r s fresh z k =
        as_user-keeps user _ s z (λ u e.
          calls (AuthService.logout d u.user_id) _ s (k _ (logs_out u.user_id) (u, e, refl)))
    handle-keeps (change_password_call dto) user r s fresh z k = as_user-keeps user _ s z (λ u e.
        calls (AuthService.change_password d u.user_id dto r.salt) _ s
          (k _ (changes_password u.user_id dto r.salt) (refl, (u, e, refl))))
    handle-keeps (forgot_password_call dto) user r s fresh z k =
        calls (AuthService.forgot_password d dto.email r.raw_token r.now) _ s
          (k _ (forgets dto.email r.raw_token r.now) refl)
    handle-keeps (reset_password_call dto) user r s fresh z k =
        calls (AuthService.reset_password d dto.token dto.new_password r.salt r.now) _ s
          (k _ (resets dto.token dto.new_password r.salt r.now) (dto, refl, refl))
    handle-keeps (verify_email_call dto) user r s fresh z k =
        calls (AuthService.verify_email d dto.token r.now) _ s (k _ (verifies dto.token r.now) refl)
    handle-keeps resend_verification_call user r s fresh z k = as_user-keeps user _ s z (λ u e.
        calls (AuthService.resend_verification_email d u.user_id r.raw_token r.now) _ s
          (k _ (resends u.user_id r.raw_token r.now) (u, e, refl)))
    handle-keeps get_profile_call user r s fresh z k = as_user-keeps user _ s z (λ u e.
        calls (attempt d (λ t. (UsersService.find_active_by_id_or_throw collection u.user_id t, t)))
          _ s z)
    handle-keeps (update_profile_call dto) user r s fresh z k = as_user-keeps user _ s z (λ u e.
        calls (attempt d (UsersService.update_profile collection text u.user_id dto)) _ s
          (k _ (updates_profile u.user_id dto) (u, e, refl)))
    handle-keeps (list_call dto) user r s fresh z k = z
    handle-keeps (remove_call none) user r s fresh z k = z
    handle-keeps (remove_call (some i)) user r s fresh z k = k _ (deletes i r.now) refl
    handle-keeps check_call user r s fresh z k = z

  pub handle-Reach :
      (call : Call) (user : Option AuthenticatedUser) (r : Request) (s : State collection)
      → get r.identifier (documents d s) ≡ none
      → Reach d s (handle d f call user r s).1
  handle-Reach call user r s fresh =
      handle-keeps (Reach d s) call user r s fresh here (λ t st c. next here st)
