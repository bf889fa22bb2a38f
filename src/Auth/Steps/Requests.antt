-- ===== src/Auth/Steps/Requests.antt =====
-- Every request that writes, as one step from state to state. Requests are served one at a time.
use nestjs_jwt.Prelude.{ℕ, ◌≡◌, String, Option, none, some}
use nestjs_jwt.Users.Schema.{User}
use nestjs_jwt.Users.Documents.{get}
use nestjs_jwt.Users.Updates.{put_password, RequestMetadata, UpdateProfileDto}
use nestjs_jwt.Users.Service as Users
use nestjs_jwt.Users.Service.{user_of}
use nestjs_jwt.Auth.Deps.{Deps, State}
use nestjs_jwt.Auth.Service.{
  RegisterDto, LoginDto, ChangePasswordDto, hash_value, register, login, refresh_tokens, logout,
  change_password, forgot_password, reset_password, verify_email, resend_verification_email,
}
use nestjs_jwt.Auth.Login.{documents}
use nestjs_jwt.Auth.Passwords.{reset}

module _ (d : Deps) where
  open d use {collection, text}

  -- One request. The identifier of a new document is new.
  pub data Step (s : State collection) : State collection → Type 0 where
    registers :
        (dto : RegisterDto) (i : ℕ) (salt raw : String) (now : ℕ)
        → get i (documents d s) ≡ none
        → Step s (register d dto i salt raw now s).1
    logs_in :
        (dto : LoginDto) (meta : RequestMetadata) (now : ℕ) → Step s (login d dto meta now s).1
    refreshes : (token : String) (now : ℕ) → Step s (refresh_tokens d token now s).1
    logs_out : (i : ℕ) → Step s (logout d i s).1
    changes_password :
        (i : ℕ) (dto : ChangePasswordDto) (salt : String)
        → Step s (change_password d i dto salt s).1
    forgets : (email raw : String) (now : ℕ) → Step s (forgot_password d email raw now s).1
    resets : (token new salt : String) (now : ℕ) → Step s (reset_password d token new salt now s).1
    verifies : (token : String) (now : ℕ) → Step s (verify_email d token now s).1
    resends : (i : ℕ) (raw : String) (now : ℕ) → Step s (resend_verification_email d i raw now s).1
    updates_profile :
        (i : ℕ) (dto : UpdateProfileDto)
        → Step s (record s { store = (Users.update_profile collection text i dto s.store).1 })
    deletes : (i now : ℕ) → Step s (record s { store = Users.soft_delete collection i now s.store })

  pub data Reach (s : State collection) : State collection → Type 0 where
    here : Reach s s
    next : {t u : State collection} → Reach s t → Step t u → Reach s u

  pub Reach-trans : {s t u : State collection} → Reach s t → Reach t u → Reach s u
  Reach-trans r here = r
  Reach-trans r (next q st) = next (Reach-trans r q) st

  -- The two steps that write a password.
  abbrev pub WritesPassword : {s t : State collection} → Step s t → Type 0
  WritesPassword (changes_password i dto salt) = Unit {0}
  WritesPassword (resets token new salt now) = Unit {0}
  WritesPassword _ = ⊥

  -- The two steps that open a session.
  abbrev pub OpensSession : {s t : State collection} → Step s t → Type 0
  OpensSession (logs_in dto meta now) = Unit {0}
  OpensSession (refreshes token now) = Unit {0}
  OpensSession _ = ⊥

  -- A registration, which inserts a document.
  abbrev pub Registers : {s t : State collection} → Step s t → Type 0
  Registers (registers dto i salt raw now fresh) = Unit {0}
  Registers _ = ⊥

  -- The update that writes a password is a `P`.
  abbrev pub Writes : ((User → User) → Type 0) → {s t : State collection} → Step s t → Type 0
  Writes P (changes_password i dto salt) = P (put_password (hash_value d dto.new_password salt))
  Writes P (resets token new salt now) = P (reset d new salt)
  Writes P _ = Unit {0}

  -- The account that a step is for, where the request names it.
  abbrev pub owner : {s t : State collection} → Step s t → Option ℕ
  owner (logs_out i) = some i
  owner (changes_password i dto salt) = some i
  owner (resends i raw now) = some i
  owner (updates_profile i dto) = some i
  owner (deletes i now) = some i
  owner _ = none
