-- ===== src/Common/Guards.antt =====
-- src/common/guards. What `Reflector` finds for
-- a route is an argument.
use nestjs_jwt.Prelude.{Bool, true, false, Option, none, some, List, [], ◌∷◌, if◌then◌else◌, any}
use nestjs_jwt.Common.Role.{Role, role_eq, AuthenticatedUser}

-- `if (isPublic)` on a value that may be undefined.
abbrev pub is_true : Option Bool → Bool
is_true none = false
is_true (some b) = b

-- `JwtAuthGuard.canActivate`, where `passport` is what `AuthGuard('jwt')` decides.
unfoldable pub jwt_can_activate : {A : Type 0} → Option Bool → (Bool → A) → A → A
jwt_can_activate is_public return passport = if is_true is_public then return true else passport

-- `roles.includes(role)`
abbrev pub includes : Role → List Role → Bool
includes r rs = any (λ q. role_eq q r) rs

abbrev pub has_role : List Role → Option AuthenticatedUser → Bool
has_role rs none = false
has_role rs (some u) = includes u.role rs

-- `RolesGuard.canActivate`
unfoldable pub roles_can_activate : Option (List Role) → Option AuthenticatedUser → Bool
roles_can_activate none u = true
roles_can_activate (some []) u = true
roles_can_activate (some (r ∷ rs)) u = has_role (r ∷ rs) u
