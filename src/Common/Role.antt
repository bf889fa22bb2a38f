-- ===== src/Common/Role.antt =====
-- src/common/enums/role.enum.ts and the two payload shapes of src/common/interfaces.
use nestjs_jwt.Prelude.{ℕ, String, ◌≡◌, ◌↔◌, Bool, true, false, arith}

pub data Role : Type 0 where
  user admin : Role

-- `===` on roles.
abbrev pub role_eq : Role → Role → Bool
role_eq user user = true
role_eq admin admin = true
role_eq _ _ = false

pub role_eq_iff : (a b : Role) → (role_eq a b ≡ true) ↔ (a ≡ b)
role_eq_iff user user = ground arith
role_eq_iff user admin = ground arith
role_eq_iff admin user = ground arith
role_eq_iff admin admin = ground arith

-- The claims inside both tokens.
pub record JwtPayload : Type 0 where
  pub sub : ℕ
  pub email : String
  pub role : Role

-- What Passport attaches to the request.
pub record AuthenticatedUser : Type 0 where
  pub user_id : ℕ
  pub email : String
  pub role : Role
