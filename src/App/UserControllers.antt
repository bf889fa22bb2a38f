-- ===== src/App/UserControllers.antt =====
-- src/users/profile.controller.ts and src/users/users.controller.ts.
use nestjs_jwt.Prelude.{ℕ, Option}
use nestjs_jwt.Common.Exceptions.Exception.{cast_error}
use nestjs_jwt.Common.Action.{pure, or_throw, ◌>>=◌, ◌>>◌}
use nestjs_jwt.Common.Response.{Returned}
use nestjs_jwt.Users.Updates.{UpdateProfileDto}
use nestjs_jwt.Users.Listing.{RegExp, PaginationQueryDto, list_users}
use nestjs_jwt.Users.Service as UsersService
use nestjs_jwt.Auth.Deps.{Deps}
use nestjs_jwt.Auth.Service.{Method, query, write, attempt}
use nestjs_jwt.App.Data.{Data, user_document, users_page, result, result_null}

module _ (d : Deps) where
  open d use {collection, text}

  unfoldable pub get_profile : ℕ → Method d (Returned Data)
  get_profile user_id = do
    user ← attempt d (λ s. (UsersService.find_active_by_id_or_throw collection user_id s, s))
    pure (result "Profile fetched successfully" (user_document user))

  unfoldable pub update_profile : ℕ → UpdateProfileDto → Method d (Returned Data)
  update_profile user_id dto = do
    user ← attempt d (UsersService.update_profile collection text user_id dto)
    pure (result "Profile updated successfully" (user_document user))

  unfoldable pub list : RegExp → PaginationQueryDto → Method d (Returned Data)
  list regex dto = do
    page ← query d (list_users collection regex dto)
    pure (result "Users fetched successfully" (users_page page))

  -- The path's `id` as Mongoose casts it; one that is no identifier throws.
  unfoldable pub remove : Option ℕ → ℕ → Method d (Returned Data)
  remove id now = do
    i ← or_throw id cast_error
    write d (UsersService.soft_delete collection i now)
    pure (result_null "User deleted successfully")
