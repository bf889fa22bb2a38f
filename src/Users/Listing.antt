-- ===== src/Users/Listing.antt =====
-- src/common/utils/pagination.util.ts and `UsersService.listUsers`. Page and limit are at least 1, as
-- `PaginationQueryDto` demands. The regular expressions of MongoDB are a parameter.
use Prim.Native.Char.{Char, code}
use Prim.Native.String as Text
use nestjs_jwt.Prelude.{
  ℕ, ◌+◌, ◌-◌, ◌*◌, ◌/◌, String, Bool, true, not, ◌&&◌, Option, none, some, List, [], ◌∷◌, ◌==◌,
  if◌then◌else◌, any,
}
use nestjs_jwt.Users.Schema.{User}
use nestjs_jwt.Users.Collection.{Collection}

-- `/[.*+?^${}()|[\]\\]/`
unfoldable pub is_special : Char → Bool
is_special c =
    any (λ k. code c == k)
      (b'.' ∷ b'*' ∷ b'+' ∷ b'?' ∷ b'^' ∷ b'$' ∷ b'{' ∷ b'}' ∷ b'(' ∷ b')' ∷ b'|' ∷ b'[' ∷ b']'
        ∷ b'\\' ∷ [])

abbrev pub backslash : Char
backslash = "\\"

unfoldable pub escape_regex : String → String
escape_regex Text.[] = ""
escape_regex (Text.◌∷◌ c s) =
    let rest = escape_regex s in
    if is_special c then Text.◌∷◌ backslash (Text.◌∷◌ c rest) else Text.◌∷◌ c rest

-- `RegExp.test` with the flag `i`: a pattern, then a text.
abbrev pub RegExp : Type 0
RegExp = String → String → Bool

unfoldable pub build_search_filter : RegExp → Option String → List (User → String) → User → Bool
build_search_filter regex none fields u = true
build_search_filter regex (some Text.[]) fields u = true
build_search_filter regex (some (Text.◌∷◌ c s)) fields u =
    any (λ field. regex (escape_regex (Text.◌∷◌ c s)) (field u)) fields

pub record PaginatedResult (A : Type 0) : Type 0 where
  pub items : List A
  pub total : ℕ
  pub page : ℕ
  pub limit : ℕ
  pub total_pages : ℕ

-- `Math.ceil(total / limit) || 1`
abbrev pub page_count : ℕ → ℕ → ℕ
page_count total limit = let n = (total + (limit - 1)) / limit in if n == 0 then 1 else n

pub record PaginationQueryDto : Type 0 where
  pub page : ℕ
  pub limit : ℕ
  pub search : Option String

module _ (c : Collection) where
  unfoldable pub paginate : (User → Bool) → ℕ → ℕ → c.Store → PaginatedResult User
  paginate p page limit s =
      let skip = (page - 1) * limit in
      let total = c.count_documents p s in
      record {
        items = c.find p skip limit s;
        total = total;
        page = page;
        limit = limit;
        total_pages = page_count total limit;
      }

  abbrev pub listed : RegExp → Option String → User → Bool
  listed regex search u =
      not u.is_deleted
      && build_search_filter regex search (User.first_name ∷ User.last_name ∷ User.email ∷ []) u

  unfoldable pub list_users : RegExp → PaginationQueryDto → c.Store → PaginatedResult User
  list_users regex query s = paginate (listed regex query.search) query.page query.limit s
