-- ===== src/Users/Collection.antt =====
-- The Mongoose model of `User` that the service is given: the calls that the service makes of it,
-- with their documented effect on the documents, which are listed in the order of their insertion. A filter is a test on a document
-- and an update document is a function on it. A limit of 0, which MongoDB reads as none, is not
-- described.
use nestjs_jwt.Prelude.{
  ℕ, ◌≤◌, ◌≡◌, refl, String, Bool, Option, none, some, List, [], ◌∷◌, ◌++◌, if◌then◌else◌, str_eq,
  any, filter, take, drop, length,
}
use mathlib.Core.Option
use mathlib.Core.List.{Permᴰ}
use nestjs_jwt.Users.Schema.{User}

abbrev pub first : (User → Bool) → List User → Option User
first p [] = none
first p (d ∷ ds) = if p d then some d else first p ds

abbrev pub update_first : (User → Bool) → (User → User) → List User → List User
update_first p f [] = []
update_first p f (d ∷ ds) = if p d then f d ∷ ds else d ∷ update_first p f ds

-- `email` has a unique index, over deleted documents too.
abbrev pub has_email : String → List User → Bool
has_email e ds = any (λ d. str_eq d.email e) ds

pub record Collection : Type 1 where
  pub Store : Type 0
  pub docs : Store → List User
  pub find_one : (User → Bool) → Store → Option User
  pub update_one : (User → Bool) → (User → User) → Store → Store
  pub find_one_and_update : (User → Bool) → (User → User) → Store → Option User × Store
  pub create : User → Store → Option Store
  pub find : (User → Bool) → ℕ → ℕ → Store → List User
  pub count_documents : (User → Bool) → Store → ℕ
  pub find_one_law : (p : User → Bool) (s : Store) → find_one p s ≡ first p (docs s)
  pub update_one_law :
      (p : User → Bool) (f : User → User) (s : Store)
      → docs (update_one p f s) ≡ update_first p f (docs s)
  pub find_one_and_update_law :
      (p : User → Bool) (f : User → User) (s : Store)
      → let (r, s') = find_one_and_update p f s in
        (r ≡ Option.map f (first p (docs s))) × (docs s' ≡ update_first p f (docs s))
  pub create_law :
      (u : User) (s : Store)
      → Option.map docs (create u s)
        ≡ (if has_email u.email (docs s) then none else some (docs s ++ u ∷ []))
  -- Without a sort, MongoDB documents no order: each call has its own.
  pub find_law :
      (p : User → Bool) (skip limit : ℕ) (s : Store)
      → 1 ≤ limit
      → (ds : List User) × Permᴰ ds (filter p (docs s))
        × (find p skip limit s ≡ take limit (drop skip ds))
  pub count_documents_law :
      (p : User → Bool) (s : Store) → count_documents p s ≡ length (filter p (docs s))

pub map_self {ℓ} : {A : Type ℓ} (o : Option A) → Option.map (λ a. a) o ≡ o
map_self none = refl
map_self (some a) = refl

pub perm_refl : (ds : List User) → Permᴰ ds ds
perm_refl [] = Permᴰ.nil
perm_refl (d ∷ ds) = Permᴰ.cons refl (perm_refl ds)

-- The documents kept in a list, in memory.
abbrev pub in_memory : Collection
in_memory = record {
  Store = List User;
  docs = λ s. s;
  find_one = first;
  update_one = update_first;
  find_one_and_update = λ p f s. (Option.map f (first p s), update_first p f s);
  create = λ u s. if has_email u.email s then none else some (s ++ u ∷ []);
  find = λ p skip limit s. take limit (drop skip (filter p s));
  count_documents = λ p s. length (filter p s);
  find_one_law = λ p s. refl;
  update_one_law = λ p f s. refl;
  find_one_and_update_law = λ p f s. (refl, refl);
  create_law = λ u s. map_self _;
  find_law = λ p skip limit s h. (filter p s, perm_refl _, refl);
  count_documents_law = λ p s. refl;
}
