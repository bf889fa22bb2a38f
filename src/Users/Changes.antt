-- ===== src/Users/Changes.antt =====
-- The changes of the collection that the service makes: updates of the documents with one
-- identifier, and insertions.
use nestjs_jwt.Prelude.{
  true, ℕ, Bool-cases, ==_iff, ◌==◌, inl, inr, ◌≡◌, refl, sym, ap, ◌∙◌, ◌≢◌, String, Bool, false,
  Option, none, some, List, [], ◌∷◌, ◌++◌, arith, str_eq, eq_iff, All,
}
use mathlib.Core.Option
use nestjs_jwt.Users.Schema.{User, Text}
use nestjs_jwt.Users.Collection.{update_first, has_email}
use nestjs_jwt.Users.Documents.{
  get, HasDistinctIds, HasDistinctIds-update, HasDistinctIds-append, get-update_self, get-update_ne,
}
use nestjs_jwt.Users.Updates.{
  by_id, RequestMetadata, succeed_login, fail_login, put_refresh_token_hash, put_reset_token,
  put_verification_token, put_verified, put_deleted, put_password, drop_reset_token,
  UpdateProfileDto, set_profile,
}
use nestjs_jwt.Users.Invariant.{IsSound, IsEdit}

abbrev pub HasDistinctEmails : List User → Type 0
HasDistinctEmails [] = Unit {0}
HasDistinctEmails (d ∷ ds) = (has_email d.email ds ≡ false) × HasDistinctEmails ds

pub record IsWellFormed (ds : List User) : Type 0 where
  pub ids : HasDistinctIds ds
  pub emails : HasDistinctEmails ds
  pub sound : All IsSound ds

-- Some updates of the document with identifier `i`, in order, each of which is a `P`.
pub data Edits (P : (User → User) → Type 0) (i : ℕ) : List User → List User → Type 0 where
  done : {ds es : List User} → es ≡ ds → Edits P i ds es
  edit :
      {ds es fs : List User} (f : User → User)
      → IsEdit f
      → P f
      → es ≡ update_first (by_id i) f ds
      → Edits P i es fs
      → Edits P i ds fs

-- Some updates of one document.
abbrev pub Touches : ((User → User) → Type 0) → List User → List User → Type 0
Touches P ds es = (i : ℕ) × Edits P i ds es

-- Any update at all.
abbrev pub Whatever : (User → User) → Type 0
Whatever f = Unit {0}

-- What holds of every update that neither writes a password nor opens a session.
pub record IsQuiet (P : (User → User) → Type 0) : Type 0 where
  pub of_succeed_login : (now : ℕ) (meta : RequestMetadata) → P (succeed_login now meta)
  pub of_fail_login : (attempts : ℕ) (until : Option ℕ) → P (fail_login attempts until)
  pub of_no_session : P (put_refresh_token_hash none)
  pub of_reset_token : (h : String) (expires : ℕ) → P (put_reset_token h expires)
  pub of_verification_token : (h : String) (expires : ℕ) → P (put_verification_token h expires)
  pub of_verified : P put_verified
  pub of_deleted : (now : ℕ) → P (put_deleted now)
  pub of_profile : (t : Text) (dto : UpdateProfileDto) → P (set_profile t dto)

-- What holds of the two that write a password.
pub record IsOfPasswords (P : (User → User) → Type 0) : Type 0 where
  pub of_password : (h : String) → P (put_password h)
  pub of_reset : (h : String) → P (λ u. drop_reset_token (put_password h u))

pub Whatever-IsQuiet : IsQuiet Whatever
Whatever-IsQuiet = ground arith

module _ {P : (User → User) → Type 0} where
  pub Touches-same : {ds es : List User} → es ≡ ds → Touches P ds es
  Touches-same e = (0, done e)

  pub Touches-one :
      (i : ℕ) (f : User → User) {ds es : List User}
      → IsEdit f
      → P f
      → es ≡ update_first (by_id i) f ds
      → Touches P ds es
  Touches-one i f k q e = (i, edit f k q e (done refl))

has_email-update :
    (q : User → Bool) (f : User → User) (e : String) (ds : List User)
    → IsEdit f
    → has_email e (update_first q f ds) ≡ has_email e ds
has_email-update q f e [] k = refl
has_email-update q f e (d ∷ ds) k = ground (arith, k.keeps_email d, has_email-update q f e ds k)

HasDistinctEmails-update :
    (q : User → Bool) (f : User → User) (ds : List User)
    → IsEdit f
    → HasDistinctEmails ds
    → HasDistinctEmails (update_first q f ds)
HasDistinctEmails-update q f [] k h = tt
HasDistinctEmails-update q f (d ∷ ds) k h = ground (
  arith,
  k.keeps_email d,
  has_email-update q f d.email ds k,
  HasDistinctEmails-update q f ds k h.1,
)

IsSound-update :
    (q : User → Bool) (f : User → User) (ds : List User)
    → IsEdit f
    → All IsSound ds
    → All IsSound (update_first q f ds)
IsSound-update q f [] k h = tt
IsSound-update q f (d ∷ ds) k h = ground (arith, k.keeps_sound d h.0, IsSound-update q f ds k h.1)

has_email-append :
    (e : String) (ds : List User) (u : User)
    → has_email e ds ≡ false
    → str_eq u.email e ≡ false
    → has_email e (ds ++ u ∷ []) ≡ false
has_email-append e [] u h n = ground arith
has_email-append e (d ∷ ds) u h n = ground (arith, has_email-append e ds u)

HasDistinctEmails-append :
    (ds : List User) (u : User)
    → HasDistinctEmails ds
    → has_email u.email ds ≡ false
    → HasDistinctEmails (ds ++ u ∷ [])
HasDistinctEmails-append [] u h e = (refl, tt)
HasDistinctEmails-append (d ∷ ds) u h e = ground (
  arith,
  eq_iff d.email u.email,
  eq_iff u.email d.email,
  HasDistinctEmails-append ds u h.1,
  has_email-append d.email ds u h.0,
)

IsSound-append :
    (ds : List User) (u : User) → All IsSound ds → IsSound u → All IsSound (ds ++ u ∷ [])
IsSound-append [] u h k = (k, tt)
IsSound-append (d ∷ ds) u h k = (h.0, IsSound-append ds u h.1 k)

pub Edits-IsWellFormed :
    {P : (User → User) → Type 0} {i : ℕ} {ds es : List User}
    → Edits P i ds es
    → IsWellFormed ds
    → IsWellFormed es
Edits-IsWellFormed (done e) w = rw e w
Edits-IsWellFormed {i} {ds} (edit f k q e es) w = Edits-IsWellFormed es (
    rw e (record {
      ids = HasDistinctIds-update i f ds k.keeps_id w.ids;
      emails = HasDistinctEmails-update (by_id i) f ds k w.emails;
      sound = IsSound-update (by_id i) f ds k w.sound;
    }))

pub insert-IsWellFormed :
    (ds : List User) (u : User)
    → IsWellFormed ds
    → get u.id ds ≡ none
    → has_email u.email ds ≡ false
    → IsSound u
    → IsWellFormed (ds ++ u ∷ [])
insert-IsWellFormed ds u w fresh free k = record {
  ids = HasDistinctIds-append ds u w.ids fresh;
  emails = HasDistinctEmails-append ds u w.emails free;
  sound = IsSound-append ds u w.sound k;
}

-- The documents with other identifiers are as they were.
pub Edits-others :
    {P : (User → User) → Type 0} {i : ℕ} {ds es : List User} (j : ℕ)
    → Edits P i ds es
    → j ≢ i
    → get j es ≡ get j ds
Edits-others j (done e) h = ap (get j) e
Edits-others {i} {ds} j (edit f k q e es) h =
    Edits-others j es h ∙ rw e (get-update_ne i j f ds k.keeps_id h)

-- The document keeps its address and its role, and stays deleted once it is.
abbrev pub SameAccount : Option User → Option User → Type 0
SameAccount none none = Unit {0}
SameAccount none (some v) = ⊥
SameAccount (some u) none = ⊥
SameAccount (some u) (some v) =
    (v.email ≡ u.email) × (v.role ≡ u.role) × (u.is_deleted ≡ true → v.is_deleted ≡ true)

pub SameAccount-refl : (o : Option User) → SameAccount o o
SameAccount-refl none = tt
SameAccount-refl (some u) = (refl, refl, λ e. e)

pub SameAccount-trans : (a b c : Option User) → SameAccount a b → SameAccount b c → SameAccount a c
SameAccount-trans none none none h k = tt
SameAccount-trans (some u) (some v) (some w) h k = (k.0 ∙ h.0, k.1 ∙ h.1, λ e. k.2 (h.2 e))
SameAccount-trans none (some v) c h k = absurd h
SameAccount-trans (some u) none c h k = absurd h
SameAccount-trans none none (some w) h k = absurd k
SameAccount-trans (some u) (some v) none h k = absurd k

SameAccount-map : (f : User → User) (o : Option User) → IsEdit f → SameAccount o (Option.map f o)
SameAccount-map f none k = tt
SameAccount-map f (some u) k = (k.keeps_email u, k.keeps_role u, k.keeps_deleted u)

pub Edits-SameAccount :
    {P : (User → User) → Type 0} {i : ℕ} {ds es : List User}
    → Edits P i ds es
    → SameAccount (get i ds) (get i es)
Edits-SameAccount {i} {ds} (done e) = rw e (SameAccount-refl (get i ds))
Edits-SameAccount {i} {ds} {es = fs} (edit {es} f k q e rest) =
    SameAccount-trans (get i ds) (get i es) (get i fs)
      (rw (e, get-update_self i f ds k.keeps_id) (SameAccount-map f (get i ds) k))
      (Edits-SameAccount rest)

-- So does every document.
pub Edits-accounts :
    {P : (User → User) → Type 0} {i : ℕ} {ds es : List User} (j : ℕ)
    → Edits P i ds es
    → SameAccount (get j ds) (get j es)
Edits-accounts {i} {ds} {es} j c = elim (Bool-cases (j == i)) [
  | inl e ↦ rw ((==_iff j i).0 e) (Edits-SameAccount c)
  | inr e ↦ rw (Edits-others j c (λ p. ground (arith, e, p))) (SameAccount-refl (get j ds))
]

pub SameAccount-role :
    (o : Option User) (v : User)
    → SameAccount o (some v)
    → (u : User) × (o ≡ some u) × (u.role ≡ v.role)
SameAccount-role none v h = absurd h
SameAccount-role (some u) v h = (u, refl, sym h.1)
