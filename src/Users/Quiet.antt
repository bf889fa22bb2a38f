-- ===== src/Users/Quiet.antt =====
-- What relates an account before and after the updates of src/users/users.service.ts, when each update
-- relates them: a stored password that is kept, a session that is kept or closed.
use nestjs_jwt.Prelude.{
  ℕ, ◌≡◌, refl, subst, sym, ap, ◌∙◌, ◌⊎◌, inl, inr, String, Option, none, some, List, arith,
  Bool-cases, ◌==◌, ==_iff, get_or,
}
use mathlib.Core.Option
use nestjs_jwt.Users.Schema.{User}
use nestjs_jwt.Users.Collection.{update_first}
use nestjs_jwt.Users.Documents.{get, KeepsId, get-update_self, get-update_ne}
use nestjs_jwt.Users.Updates.{
  by_id, succeed_login, fail_login, put_refresh_token_hash, put_reset_token, put_verification_token,
  put_verified, put_deleted, set_profile, put_password, drop_reset_token,
}
use nestjs_jwt.Users.Changes.{Edits, done, edit, IsQuiet, IsOfPasswords}

-- An update of one account changes no other.
pub get-update_cases :
    (i j : ℕ) (f : User → User) (ds : List User) {u : User}
    → KeepsId f
    → get j ds ≡ some u
    → (get j (update_first (by_id i) f ds) ≡ some u)
      ⊎ ((i ≡ j) × (get j (update_first (by_id i) f ds) ≡ some (f u)))
get-update_cases i j f ds k e = elim (Bool-cases (j == i)) [
  | inl same ↦
      let here = sym ((==_iff j i).0 same) in
      inr (here, rw here (get-update_self j f ds k ∙ ap (Option.map f) e))
  | inr other ↦ inl (get-update_ne i j f ds k (λ p. ground (arith, other, p)) ∙ e)
]

module _ (R : User → User → Type 0) (R-refl : (u : User) → R u u)
    (R-trans : (u v w : User) → R u v → R v w → R u w) where
  -- An update that relates every account to the updated one, unless `C`.
  abbrev pub Unless : Type 0 → (User → User) → Type 0
  Unless C f = ((u : User) → R u (f u)) ⊎ C

  -- The account afterwards is related to the one before, unless `C`.
  abbrev pub Related : Type 0 → User → Option User → Type 0
  Related C u o = (v : User) × (o ≡ some v) × (R u v ⊎ C)

  pub Related-same :
      {C : Type 0} {u v : User} (o : Option User) → Related C u o → o ≡ some v → R u v ⊎ C
  Related-same {C} {u} o (w, e, r) e' = subst (λ x. R u x ⊎ C) (ap (λ x. get_or x w) (sym e ∙ e')) r

  pub Related-here : {C : Type 0} {u : User} (o : Option User) → o ≡ some u → Related C u o
  Related-here {u = u} o e = (u, e, inl (R-refl u))

  Related-trans :
      {C : Type 0} (u v : User) (o : Option User) → R u v ⊎ C → Related C v o → Related C u o
  Related-trans u v o (inl r) (w, e, inl r') = (w, e, inl (R-trans u v w r r'))
  Related-trans u v o (inl r) (w, e, inr c) = (w, e, inr c)
  Related-trans u v o (inr c) (w, e, r) = (w, e, inr c)

  pub Edits-Related :
      {C : Type 0} {i : ℕ} {ds es : List User} (j : ℕ) {u : User}
      → Edits (Unless C) i ds es
      → get j ds ≡ some u
      → Related C u (get j es)
  Edits-Related {es = es} j (done p) e = Related-here (get j es) (ap (get j) p ∙ e)
  Edits-Related {C} {i} {ds = ds} {es = fs} j {u} (edit f k p m rest) e =
      elim (get-update_cases i j f ds k.keeps_id e) [
        | inl same ↦ Edits-Related j rest (ap (get j) m ∙ same)
        | inr (_, moved) ↦
            Related-trans u (f u) (get j fs) (elim p [ inl r ↦ inl (r u) | inr c ↦ inr c ])
              (Edits-Related j rest (ap (get j) m ∙ moved))
      ]

abbrev pub KeepsPassword : User → User → Type 0
KeepsPassword u v = v.password ≡ u.password

pub KeepsPassword-refl : (u : User) → KeepsPassword u u
KeepsPassword-refl u = refl

pub KeepsPassword-trans : (u v w : User) → KeepsPassword u v → KeepsPassword v w → KeepsPassword u w
KeepsPassword-trans u v w a b = b ∙ a

-- The session goes on, or is closed.
abbrev pub KeepsSession : User → User → Type 0
KeepsSession u v = (v.refresh_token_hash ≡ u.refresh_token_hash) ⊎ (v.refresh_token_hash ≡ none)

pub KeepsSession-refl : (u : User) → KeepsSession u u
KeepsSession-refl u = inl refl

pub KeepsSession-trans : (u v w : User) → KeepsSession u v → KeepsSession v w → KeepsSession u w
KeepsSession-trans u v w a (inr b) = inr b
KeepsSession-trans u v w (inl a) (inl b) = inl (b ∙ a)
KeepsSession-trans u v w (inr a) (inl b) = inr (b ∙ a)

-- A failed login keeps both.
fail_login_keeps :
    (attempts : ℕ) (until : Option ℕ) (u : User)
    → ((fail_login attempts until u).password ≡ u.password)
      × ((fail_login attempts until u).refresh_token_hash ≡ u.refresh_token_hash)
unfolding fail_login
fail_login_keeps attempts none u = (refl, refl)
fail_login_keeps attempts (some t) u = (refl, refl)

pub KeepsPassword-IsQuiet :
    (C : Type 0) → IsQuiet (Unless KeepsPassword KeepsPassword-refl KeepsPassword-trans C)
unfolding succeed_login put_refresh_token_hash put_reset_token put_verification_token put_verified
    put_deleted set_profile
KeepsPassword-IsQuiet C = record {
  of_succeed_login = λ now meta. inl (λ u. refl);
  of_fail_login = λ attempts until. inl (λ u. (fail_login_keeps attempts until u).0);
  of_no_session = inl (λ u. refl);
  of_reset_token = λ h expires. inl (λ u. refl);
  of_verification_token = λ h expires. inl (λ u. refl);
  of_verified = inl (λ u. refl);
  of_deleted = λ now. inl (λ u. refl);
  of_profile = λ t dto. inl (λ u. refl);
}

pub KeepsPassword-new_session :
    (C : Type 0) (h : String)
    → Unless KeepsPassword KeepsPassword-refl KeepsPassword-trans C
        (put_refresh_token_hash (some h))
unfolding put_refresh_token_hash
KeepsPassword-new_session C h = inl (λ u. refl)

pub KeepsSession-IsQuiet :
    (C : Type 0) → IsQuiet (Unless KeepsSession KeepsSession-refl KeepsSession-trans C)
unfolding succeed_login put_refresh_token_hash put_reset_token put_verification_token put_verified
    put_deleted set_profile
KeepsSession-IsQuiet C = record {
  of_succeed_login = λ now meta. inl (λ u. inl refl);
  of_fail_login = λ attempts until. inl (λ u. inl (fail_login_keeps attempts until u).1);
  of_no_session = inl (λ u. inr refl);
  of_reset_token = λ h expires. inl (λ u. inl refl);
  of_verification_token = λ h expires. inl (λ u. inl refl);
  of_verified = inl (λ u. inl refl);
  of_deleted = λ now. inl (λ u. inl refl);
  of_profile = λ t dto. inl (λ u. inl refl);
}

pub KeepsSession-IsOfPasswords :
    (C : Type 0) → IsOfPasswords (Unless KeepsSession KeepsSession-refl KeepsSession-trans C)
unfolding put_password drop_reset_token
KeepsSession-IsOfPasswords C = record {
  of_password = λ h. inl (λ u. inr refl);
  of_reset = λ h. inl (λ u. inr refl);
}
