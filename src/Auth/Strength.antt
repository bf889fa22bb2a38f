-- ===== src/Auth/Strength.antt =====
-- The stored passwords: each is the hash of a password that was vetted when src/auth/auth.service.ts was
-- given it. What vetting asks of a password is a parameter.
use nestjs_jwt.Prelude.{
  ℕ, ◌≡◌, refl, ◌∙◌, inl, inr, String, Bool, none, some, List, [], ◌∷◌, ◌++◌, All, Option-cases,
  Bool-cases,
}
use nestjs_jwt.Users.Schema.{User, new_user}
use nestjs_jwt.Users.Collection.{update_first}
use nestjs_jwt.Users.Documents.{HasDistinctIds}
use nestjs_jwt.Users.Updates.{
  by_id, put_password, put_refresh_token_hash, drop_reset_token, put_verification_token,
  succeed_login, fail_login, put_reset_token, put_verified, put_deleted, set_profile,
}
use nestjs_jwt.Users.Changes.{Edits, done, edit, IsQuiet}
use nestjs_jwt.Users.Quiet.{
  KeepsPassword, KeepsPassword-refl, KeepsPassword-trans, Unless, KeepsPassword-IsQuiet,
  KeepsPassword-new_session,
}
use nestjs_jwt.Users.Service.{user_of}
use nestjs_jwt.Auth.Deps.{Deps, State}
use nestjs_jwt.Auth.Service.{
  RegisterDto, hash_value, hash_token, verification_expiry, input_of, register,
}
use nestjs_jwt.Auth.Login.{documents, account}
use nestjs_jwt.Auth.Passwords.{reset}
use nestjs_jwt.Auth.Registration.{created, register_existing, register_new}
use nestjs_jwt.Auth.Steps.{Step, registers, changes_password, resets, Writes, Step-Touches}

module _ (d : Deps) (Good : String → Type 0) where
  open d use {collection}

  -- The hash of a good password.
  abbrev pub IsHash : String → Type 0
  IsHash h = (p : String) × (salt : String) × Good p × (h ≡ hash_value d p salt)

  abbrev pub IsVouched : User → Type 0
  IsVouched u = IsHash u.password

  -- An update that leaves such a hash in place, or puts another one there.
  abbrev Vouches : (User → User) → Type 0
  Vouches f = (u : User) → IsVouched u → IsVouched (f u)

  Keeps-Vouches :
      (f : User → User)
      → Unless KeepsPassword KeepsPassword-refl KeepsPassword-trans ⊥ f
      → Vouches f
  Keeps-Vouches f (inl k) u (p, salt, good, e) = (p, salt, good, k u ∙ e)
  Keeps-Vouches f (inr c) u h = absurd c

  Vouches-IsQuiet : IsQuiet Vouches
  Vouches-IsQuiet =
      let q = KeepsPassword-IsQuiet ⊥ in
      record {
        of_succeed_login =
            λ now meta. Keeps-Vouches (succeed_login now meta) (q.of_succeed_login now meta);
        of_fail_login = λ attempts until.
            Keeps-Vouches (fail_login attempts until) (q.of_fail_login attempts until);
        of_no_session = Keeps-Vouches (put_refresh_token_hash none) q.of_no_session;
        of_reset_token =
            λ h expires. Keeps-Vouches (put_reset_token h expires) (q.of_reset_token h expires);
        of_verification_token = λ h expires.
            Keeps-Vouches (put_verification_token h expires) (q.of_verification_token h expires);
        of_verified = Keeps-Vouches put_verified q.of_verified;
        of_deleted = λ now. Keeps-Vouches (put_deleted now) (q.of_deleted now);
        of_profile = λ t dto. Keeps-Vouches (set_profile t dto) (q.of_profile t dto);
      }

  update-IsVouched :
      (p : User → Bool) (f : User → User) (ds : List User)
      → Vouches f
      → All IsVouched ds
      → All IsVouched (update_first p f ds)
  update-IsVouched p f [] k h = tt
  update-IsVouched p f (u ∷ ds) k h = elim (Bool-cases (p u)) [
    | inl e ↦ rw e (k u h.0, h.1)
    | inr e ↦ rw e (h.0, update-IsVouched p f ds k h.1)
  ]

  Edits-IsVouched :
      {i : ℕ} {ds es : List User} → Edits Vouches i ds es → All IsVouched ds → All IsVouched es
  Edits-IsVouched (done e) h = rw e h
  Edits-IsVouched {ds = ds} (edit f k q e rest) h =
      Edits-IsVouched rest (rw e (update-IsVouched _ f ds q h))

  append-IsVouched :
      (ds : List User) (u : User) → All IsVouched ds → IsVouched u → All IsVouched (ds ++ u ∷ [])
  append-IsVouched [] u h k = (k, tt)
  append-IsVouched (w ∷ ds) u h k = (h.0, append-IsVouched ds u h.1 k)

  created-IsVouched :
      (dto : RegisterDto) (i : ℕ) (salt : String)
      → Good dto.password
      → IsVouched (created d dto i salt)
  unfolding user_of new_user input_of
  created-IsVouched dto i salt good = (dto.password, salt, good, refl)

  register-IsVouched :
      (dto : RegisterDto) (i : ℕ) (salt raw : String) (now : ℕ) (s : State collection)
      → Good dto.password
      → All IsVouched (documents d s)
      → All IsVouched (documents d (register d dto i salt raw now s).1)
  register-IsVouched dto i salt raw now s good h = elim (Option-cases (account d dto.email s)) [
    | inr (u, e) ↦ rw (register_existing d dto i salt raw now s e) h
    | inl e ↦ elim (register_new d dto i salt raw now s e) [
      | inl (_, _, _, t) ↦ rw t h
      | inr (free, _, docs) ↦
          let u : User = created d dto i salt in
          rw docs (
            update-IsVouched (by_id i)
              (put_verification_token (hash_token d raw) (verification_expiry d now))
              (documents d s ++ u ∷ [])
              (Vouches-IsQuiet.of_verification_token (hash_token d raw) (verification_expiry d now))
              (append-IsVouched (documents d s) u h (created-IsVouched dto i salt good)))
    ]
  ]

  put_password-Vouches : (p salt : String) → Good p → Vouches (put_password (hash_value d p salt))
  unfolding put_password
  put_password-Vouches p salt good u h = (p, salt, good, refl)

  reset-Vouches : (p salt : String) → Good p → Vouches (reset d p salt)
  unfolding put_password drop_reset_token
  reset-Vouches p salt good u h = (p, salt, good, refl)

  -- The password that a step stores is good.
  abbrev pub IsGood : {s t : State collection} → Step d s t → Type 0
  IsGood (registers dto i salt raw now fresh) = Good dto.password
  IsGood (changes_password i dto salt) = Good dto.new_password
  IsGood (resets token new salt now) = Good new
  IsGood _ = Unit {0}

  writes : {s t : State collection} (st : Step d s t) → IsGood st → Writes d Vouches st
  writes (changes_password i dto salt) good = put_password-Vouches dto.new_password salt good
  writes (resets token new salt now) good = reset-Vouches new salt good
  writes _ good = tt

  pub Step-IsVouched :
      {s t : State collection}
      → HasDistinctIds (documents d s)
      → (st : Step d s t) → IsGood st
      → All IsVouched (documents d s)
      → All IsVouched (documents d t)
  Step-IsVouched {s} ids (registers dto i salt raw now fresh) good h =
      register-IsVouched dto i salt raw now s good h
  Step-IsVouched ids st good h =
      let (i, edits) =
        Step-Touches d Vouches Vouches-IsQuiet ids st (λ r. r) (writes st good)
          (λ o x.
            Keeps-Vouches (put_refresh_token_hash (some x)) (KeepsPassword-new_session ⊥ x)) in
      Edits-IsVouched edits h
