-- ===== src/Auth/Openings.antt =====
-- Who may open a session: across all requests, what has to be shown before a refresh token's hash is
-- stored for an account.
use nestjs_jwt.Prelude.{
  ℕ, ◌+◌, ◌≡◌, refl, sym, ap, ◌∙◌, ◌⊎◌, inl, inr, String, Bool, true, not, ◌||◌, Option, none, some,
  List, arith, Option-cases, Bool-cases, ◌==◌, ==_iff, eq_iff,
}
use nestjs_jwt.Common.Role.{JwtPayload}
use nestjs_jwt.Users.Schema.{User}
use nestjs_jwt.Users.Documents.{get, HasDistinctIds, get-id, get-first, first-by_active_id}
use nestjs_jwt.Users.Updates.{by_email, fail_login, put_refresh_token_hash, RequestMetadata}
use nestjs_jwt.Users.Invariant.{fail_login-IsEdit, put_refresh_token_hash-IsEdit}
use nestjs_jwt.Users.Changes.{
  Edits, done, edit, Whatever, Whatever-IsQuiet, IsWellFormed, Edits-others, Edits-accounts,
}
use nestjs_jwt.Users.Quiet.{
  Related, Related-here, Related-same, Edits-Related, KeepsSession, KeepsSession-refl,
  KeepsSession-trans, KeepsSession-IsQuiet, KeepsSession-IsOfPasswords, Unless,
}
use nestjs_jwt.Auth.Deps.{Deps, State}
use nestjs_jwt.Auth.Service.{
  LoginDto, hash_token, compare_value, login, refresh_tokens, is_set, is_stored,
}
use nestjs_jwt.Auth.Login.{documents, account, login_open, login-gate, gate}
use nestjs_jwt.Auth.Effects.{
  next_lock, reject_password_lem, issued, documents-rotate, documents-revoke,
}
use nestjs_jwt.Auth.Session.{
  active, verified, refresh_with_account, refresh_without_account, refresh_unverified,
}
use nestjs_jwt.Auth.Touches.{accept_password-Edits}
use nestjs_jwt.Auth.Steps.{
  Step, logs_in, refreshes, OpensSession, Step-Effect_through, Effect-Related,
}

abbrev session_of : Option User → Option String
session_of none = none
session_of (some u) = u.refresh_token_hash

module _ (d : Deps) where
  open d use {collection, text}

  -- What a step shows for an account whose session it opens or carries on with a new token: the
  -- password, or the token whose hash is stored.
  abbrev pub IsOpened : {s t : State collection} → ℕ → User → Step d s t → Type 0
  IsOpened {s} j u (logs_in dto meta now) =
      (account d dto.email s ≡ some u) × (compare_value d dto.password u.password ≡ true)
  IsOpened j u (refreshes token now) =
      (p : JwtPayload) × (verified d token now ≡ some p)
      × (p.sub ≡ j)
      × (u.refresh_token_hash ≡ some (hash_token d token))
  IsOpened j u _ = ⊥

  abbrev right_for : LoginDto → Option User → Bool
  right_for dto none = true
  right_for dto (some u) = compare_value d dto.password u.password

  abbrev Keeps : Type 0 → User → Option User → Type 0
  Keeps C u o = Related KeepsSession KeepsSession-refl KeepsSession-trans C u o

  Keeps-same : {C : Type 0} {u : User} (o : Option User) → o ≡ some u → Keeps C u o
  Keeps-same o e = Related-here KeepsSession KeepsSession-refl KeepsSession-trans o e

  Keeps-Edits :
      {C : Type 0} {i : ℕ} {ds es : List User} (j : ℕ) {u : User}
      → Edits (Unless KeepsSession KeepsSession-refl KeepsSession-trans C) i ds es
      → get j ds ≡ some u
      → Keeps C u (get j es)
  Keeps-Edits j c e = Edits-Related KeepsSession KeepsSession-refl KeepsSession-trans j c e

  -- Updates of one account leave the others as they are, and are explained for the one.
  Keeps-others :
      {C : Type 0} {i : ℕ} {ds es : List User} (j : ℕ) {u : User}
      → Edits Whatever i ds es
      → get j ds ≡ some u
      → (i ≡ j → C)
      → Keeps C u (get j es)
  Keeps-others {C} {i} {es = es} j c e k = elim (Bool-cases (j == i)) [
    | inr other ↦ Keeps-same (get j es) (Edits-others j c (λ p. ground (arith, other, p)) ∙ e)
    | inl same ↦ elim (Option-cases (get j es)) [
      | inl missing ↦ absurd (rw (e, missing) at (Edits-accounts j c))
      | inr (v, e') ↦ (v, e', inr (k (sym ((==_iff j i).0 same))))
    ]
  ]

  -- The document that a filter finds is the one with its identifier.
  found_is :
      (i j : ℕ) (ds : List User) {w u : User}
      → get i ds ≡ some w
      → i ≡ j
      → get j ds ≡ some u
      → some w ≡ some u
  found_is i j ds f same e = sym f ∙ ap (λ k. get k ds) same ∙ e

  login_opened :
      (j : ℕ) (dto : LoginDto) (meta : RequestMetadata) (now : ℕ) (s : State collection) {u : User}
      → HasDistinctIds (documents d s)
      → get j (documents d s) ≡ some u
      → Keeps
          ((account d dto.email s ≡ some u) × (compare_value d dto.password u.password ≡ true))
          u
          (get j (documents d (login d dto meta now s).1))
  login_opened j dto meta now s {u} ids e =
      elim (Option-cases (gate d (account d dto.email s) now)) [
        | inr (x, g) ↦
            Keeps-same _ (ap (λ r. get j (documents d r.1)) (login-gate d dto meta now s g) ∙ e)
        | inl g ↦ elim (Option-cases (account d dto.email s)) [
          | inl a ↦ absurd (ground (arith, a, g))
          | inr (w, a) ↦
              let found = get-first (by_email text dto.email) (documents d s) ids a in
              elim (Bool-cases (compare_value d dto.password w.password)) [
                | inr wrong ↦
                    rw (login_open d dto meta now s a (ground arith), wrong)
                      (Keeps-Edits j
                        (edit (fail_login (w.failed_login_attempts + 1) (next_lock d w now))
                          (fail_login-IsEdit _ _) ((KeepsSession-IsQuiet _).of_fail_login _ _)
                          (reject_password_lem d w now s found).1 (done refl))
                        e)
                | inl right ↦
                    rw (login_open d dto meta now s a (ground arith), right)
                      (Keeps-others j
                        (accept_password-Edits d Whatever Whatever-IsQuiet w meta now s (λ h. tt)) e
                        (λ same.
                          let is = found_is w.id j (documents d s) found same e in
                          (a ∙ is, ap (λ o. right_for dto o) (sym is) ∙ right)))
              ]
        ]
      ]

  stored_is : (h : String) (o : Option String) → is_stored d h o ≡ true → o ≡ some h
  stored_is h none m = absurd (ground (arith, m))
  stored_is h (some g) m = ap some (sym ((eq_iff h g).0 m))

  active_is :
      (i : ℕ) (s : State collection) {w : User}
      → HasDistinctIds (documents d s)
      → active d i s ≡ some w
      → get i (documents d s) ≡ some w
  active_is i s ids a = ground (arith, first-by_active_id i (documents d s) ids, a)

  refresh_opened :
      (j : ℕ) (token : String) (now : ℕ) (s : State collection) {u : User}
      → HasDistinctIds (documents d s)
      → get j (documents d s) ≡ some u
      → Keeps
          ((p : JwtPayload) × (verified d token now ≡ some p)
            × (p.sub ≡ j)
            × (u.refresh_token_hash ≡ some (hash_token d token)))
          u
          (get j (documents d (refresh_tokens d token now s).1))
  refresh_opened j token now s {u} ids e = elim (Option-cases (verified d token now)) [
    | inl v ↦
        Keeps-same _ (ap (λ r. get j (documents d r.1)) (refresh_unverified d token now s v) ∙ e)
    | inr (p, v) ↦ elim (Option-cases (active d p.sub s)) [
      | inl a ↦
          Keeps-same _
            (ap (λ r. get j (documents d r.1)) (refresh_without_account d token now s p v a) ∙ e)
      | inr (w, a) ↦ elim (Bool-cases (not w.is_active || not (is_set d w.refresh_token_hash))) [
        | inl closed ↦ rw (refresh_with_account d token now s p v a, closed) (Keeps-same _ e)
        | inr open_now ↦ elim (Bool-cases (is_stored d (hash_token d token) w.refresh_token_hash)) [
          | inr other ↦
              rw (refresh_with_account d token now s p v a, open_now, other)
                (Keeps-Edits j
                  (edit (put_refresh_token_hash none) (put_refresh_token_hash-IsEdit none)
                    (KeepsSession-IsQuiet _).of_no_session (documents-revoke d w s) (done refl))
                  e)
          | inl hit ↦
              let found = active_is p.sub s ids a in
              rw (refresh_with_account d token now s p v a, open_now, hit)
                (Keeps-others j
                  (edit (issued d w now) (put_refresh_token_hash-IsEdit _) tt
                    (documents-rotate d w now s) (done refl))
                  e
                  (λ own.
                    let same = sym (get-id p.sub (documents d s) found) ∙ own in
                    let is = found_is p.sub j (documents d s) found same e in
                    (p, v, same, sym (ap session_of is) ∙ stored_is _ _ hit)))
        ]
      ]
    ]
  ]

  -- A step from a well-formed collection leaves the session of every stored account as it was or
  -- closes it, unless it is a login to that account with the right password, or a refresh with a
  -- token that verifies as the account's and whose hash is the stored one.
  pub session_origin :
      {s t : State collection} (j : ℕ) (v : User) {u : User}
      → IsWellFormed (documents d s)
      → (st : Step d s t) → get j (documents d s) ≡ some u
      → get j (documents d t) ≡ some v
      → KeepsSession u v ⊎ IsOpened j u st
  session_origin {s} {t} j v {u} w st e e' =
      let C = OpensSession d st in
      let effect =
        Step-Effect_through d _ (KeepsSession-IsQuiet C) w.ids st
          (λ c. KeepsSession-IsOfPasswords C) (λ c h. inr c) in
      elim (final (Effect-Related d KeepsSession KeepsSession-refl KeepsSession-trans j effect e)
        e') [ inl same ↦ inl same | inr c ↦ loud st c e' ]
    where
      final : {C : Type 0} {o : Option User} → Keeps C u o → o ≡ some v → KeepsSession u v ⊎ C
      final {C} {o} k h =
          Related-same KeepsSession KeepsSession-refl KeepsSession-trans {u = u} {v = v} o k h

      loud :
          {t : State collection} (st : Step d s t)
          → OpensSession d st
          → get j (documents d t) ≡ some v
          → KeepsSession u v ⊎ IsOpened j u st
      loud (logs_in dto meta now) c h = final (login_opened j dto meta now s w.ids e) h
      loud (refreshes token now) c h = final (refresh_opened j token now s w.ids e) h
      loud _ c h = absurd c
