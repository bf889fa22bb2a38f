-- ===== src/Auth/Warrants.antt =====
-- Who may write a password: across all requests, what has to be shown before the stored hash of an
-- account changes.
use nestjs_jwt.Prelude.{
  ℕ, ◌<◌, ◌≡◌, refl, sym, false, eq_iff, ap, ◌∙◌, ◌⊎◌, inl, inr, String, Bool, true, Option, none,
  some, arith, Option-cases, Bool-cases, get_or,
}
use nestjs_jwt.Users.Schema.{User}
use nestjs_jwt.Users.Documents.{get, HasDistinctIds, get-first, first_holds, first-by_active_id}
use nestjs_jwt.Users.Updates.{by_reset_token, put_password, drop_reset_token}
use nestjs_jwt.Users.Invariant.{put_password-IsEdit}
use nestjs_jwt.Users.Changes.{IsWellFormed}
use nestjs_jwt.Auth.Deps.{Deps, State}
use nestjs_jwt.Auth.Service.{
  ChangePasswordDto, hash_value, hash_token, compare_value, change_password, reset_password,
}
use nestjs_jwt.Auth.Login.{documents}
use nestjs_jwt.Auth.Session.{active}
use nestjs_jwt.Auth.Passwords.{
  change_password_unknown, change_password_wrong, change_password_right, resettable, reset,
  reset_password_known, reset_password_unknown,
}
use nestjs_jwt.Auth.Steps.{
  Step, changes_password, resets, WritesPassword, Step-Effect_through, Effect-Related,
}
use nestjs_jwt.Users.Quiet.{
  get-update_cases, Related-same, KeepsPassword, KeepsPassword-refl, KeepsPassword-trans,
  KeepsPassword-IsQuiet, KeepsPassword-new_session,
}

abbrev satisfied : (User → Bool) → Option User → Bool
satisfied p none = true
satisfied p (some u) = p u

module _ (d : Deps) where
  open d use {collection}

  -- A hash is the stored one of a reset, and the stored expiry lies ahead, for an account that is there.
  abbrev pub Shows : User → String → ℕ → Type 0
  Shows u h now =
      (u.password_reset_token_hash ≡ some h)
      × ((e : ℕ) × (u.password_reset_expires ≡ some e) × (now < e))
      × (u.is_deleted ≡ false)

  by_reset_token-Shows :
      (h : String) (now : ℕ) (u : User) → by_reset_token h now u ≡ true → Shows u h now
  unfolding by_reset_token
  by_reset_token-Shows h now u t = elim (Option-cases u.password_reset_token_hash) [
    | inl a ↦ absurd (ground (arith, a, t))
    | inr (g, a) ↦ elim (Option-cases u.password_reset_expires) [
      | inl b ↦ absurd (ground (arith, a, b, t))
      | inr (e, b) ↦
          let same : g ≡ h = (eq_iff g h).0 (ground (arith, a, b, t)) in
          (a ∙ ap some same, (e, b, ground (arith, a, b, t)), ground (arith, a, b, t))
    ]
  ]

  -- What a step shows for an account whose password it writes: the old password, or a reset token whose
  -- hash is stored for the account and has not expired.
  abbrev pub IsWarranted : {s t : State collection} → ℕ → User → Step d s t → Type 0
  IsWarranted j u (changes_password i dto salt) =
      (i ≡ j) × (compare_value d dto.old_password u.password ≡ true)
  IsWarranted j u (resets token new salt now) = Shows u (hash_token d token) now
  IsWarranted j u _ = ⊥

  change_password_warranted :
      (j i : ℕ) (dto : ChangePasswordDto) (salt : String) (s : State collection) {u : User}
      → HasDistinctIds (documents d s)
      → get j (documents d s) ≡ some u
      → (get j (documents d (change_password d i dto salt s).1) ≡ some u)
        ⊎ ((i ≡ j) × (compare_value d dto.old_password u.password ≡ true))
  change_password_warranted j i dto salt s {u} ids e = elim (Option-cases (active d i s)) [
    | inl a ↦ inl (ap (λ t. get j (documents d t)) (change_password_unknown d i dto salt s a) ∙ e)
    | inr (w, a) ↦ elim (Bool-cases (compare_value d dto.old_password w.password)) [
      | inr wrong ↦
          inl (ap (λ r. get j (documents d r.1)) (change_password_wrong d i dto salt s a wrong) ∙ e)
      | inl right ↦
          let f = put_password (hash_value d dto.new_password salt) in
          let written = (change_password_right d i dto salt s a right).1 in
          elim (get-update_cases i j f (documents d s) (put_password-IsEdit _).keeps_id e) [
            | inl same ↦ inl (ap (get j) written ∙ same)
            | inr (same, _) ↦
                let found = first-by_active_id i (documents d s) ids in
                inr (same, ground (arith, found, a, e, same, right))
          ]
    ]
  ]

  reset_password_warranted :
      (j : ℕ) (token new salt : String) (now : ℕ) (s : State collection) {u : User}
      → HasDistinctIds (documents d s)
      → get j (documents d s) ≡ some u
      → (get j (documents d (reset_password d token new salt now s).1) ≡ some u)
        ⊎ (by_reset_token (hash_token d token) now u ≡ true)
  unfolding put_password drop_reset_token
  reset_password_warranted j token new salt now s {u} ids e =
      elim (Option-cases (resettable d token now s)) [
        | inl a ↦ inl (
            ap (λ r. get j (documents d r.1)) (reset_password_unknown d token new salt now s a) ∙ e)
        | inr (w, a) ↦
            let written = (reset_password_known d token new salt now s a).1 in
            elim (get-update_cases w.id j (reset d new salt) (documents d s) (λ x. refl) e) [
              | inl same ↦ inl (ap (get j) written ∙ same)
              | inr (same, _) ↦
                  let by = by_reset_token (hash_token d token) now in
                  let found : some w ≡ some u =
                    sym (get-first by (documents d s) ids a)
                    ∙ ap (λ k. get k (documents d s)) same
                    ∙ e in
                  inr (ap (satisfied by) (sym found) ∙ first_holds by (documents d s) a)
            ]
      ]

  -- A step from a well-formed collection leaves the password hash of every stored account as it
  -- was, unless it is a change of that account's password, with the right old one, or a reset with
  -- a token whose hash is stored for that account and has not expired.
  pub password_origin :
      {s t : State collection} (j : ℕ) (v : User) {u : User}
      → IsWellFormed (documents d s)
      → (st : Step d s t) → get j (documents d s) ≡ some u
      → get j (documents d t) ≡ some v
      → (v.password ≡ u.password) ⊎ IsWarranted j u st
  password_origin {s} {t} j v {u} w st e e' =
      let C = WritesPassword d st in
      let effect =
        Step-Effect_through d _ (KeepsPassword-IsQuiet C) w.ids st
          (λ c. record { of_password = λ h. inr c; of_reset = λ h. inr c })
          (λ o h. KeepsPassword-new_session C h) in
      let related =
        Effect-Related d KeepsPassword KeepsPassword-refl KeepsPassword-trans j effect e in
      elim (Related-same KeepsPassword KeepsPassword-refl KeepsPassword-trans {u = u} {v = v}
        (get j (documents d t)) related e') [
          | inl same ↦ inl same
          | inr c ↦ elim (loud st c) [
            | inl same ↦ inl (ap (λ x. (get_or x v).password) (sym e' ∙ same))
            | inr warrant ↦ inr warrant
          ]
        ]
    where
      loud :
          {t : State collection} (st : Step d s t)
          → WritesPassword d st
          → (get j (documents d t) ≡ some u) ⊎ IsWarranted j u st
      loud (changes_password i dto salt) c = change_password_warranted j i dto salt s w.ids e
      loud (resets token new salt now) c =
          elim (reset_password_warranted j token new salt now s w.ids e) [
            | inl same ↦ inl same
            | inr shown ↦ inr (by_reset_token-Shows (hash_token d token) now u shown)
          ]
      loud _ c = absurd c
