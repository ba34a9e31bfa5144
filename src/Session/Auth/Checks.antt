-- ===== src/Session/Auth/Checks.antt =====
-- When a registration and a login succeed.
use h_go.Base.{
  ℕ, ◌≡◌, ◌↔◌, ◌||◌, String, Bool, not, true, false, none, [], ◌∷◌, arith, Option-cases, inl, inr,
}
use h_go.Text.Trim.{is_empty, trim_space}
use h_go.Text.Find.{has_any}
use h_go.Storage.{UserRow, Answer, found, Answer-cases, Database, Redis}
use h_go.Logic.{Clock}
use h_go.Dao.{create_user, get_user_by_name}
use h_go.Outside.{Outside, done, Outcome-cases}
use h_go.Session.{Session, Presence}
use h_go.Session.Auth.{register, register_new, login, login_as, new_row, store_of, is_online_name}

-- A name that can be registered: it is not blank, and has neither white space within nor a bar.
abbrev pub is_free_of_blanks : String → Bool
is_free_of_blanks name =
    not (is_empty name || has_any (b' ' ∷ b'\t' ∷ b'\n' ∷ b'\r' ∷ b'|' ∷ []) name)

abbrev pub is_found : {A : Type 0} → Answer A → Bool
is_found (found a) = true
is_found _ = false

module _ {D C Conn : Type 0} (sql : Database D) (redis : Redis C) (o : Outside) (p : Presence) where
  -- A login succeeds exactly if the trimmed name is not blank and nobody is online under it, and a user is found by it
  -- whose stored hash the password matches.
  pub login-accepts :
      (clock : Clock) (name password : String) (s : Session D C Conn)
      → ((login sql redis o p clock name password s).1 ≡ none) ↔ (
          (is_empty (trim_space name) ≡ false)
          × (is_online_name (trim_space name) s ≡ false)
          × ((u : UserRow) × ((get_user_by_name sql redis (trim_space name) (store_of s)).1
                ≡ found u)
              × (o.matches_hash u.password_hash password ≡ true)))
  unfolding login login_as is_online_name
  login-accepts clock name password s =
      elim (Answer-cases (get_user_by_name sql redis (trim_space name) (store_of s)).1) [
        | inl (u, e) ↦ (
          λ h. (ground arith, ground arith, (u, e, ground arith)),
          λ (n, f, (v, g, m)). (ground arith),
        )
        | inr (inl e) ↦ (λ h. absurd (ground arith), λ (n, f, (v, g, m)). absurd (ground arith))
        | inr (inr (x, e)) ↦
            (λ h. absurd (ground arith), λ (n, f, (v, g, m)). absurd (ground arith))
      ]

  -- A registration succeeds exactly if the trimmed name is not blank and has neither white space nor a bar, nobody is
  -- online under it, no user is found by it, the password could be hashed, and the row could be inserted.
  pub register-accepts :
      (clock : Clock) (salt : ℕ) (name password : String) (s : Session D C Conn)
      → (let (st, su) = get_user_by_name sql redis (trim_space name) (store_of s) in
          ((register sql redis o p clock salt name password s).1 ≡ none) ↔ (
            (is_free_of_blanks (trim_space name) ≡ true)
            × (is_online_name (trim_space name) s ≡ false)
            × (is_found su ≡ false)
            × ((hash : String) × (o.hash_password salt password ≡ done hash)
                × ((create_user sql redis (new_row (trim_space name) hash) st).1 ≡ none))))
  unfolding register register_new is_online_name
  register-accepts clock salt name password s =
      let (st, su) = get_user_by_name sql redis (trim_space name) (store_of s) in
      elim (Outcome-cases (o.hash_password salt password)) [
        | inl (hash, e) ↦
            (let saved =
                Option-cases (create_user sql redis (new_row (trim_space name) hash) st).1 in
              elim (Answer-cases su) [
                | inl (u, f) ↦ (λ h. absurd (ground arith), λ (a, b, c, d). absurd (ground arith))
                | inr (inl f) ↦ elim saved [
                  | inl g ↦ (
                    λ h. (ground arith, ground arith, ground arith, (hash, e, g)),
                    λ (a, b, c, d). ground arith,
                  )
                  | inr (x, g) ↦
                      (λ h. absurd (ground arith), λ (a, b, c, (k, d, i)). absurd (ground arith))
                ]
                | inr (inr (y, f)) ↦ elim saved [
                  | inl g ↦ (
                    λ h. (ground arith, ground arith, ground arith, (hash, e, g)),
                    λ (a, b, c, d). ground arith,
                  )
                  | inr (x, g) ↦
                      (λ h. absurd (ground arith), λ (a, b, c, (k, d, i)). absurd (ground arith))
                ]
              ])
        | inr (x, e) ↦ (
          λ h. absurd (ground (arith, Answer-cases su)),
          λ (a, b, c, (k, d, i)). absurd (ground arith),
        )
      ]
