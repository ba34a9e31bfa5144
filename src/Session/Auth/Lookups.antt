-- ===== src/Session/Auth/Lookups.antt =====
-- What a registration or a login that fails does to the store.
use h_go.Base.{
  ℕ, ◌≡◌, ◌⊎◌, ◌||◌, [], ◌∷◌, ap, ◌∙◌, subst, sym, String, false, some, arith, Option-cases,
  Bool-cases, inl, inr, str_eq,
}
use mathlib.Core.Path.{subst₂}
use h_go.Text.Trim.{trim_space, is_empty}
use h_go.Text.Find.{has_any}
use h_go.Storage.{UserRow, Answer-cases, found, Database, Redis, user_key}
use h_go.Store.{Store, on_cache, with_db}
use h_go.Logic.{Clock}
use h_go.Dao.{create_user, get_user_by_name, cached_user, half_hour}
use h_go.Outside.{Outside, Outcome-cases}
use h_go.Session.{Session, Presence}
use h_go.Session.Auth.{
  register, register_new, login, login_as, new_row, is_online_name, store_of, with_store_of,
}
use h_go.Session.Auth.Checks.{is_found}
use h_go.Session.Auth.Refusal.{enter-authenticated}

module _ {D C : Type 0} (sql : Database D) (redis : Redis C) where
  -- The row of a user was copied from the database into the cache.
  abbrev pub IsCached : Store D C → Store D C → Type 0
  IsCached st st' =
      (name : String) × (u : UserRow) × (sql.users.first_row (λ r. str_eq r.user_name name) st.db
        ≡ found u)
      × (st' ≡ on_cache (redis.set_user (user_key name) u half_hour) st)

  -- The database refused to insert the row of a user.
  abbrev pub IsRefused : Store D C → Store D C → Type 0
  IsRefused st st' =
      (row : UserRow) × (e : String) × ((sql.users.insert row st.db).2 ≡ some e)
      × (st' ≡ with_db st (sql.users.insert row st.db).0)

  -- What a failed registration or login may have done to the store.
  abbrev pub IsLookup : Store D C → Store D C → Type 0
  IsLookup st st' = (st' ≡ st) ⊎ (IsCached st st' ⊎ IsRefused st st')

  get_user_by_name-IsLookup :
      (name : String) (st : Store D C) → IsLookup st (get_user_by_name sql redis name st).0
  unfolding get_user_by_name
  get_user_by_name-IsLookup name st = elim (Bool-cases st.persistent) [
    | inr memory ↦ inl (ground arith)
    | inl database ↦ elim (Option-cases (cached_user redis name st)) [
      | inr (u, e) ↦ inl (ground arith)
      | inl e ↦ elim (Answer-cases (sql.users.first_row (λ r. str_eq r.user_name name) st.db)) [
        | inl (u, f) ↦ inr (inl (name, u, f, ground arith))
        | inr (inl f) ↦ inl (ground arith)
        | inr (inr (x, f)) ↦ inl (ground arith)
      ]
    ]
  ]

  -- a lookup that finds nobody leaves the store as it was
  get_user_by_name-missed :
      (name : String) (st : Store D C)
      → is_found (get_user_by_name sql redis name st).1 ≡ false
      → (get_user_by_name sql redis name st).0 ≡ st
  unfolding get_user_by_name
  get_user_by_name-missed name st h = elim (Bool-cases st.persistent) [
    | inr memory ↦ ground arith
    | inl database ↦ elim (Option-cases (cached_user redis name st)) [
      | inr (u, e) ↦ ground arith
      | inl e ↦ elim (Answer-cases (sql.users.first_row (λ r. str_eq r.user_name name) st.db)) [
        | inl (u, f) ↦ absurd (ground arith)
        | inr (inl f) ↦ ground arith
        | inr (inr (x, f)) ↦ ground arith
      ]
    ]
  ]

  create_user-IsLookup :
      (row : UserRow) (st : Store D C) (x : String)
      → (create_user sql redis row st).1 ≡ some x
      → IsLookup st (create_user sql redis row st).0
  unfolding create_user
  create_user-IsLookup row st x h = elim (Bool-cases st.persistent) [
    | inr memory ↦ inl (ground arith)
    | inl database ↦ elim (Option-cases (sql.users.insert row st.db).2) [
      | inl e ↦ absurd (ground arith)
      | inr (y, e) ↦ inr (inr (row, y, e, ground arith))
    ]
  ]

module _ {D C Conn : Type 0} (sql : Database D) (redis : Redis C) (o : Outside) (p : Presence) where
  -- What a call of Register or of Login does to the store if the user is not authenticated after it.
  abbrev pub IsOut : Session D C Conn → Session D C Conn → Type 0
  IsOut s s' = s'.user.authenticated ≡ false → IsLookup sql redis (store_of s) (store_of s')

  register_new-IsOut :
      (clock : Clock) (salt : ℕ) (name password : String) (s : Session D C Conn)
      → IsOut s (register_new sql redis o p clock salt name password s).0
  unfolding register_new
  register_new-IsOut clock salt name password s h =
      elim (Outcome-cases (o.hash_password salt password)) [
        | inr (x, e) ↦ inl (ground arith)
        | inl (hash, e) ↦
            (let (st, err) = create_user sql redis (new_row name hash) (store_of s) in
              elim (Option-cases err) [
                | inl n ↦ absurd (
                    ground
                      (arith, enter-authenticated sql redis o p clock name (with_store_of s st)))
                | inr (x, n) ↦
                    (let same : st
                          ≡ store_of (register_new sql redis o p clock salt name password s).0 =
                        ground arith in
                      subst (IsLookup sql redis (store_of s)) same
                        (create_user-IsLookup sql redis (new_row name hash) (store_of s) x n))
              ])
      ]

  pub register-IsOut :
      (clock : Clock) (salt : ℕ) (name password : String) (s : Session D C Conn)
      → IsOut s (register sql redis o p clock salt name password s).0
  unfolding register
  register-IsOut clock salt name password s h =
      let username = trim_space name in
      let (st, su) = get_user_by_name sql redis username (store_of s) in
      let end = (register sql redis o p clock salt name password s).0 in
      let new = (register_new sql redis o p clock salt username password (with_store_of s st)).0 in
      let looked = get_user_by_name-IsLookup sql redis username (store_of s) in
      let made : st ≡ store_of s → end ≡ new → IsLookup sql redis (store_of s) (store_of end) =
        λ kept same.
          subst₂ (λ a b. IsLookup sql redis a (store_of b)) kept (sym same)
            (register_new-IsOut clock salt username password (with_store_of s st)
              (ap (λ r. r.user.authenticated) (sym same) ∙ h)) in
      let early : end ≡ s → IsLookup sql redis (store_of s) (store_of end) =
        λ same. inl (ap store_of same) in
      let found_one : st ≡ store_of end → IsLookup sql redis (store_of s) (store_of end) =
        λ same. subst (IsLookup sql redis (store_of s)) same looked in
      elim (Bool-cases
        (is_empty username || has_any (b' ' ∷ b'\t' ∷ b'\n' ∷ b'\r' ∷ b'|' ∷ []) username)) [
          | inl bad ↦ early (ground arith)
          | inr good ↦ elim (Bool-cases (is_online_name username s)) [
            | inl taken ↦ early (ground arith)
            | inr free ↦ elim (Answer-cases su) [
              | inl (u, e) ↦ found_one (ground arith)
              | inr (inl e) ↦
                  made (get_user_by_name-missed sql redis username (store_of s) (ground arith))
                    (ground arith)
              | inr (inr (x, e)) ↦
                  made (get_user_by_name-missed sql redis username (store_of s) (ground arith))
                    (ground arith)
            ]
          ]
        ]

  login_as-store :
      (clock : Clock) (name password : String) (u : UserRow) (s : Session D C Conn)
      → (login_as sql redis o p clock name password u s).0.user.authenticated ≡ false
      → store_of (login_as sql redis o p clock name password u s).0 ≡ store_of s
  unfolding login_as
  login_as-store clock name password u s h =
      ground (arith, enter-authenticated sql redis o p clock name s)

  pub login-IsOut :
      (clock : Clock) (name password : String) (s : Session D C Conn)
      → IsOut s (login sql redis o p clock name password s).0
  unfolding login
  login-IsOut clock name password s h =
      let username = trim_space name in
      let (st, su) = get_user_by_name sql redis username (store_of s) in
      let end = (login sql redis o p clock name password s).0 in
      let looked = get_user_by_name-IsLookup sql redis username (store_of s) in
      let found_one : store_of end ≡ st → IsLookup sql redis (store_of s) (store_of end) =
        λ same. subst (IsLookup sql redis (store_of s)) (sym same) looked in
      elim (Bool-cases (is_empty username)) [
        | inl blank ↦ inl (ground arith)
        | inr named ↦ elim (Answer-cases su) [
          | inl (u, e) ↦
              (let same : end
                    ≡ (login_as sql redis o p clock username password u (with_store_of s st)).0 =
                  ground arith in
                found_one (
                  ap store_of same
                  ∙ login_as-store clock username password u (with_store_of s st)
                      (ap (λ r. r.user.authenticated) (sym same) ∙ h)))
          | inr (inl e) ↦ found_one (ground arith)
          | inr (inr (x, e)) ↦ found_one (ground arith)
        ]
      ]
