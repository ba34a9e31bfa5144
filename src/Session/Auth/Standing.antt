-- ===== src/Session/Auth/Standing.antt =====
-- Registration and login leave the groups as they are.
use h_go.Base.{ℕ, refl, String, true, arith, Option-cases, inl, inr}
use h_go.Text.Trim.{trim_space}
use h_go.Storage.{UserRow, Answer-cases, Database, Redis}
use h_go.Logic.{Clock}
use h_go.Dao.{create_user, get_user_by_name, update_user_status}
use h_go.Outside.{Outside, Outcome-cases}
use h_go.Session.{Session, Presence, with_user}
use h_go.Group.{GroupManager}
use h_go.Session.Standing.{HasGroups, with_server-HasGroups, online-HasGroups}
use h_go.Session.Auth.{
  register, register_new, login, login_as, enter, new_row, store_of, with_store_of,
}

module _ {D C Conn : Type 0} (sql : Database D) (redis : Redis C) (o : Outside) (p : Presence) where
  enter-HasGroups :
      (gm : GroupManager) (clock : Clock) (name : String) (s : Session D C Conn)
      → HasGroups gm s
      → HasGroups gm (enter sql redis o p clock name s)
  unfolding enter HasGroups
  enter-HasGroups gm clock name s h =
      online-HasGroups sql redis o p gm clock
        (with_user s (record s.user { name = name; authenticated = true })) h

  register_new-HasGroups :
      (gm : GroupManager) (clock : Clock) (salt : ℕ) (name password : String) (s : Session D C Conn)
      → HasGroups gm s
      → HasGroups gm (register_new sql redis o p clock salt name password s).0
  unfolding register_new
  register_new-HasGroups gm clock salt name password s h =
      elim (Outcome-cases (o.hash_password salt password)) [
        | inr (x, e) ↦ ground arith
        | inl (hash, e) ↦
            (let (st, err) = create_user sql redis (new_row name hash) (store_of s) in
              let kept = with_server-HasGroups gm s (with_store_of s st).server refl h in
              elim (Option-cases err) [
                | inl n ↦ ground (arith, enter-HasGroups gm clock name (with_store_of s st))
                | inr (x, n) ↦ ground arith
              ])
      ]

  pub register-HasGroups :
      (gm : GroupManager) (clock : Clock) (salt : ℕ) (name password : String) (s : Session D C Conn)
      → HasGroups gm s
      → HasGroups gm (register sql redis o p clock salt name password s).0
  unfolding register
  register-HasGroups gm clock salt name password s h =
      let username = trim_space name in
      let (st, su) = get_user_by_name sql redis username (store_of s) in
      let kept = with_server-HasGroups gm s (with_store_of s st).server refl h in
      let made = register_new-HasGroups gm clock salt username password (with_store_of s st) kept in
      elim (Answer-cases su) [
        | inl (u, e) ↦ ground arith
        | inr (inl e) ↦ ground arith
        | inr (inr (x, e)) ↦ ground arith
      ]

  login_as-HasGroups :
      (gm : GroupManager) (clock : Clock) (name password : String) (u : UserRow)
      (s : Session D C Conn)
      → HasGroups gm s
      → HasGroups gm (login_as sql redis o p clock name password u s).0
  unfolding login_as
  login_as-HasGroups gm clock name password u s h =
      let s' = enter sql redis o p clock name s in
      let inside = enter-HasGroups gm clock name s h in
      let kept =
        with_server-HasGroups gm s'
          (with_store_of s' (update_user_status sql redis name 1 (store_of s')).0).server refl
          inside in
      ground arith

  pub login-HasGroups :
      (gm : GroupManager) (clock : Clock) (name password : String) (s : Session D C Conn)
      → HasGroups gm s
      → HasGroups gm (login sql redis o p clock name password s).0
  unfolding login
  login-HasGroups gm clock name password s h =
      let username = trim_space name in
      let (st, su) = get_user_by_name sql redis username (store_of s) in
      let kept = with_server-HasGroups gm s (with_store_of s st).server refl h in
      elim (Answer-cases su) [
        | inl (u, e) ↦
            (let made = login_as-HasGroups gm clock username password u (with_store_of s st) kept in
              ground arith)
        | inr (inl e) ↦ ground arith
        | inr (inr (x, e)) ↦ ground arith
      ]
