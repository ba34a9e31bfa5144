-- ===== src/Session/Auth/Refusal.antt =====
-- What a registration or a login that fails does to the server.
use h_go.Base.{ℕ, ◌≡◌, ◌∙◌, String, true, false, arith, Option-cases, inl, inr, cat, pos, str_eq}
use h_go.Text.Trim.{trim_space}
use h_go.Storage.{UserRow, Answer-cases, Database, Redis}
use h_go.Store.{Store}
use h_go.Protocol.{Message}
use h_go.Logic.{Clock}
use h_go.Dao.{create_user, get_user_by_name, cached_user}
use h_go.Outside.{Outside, Outcome-cases}
use h_go.Server.{Server, register_online, enqueue_pending, broadcast_system_event}
use h_go.Session.{
  Session, Presence, with_user, with_server, send_msg, send_json, online, announce, system_message,
  start_online_heartbeat,
}
use h_go.Session.Auth.{
  register, register_new, login, login_as, enter, new_row, store_of, with_store_of,
}

-- The store with the database and the cache of another.
abbrev pub with_storage : {D C : Type 0} → Store D C → Store D C → Store D C
with_storage st st' = record st { db = st'.db; cache = st'.cache }

module _ {D C : Type 0} (sql : Database D) (redis : Redis C) where
  create_user-storage :
      (row : UserRow) (st : Store D C)
      → (create_user sql redis row st).0 ≡ with_storage st (create_user sql redis row st).0
  unfolding create_user
  create_user-storage row st = elim (Option-cases (sql.users.insert row st.db).2) [
    | inl e ↦ ground arith
    | inr (x, e) ↦ ground arith
  ]

  get_user_by_name-storage :
      (name : String) (st : Store D C)
      → (get_user_by_name sql redis name st).0
        ≡ with_storage st (get_user_by_name sql redis name st).0
  unfolding get_user_by_name
  get_user_by_name-storage name st = elim (Option-cases (cached_user redis name st)) [
    | inr (u, e) ↦ ground arith
    | inl e ↦ elim (Answer-cases (sql.users.first_row (λ r. str_eq r.user_name name) st.db)) [
      | inl (u, f) ↦ ground arith
      | inr (inl f) ↦ ground arith
      | inr (inr (x, f)) ↦ ground arith
    ]
  ]

module _ {D C Conn : Type 0} where
  -- The server with the database and the cache of another.
  abbrev pub only_storage : Server D C Conn → Server D C Conn → Server D C Conn
  only_storage v v' = record v {
    logic = record v.logic { store = with_storage v.logic.store v'.logic.store };
  }

  -- The server with the database, the cache and the count of outbound messages of another.
  abbrev pub only_storage_and_count : Server D C Conn → Server D C Conn → Server D C Conn
  only_storage_and_count v v' = record (only_storage v v') {
    outbound_messages = v'.outbound_messages;
  }

  pub send_msg-server :
      (msg : String) (s : Session D C Conn)
      → ((send_msg msg s).server ≡ only_storage_and_count s.server (send_msg msg s).server)
        × ((send_msg msg s).user.authenticated ≡ s.user.authenticated)
  unfolding send_msg
  send_msg-server msg s = ground arith

  send_json-authenticated :
      (o : Outside) (m : Message) (s : Session D C Conn)
      → (send_json o m s).user.authenticated ≡ s.user.authenticated
  unfolding send_json
  send_json-authenticated o m s = elim (Option-cases (o.to_json m)) [
    | inl e ↦ ground arith
    | inr (b, e) ↦ ground (arith, send_msg-server b s)
  ]

module _ {D C Conn : Type 0} (sql : Database D) (redis : Redis C) (o : Outside) (p : Presence) where
  start_online_heartbeat-authenticated :
      (s : Session D C Conn)
      → (start_online_heartbeat sql redis o p s).user.authenticated ≡ s.user.authenticated
  unfolding start_online_heartbeat
  start_online_heartbeat-authenticated s = elim (Option-cases s.server.logic.store.cache) [
    | inl e ↦ ground arith
    | inr (c, e) ↦ ground arith
  ]

  announce-authenticated :
      (clock : Clock) (event own : String) (s : Session D C Conn)
      → (announce sql redis o p clock event own s).user.authenticated ≡ s.user.authenticated
  unfolding announce
  announce-authenticated clock event own s =
      let (v, id, seq) = broadcast_system_event sql redis clock event s.user.name s.server in
      send_json-authenticated o (system_message id seq own) (with_server s v)

  online-authenticated :
      (clock : Clock) (s : Session D C Conn)
      → (online sql redis o p clock s).user.authenticated ≡ s.user.authenticated
  unfolding online
  online-authenticated clock s =
      let u = s.user in
      let v =
        enqueue_pending sql redis u.name (pos 500)
          (register_online u.name u.conn u.addr s.server) in
      let event = cat u.name " ✅ 已上线！" in
      let own : String = "----------------👏欢迎来到 8H-Go 聊天室----------------" in
      start_online_heartbeat-authenticated
        (announce sql redis o p clock event own (with_server s v))
      ∙ announce-authenticated clock event own (with_server s v)

  -- A user who has registered or logged in is authenticated.
  pub enter-authenticated :
      (clock : Clock) (name : String) (s : Session D C Conn)
      → (enter sql redis o p clock name s).user.authenticated ≡ true
  unfolding enter
  enter-authenticated clock name s =
      online-authenticated clock (with_user s (record s.user { name = name; authenticated = true }))

  -- What a call of Register or of Login does to the server if the user is not authenticated after it.
  abbrev pub IsKept : Session D C Conn → Session D C Conn → Type 0
  IsKept s s' = s'.user.authenticated ≡ false → s'.server ≡ only_storage s.server s'.server

  register_new-IsKept :
      (clock : Clock) (salt : ℕ) (name password : String) (s : Session D C Conn)
      → IsKept s (register_new sql redis o p clock salt name password s).0
  unfolding register_new
  register_new-IsKept clock salt name password s h =
      elim (Outcome-cases (o.hash_password salt password)) [
        | inr (x, e) ↦ ground arith
        | inl (hash, e) ↦
            (let (st, err) = create_user sql redis (new_row name hash) (store_of s) in
              let stored = create_user-storage sql redis (new_row name hash) (store_of s) in
              elim (Option-cases err) [
                | inl n ↦
                    absurd (ground (arith, enter-authenticated clock name (with_store_of s st)))
                | inr (x, n) ↦ ground arith
              ])
      ]

  pub register-IsKept :
      (clock : Clock) (salt : ℕ) (name password : String) (s : Session D C Conn)
      → IsKept s (register sql redis o p clock salt name password s).0
  unfolding register
  register-IsKept clock salt name password s h =
      let username = trim_space name in
      let (st, su) = get_user_by_name sql redis username (store_of s) in
      let stored = get_user_by_name-storage sql redis username (store_of s) in
      let made = register_new-IsKept clock salt username password (with_store_of s st) in
      elim (Answer-cases su) [
        | inl (u, e) ↦ ground arith
        | inr (inl e) ↦ ground arith
        | inr (inr (x, e)) ↦ ground arith
      ]

  login_as-IsKept :
      (clock : Clock) (name password : String) (u : UserRow) (s : Session D C Conn)
      → IsKept s (login_as sql redis o p clock name password u s).0
  unfolding login_as
  login_as-IsKept clock name password u s h = ground (arith, enter-authenticated clock name s)

  pub login-IsKept :
      (clock : Clock) (name password : String) (s : Session D C Conn)
      → IsKept s (login sql redis o p clock name password s).0
  unfolding login
  login-IsKept clock name password s h =
      let username = trim_space name in
      let (st, su) = get_user_by_name sql redis username (store_of s) in
      let stored = get_user_by_name-storage sql redis username (store_of s) in
      elim (Answer-cases su) [
        | inl (u, e) ↦
            ground (arith, login_as-IsKept clock username password u (with_store_of s st))
        | inr (inl e) ↦ ground arith
        | inr (inr (x, e)) ↦ ground arith
      ]
