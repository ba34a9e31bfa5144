-- ===== src/Session/Commands/Rename.antt =====
-- Who is online after a user took another name.
use h_go.Base.{
  ◌≡◌, String, false, none, some, List, [], ◌∷◌, arith, str_eq, if◌then◌else◌, get, put, remove,
  get-put, get-remove, ltb, cat,
}
use h_go.Text.Trim.{is_empty}
use h_go.Text.Find.{byte_length, has_any}
use h_go.Text.Split.{split_cuts}
use h_go.Server.{OnlineInfo, register_online, unregister_online}
use h_go.Session.{Session, send_msg}
use h_go.Session.Commands.{one_argument, second_of, use_rename}

second_of-full : (parts : List String) (x : String) → second_of parts ≡ some x → is_empty x ≡ false
unfolding second_of
second_of-full [] x h = absurd (ground arith)
second_of-full (a ∷ []) x h = absurd (ground arith)
second_of-full (a ∷ b ∷ []) x h = ground arith
second_of-full (a ∷ b ∷ c ∷ ps) x h = absurd (ground arith)

one_argument-full : (msg x : String) → one_argument msg ≡ some x → is_empty x ≡ false
unfolding one_argument
one_argument-full msg x h = second_of-full (split_cuts "|" 1 msg) x h

module _ {D C Conn : Type 0} where
  send_msg-online :
      (msg : String) (s : Session D C Conn)
      → (send_msg msg s).server.online_map ≡ s.server.online_map
  unfolding send_msg
  send_msg-online msg s = ground arith

  renamed_map :
      (name : String) (own : OnlineInfo Conn) (s : Session D C Conn)
      → is_empty name ≡ false
      → is_empty s.user.name ≡ false
      → (register_online name own.sender own.addr
          (unregister_online s.user.name s.server)).online_map
        ≡ put name own (remove s.user.name s.server.online_map)
  unfolding register_online unregister_online
  renamed_map name own s e f = ground arith

  -- A user who has a name and takes another one, of at most 20 bytes and without white space and bars, is online under the
  -- new name and not under the old one, and everyone else stays online as before; it is not asked whether someone else
  -- had the new name.
  pub use_rename-online :
      (msg name k : String) (s : Session D C Conn)
      → one_argument msg ≡ some name
      → ltb 20 (byte_length name) ≡ false
      → has_any (b' ' ∷ b'\t' ∷ b'\n' ∷ b'\r' ∷ b'|' ∷ []) name ≡ false
      → is_empty s.user.name ≡ false
      → get k (use_rename msg s).server.online_map ≡ (
          if str_eq name k
          then some (record { sender = s.user.conn; addr = s.user.addr })
          else if str_eq s.user.name k
          then none
          else get k s.server.online_map)
  unfolding use_rename
  use_rename-online msg name k s h short clean full =
      let u = s.user in
      let own : OnlineInfo Conn = record { sender = u.conn; addr = u.addr } in
      let v = register_online name u.conn u.addr (unregister_online u.name s.server) in
      let text = cat "已将 " (cat u.name (cat " 更改为: " (cat name "\n"))) in
      let moved : v.online_map ≡ put name own (remove u.name s.server.online_map) =
        renamed_map name own s (one_argument-full msg name h) full in
      ground (
        arith,
        send_msg-online text (record { user = record u { name = name }; server = v }),
        get-put name k own (remove u.name s.server.online_map),
        get-remove u.name k s.server.online_map,
      )
