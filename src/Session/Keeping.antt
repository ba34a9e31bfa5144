-- ===== src/Session/Keeping.antt =====
-- What every command that is not about a group keeps: a predicate on sessions that is kept by the texts sent, by a
-- change of the server other than of its groups, by a new name, and by a logout.
use h_go.Base.{◌∙◌, ℕ, ltb, ◌≡◌, refl, String, Bool, true, false, List, [], ◌∷◌, arith, pos, cat}
use h_go.Text.Find.{byte_length, has_any}
use h_go.Text.Split.{split}
use h_go.Storage.{Database, Redis}
use h_go.Store.History.{get_c2c_history}
use h_go.Protocol.{Message}
use h_go.Logic.{Clock}
use h_go.Group.{members_of}
use h_go.Outside.{Outside}
use h_go.Server.{Server, list_online_users, unregister_online, register_online}
use h_go.Session.{Session, Presence, with_server, send_msg, send_json, logout}
use h_go.Session.Branches.{on_argument, on_test, on_list, on_sent}
use h_go.Session.Commands.{
  one_argument, two_arguments, use_help, use_who, use_stats, use_rename, use_read, use_exit,
  use_history, show_users, peer_and_count, history_limit,
}
use h_go.Session.Commands.Groups.{use_group_members}
use h_go.Session.Commands.Chat.{use_chat, use_group_talk, use_line}
use h_go.Session.Dispatch.{
  Command, nothing, exit, who, help, stats, read, history, group_create, group_join, group_leave,
  group_delete, group_kick, group_grant_admin, group_revoke_admin, group_members, group_talk,
  rename, chat, illegal, line, use_illegal, run_command,
}

pub register_online-groups :
    {D C Conn : Type 0} (name : String) (conn : Conn) (addr : String) (v : Server D C Conn)
    → (register_online name conn addr v).group_manager ≡ v.group_manager
unfolding register_online
register_online-groups name conn addr v = ground arith

pub unregister_online-groups :
    {D C Conn : Type 0} (name : String) (v : Server D C Conn)
    → (unregister_online name v).group_manager ≡ v.group_manager
unfolding unregister_online
unregister_online-groups name v = ground arith

-- Whether a command may change a group.
abbrev pub changes_groups : Command → Bool
changes_groups group_create = true
changes_groups group_join = true
changes_groups group_leave = true
changes_groups group_delete = true
changes_groups group_kick = true
changes_groups group_grant_admin = true
changes_groups group_revoke_admin = true
changes_groups _ = false

module _ {D C Conn : Type 0} (sql : Database D) (redis : Redis C) (o : Outside) (p : Presence)
    (P : Session D C Conn → Type 0)
    (sends : (msg : String) (s : Session D C Conn) → P s → P (send_msg msg s))
    (jsons : (m : Message) (s : Session D C Conn) → P s → P (send_json o m s))
    (moves : (s : Session D C Conn) (v : Server D C Conn)
      → v.group_manager ≡ s.server.group_manager
      → P s
      → P (with_server s v))
    (renames : (s : Session D C Conn) (name : String) (v : Server D C Conn)
      → v.group_manager ≡ s.server.group_manager
      → P s
      → P (record { user = record s.user { name = name }; server = v }))
    (logouts : (clock : Clock) (s : Session D C Conn)
      → P s
      → P (logout sql redis o p clock s)) where
  show_users-keeps :
      (users : List (String × String)) (s : Session D C Conn) → P s → P (show_users users s)
  unfolding show_users
  show_users-keeps [] s h = h
  show_users-keeps ((name, addr) ∷ rest) s h =
      show_users-keeps rest (send_msg (cat "[" (cat addr (cat "]" (cat name ":在线中...\n")))) s)
        (sends _ s h)

  use_group_members-keeps :
      (msg : String) (s : Session D C Conn) → P s → P (use_group_members msg s)
  unfolding use_group_members
  use_group_members-keeps msg s h = on_argument P (one_argument msg) _ _ s (sends _ s h) (λ id.
      on_list P (members_of s.server.group_manager id) _ _ (sends _ s h) (λ m ms. sends _ s h))

  use_rename-keeps : (msg : String) (s : Session D C Conn) → P s → P (use_rename msg s)
  unfolding use_rename
  use_rename-keeps msg s h = on_argument P (one_argument msg) _ _ s (sends _ s h) (λ id.
      on_test P (ltb 20 (byte_length id)) _ _ (sends "昵称过长，最多 20 个字符。\n" s h) (
        on_test P (has_any (b' ' ∷ b'\t' ∷ b'\n' ∷ b'\r' ∷ b'|' ∷ []) id) _ _
          (sends "昵称包含非法字符，请避免空格或 `|`。\n" s h)
          (sends (cat "已将 " (cat s.user.name (cat " 更改为: " (cat id "\n")))) _ (
            renames s id
              (register_online id s.user.conn s.user.addr (unregister_online s.user.name s.server))
              (register_online-groups id s.user.conn s.user.addr
                  (unregister_online s.user.name s.server)
                ∙ unregister_online-groups s.user.name s.server)
              h))))

  use_read-keeps :
      (now : ℕ) (msg : String) (s : Session D C Conn) → P s → P (use_read sql redis o p now msg s)
  unfolding use_read
  use_read-keeps now msg s h =
      on_argument P (one_argument msg) _ _ s (sends _ s h) (λ id. sends _ _ (moves s _ refl h))

  use_history-keeps :
      (msg : String) (s : Session D C Conn) → P s → P (use_history sql redis o p msg s)
  unfolding use_history
  use_history-keeps msg s h =
      on_argument P (peer_and_count (split "|" msg)) _ _ s (sends _ s h) (λ (peer, count).
        on_list P
          (get_c2c_history sql s.user.name peer (pos (history_limit count)) s.server.logic.store) _
          _ (sends _ s h) (λ m ms. sends _ s h))

  use_chat-keeps :
      (clock : Clock) (msg : String) (s : Session D C Conn)
      → P s
      → P (use_chat sql redis clock msg s)
  unfolding use_chat
  use_chat-keeps clock msg s h =
      on_argument P (two_arguments msg) _ _ s (sends _ s h) (λ (to_name, to_msg).
        on_test P _ _ _ (sends _ s h) (
          on_sent P _ _ _ _ (λ e. sends _ _ (moves s _ refl h)) (λ m. sends _ _ (moves s _ refl h))
            (λ m. sends _ _ (moves s _ refl h))))

  use_group_talk-keeps :
      (clock : Clock) (msg : String) (s : Session D C Conn)
      → P s
      → P (use_group_talk sql redis clock msg s)
  unfolding use_group_talk
  use_group_talk-keeps clock msg s h =
      on_argument P (two_arguments msg) _ _ s (sends _ s h) (λ (group_id, body).
        on_test P _ _ _ (sends _ s h) (
          on_sent P _ _ _ _ (λ e. sends _ _ (moves s _ refl h)) (λ m. sends _ _ (moves s _ refl h))
            (λ m. sends _ _ (moves s _ refl h))))

  use_line-keeps :
      (clock : Clock) (msg : String) (s : Session D C Conn)
      → P s
      → P (use_line sql redis o clock msg s)
  unfolding use_line
  use_line-keeps clock msg s h =
      on_sent P _ _ _ _ (λ e. sends _ _ (moves s _ refl h)) (λ m. jsons _ _ (moves s _ refl h))
        (λ m. moves _ _ refl (jsons _ _ (moves s _ refl h)))

  pub run_command-keeps :
      (k : Command) (clock : Clock) (msg : String) (s : Session D C Conn)
      → changes_groups k ≡ false
      → P s
      → P (run_command sql redis o p k clock msg s)
  unfolding run_command use_exit use_help use_stats use_illegal use_who
  run_command-keeps nothing clock msg s g h = h
  run_command-keeps exit clock msg s g h = logouts clock _ (sends _ s h)
  run_command-keeps who clock msg s g h =
      show_users-keeps (list_online_users s.server.online_map) s h
  run_command-keeps help clock msg s g h = sends _ s h
  run_command-keeps stats clock msg s g h = sends _ s h
  run_command-keeps read clock msg s g h = use_read-keeps (clock 0) msg s h
  run_command-keeps history clock msg s g h = use_history-keeps msg s h
  run_command-keeps group_members clock msg s g h = use_group_members-keeps msg s h
  run_command-keeps group_talk clock msg s g h = use_group_talk-keeps clock msg s h
  run_command-keeps rename clock msg s g h = use_rename-keeps msg s h
  run_command-keeps chat clock msg s g h = use_chat-keeps clock msg s h
  run_command-keeps illegal clock msg s g h = sends _ s h
  run_command-keeps line clock msg s g h = use_line-keeps clock msg s h
  run_command-keeps group_create clock msg s g h = absurd (ground arith)
  run_command-keeps group_join clock msg s g h = absurd (ground arith)
  run_command-keeps group_leave clock msg s g h = absurd (ground arith)
  run_command-keeps group_delete clock msg s g h = absurd (ground arith)
  run_command-keeps group_kick clock msg s g h = absurd (ground arith)
  run_command-keeps group_grant_admin clock msg s g h = absurd (ground arith)
  run_command-keeps group_revoke_admin clock msg s g h = absurd (ground arith)
