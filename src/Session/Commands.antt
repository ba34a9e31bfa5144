-- ===== src/Session/Commands.antt =====
-- internal/session/commands.go: the commands of a user.
pub mod Groups
pub mod Chat
pub mod Rename
use h_go.Base.{
  ℕ, ◌+◌, String, Bool, true, false, not, ◌&&◌, ◌||◌, Option, none, some, List, [], ◌∷◌, ltb, leb,
  length, str_eq, if◌then◌else◌, ℤ, pos, negsuc, cat,
}
use h_go.Text.Trim.{trim_space, is_empty}
use h_go.Text.Split.{split_cuts, split}
use h_go.Text.Find.{has_any, byte_length, join}
use h_go.Text.Decimal.{show, atoi}
use h_go.Protocol.{Message}
use h_go.Storage.{Database, Redis}
use h_go.Store.History.{get_c2c_history}
use h_go.Logic.{Clock, handle_read_ack}
use h_go.Outside.{Outside}
use h_go.Server.{Server, register_online, unregister_online, list_online_users, with_logic}
use h_go.Server.Stats.{snapshot_stats_text}
use h_go.Session.{Session, Presence, with_user, with_server, send_msg, logout}

-- `parts := strings.SplitN(msg, "|", 2)`: the second part, trimmed, if there is one that is not blank.
unfoldable pub second_of : List String → Option String
second_of (a ∷ b ∷ []) = let x = trim_space b in if is_empty x then none else some x
second_of _ = none

unfoldable pub one_argument : String → Option String
unfolding second_of trim_space split_cuts
one_argument msg = second_of (split_cuts "|" 1 msg)

-- `parts := strings.SplitN(msg, "|", 3)`: the second and the third part, trimmed, if neither is blank.
unfoldable pub second_and_third : List String → Option (String × String)
second_and_third (a ∷ b ∷ c ∷ []) =
    let x = trim_space b in
    let y = trim_space c in if is_empty x || is_empty y then none else some (x, y)
second_and_third _ = none

unfoldable pub two_arguments : String → Option (String × String)
unfolding second_and_third trim_space split_cuts
two_arguments msg = second_and_third (split_cuts "|" 2 msg)

-- `parts := strings.Split(msg, "|")` of useHistory: the second part and what stands at the third.
unfoldable pub peer_and_count : List String → Option (String × String)
peer_and_count (a ∷ b ∷ []) = let x = trim_space b in if is_empty x then none else some (x, "")
peer_and_count (a ∷ b ∷ c ∷ _) =
    let x = trim_space b in if is_empty x then none else some (x, trim_space c)
peer_and_count _ = none

-- `n > 0 && n <= 200`
limit_of : Option ℤ → ℕ
limit_of none = 20
limit_of (some (pos n)) = if leb 1 n && leb n 200 then n else 20
limit_of (some (negsuc n)) = 20

unfoldable pub history_limit : String → ℕ
unfolding limit_of atoi
history_limit text = if is_empty text then 20 else limit_of (atoi text)

-- a line of the history
history_line : Outside → Message → String
history_line o h = cat "[" (
    cat (o.format_time h.ts) (
      cat "] " (
        cat h.from (
          cat " -> " (
            cat h.to (
              cat " | seq=" (
                cat (show h.seq) (
                  cat " id=" (
                    cat h.server_msg_id
                      (cat " status=" (cat (show h.status) (cat " | " h.body))))))))))))

history_lines : Outside → List Message → List String
unfolding history_line
history_lines o [] = []
history_lines o (h ∷ hs) = history_line o h ∷ history_lines o hs

module _ {D C Conn : Type 0} where
  -- useHelp
  unfoldable pub use_help : Session D C Conn → Session D C Conn
  unfolding send_msg join
  use_help s =
      send_msg
        (join "\n" (
          "可用命令:" ∷ "  help                  查看帮助" ∷ "  who                   查看在线用户"
          ∷ "  rename|新昵称          修改昵称" ∷ "  to|用户名|消息         发送私聊消息"
          ∷ "  gc|群ID                创建群" ∷ "  gj|群ID                加入群"
          ∷ "  gl|群ID                退出群" ∷ "  gd|群ID                解散群(仅群主)"
          ∷ "  gk|群ID|用户名          踢人(管理员/群主)" ∷ "  ga|群ID|用户名          设管理员(仅群主)"
          ∷ "  gr|群ID|用户名          撤管理员(仅群主)" ∷ "  gm|群ID                查看群成员"
          ∷ "  gt|群ID|消息            发送群消息" ∷ "  history|用户名|条数     查询私聊历史（默认20）"
          ∷ "  read|server_msg_id      上报已读回执" ∷ "  stats                 查看服务端运行指标"
          ∷ "  exit                  退出聊天室" ∷ []))
        s

  -- the loop of useWho
  unfoldable pub show_users : List (String × String) → Session D C Conn → Session D C Conn
  show_users [] s = s
  show_users ((name, addr) ∷ rest) s =
      show_users rest (send_msg (cat "[" (cat addr (cat "]" (cat name ":在线中...\n")))) s)

  -- useWho
  unfoldable pub use_who : Session D C Conn → Session D C Conn
  unfolding show_users list_online_users
  use_who s = show_users (list_online_users s.server.online_map) s

  -- useRename
  unfoldable pub use_rename : String → Session D C Conn → Session D C Conn
  unfolding one_argument
  use_rename msg s = elim (one_argument msg) [
    | none ↦ send_msg "命令格式错误，正确用法：rename|新昵称，例如：rename|alice\n" s
    | some new_name ↦
        if ltb 20 (byte_length new_name)
        then send_msg "昵称过长，最多 20 个字符。\n" s
        else if has_any (b' ' ∷ b'\t' ∷ b'\n' ∷ b'\r' ∷ b'|' ∷ []) new_name
        then send_msg "昵称包含非法字符，请避免空格或 `|`。\n" s
        else (let u = s.user in
            let v = register_online new_name u.conn u.addr (unregister_online u.name s.server) in
            send_msg (cat "已将 " (cat u.name (cat " 更改为: " (cat new_name "\n"))))
              (record { user = record u { name = new_name }; server = v }))
  ]

module _ {D C Conn : Type 0} (sql : Database D) (redis : Redis C) (o : Outside) (p : Presence) where
  -- useStats
  unfoldable pub use_stats : ℕ → Session D C Conn → Session D C Conn
  use_stats now s = send_msg (snapshot_stats_text sql o now s.server) s

  -- useRead
  unfoldable pub use_read : ℕ → String → Session D C Conn → Session D C Conn
  unfolding one_argument
  use_read now msg s = elim (one_argument msg) [
    | none ↦ send_msg "命令格式错误，正确用法：read|server_msg_id\n" s
    | some id ↦ send_msg (cat "已上报 read_ack: " id) (
        with_server s
          (with_logic s.server (handle_read_ack sql redis s.user.name id now s.server.logic)))
  ]

  -- useExit
  unfoldable pub use_exit : Clock → Session D C Conn → Session D C Conn
  use_exit clock s = logout sql redis o p clock (send_msg "再见！欢迎下次再来~\n" s)

  -- useHistory
  unfoldable pub use_history : String → Session D C Conn → Session D C Conn
  unfolding peer_and_count history_lines history_limit split
  use_history msg s = elim (peer_and_count (split "|" msg)) [
    | none ↦ send_msg "命令格式错误，正确用法：history|用户名|条数(可选)\n" s
    | some (peer, count) ↦
        (let history =
            get_c2c_history sql s.user.name peer (pos (history_limit count)) s.server.logic.store in
          elim history [
            | [] ↦ send_msg "暂无历史消息。\n" s
            | h ∷ hs ↦
                (let head =
                    cat "History with "
                      (cat peer (cat " (count=" (cat (show (length (h ∷ hs))) ")"))) in
                  send_msg (cat (join "\n" (head ∷ history_lines o (h ∷ hs))) "\n") s)
          ])
  ]
