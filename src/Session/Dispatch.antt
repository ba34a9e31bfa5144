-- ===== src/Session/Dispatch.antt =====
-- internal/session/dispatch.go: which command a line of text is.
pub mod Cases
pub mod Rights
pub mod Bounds
use h_go.Base.{ℕ, String, Bool, ◌≡◌, List, [], ◌∷◌, str_eq, if◌then◌else◌}
use h_go.Text.Trim.{trim_space, is_empty}
use h_go.Text.Chars.{has_code}
use h_go.Text.Find.{has_prefix}
use h_go.Storage.{Database, Redis}
use h_go.Logic.{Clock}
use h_go.Outside.{Outside}
use h_go.Session.{Session, Presence, send_msg}
use h_go.Session.Commands.{
  use_help, use_who, use_stats, use_rename, use_read, use_exit, use_history,
}
use h_go.Session.Commands.Groups.{
  use_group_create, use_group_join, use_group_leave, use_group_delete, use_group_kick,
  use_group_grant_admin, use_group_revoke_admin, use_group_members,
}
use h_go.Session.Commands.Chat.{use_chat, use_group_talk, use_line}
use h_go.Base.{cat}

-- The cases of the switch of DoMessage, by their order.
pub data Command : Type 0 where
  nothing exit who help stats read history group_create group_join group_leave group_delete :
      Command
  group_kick group_grant_admin group_revoke_admin group_members group_talk rename chat illegal
        line :
      Command

-- The case of a trimmed line.
unfoldable pub command_of : String → Command
unfolding has_prefix
command_of msg =
    if is_empty msg
    then nothing
    else if str_eq msg "exit"
    then exit
    else if str_eq msg "who"
    then who
    else if str_eq msg "help"
    then help
    else if str_eq msg "stats"
    then stats
    else if has_prefix "read|" msg
    then read
    else if has_prefix "history|" msg
    then history
    else if has_prefix "gc|" msg
    then group_create
    else if has_prefix "gj|" msg
    then group_join
    else if has_prefix "gl|" msg
    then group_leave
    else if has_prefix "gd|" msg
    then group_delete
    else if has_prefix "gk|" msg
    then group_kick
    else if has_prefix "ga|" msg
    then group_grant_admin
    else if has_prefix "gr|" msg
    then group_revoke_admin
    else if has_prefix "gm|" msg
    then group_members
    else if has_prefix "gt|" msg
    then group_talk
    else if has_prefix "rename|" msg
    then rename
    else if has_prefix "to|" msg
    then chat
    else if has_code b'|' msg
    then illegal
    else line

module _ {D C Conn : Type 0} where
  -- useIllegal
  unfoldable pub use_illegal : String → Session D C Conn → Session D C Conn
  use_illegal msg s =
      send_msg (cat "非法指令：(" (cat (trim_space msg) ") 命令不可识别!\n请使用 help 查看指令帮助。\n")) s

module _ {D C Conn : Type 0} (sql : Database D) (redis : Redis C) (o : Outside) (p : Presence) where
  -- The call that a case makes.
  unfoldable pub run_command : Command → Clock → String → Session D C Conn → Session D C Conn
  run_command nothing clock msg s = s
  run_command exit clock msg s = use_exit sql redis o p clock s
  run_command who clock msg s = use_who s
  run_command help clock msg s = use_help s
  run_command stats clock msg s = use_stats sql redis o p (clock 0) s
  run_command read clock msg s = use_read sql redis o p (clock 0) msg s
  run_command history clock msg s = use_history sql redis o p msg s
  run_command group_create clock msg s = use_group_create msg s
  run_command group_join clock msg s = use_group_join msg s
  run_command group_leave clock msg s = use_group_leave msg s
  run_command group_delete clock msg s = use_group_delete msg s
  run_command group_kick clock msg s = use_group_kick msg s
  run_command group_grant_admin clock msg s = use_group_grant_admin msg s
  run_command group_revoke_admin clock msg s = use_group_revoke_admin msg s
  run_command group_members clock msg s = use_group_members msg s
  run_command group_talk clock msg s = use_group_talk sql redis clock msg s
  run_command rename clock msg s = use_rename msg s
  run_command chat clock msg s = use_chat sql redis clock msg s
  run_command illegal clock msg s = use_illegal msg s
  run_command line clock msg s = use_line sql redis o clock msg s

  -- DoMessage
  unfoldable pub do_message : Clock → String → Session D C Conn → Session D C Conn
  unfolding command_of run_command trim_space
  do_message clock text s = let msg = trim_space text in run_command (command_of msg) clock msg s
