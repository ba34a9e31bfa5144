-- ===== src/Session/Commands/Groups.antt =====
-- The commands on groups.
use h_go.Base.{String, none, some, [], ◌∷◌, cat}
use h_go.Text.Find.{join}
use h_go.Group.{
  GroupManager, Error, create, delete, join as join_group, leave, kick, grant_admin, revoke_admin,
  members_of,
}
use h_go.Server.{with_group_manager}
use h_go.Session.{Session, with_server, send_msg}
use h_go.Session.Commands.{one_argument, two_arguments}

module _ {D C Conn : Type 0} where
  -- The answer to a call of the group manager: the error behind a text, or another text.
  unfoldable pub report :
      String → String → GroupManager × Error → Session D C Conn → Session D C Conn
  report refused accepted (gm, e) s =
      let s' = with_server s (with_group_manager s.server gm) in
      elim e [ some x ↦ send_msg (cat refused (cat x "\n")) s' | none ↦ send_msg accepted s' ]

  -- useGroupCreate
  unfoldable pub use_group_create : String → Session D C Conn → Session D C Conn
  unfolding report
  use_group_create msg s = elim (one_argument msg) [
    | none ↦ send_msg "命令格式错误，正确用法：gc|群ID\n" s
    | some id ↦
        report "创建群失败: " (cat "创建群成功: " (cat id "\n"))
          (create s.server.group_manager id s.user.name) s
  ]

  -- useGroupJoin
  unfoldable pub use_group_join : String → Session D C Conn → Session D C Conn
  unfolding report
  use_group_join msg s = elim (one_argument msg) [
    | none ↦ send_msg "命令格式错误，正确用法：gj|群ID\n" s
    | some id ↦
        report "加入群失败: " (cat "加入群成功: " (cat id "\n"))
          (join_group s.server.group_manager id s.user.name) s
  ]

  -- useGroupLeave
  unfoldable pub use_group_leave : String → Session D C Conn → Session D C Conn
  unfolding report
  use_group_leave msg s = elim (one_argument msg) [
    | none ↦ send_msg "命令格式错误，正确用法：gl|群ID\n" s
    | some id ↦
        report "退出群失败: " (cat "已退出群: " (cat id "\n")) (leave s.server.group_manager id s.user.name)
          s
  ]

  -- useGroupDelete
  unfoldable pub use_group_delete : String → Session D C Conn → Session D C Conn
  unfolding report
  use_group_delete msg s = elim (one_argument msg) [
    | none ↦ send_msg "命令格式错误，正确用法：gd|群ID\n" s
    | some id ↦
        report "解散群失败: " (cat "已解散群: " (cat id "\n")) (delete s.server.group_manager id s.user.name)
          s
  ]

  -- useGroupKick
  unfoldable pub use_group_kick : String → Session D C Conn → Session D C Conn
  unfolding report
  use_group_kick msg s = elim (two_arguments msg) [
    | none ↦ send_msg "命令格式错误，正确用法：gk|群ID|用户名\n" s
    | some (id, target) ↦
        report "踢人失败: " (cat "踢人成功: " (cat target "\n"))
          (kick s.server.group_manager id s.user.name target) s
  ]

  -- useGroupGrantAdmin
  unfoldable pub use_group_grant_admin : String → Session D C Conn → Session D C Conn
  unfolding report
  use_group_grant_admin msg s = elim (two_arguments msg) [
    | none ↦ send_msg "命令格式错误，正确用法：ga|群ID|用户名\n" s
    | some (id, target) ↦
        report "设管理员失败: " (cat "设管理员成功: " (cat target "\n"))
          (grant_admin s.server.group_manager id s.user.name target) s
  ]

  -- useGroupRevokeAdmin
  unfoldable pub use_group_revoke_admin : String → Session D C Conn → Session D C Conn
  unfolding report
  use_group_revoke_admin msg s = elim (two_arguments msg) [
    | none ↦ send_msg "命令格式错误，正确用法：gr|群ID|用户名\n" s
    | some (id, target) ↦
        report "撤管理员失败: " (cat "撤管理员成功: " (cat target "\n"))
          (revoke_admin s.server.group_manager id s.user.name target) s
  ]

  -- useGroupMembers
  unfoldable pub use_group_members : String → Session D C Conn → Session D C Conn
  use_group_members msg s = elim (one_argument msg) [
    | none ↦ send_msg "命令格式错误，正确用法：gm|群ID\n" s
    | some id ↦ elim (members_of s.server.group_manager id) [
      | [] ↦ send_msg (cat "群不存在或无成员: " (cat id "\n")) s
      | m ∷ ms ↦ send_msg (cat "群成员(" (cat id (cat "): " (cat (join ", " (m ∷ ms)) "\n")))) s
    ]
  ]
