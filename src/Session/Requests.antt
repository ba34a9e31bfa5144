-- ===== src/Session/Requests.antt =====
-- The commands on groups: each one is refused for its form, or makes one request of the group manager in the user's name.
use h_go.Base.{◌≡◌, refl, String, true, arith}
use h_go.Storage.{Database, Redis}
use h_go.Logic.{Clock}
use h_go.Outside.{Outside}
use h_go.Group.{Request, creates, deletes, joins, leaves, kicks, grants, revokes, serve}
use h_go.Session.{Session, Presence, send_msg}
use h_go.Session.Branches.{on_argument}
use h_go.Session.Keeping.{changes_groups}
use h_go.Session.Commands.{one_argument, two_arguments}
use h_go.Session.Commands.Groups.{
  report, use_group_create, use_group_join, use_group_leave, use_group_delete, use_group_kick,
  use_group_grant_admin, use_group_revoke_admin,
}
use h_go.Session.Dispatch.{
  Command, nothing, exit, who, help, stats, read, history, group_create, group_join, group_leave,
  group_delete, group_kick, group_grant_admin, group_revoke_admin, group_members, group_talk,
  rename, chat, illegal, line, run_command,
}

-- In whose name a request is made.
abbrev pub actor : Request → String
actor (creates id u) = u
actor (deletes id by) = by
actor (joins id u) = u
actor (leaves id u) = u
actor (kicks id by t) = by
actor (grants id by t) = by
actor (revokes id by t) = by

module _ {D C Conn : Type 0} where
  -- The second session is the first one after a text was sent, or after a request in the user's name was answered.
  pub data IsServed (s : Session D C Conn) : Session D C Conn → Type 0 where
    told : (text : String) → IsServed s (send_msg text s)
    served :
        (bad good : String) (r : Request)
        → actor r ≡ s.user.name
        → IsServed s (report bad good (serve s.server.group_manager r) s)

  use_group_create-IsServed :
      (msg : String) (s : Session D C Conn) → IsServed s (use_group_create msg s)
  unfolding use_group_create serve
  use_group_create-IsServed msg s =
      on_argument (IsServed s) (one_argument msg) _ _ s (told _)
        (λ id. served _ _ (creates id s.user.name) refl)

  use_group_join-IsServed :
      (msg : String) (s : Session D C Conn) → IsServed s (use_group_join msg s)
  unfolding use_group_join serve
  use_group_join-IsServed msg s =
      on_argument (IsServed s) (one_argument msg) _ _ s (told _)
        (λ id. served _ _ (joins id s.user.name) refl)

  use_group_leave-IsServed :
      (msg : String) (s : Session D C Conn) → IsServed s (use_group_leave msg s)
  unfolding use_group_leave serve
  use_group_leave-IsServed msg s =
      on_argument (IsServed s) (one_argument msg) _ _ s (told _)
        (λ id. served _ _ (leaves id s.user.name) refl)

  use_group_delete-IsServed :
      (msg : String) (s : Session D C Conn) → IsServed s (use_group_delete msg s)
  unfolding use_group_delete serve
  use_group_delete-IsServed msg s =
      on_argument (IsServed s) (one_argument msg) _ _ s (told _)
        (λ id. served _ _ (deletes id s.user.name) refl)

  use_group_kick-IsServed :
      (msg : String) (s : Session D C Conn) → IsServed s (use_group_kick msg s)
  unfolding use_group_kick serve
  use_group_kick-IsServed msg s =
      on_argument (IsServed s) (two_arguments msg) _ _ s (told _)
        (λ (id, target). served _ _ (kicks id s.user.name target) refl)

  use_group_grant_admin-IsServed :
      (msg : String) (s : Session D C Conn) → IsServed s (use_group_grant_admin msg s)
  unfolding use_group_grant_admin serve
  use_group_grant_admin-IsServed msg s =
      on_argument (IsServed s) (two_arguments msg) _ _ s (told _)
        (λ (id, target). served _ _ (grants id s.user.name target) refl)

  use_group_revoke_admin-IsServed :
      (msg : String) (s : Session D C Conn) → IsServed s (use_group_revoke_admin msg s)
  unfolding use_group_revoke_admin serve
  use_group_revoke_admin-IsServed msg s =
      on_argument (IsServed s) (two_arguments msg) _ _ s (told _)
        (λ (id, target). served _ _ (revokes id s.user.name target) refl)

module _ {D C Conn : Type 0} (sql : Database D) (redis : Redis C) (o : Outside) (p : Presence) where
  pub run_command-IsServed :
      (k : Command) (clock : Clock) (msg : String) (s : Session D C Conn)
      → changes_groups k ≡ true
      → IsServed s (run_command sql redis o p k clock msg s)
  unfolding run_command
  run_command-IsServed group_create clock msg s g = use_group_create-IsServed msg s
  run_command-IsServed group_join clock msg s g = use_group_join-IsServed msg s
  run_command-IsServed group_leave clock msg s g = use_group_leave-IsServed msg s
  run_command-IsServed group_delete clock msg s g = use_group_delete-IsServed msg s
  run_command-IsServed group_kick clock msg s g = use_group_kick-IsServed msg s
  run_command-IsServed group_grant_admin clock msg s g = use_group_grant_admin-IsServed msg s
  run_command-IsServed group_revoke_admin clock msg s g = use_group_revoke_admin-IsServed msg s
  run_command-IsServed nothing clock msg s g = absurd (ground arith)
  run_command-IsServed exit clock msg s g = absurd (ground arith)
  run_command-IsServed who clock msg s g = absurd (ground arith)
  run_command-IsServed help clock msg s g = absurd (ground arith)
  run_command-IsServed stats clock msg s g = absurd (ground arith)
  run_command-IsServed read clock msg s g = absurd (ground arith)
  run_command-IsServed history clock msg s g = absurd (ground arith)
  run_command-IsServed group_members clock msg s g = absurd (ground arith)
  run_command-IsServed group_talk clock msg s g = absurd (ground arith)
  run_command-IsServed rename clock msg s g = absurd (ground arith)
  run_command-IsServed chat clock msg s g = absurd (ground arith)
  run_command-IsServed illegal clock msg s g = absurd (ground arith)
  run_command-IsServed line clock msg s g = absurd (ground arith)
