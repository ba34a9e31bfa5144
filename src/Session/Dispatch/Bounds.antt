-- ===== src/Session/Dispatch/Bounds.antt =====
-- A line of text keeps the channel within its capacity, and closes the session only by a logout.
use h_go.Base.{◌≡◌, String, none, some, Bool-cases, inl, inr, cat}
use h_go.Text.Trim.{trim_space}
use h_go.Storage.{Database, Redis}
use h_go.Logic.{Clock}
use h_go.Outside.{Outside}
use h_go.Group.{GroupManager, Error}
use h_go.Server.{Server, with_group_manager}
use h_go.Session.{Session, Presence}
use h_go.Session.Invariant.{
  IsSession, send_msg-IsSession, send_json-IsSession, logout-IsSession, with_server-IsSession,
}
use h_go.Session.Keeping.{changes_groups, run_command-keeps}
use h_go.Session.Requests.{IsServed, told, served, run_command-IsServed}
use h_go.Session.Commands.Groups.{report}
use h_go.Session.Dispatch.{Command, run_command, do_message, command_of}

module _ {D C Conn : Type 0} where
  report-IsSession :
      (bad good : String) (answer : GroupManager × Error) (s : Session D C Conn)
      → IsSession s
      → IsSession (report bad good answer s)
  unfolding report
  report-IsSession bad good (gm, none) s h =
      send_msg-IsSession good _ (with_server-IsSession s (with_group_manager s.server gm) h)
  report-IsSession bad good (gm, some x) s h =
      send_msg-IsSession (cat bad (cat x "\n")) _
        (with_server-IsSession s (with_group_manager s.server gm) h)

  IsServed-IsSession : (s s' : Session D C Conn) → IsServed s s' → IsSession s → IsSession s'
  IsServed-IsSession s _ (told text) h = send_msg-IsSession text s h
  IsServed-IsSession s _ (served bad good r a) h = report-IsSession bad good _ s h

  renamed-IsSession :
      (s : Session D C Conn) (name : String) (v : Server D C Conn)
      → v.group_manager ≡ s.server.group_manager
      → IsSession s
      → IsSession (record { user = record s.user { name = name }; server = v })
  unfolding IsSession
  renamed-IsSession s name v g h = h

module _ {D C Conn : Type 0} (sql : Database D) (redis : Redis C) (o : Outside) (p : Presence) where
  run_command-IsSession :
      (k : Command) (clock : Clock) (msg : String) (s : Session D C Conn)
      → IsSession s
      → IsSession (run_command sql redis o p k clock msg s)
  run_command-IsSession k clock msg s h = elim (Bool-cases (changes_groups k)) [
    | inl g ↦ IsServed-IsSession s _ (run_command-IsServed sql redis o p k clock msg s g) h
    | inr g ↦
        run_command-keeps sql redis o p IsSession send_msg-IsSession (send_json-IsSession o)
          (λ s v e h. with_server-IsSession s v h) renamed-IsSession
          (λ clock s h. (logout-IsSession sql redis o p clock s h).0) k clock msg s g h
  ]

  pub do_message-IsSession :
      (clock : Clock) (text : String) (s : Session D C Conn)
      → IsSession s
      → IsSession (do_message sql redis o p clock text s)
  unfolding do_message
  do_message-IsSession clock text s h =
      let msg = trim_space text in run_command-IsSession (command_of msg) clock msg s h
