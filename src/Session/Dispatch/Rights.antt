-- ===== src/Session/Dispatch/Rights.antt =====
-- What a line of text can do to the groups.
use h_go.Base.{◌≡◌, ◌≢◌, ◌⊎◌, refl, ap, ◌∙◌, String, false, none, some, Bool-cases, inl, inr, cat}
use h_go.Text.Trim.{trim_space}
use h_go.Storage.{Database, Redis}
use h_go.Logic.{Clock}
use h_go.Outside.{Outside}
use h_go.Group.{GroupManager, Error, Request, serve, role_in, group_named}
use h_go.Group.Changes.{changed_rights}
use h_go.Group.Rights.{Entitled}
use h_go.Session.{Session, Presence}
use h_go.Session.Keeping.{changes_groups, run_command-keeps}
use h_go.Session.Requests.{actor, IsServed, told, served, run_command-IsServed}
use h_go.Session.Commands.Groups.{report}
use h_go.Session.Dispatch.{Command, run_command, do_message, command_of}
use h_go.Session.Standing.{
  HasGroups, send_msg-HasGroups, send_json-HasGroups, with_server-HasGroups, renamed-HasGroups,
  logout-HasGroups,
}

module _ {D C Conn : Type 0} where
  report-groups :
      (bad good : String) (gm : GroupManager) (e : Error) (s : Session D C Conn)
      → HasGroups gm (report bad good (gm, e) s)
  unfolding report
  report-groups bad good gm none s = send_msg-HasGroups gm good _ (unfold HasGroups in refl)
  report-groups bad good gm (some x) s =
      send_msg-HasGroups gm (cat bad (cat x "\n")) _ (unfold HasGroups in refl)

module _ {D C Conn : Type 0} (sql : Database D) (redis : Redis C) (o : Outside) (p : Presence) where
  run_command-groups :
      (k : Command) (clock : Clock) (msg : String) (s : Session D C Conn)
      → changes_groups k ≡ false
      → HasGroups s.server.group_manager (run_command sql redis o p k clock msg s)
  run_command-groups k clock msg s g =
      let gm = s.server.group_manager in
      run_command-keeps sql redis o p (HasGroups gm) (send_msg-HasGroups gm)
        (send_json-HasGroups gm o) (with_server-HasGroups gm) (renamed-HasGroups gm)
        (logout-HasGroups sql redis o p gm) k clock msg s g (unfold HasGroups in refl)

  -- The groups after a line: those before, or what one request in the user's name makes of them.
  abbrev AreServed : Session D C Conn → Session D C Conn → Type 0
  AreServed s s' =
      (s'.server.group_manager ≡ s.server.group_manager)
      ⊎ ((r : Request) × (actor r ≡ s.user.name)
          × (s'.server.group_manager ≡ (serve s.server.group_manager r).0))

  IsServed-AreServed : (s s' : Session D C Conn) → IsServed s s' → AreServed s s'
  unfolding HasGroups
  IsServed-AreServed s _ (told text) = inl (send_msg-HasGroups s.server.group_manager text s refl)
  IsServed-AreServed s _ (served bad good r a) =
      let (gm, e) = serve s.server.group_manager r in inr (r, a, report-groups bad good gm e s)

  -- A line of text leaves the groups as they are, or makes one request of the group manager in the name of the user who
  -- typed it.
  pub do_message-AreServed :
      (clock : Clock) (text : String) (s : Session D C Conn)
      → (let gm' = (do_message sql redis o p clock text s).server.group_manager in
          (gm' ≡ s.server.group_manager)
          ⊎ ((r : Request) × (actor r ≡ s.user.name) × (gm' ≡ (serve s.server.group_manager r).0)))
  unfolding do_message HasGroups
  do_message-AreServed clock text s =
      let msg = trim_space text in
      let k = command_of msg in
      elim (Bool-cases (changes_groups k)) [
        | inl g ↦ IsServed-AreServed s _ (run_command-IsServed sql redis o p k clock msg s g)
        | inr g ↦ inl (run_command-groups k clock msg s g)
      ]

  -- A line of text changes the role of a user in a group only by a request that names this group, that is made in the name
  -- of the user who typed the line, and that was entitled to the change.
  pub do_message-rights :
      (clock : Clock) (text : String) (s : Session D C Conn) (id u : String)
      → role_in (do_message sql redis o p clock text s).server.group_manager id u
        ≢ role_in s.server.group_manager id u
      → (r : Request) × (actor r ≡ s.user.name)
        × (group_named r ≡ id)
        × Entitled s.server.group_manager r u
  do_message-rights clock text s id u h = elim (do_message-AreServed clock text s) [
    | inl same ↦ absurd (h (ap (λ gm. role_in gm id u) same))
    | inr (r, by, same) ↦
        (let gm = s.server.group_manager in
          let (named, entitled) =
            changed_rights gm r id u (λ e. h (ap (λ gm. role_in gm id u) same ∙ e)) in
          (r, by, named, entitled))
  ]
