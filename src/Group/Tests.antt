-- ===== src/Group/Tests.antt =====
-- Groups at work: the theorems of the sibling modules at one small history, and runs of the code.
use h_go.Base.{
  ◌≡◌, ◌≢◌, ◌↔◌, ◌≤◌, ◌<◌, refl, none, some, List, [], ◌∷◌, arith, eq_iff, get, put, remove,
}
use h_go.Text.Trim.{trim_space}
use h_go.Group.{
  member, admin, owner, Group, GroupManager, Request, creates, joins, kicks, grants,
  new_group_manager, kick, GroupRole, rank, revoke_admin, serve, serve_all, role_in,
}
use h_go.Group.Invariant.{IsBook, serve-IsBook, new-IsBook}
use h_go.Group.Replay.{roster, owner_in, replay, replay_one, refusal, effect, set_role, answers}
use h_go.Group.Replay.Refines.{serve_all_refines}
use h_go.Group.Rights.{Entitled, serve_rights, revoked_owner_kicked, kick_succeeds}

-- Alice owns the group go, Bob is an administrator of it and Carol a plain member.
abbrev go_group : Group
go_group = record {
  id = "go";
  owner_name = "alice";
  members = ("alice", owner) ∷ ("bob", admin) ∷ ("carol", member) ∷ [];
}

abbrev book : GroupManager
book = record { groups = ("go", go_group) ∷ [] }

book_made :
    serve_all new_group_manager (
      creates " go " "alice"
      ∷ joins "go" "bob"
      ∷ joins "go" "carol"
      ∷ grants "go" "alice" "bob"
      ∷ [])
    ≡ book
unfolding serve_all serve get put trim_space
book_made = refl

kick_upwards :
    (kick book "go" "bob" "alice").1 ≡ some "cannot kick member with equal or higher role"
unfolding kick get trim_space
kick_upwards = refl

serve-IsBook_example : IsBook (serve new_group_manager (creates "go" "alice")).0
serve-IsBook_example = serve-IsBook new_group_manager (creates "go" "alice") new-IsBook tt

serve_rights_example : Entitled book (kicks "go" "bob" "carol") "carol"
serve_rights_example =
    serve_rights book (kicks "go" "bob" "carol") "carol"
      (unfold serve get put remove trim_space in λ e. cc)

revoked_owner_kicked_example :
    let revoked = revoke_admin book "go" "alice" "alice" in
    let kicked = kick revoked.0 "go" "bob" "alice" in
    (revoked.1 ≡ none)
    × (kicked.1 ≡ none)
    × (role_in kicked.0 (trim_space "go") "alice" ≡ none)
    × (role_in kicked.0 (trim_space "go") "bob" ≡ some admin)
revoked_owner_kicked_example =
    revoked_owner_kicked book "go" "bob" go_group (unfold get trim_space in refl)
      (unfold get in refl) (unfold get in refl)

dave_is_no_owner :
    (g : Group) → get (trim_space "go") book.groups ≡ some g → g.owner_name ≢ trim_space "dave"
unfolding get trim_space
dave_is_no_owner g e p = ground (arith, eq_iff "alice" "dave")

kick_succeeds_example : ((kick book "go" "bob" "carol").1 ≡ none) ↔ (
    (b : GroupRole) × (r : GroupRole) × (role_in book (trim_space "go") "bob" ≡ some b)
    × (role_in book (trim_space "go") "carol" ≡ some r)
    × (1 ≤ rank b)
    × (rank r < rank b))
kick_succeeds_example = kick_succeeds book "go" "bob" "carol"

-- Bob cannot kick Alice, but he can kick Carol, and only once.
abbrev kicking : List Request
kicking = kicks "go" "bob" "alice" ∷ kicks "go" "bob" "carol" ∷ kicks "go" "bob" "carol" ∷ []

kicking_answers :
    (replay kicking (roster book)).0
    ≡ some "cannot kick member with equal or higher role" ∷ none ∷ some "target not in group" ∷ []
unfolding replay replay_one refusal effect set_role roster owner_in get trim_space
kicking_answers = refl

serve_all_refines_example :
    (answers book kicking ≡ (replay kicking (roster book)).0)
    × (roster (serve_all book kicking) ≡ (replay kicking (roster book)).1)
serve_all_refines_example = serve_all_refines book kicking
