-- ===== src/Group/Replay.antt =====
-- The groups as a client sees them: who owns a group, and which role a user has in it, without the maps.
pub mod Refines
use h_go.Base.{
  String, ◌≡◌, refl, ap, ◌∙◌, ◌||◌, not, Option, none, some, List, [], ◌∷◌, arith, eq_iff, str_eq,
  leb, ltb, if◌then◌else◌, is_some, Dict, get, put, remove, get-put, get-remove, Option-cases, inl,
  inr,
}
use h_go.Text.Trim.{trim_space, is_empty}
use h_go.Group.{
  GroupRole, member, admin, owner, rank, Error, Group, GroupManager, with_members, Request, creates,
  deletes, joins, leaves, kicks, grants, revokes, fresh_group, serve, serve_all, group_named,
  role_in,
}

-- The owner of each group that there is, and the role of each user in each group.
pub record Roster : Type 0 where
  pub owner_of : String → Option String
  pub role : String → String → Option GroupRole

unfoldable pub owner_in : GroupManager → String → Option String
owner_in gm id = elim (get id gm.groups) [ none ↦ none | some g ↦ some g.owner_name ]

unfoldable pub roster : GroupManager → Roster
roster gm = record { owner_of = owner_in gm; role = role_in gm }

unfoldable pub set_owner : String → Option String → Roster → Roster
set_owner id own f = record f { owner_of = λ i. if str_eq id i then own else f.owner_of i }

unfoldable pub set_role : String → String → Option GroupRole → Roster → Roster
set_role id u r f = record f {
  role = λ i v. if str_eq id i then if str_eq u v then r else f.role i v else f.role i v;
}

unfoldable pub clear_roles : String → Roster → Roster
clear_roles id f = record f { role = λ i v. if str_eq id i then none else f.role i v }

-- What a request does if it is not refused.
unfoldable pub effect : Request → Roster → Roster
effect (creates id u) f =
    let x = trim_space id in
    set_owner x (some (trim_space u)) (set_role x (trim_space u) (some owner) (clear_roles x f))
effect (deletes id u) f = set_owner (trim_space id) none (clear_roles (trim_space id) f)
effect (joins id u) f = set_role (trim_space id) (trim_space u) (some member) f
effect (leaves id u) f = set_role (trim_space id) (trim_space u) none f
effect (kicks id by t) f = set_role (trim_space id) t none f
effect (grants id by t) f = set_role (trim_space id) t (some admin) f
effect (revokes id by t) f = set_role (trim_space id) t (some member) f

-- Why a request is refused, `none` if it is not.
unfoldable pub refusal : Request → Roster → Error
refusal (creates id u) f =
    if is_empty (trim_space id) || is_empty (trim_space u)
    then some "groupID/owner empty"
    else if is_some (f.owner_of (trim_space id))
    then some "group already exists"
    else none
refusal (deletes id u) f =
    if is_empty (trim_space id) || is_empty (trim_space u)
    then some "groupID/operator empty"
    else elim (f.owner_of (trim_space id)) [
      | none ↦ some "group not found"
      | some own ↦ if str_eq own (trim_space u) then none else some "only owner can delete group"
    ]
refusal (joins id u) f =
    if is_empty (trim_space id) || is_empty (trim_space u)
    then some "groupID/username empty"
    else if not (is_some (f.owner_of (trim_space id)))
    then some "group not found"
    else if is_some (f.role (trim_space id) (trim_space u))
    then some "already a member"
    else none
refusal (leaves id u) f =
    if is_empty (trim_space id) || is_empty (trim_space u)
    then some "groupID/username empty"
    else elim (f.owner_of (trim_space id)) [
      | none ↦ some "group not found"
      | some own ↦
          if str_eq own (trim_space u) then some "owner cannot leave, use delete instead" else none
    ]
refusal (kicks id by t) f =
    if not (is_some (f.owner_of (trim_space id)))
    then some "group not found"
    else elim (f.role (trim_space id) by) [
      | none ↦ some "operator not in group"
      | some b ↦
          if ltb (rank b) (rank admin)
          then some "insufficient permission"
          else elim (f.role (trim_space id) t) [
            | none ↦ some "target not in group"
            | some r ↦
                if leb (rank b) (rank r)
                then some "cannot kick member with equal or higher role"
                else none
          ]
    ]
refusal (grants id by t) f = elim (f.owner_of (trim_space id)) [
  | none ↦ some "group not found"
  | some own ↦
      if not (str_eq own by)
      then some "only owner can grant admin"
      else if not (is_some (f.role (trim_space id) t))
      then some "target not in group"
      else none
]
refusal (revokes id by t) f = elim (f.owner_of (trim_space id)) [
  | none ↦ some "group not found"
  | some own ↦
      if not (str_eq own by)
      then some "only owner can revoke admin"
      else if not (is_some (f.role (trim_space id) t))
      then some "target not in group"
      else none
]

unfoldable pub replay_one : Request → Roster → Roster
replay_one r f = elim (refusal r f) [ none ↦ effect r f | some e ↦ f ]

unfoldable pub replay : List Request → Roster → List Error × Roster
unfolding replay_one refusal effect set_role set_owner clear_roles
replay [] f = ([], f)
replay (r ∷ rs) f = let (es, f') = replay rs (replay_one r f) in (refusal r f ∷ es, f')

-- The answers of a history of requests.
unfoldable pub answers : GroupManager → List Request → List Error
answers gm [] = []
answers gm (r ∷ rs) = (serve gm r).1 ∷ answers (serve gm r).0 rs
