-- ===== src/Group.antt =====
-- internal/server/group.go: the groups and the rights of their members. A method returns the new
-- manager and the error, `none` for nil. The lock makes each method one step.
use h_go.Base.{
  ℕ, String, Bool, true, false, ◌||◌, Option, none, some, List, [], ◌∷◌, leb, ltb, str_eq, not,
  if◌then◌else◌, is_some, Dict, get, put, remove, keys,
}
use h_go.Text.Trim.{trim_space, is_empty}
pub mod Invariant
pub mod Rights
pub mod Views
pub mod Replay
pub mod Order
pub mod Changes
mod Tests

pub data GroupRole : Type 0 where
  member admin owner : GroupRole

-- The number behind each constant of type GroupRole.
abbrev pub rank : GroupRole → ℕ
rank member = 0
rank admin = 1
rank owner = 2

pub record Group : Type 0 where
  pub id : String
  pub owner_name : String
  pub members : Dict GroupRole

pub record GroupManager : Type 0 where
  pub groups : Dict Group

-- An `error`: its text, or `none` for nil.
abbrev pub Error : Type 0
Error = Option String

abbrev pub new_group_manager : GroupManager
new_group_manager = record { groups = [] }

abbrev pub fresh_group : String → String → Group
fresh_group id own = record { id = id; owner_name = own; members = (own, owner) ∷ [] }

-- `gm.groups[id] = g`, and the members that a method leaves behind.
abbrev pub with_members : GroupManager → String → Group → Dict GroupRole → GroupManager
with_members gm id g ms = record { groups = put id (record g { members = ms }) gm.groups }

unfoldable pub create : GroupManager → String → String → GroupManager × Error
create gm group_id owner_arg =
    let id = trim_space group_id in
    let own = trim_space owner_arg in
    if is_empty id || is_empty own
    then (gm, some "groupID/owner empty")
    else elim (get id gm.groups) [
      | some g ↦ (gm, some "group already exists")
      | none ↦ (record { groups = put id (fresh_group id own) gm.groups }, none)
    ]

unfoldable pub delete : GroupManager → String → String → GroupManager × Error
delete gm group_id operator =
    let id = trim_space group_id in
    let op = trim_space operator in
    if is_empty id || is_empty op
    then (gm, some "groupID/operator empty")
    else elim (get id gm.groups) [
      | none ↦ (gm, some "group not found")
      | some g ↦
          if not (str_eq g.owner_name op)
          then (gm, some "only owner can delete group")
          else (record { groups = remove id gm.groups }, none)
    ]

unfoldable pub join : GroupManager → String → String → GroupManager × Error
join gm group_id username =
    let id = trim_space group_id in
    let u = trim_space username in
    if is_empty id || is_empty u
    then (gm, some "groupID/username empty")
    else elim (get id gm.groups) [
      | none ↦ (gm, some "group not found")
      | some g ↦
          if is_some (get u g.members)
          then (gm, some "already a member")
          else (with_members gm id g (put u member g.members), none)
    ]

unfoldable pub leave : GroupManager → String → String → GroupManager × Error
leave gm group_id username =
    let id = trim_space group_id in
    let u = trim_space username in
    if is_empty id || is_empty u
    then (gm, some "groupID/username empty")
    else elim (get id gm.groups) [
      | none ↦ (gm, some "group not found")
      | some g ↦
          if str_eq g.owner_name u
          then (gm, some "owner cannot leave, use delete instead")
          else (with_members gm id g (remove u g.members), none)
    ]

-- `by` and `target` are not trimmed.
unfoldable pub kick : GroupManager → String → String → String → GroupManager × Error
kick gm group_id by target =
    let id = trim_space group_id in
    elim (get id gm.groups) [
      | none ↦ (gm, some "group not found")
      | some g ↦ elim (get by g.members) [
        | none ↦ (gm, some "operator not in group")
        | some by_role ↦
            if ltb (rank by_role) (rank admin)
            then (gm, some "insufficient permission")
            else elim (get target g.members) [
              | none ↦ (gm, some "target not in group")
              | some target_role ↦
                  if leb (rank by_role) (rank target_role)
                  then (gm, some "cannot kick member with equal or higher role")
                  else (with_members gm id g (remove target g.members), none)
            ]
      ]
    ]

unfoldable pub grant_admin : GroupManager → String → String → String → GroupManager × Error
grant_admin gm group_id by target =
    let id = trim_space group_id in
    elim (get id gm.groups) [
      | none ↦ (gm, some "group not found")
      | some g ↦
          if not (str_eq g.owner_name by)
          then (gm, some "only owner can grant admin")
          else if not (is_some (get target g.members))
          then (gm, some "target not in group")
          else (with_members gm id g (put target admin g.members), none)
    ]

unfoldable pub revoke_admin : GroupManager → String → String → String → GroupManager × Error
revoke_admin gm group_id by target =
    let id = trim_space group_id in
    elim (get id gm.groups) [
      | none ↦ (gm, some "group not found")
      | some g ↦
          if not (str_eq g.owner_name by)
          then (gm, some "only owner can revoke admin")
          else if not (is_some (get target g.members))
          then (gm, some "target not in group")
          else (with_members gm id g (put target member g.members), none)
    ]

unfoldable pub members_of : GroupManager → String → List String
members_of gm group_id = elim (get (trim_space group_id) gm.groups) [
  | none ↦ []
  | some g ↦ keys g.members
]

abbrev pub role_name : GroupRole → String
role_name owner = "owner"
role_name admin = "admin"
role_name member = "member"

unfoldable pub role_of : GroupManager → String → String → String × Bool
role_of gm group_id username = elim (get (trim_space group_id) gm.groups) [
  | none ↦ ("", false)
  | some g ↦ elim (get username g.members) [
    | none ↦ ("", false)
    | some role ↦ (role_name role, true)
  ]
]

-- A call of one of the methods that change the state.
pub data Request : Type 0 where
  creates deletes joins leaves : String → String → Request
  kicks grants revokes : String → String → String → Request

unfoldable pub serve : GroupManager → Request → GroupManager × Error
unfolding create delete join leave kick grant_admin revoke_admin
serve gm (creates id u) = create gm id u
serve gm (deletes id u) = delete gm id u
serve gm (joins id u) = join gm id u
serve gm (leaves id u) = leave gm id u
serve gm (kicks id by t) = kick gm id by t
serve gm (grants id by t) = grant_admin gm id by t
serve gm (revokes id by t) = revoke_admin gm id by t

-- The group that a request names.
abbrev pub group_named : Request → String
group_named (creates id u) = trim_space id
group_named (deletes id u) = trim_space id
group_named (joins id u) = trim_space id
group_named (leaves id u) = trim_space id
group_named (kicks id by t) = trim_space id
group_named (grants id by t) = trim_space id
group_named (revokes id by t) = trim_space id

-- A history of requests, whatever each of them answers.
unfoldable pub serve_all : GroupManager → List Request → GroupManager
serve_all gm [] = gm
serve_all gm (r ∷ rs) = serve_all (serve gm r).0 rs

-- The role of a user in a group, as a view of the state.
abbrev pub role_in : GroupManager → String → String → Option GroupRole
role_in gm id u = elim (get id gm.groups) [ none ↦ none | some g ↦ get u g.members ]
