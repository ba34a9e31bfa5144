-- ===== src/Svcapi/Contract.antt =====
-- The contract of a group manager: what its operations do to the roles that RoleOf answers, whatever it keeps inside.
use h_go.Base.{
  String, ◌≡◌, ap, ◌∙◌, true, false, ◌||◌, none, arith, str_eq, if◌then◌else◌, contains, get, put,
  remove, get-put, get-remove, get-put_self, get-remove_self, Option-cases, inl, inr,
}
use h_go.Text.Trim.{trim_space}
use h_go.Group.{
  GroupManager, member, admin, join, leave, delete, kick, grant_admin, revoke_admin, role_of,
}
use h_go.Group.Views.{members_of-role_of, role_of-create}
use h_go.Svcapi.{GroupManagerApi, group_manager_api}

-- The roles after an operation that succeeded, each in the group that it names.
pub record IsGroupManager {G : Type 0} (api : GroupManagerApi G) : Type 0 where
  pub listed : (g : G) (id u : String) → contains u (api.members g id) ≡ (api.role_of g id u).1
  pub created :
      (g : G) (id own u : String)
      → (api.create g id own).1 ≡ none
      → api.role_of (api.create g id own).0 id u
        ≡ (if str_eq (trim_space own) u then ("owner", true) else ("", false))
  pub joined :
      (g : G) (id v u : String)
      → (api.join g id v).1 ≡ none
      → api.role_of (api.join g id v).0 id u
        ≡ (if str_eq (trim_space v) u then ("member", true) else api.role_of g id u)
  pub left :
      (g : G) (id v u : String)
      → (api.leave g id v).1 ≡ none
      → api.role_of (api.leave g id v).0 id u
        ≡ (if str_eq (trim_space v) u then ("", false) else api.role_of g id u)
  pub kicked :
      (g : G) (id by t u : String)
      → (api.kick g id by t).1 ≡ none
      → api.role_of (api.kick g id by t).0 id u
        ≡ (if str_eq t u then ("", false) else api.role_of g id u)
  pub granted :
      (g : G) (id by t u : String)
      → (api.grant_admin g id by t).1 ≡ none
      → api.role_of (api.grant_admin g id by t).0 id u
        ≡ (if str_eq t u then ("admin", true) else api.role_of g id u)
  pub revoked :
      (g : G) (id by t u : String)
      → (api.revoke_admin g id by t).1 ≡ none
      → api.role_of (api.revoke_admin g id by t).0 id u
        ≡ (if str_eq t u then ("member", true) else api.role_of g id u)
  pub deleted :
      (g : G) (id by u : String)
      → (api.delete g id by).1 ≡ none
      → api.role_of (api.delete g id by).0 id u ≡ ("", false)

module _ (gm : GroupManager) (id : String) where
  join-role_of :
      (v u : String)
      → (join gm id v).1 ≡ none
      → role_of (join gm id v).0 id u
        ≡ (if str_eq (trim_space v) u then ("member", true) else role_of gm id u)
  unfolding join role_of
  join-role_of v u h = elim (Option-cases (get (trim_space id) gm.groups)) [
    | inl e ↦ absurd (ground arith)
    | inr (g, e) ↦
        (let ms = put (trim_space v) member g.members in
          ground (
            arith,
            get-put_self (trim_space id) (record g { members = ms }) gm.groups,
            get-put (trim_space v) u member g.members,
          ))
  ]

  leave-role_of :
      (v u : String)
      → (leave gm id v).1 ≡ none
      → role_of (leave gm id v).0 id u
        ≡ (if str_eq (trim_space v) u then ("", false) else role_of gm id u)
  unfolding leave role_of
  leave-role_of v u h = elim (Option-cases (get (trim_space id) gm.groups)) [
    | inl e ↦ absurd (ground arith)
    | inr (g, e) ↦
        (let ms = remove (trim_space v) g.members in
          ground (
            arith,
            get-put_self (trim_space id) (record g { members = ms }) gm.groups,
            get-remove (trim_space v) u g.members,
          ))
  ]

  kick-role_of :
      (by t u : String)
      → (kick gm id by t).1 ≡ none
      → role_of (kick gm id by t).0 id u ≡ (if str_eq t u then ("", false) else role_of gm id u)
  unfolding kick role_of
  kick-role_of by t u h = elim (Option-cases (get (trim_space id) gm.groups)) [
    | inl e ↦ absurd (ground arith)
    | inr (g, e) ↦
        (let ms = remove t g.members in
          ground (
            arith,
            get-put_self (trim_space id) (record g { members = ms }) gm.groups,
            get-remove t u g.members,
          ))
  ]

  grant_admin-role_of :
      (by t u : String)
      → (grant_admin gm id by t).1 ≡ none
      → role_of (grant_admin gm id by t).0 id u
        ≡ (if str_eq t u then ("admin", true) else role_of gm id u)
  unfolding grant_admin role_of
  grant_admin-role_of by t u h = elim (Option-cases (get (trim_space id) gm.groups)) [
    | inl e ↦ absurd (ground arith)
    | inr (g, e) ↦
        (let ms = put t admin g.members in
          ground (
            arith,
            get-put_self (trim_space id) (record g { members = ms }) gm.groups,
            get-put t u admin g.members,
          ))
  ]

  revoke_admin-role_of :
      (by t u : String)
      → (revoke_admin gm id by t).1 ≡ none
      → role_of (revoke_admin gm id by t).0 id u
        ≡ (if str_eq t u then ("member", true) else role_of gm id u)
  unfolding revoke_admin role_of
  revoke_admin-role_of by t u h = elim (Option-cases (get (trim_space id) gm.groups)) [
    | inl e ↦ absurd (ground arith)
    | inr (g, e) ↦
        (let ms = put t member g.members in
          ground (
            arith,
            get-put_self (trim_space id) (record g { members = ms }) gm.groups,
            get-put t u member g.members,
          ))
  ]

  delete-role_of :
      (by u : String) → (delete gm id by).1 ≡ none → role_of (delete gm id by).0 id u ≡ ("", false)
  unfolding delete role_of
  delete-role_of by u h = elim (Option-cases (get (trim_space id) gm.groups)) [
    | inl e ↦ absurd (ground arith)
    | inr (g, e) ↦ ground (arith, get-remove_self (trim_space id) gm.groups)
  ]

-- GroupManager keeps the contract.
pub group_manager_api-IsGroupManager : IsGroupManager group_manager_api
group_manager_api-IsGroupManager = record {
  listed = members_of-role_of;
  created = role_of-create;
  joined = join-role_of;
  left = leave-role_of;
  kicked = kick-role_of;
  granted = grant_admin-role_of;
  revoked = revoke_admin-role_of;
  deleted = delete-role_of;
}

-- A client of any manager that keeps the contract.
module _ {G : Type 0} (api : GroupManagerApi G) (law : IsGroupManager api) where
  -- Who a message to a group goes to, once one user made the group and another one joined it: these two.
  pub members-create_join :
      (g : G) (id own v u : String)
      → (api.create g id own).1 ≡ none
      → (api.join (api.create g id own).0 id v).1 ≡ none
      → contains u (api.members (api.join (api.create g id own).0 id v).0 id)
        ≡ (str_eq (trim_space own) u || str_eq (trim_space v) u)
  members-create_join g id own v u made came =
      let g1 = (api.create g id own).0 in
      let g2 = (api.join g1 id v).0 in
      law.listed g2 id u
      ∙ ap (λ r. r.1) (law.joined g1 id v u came)
      ∙ ground (arith, ap (λ r. r.1) (law.created g id own u made))
