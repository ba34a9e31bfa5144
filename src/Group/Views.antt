-- ===== src/Group/Views.antt =====
-- What the queries answer, and how the methods undo one another.
use h_go.Base.{
  String, ◌≡◌, ◌≢◌, true, false, none, some, arith, eq_iff, contains, contains-keys, get, put,
  remove, get-put, get-remove, get-put_self, Option-cases, inl, inr, str_eq, if◌then◌else◌,
}
use h_go.Text.Trim.{trim_space}
use h_go.Group.{
  member, admin, Group, GroupManager, create, join, leave, grant_admin, revoke_admin, members_of,
  role_of, role_in, fresh_group,
}

-- The users that `Members` lists are exactly those for whom `RoleOf` finds a role.
pub members_of-role_of :
    (gm : GroupManager) (id u : String) → contains u (members_of gm id) ≡ (role_of gm id u).1
unfolding members_of role_of
members_of-role_of gm id u = elim (Option-cases (get (trim_space id) gm.groups)) [
  | inl e ↦ ground arith
  | inr (g, e) ↦ ground (arith, contains-keys u g.members)
]

-- A group that was just made has its maker, and nobody else, as a member, in the role of owner.
pub role_of-create :
    (gm : GroupManager) (id own u : String)
    → (create gm id own).1 ≡ none
    → role_of (create gm id own).0 id u
      ≡ (if str_eq (trim_space own) u then ("owner", true) else ("", false))
unfolding create role_of get
role_of-create gm id own u h =
    ground
      (arith, get-put_self (trim_space id) (fresh_group (trim_space id) (trim_space own)) gm.groups)

-- A user who joined can leave, unless the user owns the group, and every role in every group is then as it was before.
pub leave-join :
    (gm : GroupManager) (id v : String)
    → ((g : Group) → get (trim_space id) gm.groups ≡ some g → g.owner_name ≢ trim_space v)
    → (join gm id v).1 ≡ none
    → ((leave (join gm id v).0 id v).1 ≡ none)
      × ((k u : String) → role_in (leave (join gm id v).0 id v).0 k u ≡ role_in gm k u)
unfolding join leave
leave-join gm id v stranger joined = elim (Option-cases (get (trim_space id) gm.groups)) [
  | inl e ↦ absurd (ground arith)
  | inr (g, e) ↦
      let x = trim_space id in
      let w = trim_space v in
      let ms = put w member g.members in
      let g' : Group = record g { members = ms } in
      let g'' : Group = record g { members = remove w ms } in
      let groups = put x g' gm.groups in
      let found = get-put_self x g' gm.groups in
      let open_to = stranger g e in
      (
        ground (arith, found, open_to, eq_iff g.owner_name w),
        λ k u. ground (
          arith,
          found,
          open_to,
          eq_iff g.owner_name w,
          get-put x k g'' groups,
          get-put x k g' gm.groups,
          get-put w u member g.members,
          get-remove w u ms,
          eq_iff x k,
          eq_iff w u,
        ),
      )
]

-- Granting the rank of administrator to a plain member and revoking it restores every role in every group.
pub revoke_admin-grant_admin :
    (gm : GroupManager) (id by t : String)
    → role_in gm (trim_space id) t ≡ some member
    → (grant_admin gm id by t).1 ≡ none
    → ((revoke_admin (grant_admin gm id by t).0 id by t).1 ≡ none)
      × ((k u : String)
          → role_in (revoke_admin (grant_admin gm id by t).0 id by t).0 k u ≡ role_in gm k u)
unfolding grant_admin revoke_admin
revoke_admin-grant_admin gm id by t plain granted =
    elim (Option-cases (get (trim_space id) gm.groups)) [
      | inl e ↦ absurd (ground arith)
      | inr (g, e) ↦
          let x = trim_space id in
          let ms = put t admin g.members in
          let g' : Group = record g { members = ms } in
          let g'' : Group = record g { members = put t member ms } in
          let groups = put x g' gm.groups in
          let found = get-put_self x g' gm.groups in
          let role = get-put_self t admin g.members in
          (
            ground (arith, found, role),
            λ k u. ground (
              arith,
              found,
              role,
              get-put x k g'' groups,
              get-put x k g' gm.groups,
              get-put t u admin g.members,
              get-put t u member ms,
              eq_iff x k,
              eq_iff t u,
            ),
          )
    ]
