-- ===== src/Group/Rights.antt =====
-- Who may change whose role.
use h_go.Base.{
  ◌≤◌, ◌<◌, String, ◌≡◌, ◌≢◌, ◌↔◌, true, none, some, arith, eq_iff, is_some, get, put, remove,
  get-put, get-remove, get-put_self, get-remove_self, Option-cases, inl, inr,
}
use h_go.Text.Trim.{trim_space}
use h_go.Group.{
  GroupRole, member, admin, owner, rank, Group, GroupManager, Request, creates, deletes, joins,
  leaves, kicks, grants, revokes, kick, revoke_admin, serve, group_named, role_in,
}

-- What entitles a request to change the role of user `u` in the group that it names.
abbrev pub Entitled : GroupManager → Request → String → Type 0
Entitled gm (creates id u') u = get (trim_space id) gm.groups ≡ none
Entitled gm (deletes id op) u =
    (g : Group) × (get (trim_space id) gm.groups ≡ some g) × (g.owner_name ≡ trim_space op)
Entitled gm (joins id u') u = (u ≡ trim_space u') × (role_in gm (trim_space id) u ≡ none)
Entitled gm (leaves id u') u =
    (g : Group) × (get (trim_space id) gm.groups ≡ some g)
    × (u ≡ trim_space u')
    × (u ≢ g.owner_name)
Entitled gm (kicks id by t) u =
    (b : GroupRole) × (r : GroupRole) × (u ≡ t)
    × (role_in gm (trim_space id) by ≡ some b)
    × (role_in gm (trim_space id) u ≡ some r)
    × (1 ≤ rank b)
    × (rank r < rank b)
Entitled gm (grants id by t) u =
    (g : Group) × (get (trim_space id) gm.groups ≡ some g)
    × (u ≡ t)
    × (by ≡ g.owner_name)
    × (is_some (get u g.members) ≡ true)
Entitled gm (revokes id by t) u =
    (g : Group) × (get (trim_space id) gm.groups ≡ some g)
    × (u ≡ t)
    × (by ≡ g.owner_name)
    × (is_some (get u g.members) ≡ true)

-- A request that changes a role in the group that it names was entitled to: a group is made only where
-- there was none and deleted only by its owner, users join and leave for themselves, the kicked user is
-- outranked by an administrator or the owner, and the owner alone sets the role of a member.
pub serve_rights :
    (gm : GroupManager) (r : Request) (u : String)
    → role_in (serve gm r).0 (group_named r) u ≢ role_in gm (group_named r) u
    → Entitled gm r u
unfolding serve
serve_rights gm (creates id v) u h = ground arith
serve_rights gm (deletes id v) u h = elim (Option-cases (get (trim_space id) gm.groups)) [
  | inl e ↦ absurd (ground arith)
  | inr (g, e) ↦ (g, e, ground (arith, eq_iff g.owner_name (trim_space v)))
]
serve_rights gm (joins id v) u h = elim (Option-cases (get (trim_space id) gm.groups)) [
  | inl e ↦ absurd (ground arith)
  | inr (g, e) ↦ ground (
    arith,
    get-put_self (trim_space id) (record g { members = put (trim_space v) member g.members })
        gm.groups,
    get-put (trim_space v) u member g.members,
    eq_iff (trim_space v) u,
  )
]
serve_rights gm (leaves id v) u h = elim (Option-cases (get (trim_space id) gm.groups)) [
  | inl e ↦ absurd (ground arith)
  | inr (g, e) ↦
      let left =
        get-put_self (trim_space id) (record g { members = remove (trim_space v) g.members })
          gm.groups in
      let gone = get-remove (trim_space v) u g.members in
      let same = eq_iff (trim_space v) u in
      (
        g,
        e,
        ground (arith, left, gone, same),
        ground (arith, left, gone, same, eq_iff g.owner_name (trim_space v)),
      )
]
serve_rights gm (kicks id by t) u h = elim (Option-cases (get (trim_space id) gm.groups)) [
  | inl e ↦ absurd (ground arith)
  | inr (g, e) ↦ elim (Option-cases (get by g.members)) [
    | inl miss ↦ absurd (ground arith)
    | inr (b, eb) ↦ elim (Option-cases (get t g.members)) [
      | inl miss ↦ absurd (ground arith)
      | inr (r, er) ↦
          let left =
            get-put_self (trim_space id) (record g { members = remove t g.members }) gm.groups in
          let gone = get-remove t u g.members in
          let same = eq_iff t u in
          (
            b,
            r,
            ground (arith, left, gone, same),
            ground arith,
            ground (arith, left, gone, same),
            ground (arith, left, gone, same),
            ground (arith, left, gone, same),
          )
    ]
  ]
]
serve_rights gm (grants id by t) u h = elim (Option-cases (get (trim_space id) gm.groups)) [
  | inl e ↦ absurd (ground arith)
  | inr (g, e) ↦
      let set =
        get-put_self (trim_space id) (record g { members = put t admin g.members }) gm.groups in
      let role = get-put t u admin g.members in
      let same = eq_iff t u in
      let owns = eq_iff g.owner_name by in
      (
        g,
        e,
        ground (arith, set, role, same),
        ground (arith, set, role, same, owns),
        ground (arith, set, role, same),
      )
]
serve_rights gm (revokes id by t) u h = elim (Option-cases (get (trim_space id) gm.groups)) [
  | inl e ↦ absurd (ground arith)
  | inr (g, e) ↦
      let set =
        get-put_self (trim_space id) (record g { members = put t member g.members }) gm.groups in
      let role = get-put t u member g.members in
      let same = eq_iff t u in
      let owns = eq_iff g.owner_name by in
      (
        g,
        e,
        ground (arith, set, role, same),
        ground (arith, set, role, same, owns),
        ground (arith, set, role, same),
      )
]

-- A kick succeeds exactly when the group exists, the operator is in it as an administrator or its owner,
-- and the target is in it with a lower role.
pub kick_succeeds :
    (gm : GroupManager) (id by t : String)
    → ((kick gm id by t).1 ≡ none) ↔ (
        (b : GroupRole) × (r : GroupRole) × (role_in gm (trim_space id) by ≡ some b)
        × (role_in gm (trim_space id) t ≡ some r)
        × (1 ≤ rank b)
        × (rank r < rank b))
unfolding kick
kick_succeeds gm id by t = elim (Option-cases (get (trim_space id) gm.groups)) [
  | inl e ↦ (λ h. absurd (ground arith), λ (b, r, eb, er, x, y). ground arith)
  | inr (g, e) ↦ elim (Option-cases (get by g.members)) [
    | inl miss ↦ (λ h. absurd (ground arith), λ (b, r, eb, er, x, y). ground arith)
    | inr (b, eb) ↦ elim (Option-cases (get t g.members)) [
      | inl miss ↦ (λ h. absurd (ground arith), λ (b', r, eb, er, x, y). ground arith)
      | inr (r, er) ↦ (
        λ h. (b, r, ground arith, ground arith, ground arith, ground arith),
        λ (b', r', eb', er', x, y). ground arith,
      )
    ]
  ]
]

-- After the owner's own revocation of the owner, any administrator of the group can kick the owner, whose name still
-- owns the group.
pub revoked_owner_kicked :
    (gm : GroupManager) (id a : String) (g : Group)
    → get (trim_space id) gm.groups ≡ some g
    → get g.owner_name g.members ≡ some owner
    → get a g.members ≡ some admin
    → let revoked = revoke_admin gm id g.owner_name g.owner_name in
      let kicked = kick revoked.0 id a g.owner_name in
      (revoked.1 ≡ none)
      × (kicked.1 ≡ none)
      × (role_in kicked.0 (trim_space id) g.owner_name ≡ none)
      × (role_in kicked.0 (trim_space id) a ≡ some admin)
unfolding revoke_admin kick
revoked_owner_kicked gm id a g e r s =
    let o = g.owner_name in
    let ms = put o member g.members in
    let g' : Group = record g { members = ms } in
    ground (
      arith,
      get-put_self (trim_space id) g' gm.groups,
      get-put_self (trim_space id) (record g' { members = remove o ms })
          (put (trim_space id) g' gm.groups),
      get-put o a member g.members,
      get-put_self o member g.members,
      get-remove_self o ms,
      get-remove o a ms,
      eq_iff o o,
      eq_iff o a,
    )
