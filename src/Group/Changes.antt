-- ===== src/Group/Changes.antt =====
-- A change of a role, traced to the request that made it.
use h_go.Base.{
  String, ◌≡◌, ◌≢◌, ap, sym, subst, none, some, arith, eq_iff, str_eq, get, Bool-cases, inl, inr,
}
use h_go.Group.{GroupManager, Request, serve, role_in, group_named}
use h_go.Group.Invariant.{serve_frame}
use h_go.Group.Rights.{Entitled, serve_rights}

-- A request that changes a role in a group names this group and was entitled to the change.
pub changed_rights :
    (gm : GroupManager) (r : Request) (id u : String)
    → role_in (serve gm r).0 id u ≢ role_in gm id u
    → (group_named r ≡ id) × Entitled gm r u
changed_rights gm r id u moved = elim (Bool-cases (str_eq (group_named r) id)) [
  | inl named ↦
      (let e = (eq_iff (group_named r) id).0 named in
        (
          e,
          serve_rights gm r u
              (subst (λ i. role_in (serve gm r).0 i u ≢ role_in gm i u) (sym e) moved),
        ))
  | inr other ↦ absurd (
      moved (
        ap (λ g. elim g [ none ↦ none | some x ↦ get u x.members ])
          (serve_frame gm r id (ground (arith, eq_iff (group_named r) id)))))
]
