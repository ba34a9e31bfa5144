-- ===== src/Group/Invariant.antt =====
-- What holds of every group between two requests, and what a refused request leaves.
use h_go.Base.{
  String, ◌≡◌, ◌≢◌, refl, false, some, arith, eq_iff, Dict, get, put, remove, get-put, get-remove,
  get-nil, get-put_ne, get-remove_ne, Option-cases, inl, inr, Every, Every-put, Every-remove,
}
use h_go.Text.Trim.{trim_space, is_empty}
use h_go.Group.{
  GroupRole, member, admin, owner, Group, GroupManager, with_members, Request, creates, deletes,
  joins, leaves, fresh_group, kicks, grants, revokes, new_group_manager, create, delete, join,
  leave, kick, grant_admin, revoke_admin, serve, group_named,
}

-- A request that returns an error has changed nothing.
pub serve_error_unchanged :
    (gm : GroupManager) (r : Request) (e : String) → (serve gm r).1 ≡ some e → (serve gm r).0 ≡ gm
unfolding serve
serve_error_unchanged gm (creates id u) e h = ground arith
serve_error_unchanged gm _ e h = ground arith

-- A request touches the one group that it names.
pub serve_frame :
    (gm : GroupManager) (r : Request) (id : String)
    → group_named r ≢ id
    → get id (serve gm r).0.groups ≡ get id gm.groups
unfolding serve
serve_frame gm (creates a u) id h = grind (arith, get-put_ne, get-remove_ne)
serve_frame gm _ id h = grind (arith, get-put_ne, get-remove_ne)

-- The group carries its key and a named owner, who is the one member with the role of owner.
pub record IsGroup (id : String) (g : Group) : Type 0 where
  pub keyed : g.id ≡ id
  pub owned : is_empty g.owner_name ≡ false
  pub rules : get g.owner_name g.members ≡ some owner
  pub alone : (u : String) → get u g.members ≡ some owner → u ≡ g.owner_name

abbrev pub IsBook : GroupManager → Type 0
IsBook gm = Every IsGroup gm.groups

fresh_group-IsGroup : (id own : String) → is_empty own ≡ false → IsGroup id (fresh_group id own)
unfolding get
fresh_group-IsGroup id own h = record {
  keyed = refl;
  owned = h;
  rules = ground (arith, eq_iff own own);
  alone = λ u e. ground (arith, eq_iff own u);
}

put-IsGroup :
    (id u : String) (r : GroupRole) (g : Group)
    → IsGroup id g
    → u ≢ g.owner_name
    → r ≢ owner
    → IsGroup id (record g { members = put u r g.members })
put-IsGroup id u r g v other lower = record {
  keyed = v.keyed;
  owned = v.owned;
  rules = ground (arith, get-put_ne u g.owner_name r g.members, v.rules);
  alone = λ w e. ground (arith, get-put u w r g.members, v.alone w);
}

remove-IsGroup :
    (id u : String) (g : Group)
    → IsGroup id g
    → u ≢ g.owner_name
    → IsGroup id (record g { members = remove u g.members })
remove-IsGroup id u g v other = record {
  keyed = v.keyed;
  owned = v.owned;
  rules = ground (arith, get-remove_ne u g.owner_name g.members, v.rules);
  alone = λ w e. ground (arith, get-remove u w g.members, v.alone w);
}

-- The owner keeps the role unless the request sets the owner's own role.
abbrev pub SparesOwner : GroupManager → Request → Type 0
SparesOwner gm (grants id by t) =
    (g : Group) → get (trim_space id) gm.groups ≡ some g → t ≢ g.owner_name
SparesOwner gm (revokes id by t) =
    (g : Group) → get (trim_space id) gm.groups ≡ some g → t ≢ g.owner_name
SparesOwner gm _ = Unit {0}

module _ (gm : GroupManager) (book : IsBook gm) where
  create-IsBook : (id u : String) → IsBook (create gm id u).0
  unfolding create
  create-IsBook id u = elim (Option-cases (get (trim_space id) gm.groups)) [
    | inr (g, e) ↦ ground (arith, book)
    | inl e ↦ ground (
      arith,
      book,
      λ (h : is_empty (trim_space u) ≡ false).
          Every-put IsGroup (trim_space id) (fresh_group (trim_space id) (trim_space u)) gm.groups
            book (fresh_group-IsGroup (trim_space id) (trim_space u) h),
    )
  ]

  keep :
      (id : String) (g : Group) (ms : Dict GroupRole)
      → get id gm.groups ≡ some g
      → IsGroup id (record g { members = ms })
      → IsBook (with_members gm id g ms)
  keep id g ms e v = Every-put IsGroup id (record g { members = ms }) gm.groups book v

  delete-IsBook : (id u : String) → IsBook (delete gm id u).0
  unfolding delete
  delete-IsBook id u = ground (arith, book, Every-remove IsGroup (trim_space id) gm.groups book)

  join-IsBook : (id u : String) → IsBook (join gm id u).0
  unfolding join
  join-IsBook id u = elim (Option-cases (get (trim_space id) gm.groups)) [
    | inl e ↦ ground (arith, book)
    | inr (g, e) ↦ ground (
      arith,
      book,
      (book (trim_space id) g e).rules,
      eq_iff g.owner_name (trim_space u),
      λ (h : (trim_space u) ≢ g.owner_name).
          keep (trim_space id) g (put (trim_space u) member g.members) e (
            put-IsGroup (trim_space id) (trim_space u) member g (book (trim_space id) g e) h
              (λ q. cc)),
    )
  ]

  leave-IsBook : (id u : String) → IsBook (leave gm id u).0
  unfolding leave
  leave-IsBook id u = elim (Option-cases (get (trim_space id) gm.groups)) [
    | inl e ↦ ground (arith, book)
    | inr (g, e) ↦ ground (
      arith,
      book,
      (book (trim_space id) g e).rules,
      eq_iff g.owner_name (trim_space u),
      λ (h : (trim_space u) ≢ g.owner_name).
          keep (trim_space id) g (remove (trim_space u) g.members) e
            (remove-IsGroup (trim_space id) (trim_space u) g (book (trim_space id) g e) h),
    )
  ]

  kick-IsBook : (id by t : String) → IsBook (kick gm id by t).0
  unfolding kick
  kick-IsBook id by t = elim (Option-cases (get (trim_space id) gm.groups)) [
    | inl e ↦ ground (arith, book)
    | inr (g, e) ↦ ground (
      arith,
      book,
      (book (trim_space id) g e).rules,
      eq_iff g.owner_name t,
      λ (h : t ≢ g.owner_name).
          keep (trim_space id) g (remove t g.members) e
            (remove-IsGroup (trim_space id) t g (book (trim_space id) g e) h),
    )
  ]

  grant_admin-IsBook :
      (id by t : String) → SparesOwner gm (grants id by t) → IsBook (grant_admin gm id by t).0
  unfolding grant_admin
  grant_admin-IsBook id by t spares = elim (Option-cases (get (trim_space id) gm.groups)) [
    | inl e ↦ ground (arith, book)
    | inr (g, e) ↦ ground (
      arith,
      book,
      keep (trim_space id) g (put t admin g.members) e
          (put-IsGroup (trim_space id) t admin g (book (trim_space id) g e) (spares g e) (λ q. cc)),
    )
  ]

  revoke_admin-IsBook :
      (id by t : String) → SparesOwner gm (revokes id by t) → IsBook (revoke_admin gm id by t).0
  unfolding revoke_admin
  revoke_admin-IsBook id by t spares = elim (Option-cases (get (trim_space id) gm.groups)) [
    | inl e ↦ ground (arith, book)
    | inr (g, e) ↦ ground (
      arith,
      book,
      keep (trim_space id) g (put t member g.members) e (
          put-IsGroup (trim_space id) t member g (book (trim_space id) g e) (spares g e) (λ q. cc)),
    )
  ]

-- Every request keeps each group well formed (its key, its one owner in the role of owner), as long as no
-- grant or revocation is aimed at the owner of the group.
pub serve-IsBook :
    (gm : GroupManager) (r : Request) → IsBook gm → SparesOwner gm r → IsBook (serve gm r).0
unfolding serve
serve-IsBook gm (creates id u) book spares = create-IsBook gm book id u
serve-IsBook gm (deletes id u) book spares = delete-IsBook gm book id u
serve-IsBook gm (joins id u) book spares = join-IsBook gm book id u
serve-IsBook gm (leaves id u) book spares = leave-IsBook gm book id u
serve-IsBook gm (kicks id by t) book spares = kick-IsBook gm book id by t
serve-IsBook gm (grants id by t) book spares = grant_admin-IsBook gm book id by t spares
serve-IsBook gm (revokes id by t) book spares = revoke_admin-IsBook gm book id by t spares

pub new-IsBook : IsBook new_group_manager
new-IsBook id g e = cc (get-nil {V = Group} id)
