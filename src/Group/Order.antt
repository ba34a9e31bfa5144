-- ===== src/Group/Order.antt =====
-- What holds of every group whatever the requests are, also where the owner's own role is set.
use h_go.Base.{
  String, ◌≡◌, ◌≢◌, refl, false, some, arith, eq_iff, get, put, remove, get-put, get-remove,
  get-nil, Option-cases, inl, inr, Every, Every-put, Every-remove, Dict,
}
use h_go.Text.Trim.{trim_space, is_empty}
use h_go.Group.{
  GroupRole, member, admin, owner, Group, GroupManager, with_members, Request, creates, deletes,
  joins, leaves, kicks, grants, revokes, fresh_group, new_group_manager, create, delete, join,
  leave, kick, grant_admin, revoke_admin, serve,
}

-- The group carries its key and a named owner, and nobody else has the role of owner.
pub record IsOrderly (id : String) (g : Group) : Type 0 where
  pub keyed : g.id ≡ id
  pub owned : is_empty g.owner_name ≡ false
  pub alone : (u : String) → get u g.members ≡ some owner → u ≡ g.owner_name

abbrev pub AreOrderly : GroupManager → Type 0
AreOrderly gm = Every IsOrderly gm.groups

pub new-AreOrderly : AreOrderly new_group_manager
new-AreOrderly id g e = cc (get-nil {V = Group} id)

fresh-IsOrderly : (id own : String) → is_empty own ≡ false → IsOrderly id (fresh_group id own)
unfolding get
fresh-IsOrderly id own h = record {
  keyed = refl;
  owned = h;
  alone = λ u e. ground (arith, eq_iff own u);
}

put-IsOrderly :
    (id u : String) (r : GroupRole) (g : Group)
    → IsOrderly id g
    → r ≢ owner
    → IsOrderly id (record g { members = put u r g.members })
put-IsOrderly id u r g v lower = record {
  keyed = v.keyed;
  owned = v.owned;
  alone = λ w e. ground (arith, get-put u w r g.members, v.alone w);
}

remove-IsOrderly :
    (id u : String) (g : Group)
    → IsOrderly id g
    → IsOrderly id (record g { members = remove u g.members })
remove-IsOrderly id u g v = record {
  keyed = v.keyed;
  owned = v.owned;
  alone = λ w e. ground (arith, get-remove u w g.members, v.alone w);
}

module _ (gm : GroupManager) (book : AreOrderly gm) where
  keep :
      (id : String) (g : Group) (ms : Dict GroupRole)
      → IsOrderly id (record g { members = ms })
      → AreOrderly (with_members gm id g ms)
  keep id g ms v = Every-put IsOrderly id (record g { members = ms }) gm.groups book v

  -- Every request keeps the groups orderly.
  pub serve-AreOrderly : (r : Request) → AreOrderly (serve gm r).0
  unfolding serve create delete join leave kick grant_admin revoke_admin
  serve-AreOrderly (creates id u) =
      let x = trim_space id in
      let own = trim_space u in
      ground (
        arith,
        book,
        λ (h : is_empty own ≡ false).
            Every-put IsOrderly x (fresh_group x own) gm.groups book (fresh-IsOrderly x own h),
      )
  serve-AreOrderly (deletes id u) =
      ground (arith, book, Every-remove IsOrderly (trim_space id) gm.groups book)
  serve-AreOrderly (joins id u) = elim (Option-cases (get (trim_space id) gm.groups)) [
    | inl e ↦ ground (arith, book)
    | inr (g, e) ↦ ground (
      arith,
      book,
      keep (trim_space id) g (put (trim_space u) member g.members) (
          put-IsOrderly (trim_space id) (trim_space u) member g (book (trim_space id) g e)
            (λ q. cc)),
    )
  ]
  serve-AreOrderly (leaves id u) = elim (Option-cases (get (trim_space id) gm.groups)) [
    | inl e ↦ ground (arith, book)
    | inr (g, e) ↦ ground (
      arith,
      book,
      keep (trim_space id) g (remove (trim_space u) g.members)
          (remove-IsOrderly (trim_space id) (trim_space u) g (book (trim_space id) g e)),
    )
  ]
  serve-AreOrderly (kicks id by t) = elim (Option-cases (get (trim_space id) gm.groups)) [
    | inl e ↦ ground (arith, book)
    | inr (g, e) ↦ ground (
      arith,
      book,
      keep (trim_space id) g (remove t g.members)
          (remove-IsOrderly (trim_space id) t g (book (trim_space id) g e)),
    )
  ]
  serve-AreOrderly (grants id by t) = elim (Option-cases (get (trim_space id) gm.groups)) [
    | inl e ↦ ground (arith, book)
    | inr (g, e) ↦ ground (
      arith,
      book,
      keep (trim_space id) g (put t admin g.members)
          (put-IsOrderly (trim_space id) t admin g (book (trim_space id) g e) (λ q. cc)),
    )
  ]
  serve-AreOrderly (revokes id by t) = elim (Option-cases (get (trim_space id) gm.groups)) [
    | inl e ↦ ground (arith, book)
    | inr (g, e) ↦ ground (
      arith,
      book,
      keep (trim_space id) g (put t member g.members)
          (put-IsOrderly (trim_space id) t member g (book (trim_space id) g e) (λ q. cc)),
    )
  ]
