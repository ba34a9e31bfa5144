-- ===== src/Group/Replay/Refines.antt =====
-- The manager refines its reading.
use std.Path.{fun_ext}
use h_go.Base.{
  String, ◌≡◌, refl, ap, ◌∙◌, none, some, List, [], ◌∷◌, arith, eq_iff, str_eq, if◌then◌else◌, Dict,
  get, put, remove, get-put, get-remove, Option-cases, inl, inr,
}
use h_go.Text.Trim.{trim_space}
use h_go.Group.{
  GroupRole, member, admin, Group, GroupManager, with_members, Request, creates, deletes, joins,
  leaves, kicks, grants, revokes, fresh_group, serve, serve_all, group_named, role_in,
}
use h_go.Group.Replay.{
  owner_in, roster, set_owner, set_role, clear_roles, effect, refusal, replay_one, replay, answers,
}

refusal-serve : (gm : GroupManager) (r : Request) → (serve gm r).1 ≡ refusal r (roster gm)
unfolding serve refusal roster owner_in
refusal-serve gm (creates id u) = ground arith
refusal-serve gm (deletes id u) = ground arith
refusal-serve gm (joins id u) = ground arith
refusal-serve gm (leaves id u) = ground arith
refusal-serve gm (kicks id by t) = ground arith
refusal-serve gm (grants id by t) = ground arith
refusal-serve gm (revokes id by t) = ground arith

owner_in-with_members :
    (gm : GroupManager) (id : String) (g : Group) (ms : Dict GroupRole) (i : String)
    → get id gm.groups ≡ some g
    → owner_in (with_members gm id g ms) i ≡ owner_in gm i
unfolding owner_in
owner_in-with_members gm id g ms i h =
    ground (arith, get-put id i (record g { members = ms }) gm.groups, eq_iff id i)

role_in-with_members :
    (gm : GroupManager) (id : String) (g : Group) (ms : Dict GroupRole) (i v : String)
    → role_in (with_members gm id g ms) i v ≡ (if str_eq id i then get v ms else role_in gm i v)
role_in-with_members gm id g ms i v =
    ground (arith, get-put id i (record g { members = ms }) gm.groups)

-- The methods and their reading agree on one group and one user.
Agrees : GroupManager → String → String → Request → Type 0
Agrees gm i v r =
    (owner_in (serve gm r).0 i ≡ (replay_one r (roster gm)).owner_of i)
    × (role_in (serve gm r).0 i v ≡ (replay_one r (roster gm)).role i v)

-- The step of a request on a group that there is.
module _ (gm : GroupManager) (id i v : String) (g : Group)
    (e : get (trim_space id) gm.groups ≡ some g) where
  joins-Agrees : (u : String) → Agrees gm i v (joins id u)
  unfolding serve replay_one refusal effect set_role set_owner clear_roles roster owner_in Agrees
  joins-Agrees u =
      let x = trim_space id in
      let ms = put (trim_space u) member g.members in
      ground (
        arith,
        owner_in-with_members gm x g ms i e,
        role_in-with_members gm x g ms i v,
        get-put (trim_space u) v member g.members,
        eq_iff x i,
      )

  leaves-Agrees : (u : String) → Agrees gm i v (leaves id u)
  unfolding serve replay_one refusal effect set_role set_owner clear_roles roster owner_in Agrees
  leaves-Agrees u =
      let x = trim_space id in
      let ms = remove (trim_space u) g.members in
      ground (
        arith,
        owner_in-with_members gm x g ms i e,
        role_in-with_members gm x g ms i v,
        get-remove (trim_space u) v g.members,
        eq_iff x i,
      )

  kicks-Agrees : (by t : String) → Agrees gm i v (kicks id by t)
  unfolding serve replay_one refusal effect set_role set_owner clear_roles roster owner_in Agrees
  kicks-Agrees by t =
      let x = trim_space id in
      let ms = remove t g.members in
      ground (
        arith,
        owner_in-with_members gm x g ms i e,
        role_in-with_members gm x g ms i v,
        get-remove t v g.members,
        eq_iff x i,
      )

  grants-Agrees : (by t : String) → Agrees gm i v (grants id by t)
  unfolding serve replay_one refusal effect set_role set_owner clear_roles roster owner_in Agrees
  grants-Agrees by t =
      let x = trim_space id in
      let ms = put t admin g.members in
      ground (
        arith,
        owner_in-with_members gm x g ms i e,
        role_in-with_members gm x g ms i v,
        get-put t v admin g.members,
        eq_iff x i,
      )

  revokes-Agrees : (by t : String) → Agrees gm i v (revokes id by t)
  unfolding serve replay_one refusal effect set_role set_owner clear_roles roster owner_in Agrees
  revokes-Agrees by t =
      let x = trim_space id in
      let ms = put t member g.members in
      ground (
        arith,
        owner_in-with_members gm x g ms i e,
        role_in-with_members gm x g ms i v,
        get-put t v member g.members,
        eq_iff x i,
      )

  deletes-Agrees : (u : String) → Agrees gm i v (deletes id u)
  unfolding serve replay_one refusal effect set_role set_owner clear_roles roster owner_in Agrees
  deletes-Agrees u =
      let x = trim_space id in
      let ms = g.members in
      ground (
        arith,
        owner_in-with_members gm x g ms i e,
        role_in-with_members gm x g ms i v,
        get-remove x i gm.groups,
        eq_iff x i,
      )

  creates-Agrees : (u : String) → Agrees gm i v (creates id u)
  unfolding serve replay_one refusal effect set_role set_owner clear_roles roster owner_in Agrees
  creates-Agrees u = ground arith

missing-Agrees :
    (gm : GroupManager) (r : Request) (i v : String)
    → get (group_named r) gm.groups ≡ none
    → Agrees gm i v r
unfolding serve replay_one refusal effect set_role set_owner clear_roles roster owner_in Agrees get
    put
missing-Agrees gm (creates id u) i v e =
    let x = trim_space id in
    let own = trim_space u in
    ground (arith, get-put x i (fresh_group x own) gm.groups, eq_iff x i, eq_iff own v)
missing-Agrees gm _ i v e = ground arith

found-Agrees :
    (gm : GroupManager) (i v : String) (g : Group) (r : Request)
    → get (group_named r) gm.groups ≡ some g
    → Agrees gm i v r
found-Agrees gm i v g (creates id u) e = creates-Agrees gm id i v g e u
found-Agrees gm i v g (deletes id u) e = deletes-Agrees gm id i v g e u
found-Agrees gm i v g (joins id u) e = joins-Agrees gm id i v g e u
found-Agrees gm i v g (leaves id u) e = leaves-Agrees gm id i v g e u
found-Agrees gm i v g (kicks id by t) e = kicks-Agrees gm id i v g e by t
found-Agrees gm i v g (grants id by t) e = grants-Agrees gm id i v g e by t
found-Agrees gm i v g (revokes id by t) e = revokes-Agrees gm id i v g e by t

agrees : (gm : GroupManager) (r : Request) (i v : String) → Agrees gm i v r
agrees gm r i v = elim (Option-cases (get (group_named r) gm.groups)) [
  | inl e ↦ missing-Agrees gm r i v e
  | inr (g, e) ↦ found-Agrees gm i v g r e
]

roster-serve : (gm : GroupManager) (r : Request) → roster (serve gm r).0 ≡ replay_one r (roster gm)
unfolding roster Agrees
roster-serve gm r =
    let f = replay_one r (roster gm) in
    let owners : owner_in (serve gm r).0 ≡ f.owner_of = fun_ext (λ i. (agrees gm r i "").0) in
    let roles : role_in (serve gm r).0 ≡ f.role =
      fun_ext (λ i. fun_ext (λ v. (agrees gm r i v).1)) in
    ap (λ o. record { owner_of = o; role = role_in (serve gm r).0 }) owners
    ∙ ap (λ x. record { owner_of = f.owner_of; role = x }) roles

-- Over any history of requests, the manager answers and changes as its reading: a group has an owner and each user a role in it or
-- none, and a request is refused, with the code's text, or sets the owner and the roles that it names.
pub serve_all_refines :
    (gm : GroupManager) (rs : List Request)
    → (answers gm rs ≡ (replay rs (roster gm)).0)
      × (roster (serve_all gm rs) ≡ (replay rs (roster gm)).1)
unfolding answers serve_all replay
serve_all_refines gm [] = (refl, refl)
serve_all_refines gm (r ∷ rs) =
    let gm' = (serve gm r).0 in
    let (same, after) = serve_all_refines gm' rs in
    let step = roster-serve gm r in
    (
      ap (λ e. e ∷ answers gm' rs) (refusal-serve gm r)
          ∙ ap (λ es. refusal r (roster gm) ∷ es) (same ∙ ap (λ f. (replay rs f).0) step),
      after ∙ ap (λ f. (replay rs f).1) step,
    )
