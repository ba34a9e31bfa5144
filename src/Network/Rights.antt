-- ===== src/Network/Rights.antt =====
-- Who changes a role, among all that goes on in the program.
use h_go.Base.{ℕ, String, ◌≡◌, ◌≢◌, true, some, ap, ◌∙◌, inl, inr}
use h_go.Storage.{Database, Redis}
use h_go.Outside.{Outside}
use h_go.Group.{Request, role_in, group_named}
use h_go.Group.Rights.{Entitled}
use h_go.Group.Changes.{changed_rights}
use h_go.Session.{User, Presence}
use h_go.Session.Requests.{actor}
use h_go.Network.{Network, nth, Step}
use h_go.Network.Invariant.{IsRequested, Step-IsRequested}

module _ {D C : Type 0} (sql : Database D) (redis : Redis C) (o : Outside) (p : Presence) where
  -- Whatever connection, the accept loop or the worker takes its turn, a role in a group changes only by a request that names
  -- this group, that is made in the name of a user who has logged in on one of the connections, and that was entitled to the
  -- change.
  pub Step-rights :
      {n n' : Network D C} (id t : String)
      → Step sql redis o p n n'
      → role_in n'.server.group_manager id t ≢ role_in n.server.group_manager id t
      → (i : ℕ) × (u : User ℕ) × (r : Request) × (nth i n.users ≡ some u)
        × (u.authenticated ≡ true)
        × (actor r ≡ u.name)
        × (group_named r ≡ id)
        × Entitled n.server.group_manager r t
  unfolding IsRequested
  Step-rights id t step h = elim (Step-IsRequested sql redis o p step) [
    | inl same ↦ absurd (h (ap (λ gm. role_in gm id t) same))
    | inr (i, u, r, there, by, known, served) ↦
        (let (named, entitled) =
            changed_rights _ r id t (λ e. h (ap (λ gm. role_in gm id t) served ∙ e)) in
          (i, u, r, there, known, by, named, entitled))
  ]
