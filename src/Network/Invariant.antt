-- ===== src/Network/Invariant.antt =====
-- What every state of the program keeps.
use h_go.Base.{
  ℕ, zero, suc, String, ◌≡◌, refl, sym, ◌∙◌, subst, ◌⊎◌, true, some, List, [], ◌∷◌, ◌++◌, All,
  arith, Option-cases, inl, inr, length,
}
use h_go.Protocol.{Message}
use h_go.Storage.{Database, Redis}
use h_go.Outside.{Outside}
use h_go.Logic.{with_store}
use h_go.Group.{Request, serve}
use h_go.Session.Requests.{actor}
use h_go.Group.Order.{AreOrderly, new-AreOrderly, serve-AreOrderly}
use h_go.Worker.{receive, finish, deliver}
use h_go.Server.{Server, senders, parse_ip, accept}
use h_go.Session.{User, Presence, send_json}
use h_go.Session.Invariant.{IsUser, IsSession, send_json-IsSession}
use h_go.Session.Standing.{HasGroups, send_msg-HasGroups, send_json-HasGroups}
use h_go.Connection.{handler}
use h_go.Connection.Standing.{IsEntry}
use h_go.Connection.Steps.{Act-IsSession, Act-IsEntry, handler-IsSession}
use h_go.Network.{
  Network, nth, set_nth, session_of, with_session, call, call_all, connect, deliver_round,
  retry_round, Step, connects, refuses, acts, delivers, retries, Reachable, begins, then_steps,
}

module _ {ℓ κ} {A : Type ℓ} (P : A → Type κ) where
  nth-All : (i : ℕ) (x : A) (xs : List A) → All P xs → nth i xs ≡ some x → P x
  unfolding nth
  nth-All i x [] h e = absurd (ground arith)
  nth-All zero x (y ∷ ys) h e = (let same : y ≡ x = ground arith in subst P same h.0)
  nth-All (suc i) x (y ∷ ys) h e = nth-All i x ys h.1 e

  set_nth-All : (i : ℕ) (y : A) (xs : List A) → All P xs → P y → All P (set_nth i y xs)
  unfolding set_nth
  set_nth-All i y [] h p = h
  set_nth-All zero y (x ∷ xs) h p = (p, h.1)
  set_nth-All (suc i) y (x ∷ xs) h p = (h.0, set_nth-All i y xs h.1 p)

  append-All : (y : A) (xs : List A) → All P xs → P y → All P (xs ++ y ∷ [])
  append-All y [] h p = (p, tt)
  append-All y (x ∷ xs) h p = (h.0, append-All y xs h.1 p)

-- Each user's channel is within its capacity, and he is closed exactly if he was logged out; each group has its key and a named owner,
-- and nobody else has the role of owner.
pub record IsNetwork {D C : Type 0} (n : Network D C) : Type 0 where
  pub users : All IsUser n.users
  pub groups : AreOrderly n.server.group_manager

-- The groups are the same, and the users are still in order.
pub record Calm {D C : Type 0} (n n' : Network D C) : Type 0 where
  pub same : n'.server.group_manager ≡ n.server.group_manager
  pub fine : All IsUser n.users → All IsUser n'.users

Calm-trans : {D C : Type 0} (x y z : Network D C) → Calm x y → Calm y z → Calm x z
Calm-trans x y z a b = record { same = b.same ∙ a.same; fine = λ h. b.fine (a.fine h) }

module _ {D C : Type 0} where
  call-Calm : (o : Outside) (c : ℕ) (m : Message) (n : Network D C) → Calm n (call o c m n)
  unfolding call HasGroups IsSession
  call-Calm o c m n = elim (Option-cases (nth c n.users)) [
    | inl missing ↦
        (let same : n ≡ call o c m n = ground arith in
          subst (Calm n) same (record { same = refl; fine = λ h. h }))
    | inr (u, there) ↦
        (let s = send_json o m (session_of u n) in
          let same : with_session c s n ≡ call o c m n = ground arith in
          subst (Calm n) same (record {
            same = send_json-HasGroups n.server.group_manager o m (session_of u n) refl;
            fine = λ h.
                set_nth-All IsUser c s.user n.users h
                  (send_json-IsSession o m (session_of u n) (nth-All IsUser c u n.users h there));
          }))
  ]

  call_all-Calm :
      (o : Outside) (calls : List (ℕ × Message)) (n : Network D C) → Calm n (call_all o calls n)
  unfolding call_all
  call_all-Calm o [] n = record { same = refl; fine = λ h. h }
  call_all-Calm o ((c, m) ∷ rest) n =
      Calm-trans n (call o c m n) (call_all o rest (call o c m n)) (call-Calm o c m n)
        (call_all-Calm o rest (call o c m n))

  accept-groups :
      (ip : String) (now : ℕ) (v : Server D C ℕ)
      → (accept ip now v).0.group_manager ≡ v.group_manager
  unfolding accept
  accept-groups ip now v = ground arith

module _ {D C : Type 0} (sql : Database D) (redis : Redis C) (o : Outside) (p : Presence) where
  deliver_round-Calm :
      (now : String → ℕ) (n : Network D C) → Calm n (deliver_round sql redis o p now n)
  unfolding deliver_round
  deliver_round-Calm now n = elim (Option-cases (receive n.server.worker)) [
    | inl idle ↦
        (let same : n ≡ deliver_round sql redis o p now n = ground arith in
          subst (Calm n) same (record { same = refl; fine = λ h. h }))
    | inr ((id, w), took) ↦
        (let v = n.server in
          let done = deliver sql redis (senders v.online_map) w now id v.logic.store in
          let n' : Network D C = record n {
            server = record v { worker = finish id w; logic = with_store v.logic done.0 };
          } in
          let same : call_all o done.1 n' ≡ deliver_round sql redis o p now n = ground arith in
          subst (Calm n) same (
            Calm-trans n n' (call_all o done.1 n') (record { same = refl; fine = λ h. h })
              (call_all-Calm o done.1 n')))
  ]

  connect-groups :
      (addr : String) (v : Server D C ℕ) (n : Network D C)
      → (connect sql redis o p addr v n).server.group_manager ≡ v.group_manager
  unfolding connect handler HasGroups
  connect-groups addr v n = send_msg-HasGroups v.group_manager _ _ refl

  -- The groups after a step: those before, or what one request makes of them, in the name of a user who has logged in on one of the
  -- connections.
  unfoldable pub IsRequested : Network D C → Network D C → Type 0
  IsRequested n n' =
      (n'.server.group_manager ≡ n.server.group_manager)
      ⊎ ((i : ℕ) × (u : User ℕ) × (r : Request) × (nth i n.users ≡ some u)
          × (actor r ≡ u.name)
          × (u.authenticated ≡ true)
          × (n'.server.group_manager ≡ (serve n.server.group_manager r).0))

  pub Step-IsRequested : {n n' : Network D C} → Step sql redis o p n n' → IsRequested n n'
  unfolding IsRequested IsEntry retry_round
  Step-IsRequested (connects addr now {n} ok) = inl (
      connect-groups addr (accept (parse_ip o (some addr)) now n.server).0 n
      ∙ accept-groups (parse_ip o (some addr)) now n.server)
  Step-IsRequested (refuses addr text now {n} e) =
      inl (accept-groups (parse_ip o (some addr)) now n.server)
  Step-IsRequested (acts i u there a) = elim (Act-IsEntry sql redis o p a) [
    | inl same ↦ inl same
    | inr (r, by, known, served) ↦ inr (i, u, r, there, by, known, served)
  ]
  Step-IsRequested (delivers now {n}) = inl (deliver_round-Calm now n).same
  Step-IsRequested (retries now) = inl refl

  Step-users :
      {n n' : Network D C} → Step sql redis o p n n' → All IsUser n.users → All IsUser n'.users
  unfolding connect retry_round IsSession
  Step-users (connects addr now {n} ok) h =
      append-All IsUser _ n.users h (handler-IsSession sql redis o p (length n.users) addr _)
  Step-users (refuses addr text now e) h = h
  Step-users (acts i u {n} {s} there a) h =
      set_nth-All IsUser i s.user n.users h
        (Act-IsSession sql redis o p a (nth-All IsUser i u n.users h there))
  Step-users (delivers now {n}) h = (deliver_round-Calm now n).fine h
  Step-users (retries now) h = h

  requested-AreOrderly :
      (n n' : Network D C)
      → IsRequested n n'
      → AreOrderly n.server.group_manager
      → AreOrderly n'.server.group_manager
  unfolding IsRequested
  requested-AreOrderly n n' (inl same) h = subst AreOrderly (sym same) h
  requested-AreOrderly n n' (inr (i, u, r, there, by, known, served)) h =
      subst AreOrderly (sym served) (serve-AreOrderly n.server.group_manager h r)

  -- However the connections, the accept loop and the worker take turns, from a server without connections and groups: the channel of
  -- every user holds at most its ten texts, he is closed exactly if he was logged out, and every group carries its key
  -- and has a named owner, besides whom nobody has the role of owner.
  pub Reachable-IsNetwork : {n : Network D C} → Reachable sql redis o p n → IsNetwork n
  Reachable-IsNetwork (begins v none_yet) = record {
    users = tt;
    groups = subst AreOrderly (sym none_yet) new-AreOrderly;
  }
  Reachable-IsNetwork (then_steps {n} {n'} r step) =
      let h = Reachable-IsNetwork r in
      record {
        users = Step-users step h.users;
        groups = requested-AreOrderly n n' (Step-IsRequested step) h.groups;
      }
