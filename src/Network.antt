-- ===== src/Network.antt =====
-- The whole program as a state machine: the connections with their users, the server that they share, the accept loop, and the
-- two goroutines of the worker take turns.
pub mod Invariant
pub mod Rights
mod Tests
use h_go.Base.{ℕ, String, zero, suc, ◌≡◌, Option, none, some, List, [], ◌∷◌, ◌++◌, length, pos}
use h_go.Protocol.{Message}
use h_go.Storage.{Database, Redis}
use h_go.Logic.{with_store}
use h_go.Outside.{Outside}
use h_go.Worker.{receive, finish, deliver, retry_tick}
use h_go.Group.{new_group_manager}
use h_go.Server.{Server, senders, parse_ip, accept}
use h_go.Session.{User, Session, Presence, send_json}
use h_go.Connection.{handler}
use h_go.Connection.Steps.{Act}

-- The users in the order of their connections, which they keep; the pointer to a user is his position.
pub record Network (D C : Type 0) : Type 0 where
  pub users : List (User ℕ)
  pub server : Server D C ℕ

module _ {ℓ} {A : Type ℓ} where
  unfoldable pub nth : ℕ → List A → Option A
  nth i [] = none
  nth zero (x ∷ xs) = some x
  nth (suc i) (x ∷ xs) = nth i xs

  unfoldable pub set_nth : ℕ → A → List A → List A
  set_nth i y [] = []
  set_nth zero y (x ∷ xs) = y ∷ xs
  set_nth (suc i) y (x ∷ xs) = x ∷ set_nth i y xs

module _ {D C : Type 0} where
  abbrev pub session_of : User ℕ → Network D C → Session D C ℕ
  session_of u n = record { user = u; server = n.server }

  abbrev pub with_session : ℕ → Session D C ℕ → Network D C → Network D C
  with_session i s n = record { users = set_nth i s.user n.users; server = s.server }

  -- `sender.SendJSON(m)`, on the connection that a map of senders names
  unfoldable pub call : Outside → ℕ → Message → Network D C → Network D C
  unfolding nth set_nth
  call o c m n = elim (nth c n.users) [
    | none ↦ n
    | some u ↦ with_session c (send_json o m (session_of u n)) n
  ]

  unfoldable pub call_all : Outside → List (ℕ × Message) → Network D C → Network D C
  unfolding call
  call_all o [] n = n
  call_all o ((c, m) ∷ rest) n = call_all o rest (call o c m n)

module _ {D C : Type 0} (sql : Database D) (redis : Redis C) (o : Outside) (p : Presence) where
  -- acceptLoop hands a connection to Handler.
  unfoldable pub connect : String → Server D C ℕ → Network D C → Network D C
  connect addr v n =
      let s = handler sql redis o p (length n.users) addr v in
      record { users = n.users ++ s.user ∷ []; server = s.server }

  -- One round of the loop of deliverWorker, with the calls that it makes.
  unfoldable pub deliver_round : (String → ℕ) → Network D C → Network D C
  unfolding receive call_all senders
  deliver_round now n = elim (receive n.server.worker) [
    | none ↦ n
    | some (id, w) ↦
        (let v = n.server in
          let (st, calls) = deliver sql redis (senders v.online_map) w now id v.logic.store in
          call_all o calls (record n {
            server = record v { worker = finish id w; logic = with_store v.logic st };
          }))
  ]

  -- One tick of retryWorker.
  unfoldable pub retry_round : ℕ → Network D C → Network D C
  retry_round now n =
      let v = n.server in
      let (w, st) = retry_tick sql redis (pos 500) now v.worker v.logic.store in
      record n { server = record v { worker = w; logic = with_store v.logic st } }

  pub data Step : Network D C → Network D C → Type 0 where
    connects :
        (addr : String) (now : ℕ) {n : Network D C}
        → (accept (parse_ip o (some addr)) now n.server).1 ≡ none
        → Step n (connect addr (accept (parse_ip o (some addr)) now n.server).0 n)
    refuses :
        (addr text : String) (now : ℕ) {n : Network D C}
        → (accept (parse_ip o (some addr)) now n.server).1 ≡ some text
        → Step n (record n { server = (accept (parse_ip o (some addr)) now n.server).0 })
    acts :
        (i : ℕ) (u : User ℕ) {n : Network D C} {s : Session D C ℕ}
        → nth i n.users ≡ some u
        → Act sql redis o p (session_of u n) s
        → Step n (with_session i s n)
    delivers : (now : String → ℕ) {n : Network D C} → Step n (deliver_round now n)
    retries : (now : ℕ) {n : Network D C} → Step n (retry_round now n)

  -- What the program can come to, from a server without connections and groups.
  pub data Reachable : Network D C → Type 0 where
    begins :
        (v : Server D C ℕ)
        → v.group_manager ≡ new_group_manager
        → Reachable (record { users = []; server = v })
    then_steps : {n n' : Network D C} → Reachable n → Step n n' → Reachable n'
