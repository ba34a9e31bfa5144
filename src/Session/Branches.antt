-- ===== src/Session/Branches.antt =====
-- What the commands branch on: a predicate holds of the session after a branching if it holds after each branch.
use h_go.Base.{Bool, true, false, String, Option, none, some, List, [], ◌∷◌, if◌then◌else◌}
use h_go.Protocol.{Message}
use h_go.Logic.{Sent, saved, existing, refused}
use h_go.Session.{Session, send_msg}

module _ {D C Conn : Type 0} (P : Session D C Conn → Type 0) where
  -- an argument that is asked for, and the answer if there is none
  pub on_argument {ℓ} :
      {A : Type ℓ} (a : Option A) (text : String) (f : A → Session D C Conn) (s : Session D C Conn)
      → P (send_msg text s)
      → ((x : A) → P (f x))
      → P (elim a [ none ↦ send_msg text s | some x ↦ f x ])
  on_argument none text f s h k = h
  on_argument (some x) text f s h k = k x

  pub on_test : (b : Bool) (x y : Session D C Conn) → P x → P y → P (if b then x else y)
  on_test true x y hx hy = hx
  on_test false x y hx hy = hy

  pub on_list {ℓ} :
      {A : Type ℓ} (xs : List A) (x : Session D C Conn) (f : A → List A → Session D C Conn)
      → P x
      → ((a : A) (rest : List A) → P (f a rest))
      → P (elim xs [ [] ↦ x | a ∷ rest ↦ f a rest ])
  on_list [] x f h k = h
  on_list (a ∷ rest) x f h k = k a rest

  pub on_sent :
      (sent : Sent) (x : String → Session D C Conn) (y z : Message → Session D C Conn)
      → ((e : String) → P (x e))
      → ((m : Message) → P (y m))
      → ((m : Message) → P (z m))
      → P (elim sent [ refused e ↦ x e | existing m ↦ y m | saved m ↦ z m ])
  on_sent (refused e) x y z hx hy hz = hx e
  on_sent (existing m) x y z hx hy hz = hy m
  on_sent (saved m) x y z hx hy hz = hz m
