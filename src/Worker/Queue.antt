-- ===== src/Worker/Queue.antt =====
-- The delivery queue under every interleaving of the callers of EnqueueServerMsg with the worker: an id in
-- flight is at exactly one place.
use h_go.Base.{
  ℕ, ◌+◌, ◌≤◌, String, ◌≡◌, Bool, true, false, some, List, [], ◌∷◌, arith, eq_iff, contains, count,
  count-append, without, count-without, length, length-append, is_some, get, get-put, get-remove,
  Bool-cases, inl, inr, ℤ, get-nil, subst, sym,
}
use mathlib.Core.Path.{subst₂}
use h_go.Text.Trim.{is_empty}
use h_go.Worker.{
  Worker, new_worker, enqueue_server_msg, queue_capacity, mark_in_flight, push, finish, receive,
}

-- The worker with the goroutines around it: the ids that a caller has marked in flight and not yet put on the
-- channel, and the ids that are being delivered.
pub record System : Type 0 where
  pub worker : Worker
  pub entering : List String
  pub busy : List String

pub data Step : System → System → Type 0 where
  -- a caller marks an id that is not in flight
  marks :
      (s : System) (id : String)
      → (mark_in_flight id s.worker).1 ≡ true
      → Step s (record s { worker = (mark_in_flight id s.worker).0; entering = id ∷ s.entering })
  -- a caller finds the id in flight, and leaves
  skips :
      (s : System) (id : String)
      → (mark_in_flight id s.worker).1 ≡ false
      → Step s (record s { worker = (mark_in_flight id s.worker).0 })
  -- a caller that has marked an id puts it on the channel, or drops it
  pushes :
      (s : System) (id : String)
      → contains id s.entering ≡ true
      → Step s (record s { worker = push id s.worker; entering = without id s.entering })
  -- the worker takes the oldest id
  receives :
      (s : System) (id : String) (w : Worker)
      → receive s.worker ≡ some (id, w)
      → Step s (record s { worker = w; busy = id ∷ s.busy })
  -- the worker is done with an id
  finishes :
      (s : System) (id : String)
      → contains id s.busy ≡ true
      → Step s (record s { worker = finish id s.worker; busy = without id s.busy })

-- How often an id is on its way: with a caller, on the channel or with the worker.
abbrev pub on_way : String → System → ℕ
on_way id s = count id s.entering + count id s.worker.deliver_queue + count id s.busy

abbrev pub flag : Bool → ℕ
flag true = 1
flag false = 0

-- An id is in flight exactly while it is at one of the places, and then only once; the channel stays within its
-- capacity.
pub record IsTracked (s : System) : Type 0 where
  pub tracked : (id : String) → on_way id s ≡ flag (is_some (get id s.worker.deliver_in_flight))
  pub bounded : length s.worker.deliver_queue ≤ queue_capacity

-- Every step of a caller or of the worker keeps each id that is in flight at exactly one place, and the channel within its
-- capacity.
pub Step-IsTracked : {s t : System} → Step s t → IsTracked s → IsTracked t
unfolding mark_in_flight push finish receive
Step-IsTracked (marks s id fresh) h = record {
  tracked =
      λ k. ground (arith, h.tracked k, get-put id k tt s.worker.deliver_in_flight, eq_iff id k);
  bounded = ground (arith, h.bounded);
}
Step-IsTracked (skips s id held) h = record {
  tracked = λ k. ground (arith, h.tracked k);
  bounded = ground (arith, h.bounded);
}
Step-IsTracked (pushes s id here) h = record {
  tracked = λ k. ground (
    arith,
    h.tracked k,
    count-append k s.worker.deliver_queue (id ∷ []),
    count-without id k s.entering here,
    get-remove id k s.worker.deliver_in_flight,
    eq_iff id k,
  );
  bounded = ground (arith, h.bounded, length-append s.worker.deliver_queue (id ∷ []));
}
Step-IsTracked (receives s id w took) h = record {
  tracked = λ k. ground (arith, h.tracked k);
  bounded = ground (arith, h.bounded);
}
Step-IsTracked (finishes s id here) h = record {
  tracked = λ k. ground (
    arith,
    h.tracked k,
    count-without id k s.busy here,
    get-remove id k s.worker.deliver_in_flight,
    eq_iff id k,
  );
  bounded = ground (arith, h.bounded);
}

pub data Reach (s : System) : System → Type 0 where
  here : Reach s s
  next : {t u : System} → Reach s t → Step t u → Reach s u

abbrev pub idle_system : ℤ → ℤ → System
idle_system max_retry delay = record {
  worker = new_worker max_retry delay;
  entering = [];
  busy = [];
}

idle-IsTracked : (max_retry delay : ℤ) → IsTracked (idle_system max_retry delay)
idle-IsTracked max_retry delay = record {
  tracked = λ k. ground (arith, get-nil {V = Unit {0}} k);
  bounded = omega arith;
}

Reach-IsTracked : {s t : System} → IsTracked s → Reach s t → IsTracked t
Reach-IsTracked h here = h
Reach-IsTracked h (next r st) = Step-IsTracked st (Reach-IsTracked h r)

-- Whatever the callers and the worker do, in whatever order: an id that is in flight is with one caller, on the channel
-- or with the worker, once altogether, an id that is not in flight is nowhere, and the channel holds at most
-- 1024 ids.
pub reachable-IsTracked :
    (max_retry delay : ℤ) {t : System} → Reach (idle_system max_retry delay) t → IsTracked t
reachable-IsTracked max_retry delay r = Reach-IsTracked (idle-IsTracked max_retry delay) r

module _ (w : Worker) (id : String) where
  enqueue_blank : is_empty id ≡ true → enqueue_server_msg id w ≡ w
  unfolding enqueue_server_msg
  enqueue_blank e = ground arith

  enqueue_held :
      is_empty id ≡ false
      → (mark_in_flight id w).1 ≡ false
      → enqueue_server_msg id w ≡ (mark_in_flight id w).0
  unfolding enqueue_server_msg
  enqueue_held e held = ground arith

  enqueue_fresh :
      is_empty id ≡ false
      → (mark_in_flight id w).1 ≡ true
      → enqueue_server_msg id w ≡ push id (mark_in_flight id w).0
  unfolding enqueue_server_msg
  enqueue_fresh e fresh = ground arith

without-cons : (id : String) (xs : List String) → without id (id ∷ xs) ≡ xs
without-cons id xs = ground (arith, eq_iff id id)

-- EnqueueServerMsg in one piece is a run of the steps of a caller that no other step interrupts.
pub enqueue_server_msg-Reach :
    (s : System) (id : String) → Reach s (record s { worker = enqueue_server_msg id s.worker })
enqueue_server_msg-Reach s id = elim (Bool-cases (is_empty id)) [
  | inl e ↦ subst at_worker (sym (enqueue_blank s.worker id e)) here
  | inr e ↦ elim (Bool-cases (mark_in_flight id s.worker).1) [
    | inr held ↦
        subst at_worker (sym (enqueue_held s.worker id e held)) (next here (skips s id held))
    | inl fresh ↦
        subst₂ (λ w en. Reach s (record s { worker = w; entering = en }))
          (sym (enqueue_fresh s.worker id e fresh)) (without-cons id s.entering)
          (next (next here (marks s id fresh)) (
            pushes
              (record s { worker = (mark_in_flight id s.worker).0; entering = id ∷ s.entering }) id
              (ground (arith, eq_iff id id))))
  ]
]
  where
    at_worker : Worker → Type 0
    at_worker w = Reach s (record s { worker = w })
