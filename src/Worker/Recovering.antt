-- ===== src/Worker/Recovering.antt =====
-- What a list of ids leaves on the channel of a worker that has nothing to do.
use h_go.Base.{
  ℕ, zero, suc, ◌+◌, ◌≤◌, String, ◌≡◌, refl, ap, sym, ◌∙◌, Bool, true, false, not, ◌||◌, List, [],
  ◌∷◌, ◌++◌, arith, eq_iff, str_eq, contains, length, length-append, take, is_some, get, put,
  get-put, get-remove, get-nil, ltb, if◌then◌else◌, Bool-cases, inl, inr, ℤ,
}
use mathlib.Core.Path.{ap₂}
use h_go.Text.Trim.{is_empty}
use h_go.Store.Helpers.{dedupe_from, dedupe_strings}
use h_go.Worker.{
  Worker, new_worker, enqueue_server_msg, queue_capacity, mark_in_flight, push, finish, enqueue_all,
}

take-snoc :
    (n : ℕ) (xs : List String) (x : String)
    → take n (xs ++ x ∷ []) ≡ (if ltb (length xs) n then xs ++ x ∷ [] else take n xs)
take-snoc zero [] x = ground arith
take-snoc zero (y ∷ ys) x = ground arith
take-snoc (suc zero) [] x = ground arith
take-snoc (suc (suc n)) [] x = ground arith
take-snoc (suc n) (y ∷ ys) x = ground (arith, take-snoc n ys x)

take_short : (n : ℕ) (xs : List String) → length xs ≤ n → take n xs ≡ xs
take_short zero [] h = refl
take_short zero (y ∷ ys) h = absurd (omega (arith, h))
take_short (suc n) [] h = refl
take_short (suc n) (y ∷ ys) h = ap (λ zs. y ∷ zs) (take_short n ys (omega (arith, h)))

length-take : (n : ℕ) (xs : List String) → ltb (length (take n xs)) n ≡ ltb (length xs) n
length-take zero xs = ground arith
length-take (suc n) [] = ground arith
length-take (suc n) (y ∷ ys) = ground (arith, length-take n ys)

contains-take :
    (n : ℕ) (k : String) (xs : List String) → contains k (take n xs) ≡ true → contains k xs ≡ true
contains-take zero k xs h = absurd (ground arith)
contains-take (suc n) k [] h = h
contains-take (suc n) k (y ∷ ys) h = ground (arith, contains-take n k ys)

pub contains-snoc :
    (k x : String) (xs : List String) → contains k (xs ++ x ∷ []) ≡ (contains k xs || str_eq x k)
contains-snoc k x [] = ground arith
contains-snoc k x (y ∷ ys) = ground (arith, contains-snoc k x ys)

-- The channel holds the first of the ids that came so far, each once, and these are in flight.
record Holds (out : List String) (w : Worker) : Type 0 where
  queued : w.deliver_queue ≡ take queue_capacity out
  flying : (k : String) → is_some (get k w.deliver_in_flight) ≡ contains k (take queue_capacity out)

abbrev kept : List String → String → List String
kept out id = if is_empty id || contains id out then out else out ++ id ∷ []

abbrev pub is_dropped : String → Worker → Bool
is_dropped id w =
    is_empty id
    || is_some (get id w.deliver_in_flight)
    || not (ltb (length w.deliver_queue) queue_capacity)

pub queue-enqueue_server_msg :
    (id : String) (w : Worker)
    → (enqueue_server_msg id w).deliver_queue
      ≡ (if is_dropped id w then w.deliver_queue else w.deliver_queue ++ id ∷ [])
unfolding enqueue_server_msg mark_in_flight push finish
queue-enqueue_server_msg id w = ground arith

pub flying-enqueue_server_msg :
    (id k : String) (w : Worker)
    → is_some (get k (enqueue_server_msg id w).deliver_in_flight) ≡ (
        if is_dropped id w
        then is_some (get k w.deliver_in_flight)
        else str_eq id k || is_some (get k w.deliver_in_flight))
unfolding enqueue_server_msg mark_in_flight push finish
flying-enqueue_server_msg id k w = ground (
  arith,
  get-put id k tt w.deliver_in_flight,
  get-remove id k (put id tt w.deliver_in_flight),
  eq_iff id k,
)

take-kept :
    (n : ℕ) (out : List String) (id : String)
    → take n (kept out id) ≡ (
        if is_empty id || contains id (take n out) || not (ltb (length out) n)
        then take n out
        else take n out ++ id ∷ [])
take-kept n out id = elim (Bool-cases (ltb (length out) n)) [
  | inl room ↦
      (let all = take_short n out (ground arith) in
        ground (arith, all, take-snoc n out id, ap (contains id) all))
  | inr full ↦ ground (arith, take-snoc n out id)
]

contains-kept :
    (n : ℕ) (out : List String) (id k : String)
    → contains k (take n (kept out id)) ≡ (
        if is_empty id || contains id (take n out) || not (ltb (length out) n)
        then contains k (take n out)
        else str_eq id k || contains k (take n out))
contains-kept n out id k =
    ap (contains k) (take-kept n out id) ∙ ground (arith, contains-snoc k id (take n out))

kept-Holds :
    (out : List String) (id : String) (w : Worker)
    → Holds out w
    → Holds (kept out id) (enqueue_server_msg id w)
kept-Holds out id w h =
    let n = queue_capacity in
    let size : ltb (length w.deliver_queue) n ≡ ltb (length out) n =
      ap (λ q. ltb (length q) n) h.queued ∙ length-take n out in
    let dropped : is_dropped id w
        ≡ (is_empty id || contains id (take n out) || not (ltb (length out) n)) =
      ground (arith, h.flying id, size) in
    record {
      queued = ground (arith, queue-enqueue_server_msg id w, h.queued, dropped, take-kept n out id);
      flying = λ k.
          flying-enqueue_server_msg id k w
          ∙ ap₂ (λ b here. if b then here else str_eq id k || here) dropped (h.flying k)
          ∙ sym (contains-kept n out id k);
    }

enqueue_all-Holds :
    (ids out : List String) (w : Worker)
    → Holds out w
    → Holds (dedupe_from out ids) (enqueue_all ids w)
unfolding dedupe_from enqueue_all
enqueue_all-Holds [] out w h = h
enqueue_all-Holds (id ∷ ids) out w h =
    enqueue_all-Holds ids (kept out id) (enqueue_server_msg id w) (kept-Holds out id w h)

-- A list of ids that is put on the channel of an idle worker leaves there, in their order, the first 1024 of its ids that are
-- not empty, each once, whatever the list repeats.
pub enqueue_all-dedupe :
    (ids : List String) (max_retry delay : ℤ)
    → (enqueue_all ids (new_worker max_retry delay)).deliver_queue
      ≡ take queue_capacity (dedupe_strings ids)
unfolding dedupe_strings
enqueue_all-dedupe ids max_retry delay =
    (enqueue_all-Holds ids [] (new_worker max_retry delay)
      (record { queued = refl; flying = λ k. ground (arith, get-nil {V = Unit {0}} k) })).queued

-- An id of the list is on the channel afterwards, where the channel has room for the whole list and the id is in flight only if it is
-- already on the channel.
pub contains-enqueue_all :
    (id : String) (ids : List String) (w : Worker)
    → is_empty id ≡ false
    → is_some (get id w.deliver_in_flight) ≡ contains id w.deliver_queue
    → length w.deliver_queue + length ids ≤ queue_capacity
    → (contains id w.deliver_queue || contains id ids) ≡ true
    → contains id (enqueue_all ids w).deliver_queue ≡ true
unfolding enqueue_all
contains-enqueue_all id [] w named tracked room within = ground arith
contains-enqueue_all id (x ∷ ids) w named tracked room within =
    let w' = enqueue_server_msg x w in
    let queue = queue-enqueue_server_msg x w in
    let flying = flying-enqueue_server_msg x id w in
    let size = length-append w.deliver_queue (x ∷ []) in
    let last = contains-snoc id x w.deliver_queue in
    let at_x : str_eq x id ≡ true
        → is_some (get x w.deliver_in_flight) ≡ contains id w.deliver_queue =
      λ e. ap (λ y. is_some (get y w.deliver_in_flight)) ((eq_iff x id).0 e) ∙ tracked in
    let named_x : str_eq x id ≡ true → is_empty x ≡ false =
      λ e. ap is_empty ((eq_iff x id).0 e) ∙ named in
    contains-enqueue_all id ids w' named
      (elim (Bool-cases (is_dropped x w)) [
        | inl old ↦ ground (arith, queue, flying, tracked)
        | inr new ↦ ground (arith, queue, flying, tracked, last)
      ])
      (elim (Bool-cases (is_dropped x w)) [
        | inl old ↦ ground (arith, ap length queue)
        | inr new ↦ ground (arith, ap length queue, size)
      ])
      (elim (Bool-cases (is_dropped x w)) [
        | inl old ↦ ground (arith, queue, at_x, named_x)
        | inr new ↦ ground (arith, queue, last)
      ])
