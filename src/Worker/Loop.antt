-- ===== src/Worker/Loop.antt =====
-- The loop of deliverWorker with all that it does: the ids are taken from the channel and delivered, one after the other.
use h_go.Base.{
  ℕ, ◌≤◌, String, ◌≡◌, ap, sym, ◌∙◌, subst, true, false, Option, none, some, List, [], ◌∷◌, ◌++◌,
  arith, eq_iff, str_eq, Dict, get, contains, length, All, Bool-cases, List-cases, inl, inr,
}
use mathlib.Core.List.{append_assoc}
use h_go.Text.Trim.{is_empty}
use h_go.Protocol.{Message}
use h_go.Storage.{Database, Redis}
use h_go.Store.{Store}
use h_go.Store.Deliveries.{entry}
use h_go.Store.Delivery.{get_recipients}
use h_go.Store.Delivery.Pending.{IsKeyed, is_open_entry, get_recipients-open}
use h_go.Worker.{Worker, receive, finish, with_named, deliver_message, deliver}
use h_go.Worker.Deliver.{calls_of, calls_to, message_found, contains-with_named, deliver-calls}
use h_go.Worker.Sparing.{deliver-Spares}

-- What a round of the loop finds when it comes to the recipients: the users online, and the time of each one's turn.
pub record Round (Conn : Type 0) : Type 0 where
  pub online : Dict (Option Conn)
  pub now : String → ℕ

module _ {D C : Type 0} (sql : Database D) (redis : Redis C) {Conn : Type 0} where
  -- Rounds of the loop of deliverWorker; it waits where the channel is empty.
  unfoldable pub work :
      List (Round Conn) → Worker → Store D C → List (Conn × Message) × Worker × Store D C
  unfolding receive finish deliver
  work [] w s = ([], w, s)
  work (r ∷ rs) w s = elim (receive w) [
    | none ↦ ([], w, s)
    | some (id, w') ↦
        (let (s', calls) = deliver sql redis r.online w' r.now id s in
          let (calls', w'', s'') = work rs (finish id w') s' in (calls ++ calls', w'', s''))
  ]

-- A call is among the calls that were made.
abbrev pub Among {ℓ} : {A : Type ℓ} → A → List A → Type ℓ
Among {A = A} x xs = (before : List A) × (after : List A) × (xs ≡ before ++ x ∷ after)

Among-left {ℓ} : {A : Type ℓ} (x : A) (xs ys : List A) → Among x xs → Among x (xs ++ ys)
Among-left x xs ys (before, after, e) =
    (before, after ++ ys, ap (λ zs. zs ++ ys) e ∙ append_assoc before (x ∷ after) ys)

Among-right {ℓ} : {A : Type ℓ} (x : A) (xs ys : List A) → Among x ys → Among x (xs ++ ys)
Among-right x xs ys (before, after, e) =
    (xs ++ before, after, ap (λ zs. xs ++ zs) e ∙ sym (append_assoc xs before (x ∷ after)))

calls_of-Among :
    {Conn : Type 0} (online : Dict (Option Conn)) (id t : String) (msg : Message) (c : Conn)
    (rs : List String)
    → get t online ≡ some (some c)
    → contains t rs ≡ true
    → Among (c, deliver_message id msg t) (calls_of online id msg rs)
unfolding calls_of calls_to
calls_of-Among online id t msg c [] here within = absurd (ground arith)
calls_of-Among online id t msg c (r ∷ rs) here within = elim (Bool-cases (str_eq r t)) [
  | inl same ↦
      (let call : (c, deliver_message id msg t) ∷ [] ≡ calls_to online id msg r =
          subst (λ x. (c, deliver_message id msg t) ∷ [] ≡ calls_to online id msg x)
            (sym ((eq_iff r t).0 same)) (ground arith) in
        Among-left (c, deliver_message id msg t) (calls_to online id msg r)
          (calls_of online id msg rs) ([], [], sym call))
  | inr other ↦
      Among-right (c, deliver_message id msg t) (calls_to online id msg r)
        (calls_of online id msg rs) (calls_of-Among online id t msg c rs here (ground arith))
]

module _ {D C : Type 0} (sql : Database D) (redis : Redis C) {Conn : Type 0} (id t : String)
    (msg : Message) (c : Conn) (named : is_empty t ≡ false) where
  -- the delivery of the message itself
  deliver-Among :
      (online : Dict (Option Conn)) (w : Worker) (now : String → ℕ) (s : Store D C)
      → s.persistent ≡ false
      → IsKeyed s.deliveries
      → get id s.messages ≡ some msg
      → is_open_entry (entry id t s.deliveries) ≡ true
      → get t online ≡ some (some c)
      → Among (c, deliver_message id msg t) (deliver sql redis online w now id s).1
  deliver-Among online w now s memory keyed there waits here =
      let found = message_found sql redis online w now id msg s there in
      let rs = (get_recipients sql redis id s).1 in
      let opens = (get_recipients-open sql redis id t s memory keyed).1 in
      let calls : calls_of online id msg (with_named msg.to rs)
          ≡ (deliver sql redis online w now id s).1 =
        sym (
          deliver-calls sql redis online w now id s
          ∙ ap
              (λ r. elim r.1 [
                | none ↦ []
                | some m ↦
                    calls_of online id m (with_named m.to (get_recipients sql redis id r.0).1)
              ])
              found) in
      subst (Among (c, deliver_message id msg t)) calls (
        calls_of-Among online id t msg c (with_named msg.to rs) here
          (ground (arith, contains-with_named t msg.to rs named, opens, waits)))

  -- The loop hands the message of a waiting delivery to the user: while he is online under one connection, as many rounds as there
  -- are ids on the channel, with this message's among them, make the call of SendJSON on that connection with the
  -- message addressed to him. There is no database, each user has one entry for a message, and neither name is empty.
  pub work-delivered :
      (rounds : List (Round Conn)) (w : Worker) (s : Store D C)
      → s.persistent ≡ false
      → IsKeyed s.deliveries
      → get id s.messages ≡ some msg
      → is_open_entry (entry id t s.deliveries) ≡ true
      → contains id w.deliver_queue ≡ true
      → length w.deliver_queue ≤ length rounds
      → All (λ r. get t r.online ≡ some (some c)) rounds
      → Among (c, deliver_message id msg t) (work sql redis rounds w s).0
  unfolding work receive finish
  work-delivered [] w s memory keyed there waits queued enough online =
      elim (List-cases w.deliver_queue) [
        | inl nothing ↦ absurd (ground (arith, ap (contains id) nothing))
        | inr (i, rest, e) ↦ absurd (ground (arith, ap length e))
      ]
  work-delivered (r ∷ rs) w s memory keyed there waits queued enough online =
      elim (List-cases w.deliver_queue) [
        | inl nothing ↦ absurd (ground (arith, ap (contains id) nothing))
        | inr (i, rest, e) ↦
            (let w' : Worker = record w { deliver_queue = rest } in
              let first = deliver sql redis r.online w' r.now i s in
              let others = work sql redis rs (finish i w') first.0 in
              let calls : first.1 ++ others.0 ≡ (work sql redis (r ∷ rs) w s).0 = ground arith in
              subst (Among (c, deliver_message id msg t)) calls (elim (Bool-cases (str_eq i id)) [
                | inl same ↦
                    Among-left (c, deliver_message id msg t) first.1 others.0
                      (subst
                        (λ x.
                          Among (c, deliver_message id msg t)
                            (deliver sql redis r.online w' r.now x s).1)
                        (sym ((eq_iff i id).0 same))
                        (deliver-Among r.online w' r.now s memory keyed there waits online.0))
                | inr other ↦
                    (let spares =
                        deliver-Spares sql redis r.online w' r.now i id t
                          (λ q. ground (arith, eq_iff i id)) s memory keyed in
                      Among-right (c, deliver_message id msg t) first.1 others.0
                        (work-delivered rs (finish i w') first.0 (spares.memory memory)
                          (spares.keyed keyed) (ap (get id) spares.messages ∙ there)
                          (ap is_open_entry spares.kept ∙ waits)
                          (ground (arith, ap (contains id) e)) (ground (arith, ap length e))
                          online.1))
              ]))
      ]
