-- ===== src/Worker/Calls.antt =====
-- What one delivery sends to each user, told without the list of recipients that it makes.
use h_go.Base.{
  ℕ, String, Bool, ◌≡◌, refl, ap, ◌∙◌, false, ◌||◌, Option, none, some, List, [], ◌∷◌, ◌++◌, arith,
  eq_iff, str_eq, if◌then◌else◌, Dict, get, contains, Distinct, select, Option-cases, Bool-cases,
  inl, inr, subst,
}
use mathlib.Core.List.{append-nil}
use h_go.Text.Trim.{is_empty}
use h_go.Protocol.{Message, type_deliver}
use h_go.Storage.{Database, Redis}
use h_go.Store.{Store}
use h_go.Store.Deliveries.{entry}
use h_go.Store.Delivery.{get_recipients}
use h_go.Store.Delivery.Pending.{
  IsKeyed, is_open_entry, get_recipients-open, get_recipients-Distinct,
}
use h_go.Worker.{Worker, with_named, deliver}
use h_go.Worker.Deliver.{
  calls_to, calls_of, message_found, contains-with_named, with_named-Distinct, deliver-calls,
}

-- The calls with a message for the user.
abbrev pub calls_for : {Conn : Type 0} → String → List (Conn × Message) → List (Conn × Message)
calls_for t = select (λ call. str_eq call.1.to t)

select-append {ℓ} :
    {A : Type ℓ} (p : A → Bool) (xs ys : List A) → select p (xs ++ ys) ≡ select p xs ++ select p ys
select-append p [] ys = refl
select-append p (x ∷ xs) ys = ground (arith, select-append p xs ys)

module _ {Conn : Type 0} (online : Dict (Option Conn)) (id t : String) (msg : Message) where
  calls_for-calls_to :
      (r : String)
      → calls_for t (calls_to online id msg r)
        ≡ (if str_eq r t then calls_to online id msg r else [])
  unfolding calls_to
  calls_for-calls_to r = elim (Option-cases (get r online)) [
    | inl away ↦ ground arith
    | inr (sender, e) ↦ elim (Option-cases sender) [
      | inl e' ↦ ground arith
      | inr (c, e') ↦ ground arith
    ]
  ]

  calls_for-calls_of :
      (rs : List String)
      → Distinct rs
      → calls_for t (calls_of online id msg rs)
        ≡ (if contains t rs then calls_to online id msg t else [])
  unfolding calls_of
  calls_for-calls_of [] d = refl
  calls_for-calls_of (r ∷ rs) d =
      let rest = calls_for-calls_of rs d.1 in
      let first = calls_for-calls_to r in
      let both =
        select-append (λ call. str_eq call.1.to t) (calls_to online id msg r)
          (calls_of online id msg rs) in
      elim (Bool-cases (str_eq r t)) [
        | inl same ↦
            (let here : r ≡ t = (eq_iff r t).0 same in
              let none_left : contains t rs ≡ false = subst (λ x. contains x rs ≡ false) here d.0 in
              let nothing : calls_for t (calls_of online id msg rs) ≡ [] = ground (arith, rest) in
              let all : calls_for t (calls_to online id msg r) ≡ calls_to online id msg t =
                ground (arith, first) ∙ ap (calls_to online id msg) here in
              both
              ∙ ap (λ xs. calls_for t (calls_to online id msg r) ++ xs) nothing
              ∙ ap (λ xs. xs ++ []) all
              ∙ append-nil (calls_to online id msg t)
              ∙ ground arith)
        | inr other ↦
            (let nothing : calls_for t (calls_to online id msg r) ≡ [] = ground (arith, first) in
              both
              ∙ ap (λ xs. xs ++ calls_for t (calls_of online id msg rs)) nothing
              ∙ ground (arith, rest))
      ]

module _ {D C : Type 0} (sql : Database D) (redis : Redis C) {Conn : Type 0}
    (online : Dict (Option Conn)) (w : Worker) (now : String → ℕ) where
  -- Without a database, what the delivery of a message that is stored sends to a user: exactly one message, on the
  -- connection that he is online with, if his delivery is open or the message is addressed to him, and else nothing; so
  -- it is if he is not online. What is sent has the id, the sender, the chat, the number, the text and the time of the
  -- message, and names him as the recipient. The user is not named by the empty text, and each user has one entry for a
  -- message.
  pub calls_for-deliver :
      (id t : String) (msg : Message) (s : Store D C)
      → s.persistent ≡ false
      → IsKeyed s.deliveries
      → get id s.messages ≡ some msg
      → is_empty t ≡ false
      → calls_for t (deliver sql redis online w now id s).1 ≡ (
          if is_open_entry (entry id t s.deliveries) || str_eq msg.to t
          then elim (get t online) [
            | none ↦ []
            | some none ↦ []
            | some (some c) ↦
                (
                  c,
                  record {
                    type = type_deliver;
                    client_msg_id = "";
                    server_msg_id = id;
                    chat_id = msg.chat_id;
                    from = msg.from;
                    to = t;
                    seq = msg.seq;
                    status = 0;
                    body = msg.body;
                    ts = msg.ts;
                  },
                )
                ∷ []
          ]
          else [])
  unfolding calls_to
  calls_for-deliver id t msg s memory keyed there ht =
      let found = (get_recipients sql redis id s).1 in
      let rs = with_named msg.to found in
      let opens = (get_recipients-open sql redis id t s memory keyed).1 in
      let distinct =
        with_named-Distinct msg.to found (get_recipients-Distinct sql redis id s memory keyed) in
      let calls : (deliver sql redis online w now id s).1 ≡ calls_of online id msg rs =
        deliver-calls sql redis online w now id s
        ∙ ap
            (λ r. elim r.1 [
              | none ↦ []
              | some m ↦ calls_of online id m (with_named m.to (get_recipients sql redis id r.0).1)
            ])
            (message_found sql redis online w now id msg s there) in
      let members : contains t rs ≡ (is_open_entry (entry id t s.deliveries) || str_eq msg.to t) =
        contains-with_named t msg.to found ht ∙ ap (λ b. b || str_eq msg.to t) opens in
      ap (calls_for t) calls
      ∙ calls_for-calls_of online id t msg rs distinct
      ∙ ap (λ b. if b then calls_to online id msg t else []) members
      ∙ elim (Option-cases (get t online)) [
        | inl away ↦ ground arith
        | inr (sender, e) ↦ elim (Option-cases sender) [
          | inl e' ↦ ground arith
          | inr (c, e') ↦ ground arith
        ]
      ]
