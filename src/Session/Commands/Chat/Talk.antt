-- ===== src/Session/Commands/Chat/Talk.antt =====
-- Who gets the message that a user sends to a group.
use h_go.Base.{
  ◌+◌, ◌≡◌, refl, ap, ◌∙◌, subst, String, true, false, not, ◌&&◌, if◌then◌else◌, some, List, [],
  ◌∷◌, arith, contains, str_eq, eq_iff, cat, Bool-cases, inl, inr,
}
use h_go.Storage.{Database, Redis}
use h_go.Protocol.{Message}
use h_go.Store.{Deliveries}
use h_go.Store.Deliveries.{entry, or_fresh}
use h_go.Logic.{Clock, Sent, saved}
use h_go.Logic.Sending.{process_send-IsSaved}
use h_go.Worker.{enqueue_server_msg}
use h_go.Group.{members_of, role_of}
use h_go.Group.Views.{members_of-role_of}
use h_go.Session.{Session, send_msg}
use h_go.Session.Commands.{two_arguments}
use h_go.Session.Commands.Chat.{group_request, other_members, submit, enqueue_for, use_group_talk}

contains-other_members :
    (name t : String) (ms : List String)
    → contains t (other_members name ms) ≡ (contains t ms && not (str_eq t name))
contains-other_members name t [] = refl
contains-other_members name t (m ∷ ms) =
    ground (arith, contains-other_members name t ms, eq_iff m t, eq_iff m name, eq_iff t name)

-- Deliveries that some recipients have been given, and nobody else, in one equation.
exact_deliveries :
    (id i t : String) (before after : Deliveries) (to : List String)
    → (contains t to ≡ true → entry id t after ≡ or_fresh t (entry id t before))
    → ((str_eq id i && contains t to) ≡ false → entry i t after ≡ entry i t before)
    → entry i t after
      ≡ (if str_eq id i && contains t to then or_fresh t (entry i t before) else entry i t before)
exact_deliveries id i t before after to given kept = elim (Bool-cases (str_eq id i)) [
  | inr apart ↦ ground (arith, kept)
  | inl here ↦
      (let same : id ≡ i = (eq_iff id i).0 here in
        let there : contains t to ≡ true → entry i t after ≡ or_fresh t (entry i t before) =
          subst (λ k. contains t to ≡ true → entry k t after ≡ or_fresh t (entry k t before)) same
            given in
        elim (Bool-cases (contains t to)) [
          | inl chosen ↦ ground (arith, there chosen)
          | inr other ↦ ground (arith, kept)
        ])
]

module _ {D C Conn : Type 0} where
  send_msg-server :
      (msg : String) (s : Session D C Conn)
      → ((send_msg msg s).server.logic ≡ s.server.logic)
        × ((send_msg msg s).server.worker ≡ s.server.worker)
  unfolding send_msg
  send_msg-server msg s = ground arith

module _ {D C Conn : Type 0} (sql : Database D) (redis : Redis C) where
  -- What ProcessSend answers to a group message of a member.
  abbrev pub submit_talk : Clock → String → String → Session D C Conn → Session D C Conn × Sent
  submit_talk clock group_id body s =
      submit sql redis clock (group_request (clock 0) s.user.name group_id body)
        (other_members s.user.name (members_of s.server.group_manager group_id)) s

  use_group_talk-saved :
      (clock : Clock) (msg group_id body : String) (s : Session D C Conn) (m : Message)
      → two_arguments msg ≡ some (group_id, body)
      → (role_of s.server.group_manager group_id s.user.name).1 ≡ true
      → (submit_talk clock group_id body s).1 ≡ saved m
      → use_group_talk sql redis clock msg s
        ≡ send_msg
            (cat "群消息已入队: " (cat m.server_msg_id "\n"))
            (enqueue_for m.server_msg_id (submit_talk clock group_id body s).0)
  unfolding use_group_talk
  use_group_talk-saved clock msg group_id body s m h k e = ground arith

  -- A member's message to a group, once ProcessSend has saved it, has its text and its sender and is queued for delivery.
  -- Every member of the group but the sender has a delivery of it, an open one unless there was one before; nobody else,
  -- the sender included, gets one, and no delivery of another message changes.
  pub use_group_talk-delivers :
      (clock : Clock) (msg group_id body : String) (s : Session D C Conn) (m : Message)
      → two_arguments msg ≡ some (group_id, body)
      → (role_of s.server.group_manager group_id s.user.name).1 ≡ true
      → (submit_talk clock group_id body s).1 ≡ saved m
      → let s' = use_group_talk sql redis clock msg s in
        (m.from ≡ s.user.name)
        × (m.body ≡ body)
        × (s'.server.worker ≡ enqueue_server_msg m.server_msg_id s.server.worker)
        × ((i t : String)
            → entry i t s'.server.logic.store.deliveries ≡ (
                if str_eq m.server_msg_id i
                  && ((role_of s.server.group_manager group_id t).1 && not (str_eq t s.user.name))
                then or_fresh t (entry i t s.server.logic.store.deliveries)
                else entry i t s.server.logic.store.deliveries))
  use_group_talk-delivers clock msg group_id body s m h k e =
      let u = s.user in
      let gm = s.server.group_manager in
      let to = other_members u.name (members_of gm group_id) in
      let is =
        process_send-IsSaved sql redis (λ n. clock (n + 1))
          (group_request (clock 0) u.name group_id body) to s.server.logic m e in
      let ran = use_group_talk-saved clock msg group_id body s m h k e in
      let queued = enqueue_for m.server_msg_id (submit_talk clock group_id body s).0 in
      let (same_logic, same_worker) =
        send_msg-server (cat "群消息已入队: " (cat m.server_msg_id "\n")) queued in
      (
        is.sender,
        is.text,
        ap (λ r. r.server.worker) ran ∙ same_worker,
        λ i t.
            let chosen = contains-other_members u.name t (members_of gm group_id) in
            let member = members_of-role_of gm group_id t in
            ap (λ r. entry i t r.server.logic.store.deliveries) ran
            ∙ ap (λ l. entry i t l.store.deliveries) same_logic
            ∙ exact_deliveries m.server_msg_id i t s.server.logic.store.deliveries
                queued.server.logic.store.deliveries to (is.delivered_to t) (is.no_other i t)
            ∙ ap
                (λ b.
                  if str_eq m.server_msg_id i && b
                  then or_fresh t (entry i t s.server.logic.store.deliveries)
                  else entry i t s.server.logic.store.deliveries)
                (chosen ∙ ap (λ b. b && not (str_eq t u.name)) member),
      )

  -- A user who is not in the group sends nothing: no message is saved, and none is queued.
  pub use_group_talk-refused :
      (clock : Clock) (msg group_id body : String) (s : Session D C Conn)
      → two_arguments msg ≡ some (group_id, body)
      → (role_of s.server.group_manager group_id s.user.name).1 ≡ false
      → let s' = use_group_talk sql redis clock msg s in
        (s'.server.logic ≡ s.server.logic) × (s'.server.worker ≡ s.server.worker)
  unfolding use_group_talk
  use_group_talk-refused clock msg group_id body s h k =
      ground (arith, send_msg-server "发送失败: 你不在该群中。\n" s)
