-- ===== src/Store/History.antt =====
-- internal/store/history.go: the private messages of two users, oldest first, at most as many as asked for.
pub mod Sorting
pub mod Answers
use h_go.Base.{
  ℕ, ◌-◌, String, Bool, true, false, not, ◌&&◌, ◌||◌, Option, none, some, List, [], ◌∷◌, ◌++◌, map,
  str_eq, ltb, leb, length, drop, if◌then◌else◌, Dict, ℤ, pos, negsuc, zero, suc, limit_clause,
}
use h_go.Text.Trim.{is_empty}
use h_go.Protocol.{Message}
use h_go.Storage.{MessageRow, found, not_found, failed, Database}
use h_go.Store.{Store}
use h_go.Store.Helpers.{from_db_message, reverse_messages}
use h_go.Store.Delivery.{is_recipient}

-- `(msg.From == userA && msg.To == userB) || (msg.From == userB && msg.To == userA)`
abbrev pub is_between : String → String → Message → Bool
is_between a b m = str_eq m.from a && str_eq m.to b || str_eq m.from b && str_eq m.to a

unfoldable pub select_between : String → String → Dict Message → List Message
select_between a b [] = []
select_between a b ((id, m) ∷ ms) =
    let rest = select_between a b ms in if is_between a b m then m ∷ rest else rest

-- sort.Slice by `out[i].Seq < out[j].Seq`. It leaves the order of messages with one number open; this sort
-- keeps it.
unfoldable pub insert_by_seq : Message → List Message → List Message
insert_by_seq m [] = m ∷ []
insert_by_seq m (x ∷ xs) = if leb m.seq x.seq then m ∷ x ∷ xs else x ∷ insert_by_seq m xs

unfoldable pub sort_by_seq : List Message → List Message
unfolding insert_by_seq
sort_by_seq [] = []
sort_by_seq (m ∷ ms) = insert_by_seq m (sort_by_seq ms)

-- `if limit > 0 && len(out) > limit { out = out[len(out)-limit:] }`
unfoldable pub keep_last : ℤ → List Message → List Message
keep_last (pos zero) xs = xs
keep_last (pos (suc n)) xs = if ltb (suc n) (length xs) then drop (length xs - suc n) xs else xs
keep_last (negsuc n) xs = xs

-- getC2CHistoryFromMemory
unfoldable pub c2c_history_from_memory : String → String → ℤ → Dict Message → List Message
unfolding select_between sort_by_seq keep_last
c2c_history_from_memory a b limit messages =
    keep_last limit (sort_by_seq (select_between a b messages))

module _ {D : Type 0} (sql : Database D) where
  -- The loop over the rows: a message takes the status of its delivery, if that is on record.
  with_status : String → String → D → MessageRow → Message
  with_status a b d row =
      let msg = from_db_message row in
      let to_user = if str_eq msg.from a then b else a in
      elim (sql.recipients.take_row (is_recipient msg.server_msg_id to_user) d) [
        | found r ↦ record msg { status = r.status }
        | not_found ↦ msg
        | failed e ↦ msg
      ]

  -- GetC2CHistory
  unfoldable pub get_c2c_history : {C : Type 0} → String → String → ℤ → Store D C → List Message
  unfolding with_status c2c_history_from_memory
  get_c2c_history a b limit s =
      if is_empty a || is_empty b
      then []
      else if not s.persistent
      then c2c_history_from_memory a b limit s.messages
      else elim (sql.messages.find_rows
          (λ r.
            str_eq r.send_id a && str_eq r.recv_id b || str_eq r.send_id b && str_eq r.recv_id a)
          "seq desc" (limit_clause limit) s.db) [
            | found rows ↦ reverse_messages (map (with_status a b s.db) rows)
            | not_found ↦ []
            | failed e ↦ []
          ]
