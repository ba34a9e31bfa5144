-- ===== src/Store/Retry.antt =====
-- internal/store/retry.go: retries with exponential backoff, dead letters, and the three scans for work.
pub mod Backoff
pub mod Schedule
use h_go.Base.{
  ℕ, suc, ◌+◌, ◌-◌, ◌*◌, ◌^◌, String, Bool, true, false, not, ◌&&◌, ◌||◌, Option, none, some, List,
  [], ◌∷◌, map, null, any, str_eq, ltb, leb, ◌==◌, if◌then◌else◌, get, Dict, second, ℤ, pos, negsuc,
  le_int, positive_or, limit_clause, cut, to_int64, add_duration, unix,
}
use h_go.Text.Trim.{is_empty}
use h_go.Storage.{
  RecipientRow, found, not_found, failed, Database, Redis, recipients_key, pending_user_key,
  pending_due_key, pending_recover_key,
}
use h_go.Store.{DeliveryEntry, Deliveries, Store, Error, on_cache, with_db}
use h_go.Store.Helpers.{dedupe_strings}
use h_go.Store.Deliveries.{entry, update_entry}
use h_go.Store.Delivery.{is_recipient, change_entry, cached, save_delivery}

-- `exp := n - 1; if exp > 6 { exp = 6 }`, of a count that is not 0.
abbrev pub backoff_exponent : ℕ → ℕ
backoff_exponent n = let exp = n - 1 in if ltb 6 exp then 6 else exp

-- `now.Add(baseBackoff * time.Duration(1<<exp))`; the product is an int64.
unfoldable pub retry_time : ℕ → ℕ → ℕ → ℤ
retry_time now base n = add_duration now (to_int64 (base * 2 ^ backoff_exponent n))

-- What ScheduleRetry does to the entry in memory.
unfoldable pub fail_entry : ℕ → ℕ → String → ℕ → DeliveryEntry → DeliveryEntry
unfolding retry_time
fail_entry max base err now e =
    let e' = record e { retry = e.retry + 1; last_error = err } in
    if leb max e'.retry
    then record e' { dead = true }
    else record e' { next_retry_at = unix (retry_time now base e'.retry) }

-- Whether the entry in memory is there and has used up its retries.
abbrev pub runs_out : ℕ → Option DeliveryEntry → Option ℕ
runs_out max none = none
runs_out max (some e) = if leb max (e.retry + 1) then some (e.retry + 1) else none

abbrev pub error_or : String → Error → String
error_or d none = d
error_or d (some e) = e

module _ {D C : Type 0} (sql : Database D) (redis : Redis C) where
  forget_dead : String → String → C → C
  forget_dead id to c = redis.del pending_recover_key (
      redis.del pending_due_key (redis.del (pending_user_key to) (redis.del (recipients_key id) c)))

  forget_scans : C → C
  forget_scans c = redis.del pending_recover_key (redis.del pending_due_key c)

  -- The branch of ScheduleRetry for an entry in memory that has run out.
  unfoldable pub bury : String → String → String → ℕ → Store D C → Store D C × Bool × Error
  unfolding forget_dead
  bury id to err retries s =
      if not s.persistent
      then (s, true, none)
      else (let (d, e, n) =
            sql.recipients.update_rows (is_recipient id to)
              (λ r. record r {
                status = 3;
                retry_count = retries;
                last_error = err;
                next_retry_at = none;
              })
              s.db in
          elim e [
            | some x ↦ (with_db s d, true, some x)
            | none ↦ (on_cache (forget_dead id to) (with_db s d), true, none)
          ])

  -- The part of ScheduleRetry on the row that was found.
  unfoldable pub retry_row :
      String → String → String → ℕ → ℕ → ℕ → RecipientRow → Store D C → Store D C × Bool × Error
  unfolding forget_dead forget_scans retry_time
  retry_row id to err max base now row s =
      let next = row.retry_count + 1 in
      if leb 1 row.status
      then (s, false, none)
      else if leb max next
      then (let (d, e, n) =
            sql.recipients.update_rows (λ r. r.id == row.id)
              (λ r. record r {
                status = 3;
                retry_count = next;
                last_error = err;
                next_retry_at = none;
              })
              s.db in
          elim e [
            | some x ↦ (with_db s d, false, some x)
            | none ↦ (on_cache (forget_dead id to) (with_db s d), true, none)
          ])
      else (let (d, e, n) =
            sql.recipients.update_rows (λ r. r.id == row.id)
              (λ r. record r {
                retry_count = next;
                last_error = err;
                next_retry_at = some (retry_time now base next);
              })
              s.db in
          elim e [
            | some x ↦ (with_db s d, false, some x)
            | none ↦ (on_cache forget_scans (with_db s d), false, none)
          ])

  -- The part of ScheduleRetry after the lock.
  unfoldable pub retry_in_db :
      String → String → String → ℕ → ℕ → ℕ → Store D C → Store D C × Bool × Error
  unfolding retry_row
  retry_in_db id to err max base now s =
      if not s.persistent
      then (s, false, none)
      else elim (sql.recipients.take_row (is_recipient id to) s.db) [
        | not_found ↦ (s, false, some "record not found")
        | failed e ↦ (s, false, some e)
        | found row ↦ retry_row id to err max base now row s
      ]

  -- ScheduleRetry: whether the delivery is dead, and the error.
  unfoldable pub schedule_retry :
      String → String → Error → ℤ → ℤ → ℕ → Store D C → Store D C × Bool × Error
  unfolding bury retry_in_db update_entry fail_entry
  schedule_retry id to last_err max_retries base_backoff now s =
      if is_empty id || is_empty to
      then (s, false, none)
      else (let max = positive_or max_retries 5 in
          let base = positive_or base_backoff (2 * second) in
          let err = error_or "delivery failed" last_err in
          let s' = change_entry (fail_entry max base err now) id to s in
          elim (runs_out max (entry id to s.deliveries)) [
            | some retries ↦ bury id to err retries s'
            | none ↦ retry_in_db id to err max base now s'
          ])

-- `e.NextRetryAt > 0 && e.NextRetryAt <= now.Unix()`, of an entry that is still open.
abbrev pub is_due : ℕ → DeliveryEntry → Bool
is_due now e =
    not (e.acked || e.read || e.dead)
    && (not (le_int e.next_retry_at (pos 0)) && le_int e.next_retry_at (unix (pos now)))

abbrev pub is_unread : DeliveryEntry → Bool
is_unread e = not e.acked && not e.read

-- Some entry of a message passes the test: the inner loop, which stops at the first that does.
unfoldable pub any_entry : (DeliveryEntry → Bool) → Dict DeliveryEntry → Bool
any_entry p [] = false
any_entry p ((to, e) ∷ m) = p e || any_entry p m

-- The outer loop of the scans.
unfoldable pub scan : (DeliveryEntry → Bool) → Deliveries → List String
unfolding any_entry
scan p [] = []
scan p ((id, m) ∷ d) = let rest = scan p d in if any_entry p m then id ∷ rest else rest

-- The loop of ListPendingServerMsgIDsByUser.
unfoldable pub scan_user : String → Deliveries → List String
scan_user to [] = []
scan_user to ((id, m) ∷ d) =
    let rest = scan_user to d in
    elim (get to m) [ none ↦ rest | some e ↦ if is_unread e then id ∷ rest else rest ]

abbrev pub server_msg_ids : List RecipientRow → List String
server_msg_ids = map (λ r. r.server_msg_id)

module _ {D C : Type 0} (sql : Database D) (redis : Redis C) where
  -- `_ = s.SaveDelivery(row.ServerMsgID, row.ToUser)` for each row
  remember_rows : List RecipientRow → Store D C → Store D C
  unfolding save_delivery
  remember_rows [] s = s
  remember_rows (r ∷ rows) s =
      remember_rows rows (save_delivery sql redis r.server_msg_id r.to_user s).0

  -- What the scans do with the rows that they read: remember the deliveries and cache the message ids.
  take_in : String → List RecipientRow → Store D C → Store D C × List String
  unfolding remember_rows
  take_in key rows s =
      let s' = remember_rows rows s in
      let out = server_msg_ids rows in
      (if null out then s' else on_cache (redis.set_list key out 2) s', dedupe_strings out)

  -- GetDueRetryServerMsgIDs
  unfoldable pub get_due_retry_server_msg_ids : ℤ → ℕ → Store D C → Store D C × List String
  unfolding scan take_in
  get_due_retry_server_msg_ids limit now s =
      if not s.persistent
      then (s, dedupe_strings (cut limit (scan (is_due now) s.deliveries)))
      else elim (cached redis pending_due_key s) [
        | some out ↦ (s, dedupe_strings out)
        | none ↦
            elim (sql.recipients.find_rows
              (λ r.
                (r.status == 0)
                && elim r.next_retry_at [ none ↦ false | some t ↦ le_int t (pos now) ])
              "next_retry_at asc" (limit_clause limit) s.db) [
                | not_found ↦ (s, [])
                | failed e ↦ (s, [])
                | found rows ↦ take_in pending_due_key rows s
              ]
      ]

  -- RecoverPendingServerMsgIDs
  unfoldable pub recover_pending_server_msg_ids : ℤ → Store D C → Store D C × List String
  unfolding scan take_in
  recover_pending_server_msg_ids limit s =
      if not s.persistent
      then (s, dedupe_strings (scan is_unread s.deliveries))
      else elim (cached redis pending_recover_key s) [
        | some out ↦ (s, dedupe_strings out)
        | none ↦
            elim (sql.recipients.find_rows (λ r. r.status == 0) "id asc" (limit_clause limit)
              s.db) [
                | not_found ↦ (s, [])
                | failed e ↦ (s, [])
                | found rows ↦ take_in pending_recover_key rows s
              ]
      ]

  -- ListPendingServerMsgIDsByUser
  unfoldable pub list_pending_server_msg_ids_by_user :
      String → ℤ → Store D C → Store D C × List String
  unfolding scan_user take_in
  list_pending_server_msg_ids_by_user to limit s =
      if is_empty to
      then (s, [])
      else if not s.persistent
      then (s, cut limit (scan_user to s.deliveries))
      else elim (cached redis (pending_user_key to) s) [
        | some out ↦ (s, cut limit out)
        | none ↦
            elim (sql.recipients.find_rows (λ r. str_eq r.to_user to && (r.status == 0)) "id asc"
              (limit_clause limit) s.db) [
                | not_found ↦ (s, [])
                | failed e ↦ (s, [])
                | found rows ↦ take_in (pending_user_key to) rows s
              ]
      ]
