-- ===== src/Store/Durable/Failures.antt =====
-- A failed delivery, in memory and in the database.
use h_go.Base.{
  ℕ, ◌+◌, ◌*◌, String, ◌≡◌, ◌≢◌, refl, ap, sym, ◌∙◌, subst, Bool, not, ◌&&◌, ◌||◌, ◌==◌, leb, some,
  none, arith, Option-cases, Bool-cases, inl, inr, ℤ, second, positive_or,
}
use h_go.Text.Trim.{is_empty}
use h_go.Storage.{RecipientRow, found, not_found, failed, Database, Redis, Answer-cases}
use h_go.Store.{Store, DeliveryEntry, Error}
use h_go.Store.Deliveries.{entry, update_entry, is_open}
use h_go.Store.Delivery.{is_recipient}
use h_go.Store.Retry.{schedule_retry, retry_time, retry_in_db, retry_row, bury, runs_out, error_or}
use h_go.Store.Retry.Schedule.{max_of, failure, dead-fail_entry}
use h_go.Store.Durable.{row_of, IsTable, HasKeys}
use h_go.Store.Durable.Updates.{kept-IsDurable, updated-IsDurable, update_rows-HasKeys}
use h_go.Store.Durable.Marks.{IsSound, is_recipient-only}
use h_go.Store.Durable.Rows.{
  buried_row, delayed_row, buried-KeepsKeys, delayed-KeepsKeys, db-bury, db-retry_row, same_id-only,
}

module _ {D C : Type 0} (sql : Database D) (redis : Redis C) (law : IsTable sql) (id to : String)
    (last : Error) (max_retries base_backoff : ℤ) (now : ℕ) (s : Store D C)
    (sound : IsSound sql s) where
  -- what the entry becomes
  abbrev failed_entry : DeliveryEntry → DeliveryEntry
  failed_entry = failure last max_retries base_backoff now

  abbrev failed_store : Store D C
  failed_store = record s { deliveries = update_entry failed_entry id to s.deliveries }

  failed_facts :
      (e : DeliveryEntry)
      → let e' = failed_entry e in
        (e'.retry ≡ e.retry + 1)
        × (is_open e' ≡ (is_open e && not (leb (max_of max_retries) (e.retry + 1))))
  failed_facts e =
      let facts =
        dead-fail_entry (max_of max_retries) (positive_or base_backoff (2 * second))
          (error_or "delivery failed" last) now e in
      ground (arith, facts.0, facts.1, facts.2)

  -- The delivery has run out of retries.
  bury-IsSound :
      (err : String) (n : ℕ)
      → runs_out (max_of max_retries) (entry id to s.deliveries) ≡ some n
      → (bury sql redis id to err n failed_store).0.deliveries ≡ failed_store.deliveries
      → (bury sql redis id to err n failed_store).2 ≡ none
      → IsSound sql (bury sql redis id to err n failed_store).0
  bury-IsSound err n out memory h =
      let s' = (bury sql redis id to err n failed_store).0 in
      let (rows, persistent, ok) = db-bury sql redis id to err n failed_store sound.persistent h in
      record {
        persistent = persistent;
        keys = subst (HasKeys sql) (sym rows) (
            update_rows-HasKeys sql law (is_recipient id to) (buried_row err n) s.db
              (buried-KeepsKeys err n) ok sound.keys);
        durable =
            updated-IsDurable sql s s' failed_entry id to memory (is_recipient id to)
              (buried_row err n) law rows ok (buried-KeepsKeys err n)
              (λ i t r row. is_recipient-only sql law s.db id to i t r row)
              (λ e r there row a.
                let facts = failed_facts e in
                record { openness = ground (arith, facts.1); attempts = ground (arith, facts.0) })
              sound.durable;
      }

  -- The delivery has not run out, and its row is read.
  retry_row-IsSound :
      (err : String) (base : ℕ) (row : RecipientRow)
      → row_of sql id to s.db ≡ found row
      → runs_out (max_of max_retries) (entry id to s.deliveries) ≡ none
      → (retry_row sql redis id to err (max_of max_retries) base now row failed_store).0.deliveries
        ≡ failed_store.deliveries
      → (retry_row sql redis id to err (max_of max_retries) base now row failed_store).2 ≡ none
      → IsSound sql (retry_row sql redis id to err (max_of max_retries) base now row failed_store).0
  retry_row-IsSound err base row hrow left memory h =
      let max = max_of max_retries in
      let s' = (retry_row sql redis id to err max base now row failed_store).0 in
      let next = row.retry_count + 1 in
      let at = retry_time now base next in
      let same : RecipientRow → Bool = λ r. r.id == row.id in
      let (persistent, rows) =
        db-retry_row sql redis id to err max base now row failed_store sound.persistent h in
      elim rows [
        | inl (settled, kept) ↦ record {
          persistent = persistent;
          keys = subst (HasKeys sql) (sym kept) sound.keys;
          durable =
              kept-IsDurable sql s s' failed_entry id to memory kept
                (λ e r there hr a.
                  let facts = failed_facts e in
                  record {
                    openness = ground (arith, facts.1, a.openness);
                    attempts = ground (arith, facts.0, a.attempts);
                  })
                sound.durable;
        }
        | inr waiting ↦ elim waiting [
          | inl (over, buried, ok) ↦ record {
            persistent = persistent;
            keys = subst (HasKeys sql) (sym buried) (
                update_rows-HasKeys sql law same (buried_row err next) s.db
                  (buried-KeepsKeys err next) ok sound.keys);
            durable =
                updated-IsDurable sql s s' failed_entry id to memory same (buried_row err next) law
                  buried ok (buried-KeepsKeys err next)
                  (same_id-only sql id to s.db row sound.keys hrow)
                  (λ e r there hr a. absurd (
                    ground (
                      arith,
                      a.attempts,
                      ap (λ x. elim x [ found q ↦ q.retry_count | not_found ↦ 0 | failed m ↦ 0 ])
                          (sym hr ∙ hrow),
                    )))
                  sound.durable;
          }
          | inr (within, delayed, ok) ↦ record {
            persistent = persistent;
            keys = subst (HasKeys sql) (sym delayed) (
                update_rows-HasKeys sql law same (delayed_row err next at) s.db
                  (delayed-KeepsKeys err next at) ok sound.keys);
            durable =
                updated-IsDurable sql s s' failed_entry id to memory same (delayed_row err next at)
                  law delayed ok (delayed-KeepsKeys err next at)
                  (same_id-only sql id to s.db row sound.keys hrow)
                  (λ e r there hr a.
                    let facts = failed_facts e in
                    let count =
                      ap (λ x. elim x [ found q ↦ q.retry_count | not_found ↦ 0 | failed m ↦ 0 ])
                        (sym hr ∙ hrow) in
                    record {
                      openness = ground (arith, facts.1, a.openness);
                      attempts = ground (arith, facts.0, a.attempts, count);
                    })
                  sound.durable;
          }
        ]
      ]

  bury-deliveries :
      (err : String) (n : ℕ)
      → (bury sql redis id to err n failed_store).0.deliveries ≡ failed_store.deliveries
  unfolding bury
  bury-deliveries err n = ground arith

  retry_row-deliveries :
      (err : String) (max base : ℕ) (row : RecipientRow)
      → (retry_row sql redis id to err max base now row failed_store).0.deliveries
        ≡ failed_store.deliveries
  unfolding retry_row
  retry_row-deliveries err max base row = ground arith

  -- There is no row to count the failure in.
  unread-IsSound :
      ((row : RecipientRow) → row_of sql id to s.db ≢ found row) → IsSound sql failed_store
  unread-IsSound missing = record {
    persistent = sound.persistent;
    keys = sound.keys;
    durable =
        kept-IsDurable sql s failed_store failed_entry id to refl refl
          (λ e r there hr a. absurd (missing r hr)) sound.durable;
  }

  retry_in_db-IsSound :
      (err : String) (base : ℕ)
      → runs_out (max_of max_retries) (entry id to s.deliveries) ≡ none
      → (retry_in_db sql redis id to err (max_of max_retries) base now failed_store).2 ≡ none
      → IsSound sql (retry_in_db sql redis id to err (max_of max_retries) base now failed_store).0
  unfolding retry_in_db
  retry_in_db-IsSound err base left h =
      let max = max_of max_retries in
      let s' = (retry_in_db sql redis id to err max base now failed_store).0 in
      elim (Answer-cases (row_of sql id to s.db)) [
        | inl (row, hrow) ↦
            (let same : (retry_row sql redis id to err max base now row failed_store).0 ≡ s' =
                ground (arith, sound.persistent) in
              subst (IsSound sql) same (
                retry_row-IsSound err base row hrow left (retry_row-deliveries err max base row)
                  (ground (arith, sound.persistent))))
        | inr (inl e) ↦
            (let same : failed_store ≡ s' = ground (arith, sound.persistent) in
              subst (IsSound sql) same (unread-IsSound (λ row h. ground arith)))
        | inr (inr (x, e)) ↦
            (let same : failed_store ≡ s' = ground (arith, sound.persistent) in
              subst (IsSound sql) same (unread-IsSound (λ row h. ground arith)))
      ]

  pub schedule_retry-IsSound :
      (schedule_retry sql redis id to last max_retries base_backoff now s).2 ≡ none
      → IsSound sql (schedule_retry sql redis id to last max_retries base_backoff now s).0
  unfolding schedule_retry
  schedule_retry-IsSound h =
      let s' = (schedule_retry sql redis id to last max_retries base_backoff now s).0 in
      let max = max_of max_retries in
      let base = positive_or base_backoff (2 * second) in
      let err = error_or "delivery failed" last in
      elim (Bool-cases (is_empty id || is_empty to)) [
        | inl blank ↦ (let same : s ≡ s' = ground arith in subst (IsSound sql) same sound)
        | inr named ↦ elim (Option-cases (runs_out max (entry id to s.deliveries))) [
          | inr (n, out) ↦
              (let same : (bury sql redis id to err n failed_store).0 ≡ s' = ground arith in
                subst (IsSound sql) same
                  (bury-IsSound err n out (bury-deliveries err n) (ground arith)))
          | inl left ↦
              (let same : (retry_in_db sql redis id to err max base now failed_store).0 ≡ s' =
                  ground arith in
                subst (IsSound sql) same (retry_in_db-IsSound err base left (ground arith)))
        ]
      ]
