-- ===== src/Store/Durable/Rows.antt =====
-- What ScheduleRetry does to the rows.
use h_go.Base.{
  ℕ, ◌+◌, String, ◌≡◌, ◌⊎◌, Option-cases, false, refl, true, Bool, ◌&&◌, ◌==◌, leb, some, none,
  arith, eq_iff, str_eq, Bool-cases, inl, inr, ℤ,
}
use mathlib.Core.Path.{subst₂}
use h_go.Storage.{RecipientRow, found, Database, Redis}
use h_go.Store.{Store}
use h_go.Store.Delivery.{is_recipient}
use h_go.Store.Retry.{retry_time, retry_row, bury}
use h_go.Store.Durable.{row_of, KeepsKeys, HasKeys}

abbrev pub buried_row : String → ℕ → RecipientRow → RecipientRow
buried_row err retries r = record r {
  status = 3;
  retry_count = retries;
  last_error = err;
  next_retry_at = none;
}

abbrev pub delayed_row : String → ℕ → ℤ → RecipientRow → RecipientRow
delayed_row err next at r = record r {
  retry_count = next;
  last_error = err;
  next_retry_at = some at;
}

pub buried-KeepsKeys : (err : String) (n : ℕ) → KeepsKeys (buried_row err n)
buried-KeepsKeys err n = record { id = λ r. refl; server_msg_id = λ r. refl; to_user = λ r. refl }

pub delayed-KeepsKeys : (err : String) (n : ℕ) (at : ℤ) → KeepsKeys (delayed_row err n at)
delayed-KeepsKeys err n at = record {
  id = λ r. refl;
  server_msg_id = λ r. refl;
  to_user = λ r. refl;
}

module _ {D C : Type 0} (sql : Database D) (redis : Redis C) (id to : String) where
  -- The database after each part of ScheduleRetry, and the update that it made if it answers no error.
  pub db-bury :
      (err : String) (n : ℕ) (s : Store D C)
      → s.persistent ≡ true
      → (bury sql redis id to err n s).2 ≡ none
      → let s' = (bury sql redis id to err n s).0 in
        let update = sql.recipients.update_rows (is_recipient id to) (buried_row err n) s.db in
        (s'.db ≡ update.0) × (s'.persistent ≡ true) × (update.1 ≡ none)
  unfolding bury
  db-bury err n s p h =
      let e = (sql.recipients.update_rows (is_recipient id to) (buried_row err n) s.db).1 in
      elim (Option-cases e) [
        | inr (x, failed) ↦ absurd (ground arith)
        | inl ok ↦ (ground arith, ground arith, ok)
      ]

  pub db-retry_row :
      (err : String) (max base now : ℕ) (row : RecipientRow) (s : Store D C)
      → s.persistent ≡ true
      → (retry_row sql redis id to err max base now row s).2 ≡ none
      → let s' = (retry_row sql redis id to err max base now row s).0 in
        let next = row.retry_count + 1 in
        let same : RecipientRow → Bool = λ r. r.id == row.id in
        let buries = sql.recipients.update_rows same (buried_row err next) s.db in
        let delays =
          sql.recipients.update_rows same (delayed_row err next (retry_time now base next)) s.db in
        (s'.persistent ≡ true)
        × ((leb 1 row.status ≡ true) × (s'.db ≡ s.db)
            ⊎ (((leb max next ≡ true) × (s'.db ≡ buries.0) × (buries.1 ≡ none))
                ⊎ ((leb max next ≡ false) × (s'.db ≡ delays.0) × (delays.1 ≡ none))))
  unfolding retry_row
  db-retry_row err max base now row s p h =
      let next = row.retry_count + 1 in
      let same : RecipientRow → Bool = λ r. r.id == row.id in
      let buries = sql.recipients.update_rows same (buried_row err next) s.db in
      let delays =
        sql.recipients.update_rows same (delayed_row err next (retry_time now base next)) s.db in
      elim (Bool-cases (leb 1 row.status)) [
        | inl settled ↦ (ground arith, inl (settled, ground arith))
        | inr waiting ↦ elim (Bool-cases (leb max next)) [
          | inl over ↦ elim (Option-cases buries.1) [
            | inr (x, failed) ↦ absurd (ground arith)
            | inl ok ↦ (ground arith, inr (inl (over, ground arith, ok)))
          ]
          | inr within ↦ elim (Option-cases delays.1) [
            | inr (x, failed) ↦ absurd (ground arith)
            | inl ok ↦ (ground arith, inr (inr (within, ground arith, ok)))
          ]
        ]
      ]

module _ {D : Type 0} (sql : Database D) (id to : String) where
  -- The row with the key of the delivery's row is this row.
  pub same_id-only :
      (d : D) (row : RecipientRow)
      → HasKeys sql d
      → row_of sql id to d ≡ found row
      → (i t : String) (r : RecipientRow) → row_of sql i t d ≡ found r
      → (r.id == row.id) ≡ (str_eq id i && str_eq to t)
  same_id-only d row keys hrow i t r h = elim (Bool-cases (r.id == row.id)) [
    | inl same ↦
        (let (i=, t=) = keys i t id to r row h hrow (ground arith) in
          ground (arith, eq_iff id i, eq_iff to t))
    | inr other ↦ elim (Bool-cases (str_eq id i && str_eq to t)) [
      | inr apart ↦ ground arith
      | inl here ↦
          (let again : row_of sql i t d ≡ row_of sql id to d =
              subst₂ (λ a b. row_of sql a b d ≡ row_of sql id to d) ((eq_iff id i).0 (ground arith))
                ((eq_iff to t).0 (ground arith)) refl in
            absurd (ground arith))
    ]
  ]
