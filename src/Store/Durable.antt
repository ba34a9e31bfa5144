-- ===== src/Store/Durable.antt =====
-- The deliveries in memory and their rows in the database: what of the two is to agree, and what is taken for granted of the table.
pub mod Updates
pub mod Marks
pub mod Failures
pub mod Rows
pub mod Runs
mod Tests
use h_go.Base.{
  ℕ, ◌≤◌, String, ◌≡◌, true, false, Bool, ◌==◌, if◌then◌else◌, Dict, some, none, List, [], ◌∷◌,
}
use h_go.Storage.{RecipientRow, Answer, found, not_found, failed, Table, Database}
use h_go.Store.{Store, DeliveryEntry, Error}
use h_go.Store.Deliveries.{entry, is_open}
use h_go.Store.Delivery.{is_recipient}

abbrev pub map_answer : (RecipientRow → RecipientRow) → Answer RecipientRow → Answer RecipientRow
map_answer f (found r) = found (f r)
map_answer f not_found = not_found
map_answer f (failed e) = failed e

-- The row of a delivery, as a query finds it.
abbrev pub row_of : {D : Type 0} → Database D → String → String → D → Answer RecipientRow
row_of sql i t d = sql.recipients.take_row (is_recipient i t) d

-- A change of a row that leaves its keys alone.
pub record KeepsKeys (f : RecipientRow → RecipientRow) : Type 0 where
  pub id : (r : RecipientRow) → (f r).id ≡ r.id
  pub server_msg_id : (r : RecipientRow) → (f r).server_msg_id ≡ r.server_msg_id
  pub to_user : (r : RecipientRow) → (f r).to_user ≡ r.to_user

-- The row as gorm writes it, with a new time in `update_time`, which has the tag autoUpdateTime.
abbrev pub stamped : ℕ → RecipientRow → RecipientRow
stamped time r = record r { update_time = time }

-- What is taken for granted of the table of the deliveries: an update that answers no error has changed the rows that pass its
-- test, and set their update_time, and a query for a delivery finds a row of it. Nothing is said of an update that fails.
pub record IsTable {D : Type 0} (sql : Database D) : Type 0 where
  -- the time that an update writes
  pub time : (RecipientRow → Bool) → (RecipientRow → RecipientRow) → D → ℕ
  pub updated :
      (p : RecipientRow → Bool) (f : RecipientRow → RecipientRow) (i t : String) (d : D)
      → KeepsKeys f
      → (sql.recipients.update_rows p f d).1 ≡ none
      → row_of sql i t (sql.recipients.update_rows p f d).0
        ≡ map_answer (λ r. if p r then stamped (time p f d) (f r) else r) (row_of sql i t d)
  pub matches :
      (i t : String) (d : D) (r : RecipientRow)
      → row_of sql i t d ≡ found r
      → is_recipient i t r ≡ true

-- Two deliveries have two primary keys.
abbrev pub HasKeys : {D : Type 0} → Database D → D → Type 0
HasKeys sql d =
    (i t j u : String) (r q : RecipientRow)
    → row_of sql i t d ≡ found r
    → row_of sql j u d ≡ found q
    → r.id ≡ q.id
    → (i ≡ j) × (t ≡ u)

-- An entry and a row: both open or both settled, and the row has not counted more attempts.
pub record Agrees (e : DeliveryEntry) (r : RecipientRow) : Type 0 where
  pub openness : is_open e ≡ (r.status == 0)
  pub attempts : r.retry_count ≤ e.retry

-- Every delivery in memory has a row that agrees with it.
abbrev pub IsDurable : {D C : Type 0} → Database D → Store D C → Type 0
IsDurable sql s =
    (i t : String) (e : DeliveryEntry)
    → entry i t s.deliveries ≡ some e
    → (r : RecipientRow) × (row_of sql i t s.db ≡ found r) × Agrees e r
