-- ===== src/Store/Durable/Tests.antt =====
-- The table of the sample keeps what is asked of a table, and a run on it.
use h_go.Base.{
  String, ◌≡◌, refl, ap, sym, subst, ◌∙◌, true, ◌&&◌, List, [], ◌∷◌, map, select, some, none, arith,
  eq_iff, str_eq, if◌then◌else◌, get, put, pos, Bool-cases, inl, inr,
}
use h_go.Storage.{RecipientRow, Database, found}
use h_go.Storage.Sample.{Rows, Cache, no_rows, sql, redis, first}
use h_go.Store.{Store, new_store}
use h_go.Store.Deliveries.{fresh_entry, update_entry}
use h_go.Store.Delivery.{is_recipient, mark_delivery_sent, mark_delivery_acked}
use h_go.Store.Retry.{schedule_retry, retry_in_db, retry_row, retry_time, fail_entry}
use h_go.Store.Messages.{new_recipient}
use h_go.Store.Lifecycle.{Event, sends, acks, fails, run, apply_event}
use h_go.Store.Durable.{map_answer, row_of, stamped, IsTable, IsDurable, Agrees}
use h_go.Store.Durable.Marks.{IsSound}
use h_go.Store.Durable.Runs.{IsServed, run-IsSound}

first-map :
    (i t : String) (g : RecipientRow → RecipientRow) (rows : List RecipientRow)
    → ((r : RecipientRow) → is_recipient i t (g r) ≡ is_recipient i t r)
    → first (select (is_recipient i t) (map g rows))
      ≡ map_answer g (first (select (is_recipient i t) rows))
first-map i t g [] same = refl
first-map i t g (r ∷ rows) same = ground (arith, first-map i t g rows same, same r)

first-matches :
    (i t : String) (rows : List RecipientRow) (r : RecipientRow)
    → first (select (is_recipient i t) rows) ≡ found r
    → is_recipient i t r ≡ true
first-matches i t [] r h = absurd (ground arith)
first-matches i t (x ∷ rows) r h = elim (Bool-cases (is_recipient i t x)) [
  | inl here ↦ (let same : x ≡ r = ground arith in ap (is_recipient i t) (sym same) ∙ here)
  | inr other ↦ first-matches i t rows r (ground arith)
]

-- The sample, with the time 5 in the update_time of each row that it updates.
abbrev timed : Database Rows
timed = record sql {
  recipients = record sql.recipients {
    update_rows = λ p f d. sql.recipients.update_rows p (λ r. stamped 5 (f r)) d;
  };
}

timed-IsTable : IsTable timed
timed-IsTable = record {
  time = λ p f d. 5;
  updated = λ p f i t d keeps ok.
      first-map i t (λ r. if p r then stamped 5 (f r) else r) d.recipient_rows
        (λ r. ground (arith, keeps.server_msg_id r, keeps.to_user r));
  matches = λ i t d r h. first-matches i t d.recipient_rows r h;
}

abbrev bob_row : RecipientRow
bob_row = record (new_recipient "s-1" "bob") { id = 1 }

abbrev store : Store Rows Cache
store = record (new_store true (record no_rows { recipient_rows = bob_row ∷ [] }) (some [])) {
  deliveries = ("s-1", ("bob", fresh_entry "bob") ∷ []) ∷ [];
}

row_is :
    (i t : String) (r : RecipientRow)
    → row_of timed i t store.db ≡ found r
    → (i ≡ "s-1") × (t ≡ "bob") × (r ≡ bob_row)
row_is i t r h = elim (Bool-cases (is_recipient i t bob_row)) [
  | inr other ↦ absurd (ground arith)
  | inl here ↦ (ground (arith, eq_iff "s-1" i), ground (arith, eq_iff "bob" t), ground arith)
]

store-IsDurable : IsDurable timed store
unfolding get
store-IsDurable i t e h = elim (Bool-cases (str_eq "s-1" i && str_eq "bob" t)) [
  | inr other ↦ absurd (ground arith)
  | inl here ↦
      (let same : fresh_entry "bob" ≡ e = ground arith in
        (
          bob_row,
          ground arith,
          subst (λ x. Agrees x bob_row) same (record { openness = refl; attempts = omega arith }),
        ))
]

store-IsSound : IsSound timed store
store-IsSound = record {
  persistent = refl;
  keys = λ i t j u r q hr hq same.
      let (i=, t=, r=) = row_is i t r hr in
      let (j=, u=, q=) = row_is j u q hq in (i= ∙ sym j=, t= ∙ sym u=);
  durable = store-IsDurable;
}

-- Two attempts fail, a third reaches Bob, who acknowledges the message.
abbrev events : List Event
events =
    fails "s-1" "bob" none (pos 5) (pos 0) 7
    ∷ fails "s-1" "bob" none (pos 5) (pos 0) 8
    ∷ sends "s-1" "bob" none 9
    ∷ acks "s-1" "bob" 10
    ∷ []

served : IsServed timed redis events store
unfolding mark_delivery_sent mark_delivery_acked schedule_retry retry_in_db retry_row retry_time
    apply_event update_entry fail_entry get put
served = (refl, (refl, (refl, (refl, tt))))

run-IsSound_example : IsSound timed (run timed redis events store)
run-IsSound_example =
    run-IsSound timed redis timed-IsTable events store (refl, (refl, (refl, (refl, tt)))) served
      store-IsSound
