-- ===== src/Store/Durable/Runs.antt =====
-- Any run of marks and failures keeps the deliveries in memory and their rows together.
use h_go.Base.{◌≡◌, true, false, none, Bool, List, [], ◌∷◌, All, arith}
use h_go.Storage.{Database, Redis}
use h_go.Store.{Store, Error}
use h_go.Store.Messages.{save_message_with_recipients}
use h_go.Store.Delivery.{mark_delivery_sent, mark_delivery_acked, mark_delivery_read}
use h_go.Store.Retry.{schedule_retry}
use h_go.Store.Lifecycle.{Event, saves, sends, acks, reads, fails, apply_event, run}
use h_go.Store.Durable.{IsTable}
use h_go.Store.Durable.Marks.{
  IsSound, mark_delivery_sent-IsSound, mark_delivery_acked-IsSound, mark_delivery_read-IsSound,
}
use h_go.Store.Durable.Failures.{schedule_retry-IsSound}

-- Whether an event is about a delivery that was saved before.
abbrev pub is_update : Event → Bool
is_update (saves msg to) = false
is_update _ = true

module _ {D C : Type 0} (sql : Database D) (redis : Redis C) where
  -- The error that the call of an event answers.
  abbrev pub error_of : Event → Store D C → Error
  error_of (saves msg to) s = (save_message_with_recipients sql redis msg to s).1
  error_of (sends id to e now) s = (mark_delivery_sent sql redis id to e now s).1
  error_of (acks id to now) s = (mark_delivery_acked sql redis id to now s).1
  error_of (reads id to now) s = (mark_delivery_read sql redis id to now s).1
  error_of (fails id to e max base now) s = (schedule_retry sql redis id to e max base now s).2

  -- No call of a run answers an error.
  abbrev pub IsServed : List Event → Store D C → Type 0
  IsServed [] s = Unit {0}
  IsServed (e ∷ es) s = (error_of e s ≡ none) × IsServed es (apply_event sql redis e s)

module _ {D C : Type 0} (sql : Database D) (redis : Redis C) (law : IsTable sql) where
  apply_event-IsSound :
      (e : Event) (s : Store D C)
      → is_update e ≡ true
      → error_of sql redis e s ≡ none
      → IsSound sql s
      → IsSound sql (apply_event sql redis e s)
  unfolding apply_event
  apply_event-IsSound (saves msg to) s u ok h = absurd (ground arith)
  apply_event-IsSound (sends id to e now) s u ok h =
      mark_delivery_sent-IsSound sql redis law id to now s h e ok
  apply_event-IsSound (acks id to now) s u ok h =
      mark_delivery_acked-IsSound sql redis law id to now s h ok
  apply_event-IsSound (reads id to now) s u ok h =
      mark_delivery_read-IsSound sql redis law id to now s h ok
  apply_event-IsSound (fails id to e max base now) s u ok h =
      schedule_retry-IsSound sql redis law id to e max base now s h ok

  -- The maps and the database keep together: over any run of sendings, acknowledgements, reads and failures none of which
  -- answers an error, each delivery in memory has a row that is open, with status 0, exactly if the delivery is, and that has
  -- counted no more attempts. It takes for granted that an update that answers no error has changed the rows that pass
  -- its test, and set their update_time, that a query for a delivery finds a row of it, and that memory and rows agreed,
  -- with different keys, before the run.
  pub run-IsSound :
      (es : List Event) (s : Store D C)
      → All (λ e. is_update e ≡ true) es
      → IsServed sql redis es s
      → IsSound sql s
      → IsSound sql (run sql redis es s)
  unfolding run
  run-IsSound [] s updates served h = h
  run-IsSound (e ∷ es) s updates served h =
      run-IsSound es (apply_event sql redis e s) updates.1 served.1
        (apply_event-IsSound e s updates.0 served.0 h)
