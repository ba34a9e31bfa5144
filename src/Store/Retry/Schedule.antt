-- ===== src/Store/Retry/Schedule.antt =====
-- What a failed delivery does to its entry, and when it is given up.
use h_go.Base.{
  ℕ, zero, suc, ◌+◌, ◌*◌, ◌≤◌, String, ◌≡◌, ap, ◌∙◌, false, ◌||◌, some, List, [], ◌∷◌, arith,
  eq_iff, leb, if◌then◌else◌, ℤ, pos, negsuc, second, positive_or, length,
}
use h_go.Text.Trim.{is_empty}
use h_go.Storage.{Database, Redis}
use h_go.Store.{Store, DeliveryEntry, Error}
use h_go.Store.Deliveries.{entry, update_entry, entry-update_entry, map_entry}
use h_go.Store.Retry.{fail_entry, error_or, schedule_retry}

-- The limit and the base delay that ScheduleRetry uses, and the change that it makes to the entry.
abbrev pub max_of : ℤ → ℕ
max_of max_retries = positive_or max_retries 5

abbrev pub failure : Error → ℤ → ℤ → ℕ → DeliveryEntry → DeliveryEntry
failure e max_retries base_backoff now =
    fail_entry (max_of max_retries) (positive_or base_backoff (2 * second))
      (error_or "delivery failed" e) now

-- The limit is reached: this is what marks an entry dead.
pub dead-fail_entry :
    (max base : ℕ) (err : String) (now : ℕ) (e : DeliveryEntry)
    → let e' = fail_entry max base err now e in
      (e'.retry ≡ e.retry + 1)
      × (e'.dead ≡ (leb max (e.retry + 1) || e.dead))
      × (e'.last_error ≡ err)
      × (e'.acked ≡ e.acked)
      × (e'.read ≡ e.read)
unfolding fail_entry
dead-fail_entry max base err now e = ground arith

max_of-positive : (z : ℤ) → 1 ≤ max_of z
max_of-positive (pos zero) = omega arith
max_of-positive (pos (suc n)) = omega arith
max_of-positive (negsuc n) = omega arith

module _ {D C : Type 0} (sql : Database D) (redis : Redis C) where
  pub deliveries-schedule_retry :
      (id to : String) (e : Error) (max_retries base_backoff : ℤ) (now : ℕ) (s : Store D C)
      → (schedule_retry sql redis id to e max_retries base_backoff now s).0.deliveries ≡ (
          if is_empty id || is_empty to
          then s.deliveries
          else update_entry (failure e max_retries base_backoff now) id to s.deliveries)
  unfolding schedule_retry
  deliveries-schedule_retry id to e max_retries base_backoff now s = ground arith

  -- One failure of a delivery: its error, and the time.
  pub fail_all : String → String → ℤ → ℤ → List (Error × ℕ) → Store D C → Store D C
  fail_all id to max_retries base_backoff [] s = s
  fail_all id to max_retries base_backoff ((e, now) ∷ rest) s =
      fail_all id to max_retries base_backoff rest
        (schedule_retry sql redis id to e max_retries base_backoff now s).0

  entry-schedule_retry :
      (id to : String) (e : Error) (max_retries base_backoff : ℤ) (now : ℕ) (s : Store D C)
      → is_empty id ≡ false
      → is_empty to ≡ false
      → entry id to (schedule_retry sql redis id to e max_retries base_backoff now s).0.deliveries
        ≡ map_entry (failure e max_retries base_backoff now) (entry id to s.deliveries)
  entry-schedule_retry id to e max_retries base_backoff now s hid hto =
      let f = failure e max_retries base_backoff now in
      let changed : (schedule_retry sql redis id to e max_retries base_backoff now s).0.deliveries
          ≡ update_entry f id to s.deliveries =
        ground (arith, deliveries-schedule_retry id to e max_retries base_backoff now s) in
      ap (λ d. entry id to d) changed
      ∙ ground (arith, entry-update_entry f id to id to s.deliveries, eq_iff id id, eq_iff to to)

  fail_all-entry :
      (id to : String) (max_retries base_backoff : ℤ) (fs : List (Error × ℕ)) (s : Store D C)
      (x : DeliveryEntry)
      → is_empty id ≡ false
      → is_empty to ≡ false
      → entry id to s.deliveries ≡ some x
      → x.dead ≡ leb (max_of max_retries) x.retry
      → (y : DeliveryEntry) × (entry id to (fail_all id to max_retries base_backoff fs s).deliveries
          ≡ some y)
        × (y.retry ≡ x.retry + length fs)
        × (y.dead ≡ leb (max_of max_retries) y.retry)
  unfolding fail_all
  fail_all-entry id to max_retries base_backoff [] s x hid hto there dead =
      (x, there, omega arith, dead)
  fail_all-entry id to max_retries base_backoff ((e, now) ∷ fs) s x hid hto there dead =
      let f = failure e max_retries base_backoff now in
      let s' = (schedule_retry sql redis id to e max_retries base_backoff now s).0 in
      let changed =
        dead-fail_entry (max_of max_retries) (positive_or base_backoff (2 * second))
          (error_or "delivery failed" e) now x in
      let (y, after, retry, over) =
        fail_all-entry id to max_retries base_backoff fs s' (f x) hid hto
          (entry-schedule_retry id to e max_retries base_backoff now s hid hto
            ∙ ap (map_entry f) there)
          (ground (arith, changed.0, changed.1)) in
      (y, after, ground (arith, changed.0), over)

  -- A delivery that starts with no failures behind it counts them and is dead exactly when they have reached the
  -- limit: the one given, or 5 where that is not positive. This holds with and without a database and whatever the
  -- database answers, if the message and the user are not named by empty texts.
  pub fail_all-dead :
      (id to : String) (max_retries base_backoff : ℤ) (fs : List (Error × ℕ)) (s : Store D C)
      (x : DeliveryEntry)
      → is_empty id ≡ false
      → is_empty to ≡ false
      → entry id to s.deliveries ≡ some x
      → x.retry ≡ 0
      → x.dead ≡ false
      → (y : DeliveryEntry) × (entry id to (fail_all id to max_retries base_backoff fs s).deliveries
          ≡ some y)
        × (y.retry ≡ length fs)
        × (y.dead ≡ leb (max_of max_retries) (length fs))
  fail_all-dead id to max_retries base_backoff fs s x hid hto there none_yet alive =
      let (y, after, retry, over) =
        fail_all-entry id to max_retries base_backoff fs s x hid hto there
          (alive ∙ ground (arith, max_of-positive max_retries)) in
      let all : y.retry ≡ length fs = ground arith in
      (y, after, all, over ∙ ap (λ n. leb (max_of max_retries) n) all)
