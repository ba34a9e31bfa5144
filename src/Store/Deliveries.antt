-- ===== src/Store/Deliveries.antt =====
-- The map of maps that keeps the delivery entries: how the code looks one up, makes one and changes one.
use h_go.Base.{
  String, ◌≡◌, Bool, false, not, ◌&&◌, Option, none, some, [], arith, eq_iff, str_eq, if◌then◌else◌,
  get, put, get-put, get-put_self, get-nil, pos, Option-cases, inl, inr,
}
use h_go.Store.{DeliveryEntry, Deliveries}

-- `m, ok := s.deliveries[id]; e, ok2 := m[to]`
abbrev pub entry : String → String → Deliveries → Option DeliveryEntry
entry id to d = elim (get id d) [ none ↦ none | some m ↦ get to m ]

-- `&DeliveryEntry{To: to}`
abbrev pub fresh_entry : String → DeliveryEntry
fresh_entry to = record {
  to = to;
  acked = false;
  read = false;
  dead = false;
  retry = 0;
  last_sent = 0;
  next_retry_at = pos 0;
  last_error = "";
}

-- saveDeliveryUnsafe
unfoldable pub save_delivery_unsafe : String → String → Deliveries → Deliveries
save_delivery_unsafe id to d =
    let d' : Deliveries = elim (get id d) [ none ↦ put id [] d | some m ↦ d ] in
    elim (get id d') [
      | none ↦ d'
      | some m ↦ elim (get to m) [ none ↦ put id (put to (fresh_entry to) m) d' | some e ↦ d' ]
    ]

-- The entry, if it is there, is changed in place.
unfoldable pub update_entry :
    (DeliveryEntry → DeliveryEntry) → String → String → Deliveries → Deliveries
update_entry f id to d = elim (get id d) [
  | none ↦ d
  | some m ↦ elim (get to m) [ none ↦ d | some e ↦ put id (put to (f e) m) d ]
]

-- A delivery that nobody has acknowledged, read or given up.
abbrev pub is_open : DeliveryEntry → Bool
is_open e = not e.acked && not e.read && not e.dead

abbrev pub or_fresh : String → Option DeliveryEntry → Option DeliveryEntry
or_fresh to none = some (fresh_entry to)
or_fresh to (some e) = some e

abbrev pub map_entry : (DeliveryEntry → DeliveryEntry) → Option DeliveryEntry → Option DeliveryEntry
map_entry f none = none
map_entry f (some e) = some (f e)

pub entry-save_delivery_unsafe :
    (id to i t : String) (d : Deliveries)
    → entry i t (save_delivery_unsafe id to d)
      ≡ (if str_eq id i && str_eq to t then or_fresh to (entry id to d) else entry i t d)
unfolding save_delivery_unsafe
entry-save_delivery_unsafe id to i t d = elim (Option-cases (get id d)) [
  | inl e ↦ ground (
    arith,
    get-put_self id [] d,
    get-nil {V = DeliveryEntry} to,
    get-put id i [] d,
    get-put id i (put to (fresh_entry to) []) (put id [] d),
    get-put to t (fresh_entry to) [],
    get-nil {V = DeliveryEntry} t,
    eq_iff id i,
    eq_iff to t,
  )
  | inr (m, e) ↦ ground (
    arith,
    get-put id i (put to (fresh_entry to) m) d,
    get-put to t (fresh_entry to) m,
    eq_iff id i,
    eq_iff to t,
  )
]

pub entry-update_entry :
    (f : DeliveryEntry → DeliveryEntry) (id to i t : String) (d : Deliveries)
    → entry i t (update_entry f id to d)
      ≡ (if str_eq id i && str_eq to t then map_entry f (entry id to d) else entry i t d)
unfolding update_entry
entry-update_entry f id to i t d = elim (Option-cases (get id d)) [
  | inl e ↦ ground (arith, eq_iff id i, eq_iff to t)
  | inr (m, e) ↦ elim (Option-cases (get to m)) [
    | inl e' ↦ ground (arith, eq_iff id i, eq_iff to t)
    | inr (x, e') ↦
        ground
          (arith, get-put id i (put to (f x) m) d, get-put to t (f x) m, eq_iff id i, eq_iff to t)
  ]
]
