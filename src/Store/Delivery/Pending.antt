-- ===== src/Store/Delivery/Pending.antt =====
-- Who GetRecipients still names.
use h_go.Base.{
  String, ◌≡◌, refl, subst, Bool, false, Option, none, some, List, [], ◌∷◌, arith, eq_iff, Dict,
  get, put, keys, Distinct, contains, contains-keys, Option-cases, inl, inr, Every, Every-put,
  keys-put-Distinct, get-nil, get-put_self,
}
use h_go.Storage.{Database, Redis}
use h_go.Store.{DeliveryEntry, Deliveries, Store}
use h_go.Store.Deliveries.{entry, fresh_entry, save_delivery_unsafe, update_entry, is_open}
use h_go.Store.Messages.{save_deliveries}
use h_go.Store.Delivery.{open_recipients, pending_in, get_recipients}

abbrev pub is_open_entry : Option DeliveryEntry → Bool
is_open_entry none = false
is_open_entry (some e) = is_open e

contains-open_recipients :
    (t : String) (m : Dict DeliveryEntry)
    → Distinct (keys m)
    → contains t (open_recipients m) ≡ is_open_entry (get t m)
unfolding open_recipients get keys
contains-open_recipients t [] d = refl
contains-open_recipients t ((to, e) ∷ m) d =
    ground (arith, contains-open_recipients t m d.1, eq_iff to t, contains-keys t m)

-- Each recipient of a message has one entry.
abbrev pub IsKeyed : Deliveries → Type 0
IsKeyed d = Every (λ id m. Distinct (keys m)) d

nil-Distinct : Distinct (keys {V = DeliveryEntry} [])
unfolding keys
nil-Distinct = tt

pub save_delivery_unsafe-IsKeyed :
    (id to : String) (d : Deliveries) → IsKeyed d → IsKeyed (save_delivery_unsafe id to d)
unfolding save_delivery_unsafe
save_delivery_unsafe-IsKeyed id to d h =
    let fresh = put to (fresh_entry to) [] in
    let P : String → Dict DeliveryEntry → Type 0 = λ i m. Distinct (keys m) in
    let fresh-Distinct : Distinct (keys fresh) =
      keys-put-Distinct to (fresh_entry to) [] nil-Distinct in
    elim (Option-cases (get id d)) [
      | inl e ↦
          (let first = put id [] d in
            let same : put id fresh first ≡ save_delivery_unsafe id to d =
              ground (arith, get-put_self id [] d, get-nil {V = DeliveryEntry} to) in
            subst IsKeyed same
              (Every-put P id fresh first (Every-put P id [] d h nil-Distinct) fresh-Distinct))
      | inr (m, e) ↦ elim (Option-cases (get to m)) [
        | inl none_yet ↦
            (let m' = put to (fresh_entry to) m in
              let same : put id m' d ≡ save_delivery_unsafe id to d = ground arith in
              subst IsKeyed same
                (Every-put P id m' d h (keys-put-Distinct to (fresh_entry to) m (h id m e))))
        | inr (x, there) ↦
            (let same : d ≡ save_delivery_unsafe id to d = ground arith in subst IsKeyed same h)
      ]
    ]

pub update_entry-IsKeyed :
    (f : DeliveryEntry → DeliveryEntry) (id to : String) (d : Deliveries)
    → IsKeyed d
    → IsKeyed (update_entry f id to d)
unfolding update_entry
update_entry-IsKeyed f id to d h =
    let P : String → Dict DeliveryEntry → Type 0 = λ i m. Distinct (keys m) in
    elim (Option-cases (get id d)) [
      | inl e ↦ (let same : d ≡ update_entry f id to d = ground arith in subst IsKeyed same h)
      | inr (m, e) ↦ elim (Option-cases (get to m)) [
        | inl missing ↦
            (let same : d ≡ update_entry f id to d = ground arith in subst IsKeyed same h)
        | inr (x, there) ↦
            (let m' = put to (f x) m in
              let same : put id m' d ≡ update_entry f id to d = ground arith in
              subst IsKeyed same (Every-put P id m' d h (keys-put-Distinct to (f x) m (h id m e))))
      ]
    ]

pub save_deliveries-IsKeyed :
    (id : String) (to : List String) (d : Deliveries)
    → IsKeyed d
    → IsKeyed (save_deliveries id to d)
unfolding save_deliveries
save_deliveries-IsKeyed id [] d h = h
save_deliveries-IsKeyed id (x ∷ xs) d h =
    save_deliveries-IsKeyed id xs (save_delivery_unsafe id x d)
      (save_delivery_unsafe-IsKeyed id x d h)

contains-pending_in :
    (id t : String) (d : Deliveries)
    → IsKeyed d
    → contains t (pending_in id d) ≡ is_open_entry (entry id t d)
contains-pending_in id t d h = elim (Option-cases (get id d)) [
  | inl e ↦ ground arith
  | inr (m, e) ↦ ground (arith, contains-open_recipients t m (h id m e))
]

open_recipients-Distinct :
    (m : Dict DeliveryEntry) → Distinct (keys m) → Distinct (open_recipients m)
unfolding open_recipients keys
open_recipients-Distinct [] d = tt
open_recipients-Distinct ((to, e) ∷ m) d =
    ground
      (arith, open_recipients-Distinct m d.1, contains-open_recipients to m d.1, contains-keys to m)

pending_in-Distinct : (id : String) (d : Deliveries) → IsKeyed d → Distinct (pending_in id d)
pending_in-Distinct id d h = elim (Option-cases (get id d)) [
  | inl e ↦ (let none_left : [] ≡ pending_in id d = ground arith in subst Distinct none_left tt)
  | inr (m, e) ↦
      (let same : open_recipients m ≡ pending_in id d = ground arith in
        subst Distinct same (open_recipients-Distinct m (h id m e)))
]

module _ {D C : Type 0} (sql : Database D) (redis : Redis C) where
  -- Without a database GetRecipients changes nothing, and it names exactly the users whose delivery of the message is
  -- open: neither acknowledged nor read nor dead, if each user has one entry for a message.
  pub get_recipients-open :
      (id t : String) (s : Store D C)
      → s.persistent ≡ false
      → IsKeyed s.deliveries
      → let (s', to) = get_recipients sql redis id s in
        (s' ≡ s) × (contains t to ≡ is_open_entry (entry id t s.deliveries))
  unfolding get_recipients
  get_recipients-open id t s memory h = ground (arith, contains-pending_in id t s.deliveries h)

  pub get_recipients-Distinct :
      (id : String) (s : Store D C)
      → s.persistent ≡ false
      → IsKeyed s.deliveries
      → Distinct (get_recipients sql redis id s).1
  unfolding get_recipients
  get_recipients-Distinct id s memory h =
      let same : pending_in id s.deliveries ≡ (get_recipients sql redis id s).1 = ground arith in
      subst Distinct same (pending_in-Distinct id s.deliveries h)
