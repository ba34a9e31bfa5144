-- ===== src/Store.antt =====
-- internal/store: the state of InMemoryStore and the helpers that its methods share. Each method is in a child
-- module named for the source's file, with its theorems below that. The lock makes each method one
-- step; an entry of a map is reached only through the map, so a pointer is its value.
mod Tests
pub mod Helpers
pub mod Deliveries
pub mod Messages
pub mod Delivery
pub mod Retry
pub mod History
pub mod Lifecycle
pub mod Durable
use h_go.Base.{ℕ, String, ◌≡◌, refl, Bool, Option, none, some, List, [], ◌∷◌, Dict, ℤ, pos}
use h_go.Protocol.{Message}

-- The entry of one recipient of a message. `retry` is an `int` that begins at 0 and only grows by one.
pub record DeliveryEntry : Type 0 where
  pub to : String
  pub acked : Bool
  pub read : Bool
  pub dead : Bool
  pub retry : ℕ
  pub last_sent : ℕ
  pub next_retry_at : ℤ
  pub last_error : String

abbrev pub Deliveries : Type 0
Deliveries = Dict (Dict DeliveryEntry)

-- The fields of InMemoryStore, with the two things outside it that its methods use: `db` is what the global
-- storage.DB holds, and `cache` what Redis holds, `none` where cache.Client() is nil.
pub record Store (D C : Type 0) : Type 0 where
  pub next_seq : Dict ℕ
  pub messages : Dict Message
  pub by_client : Dict (Dict Message)
  pub deliveries : Deliveries
  pub persistent : Bool
  pub db : D
  pub cache : Option C

-- `error`
abbrev pub Error : Type 0
Error = Option String

module _ {D C : Type 0} where
  -- NewInMemoryStore, with `storage.DB != nil` as an argument.
  abbrev pub new_store : Bool → D → Option C → Store D C
  new_store persistent db cache = record {
    next_seq = [];
    messages = [];
    by_client = [];
    deliveries = [];
    persistent = persistent;
    db = db;
    cache = cache;
  }

  -- `if c := cache.Client(); c != nil { … }`
  abbrev pub on_cache : (C → C) → Store D C → Store D C
  on_cache f s = elim s.cache [ none ↦ s | some c ↦ record s { cache = some (f c) } ]

  abbrev pub with_db : Store D C → D → Store D C
  with_db s d = record s { db = d }

abbrev pub or_zero : Option ℕ → ℕ
or_zero none = 0
or_zero (some n) = n
