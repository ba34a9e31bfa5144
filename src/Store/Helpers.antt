-- ===== src/Store/Helpers.antt =====
-- internal/store/helpers.go and convert.go.
pub mod Dedupe
use h_go.Base.{
  ℕ, zero, suc, ◌+◌, ◌-◌, ◌<◌, String, ◌≡◌, refl, Bool, true, false, ◌||◌, Option, none, some, List,
  [], ◌∷◌, ◌++◌, arith, ltb, if◌then◌else◌, contains, length, second, ◌/◌,
}
use h_go.Text.Trim.{is_empty}
use h_go.Protocol.{Message, type_deliver}
use h_go.Storage.{MessageRow}

-- The loop of dedupeStrings: `seen` is the set of the texts in `out`, which the loop appends to.
unfoldable pub dedupe_from : List String → List String → List String
dedupe_from out [] = out
dedupe_from out (item ∷ rest) =
    dedupe_from (if is_empty item || contains item out then out else out ++ item ∷ []) rest

unfoldable pub dedupe_strings : List String → List String
unfolding dedupe_from
dedupe_strings xs = dedupe_from [] xs

module _ {ℓ} {A : Type ℓ} where
  -- `in[i]`, with a value for a position out of range.
  abbrev at : List A → ℕ → A → A
  at [] i d = d
  at (x ∷ xs) zero d = x
  at (x ∷ xs) (suc i) d = at xs i d

  abbrev set_at : List A → ℕ → A → List A
  set_at [] i v = []
  set_at (x ∷ xs) zero v = v ∷ xs
  set_at (x ∷ xs) (suc i) v = x ∷ set_at xs i v

  -- `in[i], in[j] = in[j], in[i]`
  abbrev swap_at : List A → ℕ → ℕ → A → List A
  swap_at xs i j d = set_at (set_at xs i (at xs j d)) j (at xs i d)

  -- The loop of reverseMessages: `i` goes up and `j` down while i < j, so that the fuel `j` suffices.
  unfoldable pub reverse_loop : ℕ → ℕ → ℕ → A → List A → List A
  reverse_loop zero i j d xs = xs
  reverse_loop (suc fuel) i j d xs =
      let rest = reverse_loop fuel (i + 1) (j - 1) d (swap_at xs i j d) in
      if ltb i j then rest else xs

-- reverseMessages; the loop does nothing on an empty slice, where the source begins at j = -1.
unfoldable pub reverse_messages : List Message → List Message
unfolding reverse_loop
reverse_messages [] = []
reverse_messages (m ∷ ms) = reverse_loop (length ms) 0 (length ms) m (m ∷ ms)

-- The pointers of convert.go are never nil where it is called. A row that is created gets its key and its
-- time from the database.
unfoldable pub to_db_message : Message → MessageRow
to_db_message m = record {
  id = 0;
  client_msg_id = m.client_msg_id;
  server_msg_id = m.server_msg_id;
  seq = m.seq;
  chat_type = 1;
  chat_id = m.chat_id;
  send_id = m.from;
  recv_id = m.to;
  content_type = 1;
  content = m.body;
  status = 0;
  create_time = 0;
}

unfoldable pub from_db_message : MessageRow → Message
from_db_message r = record {
  type = type_deliver;
  client_msg_id = r.client_msg_id;
  server_msg_id = r.server_msg_id;
  chat_id = r.chat_id;
  from = r.send_id;
  to = r.recv_id;
  seq = r.seq;
  status = 0;
  body = r.content;
  ts = r.create_time / second;
}
