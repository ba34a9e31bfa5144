-- ===== src/Store/Messages/Seq.antt =====
-- The sequence numbers of NextSeq.
use h_go.Base.{
  ℕ, zero, suc, ◌+◌, ◌%◌, ◌^◌, ◌<◌, String, ◌≡◌, refl, false, none, some, List, [], ◌∷◌, arith,
  eq_iff, str_eq, if◌then◌else◌, get, get-put, Option-cases, inl, inr, Bool-cases, length, select,
  ap,
}
use h_go.Text.Trim.{is_empty}
use h_go.Storage.{Database}
use h_go.Store.{Store, or_zero}
use h_go.Store.Messages.{next_seq, max_stored, seqs_loaded}

-- The chat that a blank id stands for.
abbrev pub chat_key : String → String
chat_key c = if is_empty c then "default" else c

-- `n`, `n + 1`, … , as many as the second number says.
abbrev pub count_up : ℕ → ℕ → List ℕ
count_up n zero = []
count_up n (suc k) = n ∷ count_up (n + 1) k

module _ {D C : Type 0} (sql : Database D) where
  -- The last number that a chat was given: the counter, or the largest on record where the counter is not loaded.
  unfoldable pub last_seq : String → Store D C → ℕ
  last_seq c s = elim (get c s.next_seq) [ some n ↦ n | none ↦ or_zero (max_stored sql c s) ]

  seqs_loaded-last :
      (k : String) (s : Store D C) → or_zero (get k (seqs_loaded sql k s)) ≡ last_seq k s
  unfolding seqs_loaded last_seq
  seqs_loaded-last k s = elim (Option-cases (get k s.next_seq)) [
    | inr (n, e) ↦ ground arith
    | inl e ↦ elim (Option-cases (max_stored sql k s)) [
      | inl q ↦ ground arith
      | inr (n, q) ↦ ground (arith, get-put k k n s.next_seq, eq_iff k k)
    ]
  ]

  seqs_loaded-other :
      (k d : String) (s : Store D C)
      → str_eq k d ≡ false
      → get d (seqs_loaded sql k s) ≡ get d s.next_seq
  unfolding seqs_loaded
  seqs_loaded-other k d s h = elim (Option-cases (max_stored sql k s)) [
    | inl q ↦ ground arith
    | inr (n, q) ↦ ground (arith, get-put k d n s.next_seq)
  ]

  pub next_seq-number :
      (c : String) (s : Store D C) → (next_seq sql c s).1 ≡ (last_seq (chat_key c) s + 1) % 2 ^ 64
  unfolding next_seq
  next_seq-number c s = ground (arith, seqs_loaded-last (chat_key c) s)

  pub max_stored-next_seq :
      (c d : String) (s : Store D C) → max_stored sql d (next_seq sql c s).0 ≡ max_stored sql d s
  unfolding next_seq max_stored
  max_stored-next_seq c d s = refl

  get-next_seq :
      (c d : String) (s : Store D C)
      → get d (next_seq sql c s).0.next_seq
        ≡ (if str_eq (chat_key c) d then some (next_seq sql c s).1 else get d s.next_seq)
  unfolding next_seq
  get-next_seq c d s = ground (
    arith,
    get-put (chat_key c) d (next_seq sql c s).1 (seqs_loaded sql (chat_key c) s),
    seqs_loaded-other (chat_key c) d s,
  )

  last_seq-next_seq :
      (c d : String) (s : Store D C)
      → last_seq d (next_seq sql c s).0
        ≡ (if str_eq (chat_key c) d then (next_seq sql c s).1 else last_seq d s)
  unfolding last_seq
  last_seq-next_seq c d s = ground (arith, get-next_seq c d s, max_stored-next_seq c d s)

  -- NextSeq gives a chat the successor of its last number, as a uint64, and leaves the last numbers of the other chats.
  pub next_seq-last :
      (c d : String) (s : Store D C)
      → let (s', n) = next_seq sql c s in
        (n ≡ (last_seq (chat_key c) s + 1) % 2 ^ 64)
        × (last_seq d s' ≡ (if str_eq (chat_key c) d then n else last_seq d s))
  next_seq-last c d s = (next_seq-number c s, last_seq-next_seq c d s)

  -- The numbers that one chat is given over calls for many chats, in their order.
  pub numbers_of : String → List String → Store D C → List ℕ
  numbers_of d [] s = []
  numbers_of d (c ∷ cs) s =
      let (s', n) = next_seq sql c s in
      let rest = numbers_of d cs s' in if str_eq (chat_key c) d then n ∷ rest else rest

  numbers_of-count_up :
      (d : String) (cs : List String) (s : Store D C) (m : ℕ)
      → last_seq d s ≡ m
      → m + length cs < 2 ^ 64
      → numbers_of d cs s ≡ count_up (m + 1) (length (select (λ c. str_eq (chat_key c) d) cs))
  unfolding numbers_of
  numbers_of-count_up d [] s m e h = refl
  numbers_of-count_up d (c ∷ cs) s m e h = elim (Bool-cases (str_eq (chat_key c) d)) [
    | inl same ↦
        let key = (eq_iff (chat_key c) d).0 same in
        let number : (next_seq sql c s).1 ≡ m + 1 =
          ground (arith, next_seq-number c s, ap (λ k. last_seq k s) key) in
        let last : last_seq d (next_seq sql c s).0 ≡ m + 1 =
          ground (arith, last_seq-next_seq c d s) in
        ground (arith, numbers_of-count_up d cs (next_seq sql c s).0 (m + 1) last)
    | inr other ↦
        let last : last_seq d (next_seq sql c s).0 ≡ m = ground (arith, last_seq-next_seq c d s) in
        ground (arith, numbers_of-count_up d cs (next_seq sql c s).0 m last)
  ]

  -- Whatever calls for other chats come between them, the numbers that a chat is given follow on its last number
  -- without a gap or a repetition, as long as they stay below 2^64.
  pub numbers_of-consecutive :
      (d : String) (cs : List String) (s : Store D C)
      → last_seq d s + length cs < 2 ^ 64
      → numbers_of d cs s
        ≡ count_up (last_seq d s + 1) (length (select (λ c. str_eq (chat_key c) d) cs))
  numbers_of-consecutive d cs s = numbers_of-count_up d cs s (last_seq d s) refl
