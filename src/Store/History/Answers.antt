-- ===== src/Store/History/Answers.antt =====
-- What the history in memory answers.
use h_go.Base.{
  ℕ, suc, ◌-◌, String, ◌≡◌, refl, ap, sym, ◌∙◌, subst, Bool, true, false, List, [], ◌∷◌, ◌++◌,
  arith, ltb, if◌then◌else◌, All, length, take, Bool-cases, inl, inr, ℤ, pos, Dict,
}
use h_go.Protocol.{Message}
use h_go.Storage.{Database}
use h_go.Store.{Store}
use h_go.Store.History.{
  is_between, select_between, sort_by_seq, keep_last, c2c_history_from_memory, get_c2c_history,
}
use h_go.Store.History.Sorting.{
  IsSorted, how_many, how_many-sort_by_seq, sort_by_seq-IsSorted, All-sort_by_seq,
  length-sort_by_seq, All-drop, length-drop, take-drop,
}

select_between-All :
    (a b : String) (ms : Dict Message) → All (λ m. is_between a b m ≡ true) (select_between a b ms)
unfolding select_between
select_between-All a b [] = tt
select_between-All a b ((id, m) ∷ ms) = elim (Bool-cases (is_between a b m)) [
  | inl is ↦ rw is (is, select_between-All a b ms)
  | inr other ↦ rw other (select_between-All a b ms)
]

-- the messages that the limit cuts off, and what is left
older-keep_last :
    (n : ℕ) (xs : List Message)
    → let out = keep_last (pos (suc n)) xs in
      (older : List Message) × (older ++ out ≡ xs)
      × (length out ≡ (if ltb (suc n) (length xs) then suc n else length xs))
unfolding keep_last
older-keep_last n xs = elim (Bool-cases (ltb (suc n) (length xs))) [
  | inl long ↦
      (let k = length xs - suc n in
        rw long (take k xs, take-drop k xs, ground (arith, length-drop k xs)))
  | inr short ↦ rw short ([], refl, refl)
]

All-keep_last :
    (P : Message → Type 0) (n : ℕ) (xs : List Message)
    → All P xs
    → All P (keep_last (pos (suc n)) xs)
unfolding keep_last
All-keep_last P n xs h = elim (Bool-cases (ltb (suc n) (length xs))) [
  | inl long ↦ rw long (All-drop P (length xs - suc n) xs h)
  | inr short ↦ rw short h
]

-- With a limit above 0 the history in memory is the end of the list of all messages between the two users, in any
-- direction and sorted by their numbers: messages between these two only, the newest ones, oldest first, as
-- many as the limit allows.
pub c2c_history-newest :
    (a b : String) (n : ℕ) (ms : Dict Message)
    → let out = c2c_history_from_memory a b (pos (suc n)) ms in
      let all = select_between a b ms in
      All (λ m. is_between a b m ≡ true) out
      × (length out ≡ (if ltb (suc n) (length all) then suc n else length all))
      × ((older : List Message) × IsSorted (older ++ out)
          × ((p : Message → Bool) → how_many p (older ++ out) ≡ how_many p all))
unfolding c2c_history_from_memory
c2c_history-newest a b n ms =
    let all = select_between a b ms in
    let sorted = sort_by_seq all in
    let (older, whole, size) = older-keep_last n sorted in
    (
      All-keep_last (λ m. is_between a b m ≡ true) n sorted
          (All-sort_by_seq (λ m. is_between a b m ≡ true) all (select_between-All a b ms)),
      size ∙ ap (λ k. if ltb (suc n) k then suc n else k) (length-sort_by_seq all),
      (
        older,
        subst IsSorted (sym whole) (sort_by_seq-IsSorted all),
        λ p. ap (how_many p) whole ∙ how_many-sort_by_seq p all,
      ),
    )

select_between_comm :
    (a b : String) (ms : Dict Message) → select_between a b ms ≡ select_between b a ms
unfolding select_between
select_between_comm a b [] = refl
select_between_comm a b ((id, m) ∷ ms) = ground (arith, select_between_comm a b ms)

module _ {D C : Type 0} (sql : Database D) where
  -- Without a database both users read the same history.
  pub get_c2c_history_comm :
      (a b : String) (limit : ℤ) (s : Store D C)
      → s.persistent ≡ false
      → get_c2c_history sql a b limit s ≡ get_c2c_history sql b a limit s
  unfolding get_c2c_history c2c_history_from_memory
  get_c2c_history_comm a b limit s memory =
      let same = ap (λ xs. keep_last limit (sort_by_seq xs)) (select_between_comm a b s.messages) in
      ground arith
