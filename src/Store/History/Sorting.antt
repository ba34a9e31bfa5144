-- ===== src/Store/History/Sorting.antt =====
-- The sort of the history by sequence number.
use h_go.Base.{
  ℕ, zero, suc, ◌-◌, ◌≤◌, ◌≡◌, refl, ap, Bool, List, [], ◌∷◌, arith, leb, All, length, take, drop,
  ◌++◌, select, Bool-cases, inl, inr,
}
use h_go.Protocol.{Message}
use h_go.Store.History.{insert_by_seq, sort_by_seq}

-- Oldest first.
abbrev pub IsSorted : List Message → Type 0
IsSorted [] = Unit
IsSorted (m ∷ ms) = All (λ x. m.seq ≤ x.seq) ms × IsSorted ms

-- How many messages of a list pass a test: with every test, which messages it has and how often.
abbrev pub how_many : (Message → Bool) → List Message → ℕ
how_many p ms = length (select p ms)

All-insert_by_seq :
    (P : Message → Type 0) (m : Message) (xs : List Message)
    → P m
    → All P xs
    → All P (insert_by_seq m xs)
unfolding insert_by_seq
All-insert_by_seq P m [] h hs = (h, tt)
All-insert_by_seq P m (x ∷ xs) h (hx, hs) = elim (Bool-cases (leb m.seq x.seq)) [
  | inl first ↦ rw first (h, (hx, hs))
  | inr later ↦ rw later (hx, All-insert_by_seq P m xs h hs)
]

how_many-insert_by_seq :
    (p : Message → Bool) (m : Message) (xs : List Message)
    → how_many p (insert_by_seq m xs) ≡ how_many p (m ∷ xs)
unfolding insert_by_seq
how_many-insert_by_seq p m [] = refl
how_many-insert_by_seq p m (x ∷ xs) = ground (arith, how_many-insert_by_seq p m xs)

pub how_many-sort_by_seq :
    (p : Message → Bool) (xs : List Message) → how_many p (sort_by_seq xs) ≡ how_many p xs
unfolding sort_by_seq
how_many-sort_by_seq p [] = refl
how_many-sort_by_seq p (x ∷ xs) =
    ground (arith, how_many-insert_by_seq p x (sort_by_seq xs), how_many-sort_by_seq p xs)

All-le :
    (m x : Message) (xs : List Message)
    → m.seq ≤ x.seq
    → All (λ y. x.seq ≤ y.seq) xs
    → All (λ y. m.seq ≤ y.seq) xs
All-le m x [] h hs = tt
All-le m x (y ∷ ys) h (hy, hs) = (omega arith, All-le m x ys h hs)

insert_by_seq-IsSorted :
    (m : Message) (xs : List Message) → IsSorted xs → IsSorted (insert_by_seq m xs)
unfolding insert_by_seq
insert_by_seq-IsSorted m [] h = (tt, tt)
insert_by_seq-IsSorted m (x ∷ xs) (h, hs) = elim (Bool-cases (leb m.seq x.seq)) [
  | inl first ↦
      (let below : m.seq ≤ x.seq = ground arith in
        rw first ((below, All-le m x xs below h), (h, hs)))
  | inr later ↦
      (let above : x.seq ≤ m.seq = ground arith in
        rw later
          (All-insert_by_seq (λ y. x.seq ≤ y.seq) m xs above h, insert_by_seq-IsSorted m xs hs))
]

pub sort_by_seq-IsSorted : (xs : List Message) → IsSorted (sort_by_seq xs)
unfolding sort_by_seq
sort_by_seq-IsSorted [] = tt
sort_by_seq-IsSorted (x ∷ xs) = insert_by_seq-IsSorted x (sort_by_seq xs) (sort_by_seq-IsSorted xs)

pub All-sort_by_seq : (P : Message → Type 0) (xs : List Message) → All P xs → All P (sort_by_seq xs)
unfolding sort_by_seq
All-sort_by_seq P [] h = tt
All-sort_by_seq P (x ∷ xs) (h, hs) =
    All-insert_by_seq P x (sort_by_seq xs) h (All-sort_by_seq P xs hs)

length-insert_by_seq :
    (m : Message) (xs : List Message) → length (insert_by_seq m xs) ≡ suc (length xs)
unfolding insert_by_seq
length-insert_by_seq m [] = refl
length-insert_by_seq m (x ∷ xs) = ground (arith, length-insert_by_seq m xs)

pub length-sort_by_seq : (xs : List Message) → length (sort_by_seq xs) ≡ length xs
unfolding sort_by_seq
length-sort_by_seq [] = refl
length-sort_by_seq (x ∷ xs) =
    ground (arith, length-insert_by_seq x (sort_by_seq xs), length-sort_by_seq xs)

pub All-drop : (P : Message → Type 0) (n : ℕ) (xs : List Message) → All P xs → All P (drop n xs)
All-drop P zero xs h = h
All-drop P (suc n) [] h = tt
All-drop P (suc n) (x ∷ xs) (h, hs) = All-drop P n xs hs

pub length-drop : (n : ℕ) (xs : List Message) → length (drop n xs) ≡ length xs - n
length-drop zero xs = omega arith
length-drop (suc n) [] = omega arith
length-drop (suc n) (x ∷ xs) = omega (arith, length-drop n xs)

pub take-drop : (n : ℕ) (xs : List Message) → take n xs ++ drop n xs ≡ xs
take-drop zero xs = refl
take-drop (suc n) [] = refl
take-drop (suc n) (x ∷ xs) = ap (λ ys. x ∷ ys) (take-drop n xs)
