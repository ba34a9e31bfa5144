-- ===== src/Connection/Lines.antt =====
-- What the pieces that the reader gives become: the lines of a connection.
use h_go.Base.{
  ◌+◌, ◌≤◌, ◌≡◌, refl, ap, sym, ◌∙◌, true, false, List, [], ◌∷◌, ◌++◌, ltb, leb, length,
  length-append, if◌then◌else◌, arith, Bool-cases, inl, inr,
}
use mathlib.Core.List.{append_assoc}
use h_go.Outside.{Bytes}
use h_go.Connection.{
  max_message_length, Read, chunk, Line, whole, too_long, discard, concat, read_from, read_raw_line,
}

-- The calls of ReadLine that give a line in pieces, of which only the last does not go on.
abbrev pub line_reads : List Bytes → Bytes → List Read → List Read
line_reads [] last rest = chunk last false ∷ rest
line_reads (b ∷ bs) last rest = chunk b true ∷ line_reads bs last rest

-- A line with these bytes, as the program takes it.
abbrev pub taken : Bytes → Line
taken b = if leb (length b) max_message_length then whole b else too_long

concat-append : (xs ys : List Bytes) → concat (xs ++ ys) ≡ concat xs ++ concat ys
unfolding concat
concat-append [] ys = refl
concat-append (x ∷ xs) ys =
    ap (λ bs. x ++ bs) (concat-append xs ys) ∙ sym (append_assoc x (concat xs) (concat ys))

length-concat-snoc :
    (parts : List Bytes) (b : Bytes)
    → length (concat (parts ++ b ∷ [])) ≡ length (concat parts) + length b
unfolding concat
length-concat-snoc [] b = ground (arith, length-append b [])
length-concat-snoc (x ∷ xs) b = ground (
  arith,
  length-concat-snoc xs b,
  length-append x (concat (xs ++ b ∷ [])),
  length-append x (concat xs),
)

discard-line_reads :
    (bs : List Bytes) (last : Bytes) (rest : List Read)
    → discard true (line_reads bs last rest) ≡ (too_long, rest)
unfolding discard
discard-line_reads [] last rest = refl
discard-line_reads (b ∷ bs) last rest = discard-line_reads bs last rest

snoc_cons :
    (parts : List Bytes) (b : Bytes) (bs : List Bytes) → (parts ++ b ∷ []) ++ bs ≡ parts ++ b ∷ bs
snoc_cons [] b bs = refl
snoc_cons (x ∷ xs) b bs = ap (λ ys. x ∷ ys) (snoc_cons xs b bs)

length-concat-le : (parts bs : List Bytes) → length (concat parts) ≤ length (concat (parts ++ bs))
length-concat-le parts bs =
    ground (arith, concat-append parts bs, length-append (concat parts) (concat bs))

read_from-line_reads :
    (parts bs : List Bytes) (last : Bytes) (rest : List Read)
    → length (concat parts) ≤ max_message_length
    → read_from (length (concat parts)) parts (line_reads bs last rest)
      ≡ (taken (concat (parts ++ (bs ++ last ∷ []))), rest)
unfolding read_from discard
read_from-line_reads parts [] last rest h =
    let e : read_from (length (concat parts)) parts (chunk last false ∷ rest)
        ≡ (taken (concat (parts ++ last ∷ [])), rest) =
      ground (arith, length-concat-snoc parts last) in
    e
read_from-line_reads parts (b ∷ bs) last rest h =
    elim (Bool-cases (ltb max_message_length (length (concat parts) + length b))) [
      | inl long ↦ ground (
        arith,
        discard-line_reads bs last rest,
        length-concat-snoc parts b,
        snoc_cons parts b (bs ++ last ∷ []),
        length-concat-le (parts ++ b ∷ []) (bs ++ last ∷ []),
      )
      | inr short ↦ ground (
        arith,
        read_from-line_reads (parts ++ b ∷ []) bs last rest,
        length-concat-snoc parts b,
        snoc_cons parts b (bs ++ last ∷ []),
      )
    ]

-- A line that comes in pieces is taken whole if the pieces together have at most 1024 bytes, and dropped as too long
-- otherwise; in both cases the reader stands behind the line's last piece, where the next line starts.
pub read_raw_line-line_reads :
    (bs : List Bytes) (last : Bytes) (rest : List Read)
    → read_raw_line (line_reads bs last rest) ≡ (taken (concat (bs ++ last ∷ [])), rest)
unfolding read_raw_line concat
read_raw_line-line_reads bs last rest = read_from-line_reads [] bs last rest (omega arith)
