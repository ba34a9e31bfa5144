-- ===== src/Logic/Ids.antt =====
-- The server ids of messages.
use h_go.Base.{
  ℕ, ◌+◌, ◌%◌, ◌^◌, ◌<◌, String, ◌≡◌, ap, sym, ◌∙◌, true, arith, cat, if◌then◌else◌, List, [], ◌∷◌,
  contains, Distinct, length, str_eq, eq_iff, Bool-cases, inl, inr,
}
use h_go.Text.Chars.{cat-nil, cat-cons, cat_assoc, after_last, after_last-cat}
use h_go.Text.Decimal.{show, show_injective, no-dash-show}
use h_go.Text.Trim.{trim_space, is_empty}
use h_go.Logic.{LogicService, server_msg_id_of, generate_server_msg_id, unix_milli}

dash-cons : (s : String) → cat "-" s ≡ String.◌∷◌ "-" s
dash-cons s = ground (arith, cat-cons "-" String.[] s, cat-nil s)

-- The counter stands behind the last dash of an id.
pub after_last-server_msg_id_of :
    (p : String) (milli seq : ℕ) → after_last 45 (server_msg_id_of p milli seq) ≡ show seq
unfolding server_msg_id_of
after_last-server_msg_id_of p milli seq =
    let head = cat p (cat "-" (show milli)) in
    let whole : cat p (cat "-" (cat (show milli) (cat "-" (show seq))))
        ≡ cat head (String.◌∷◌ "-" (show seq)) =
      ground (
        arith,
        dash-cons (show seq),
        cat_assoc p (cat "-" (show milli)) (String.◌∷◌ "-" (show seq)),
        cat_assoc "-" (show milli) (String.◌∷◌ "-" (show seq)),
      ) in
    ap (λ s. after_last 45 s) whole ∙ after_last-cat "-" head (show seq) (no-dash-show seq)

-- Whatever their prefixes and times, ids with different counters are different.
pub server_msg_id_of_injective :
    (p p' : String) (milli milli' seq seq' : ℕ)
    → server_msg_id_of p milli seq ≡ server_msg_id_of p' milli' seq'
    → seq ≡ seq'
server_msg_id_of_injective p p' milli milli' seq seq' e = show_injective seq seq' (
    sym (after_last-server_msg_id_of p milli seq)
    ∙ ap (λ s. after_last 45 s) e
    ∙ after_last-server_msg_id_of p' milli' seq')

module _ {D C : Type 0} where
  -- The ids of a run of calls of GenerateServerMsgID, each with its prefix and its time.
  pub ids_of : List (String × ℕ) → LogicService D C → List String
  ids_of [] l = []
  ids_of ((p, now) ∷ calls) l =
      let (l', id) = generate_server_msg_id p now l in id ∷ ids_of calls l'

  generate-id :
      (p : String) (now : ℕ) (l : LogicService D C)
      → l.id_counter + 1 < 2 ^ 64
      → (after_last 45 (generate_server_msg_id p now l).1 ≡ show (l.id_counter + 1))
        × ((generate_server_msg_id p now l).0.id_counter ≡ l.id_counter + 1)
  unfolding generate_server_msg_id
  generate-id p now l h =
      let t = trim_space p in
      let p' = if is_empty t then "s" else t in
      let seq = (l.id_counter + 1) % 2 ^ 64 in
      let small : seq ≡ l.id_counter + 1 = omega arith in
      (after_last-server_msg_id_of p' (unix_milli now) seq ∙ ap show small, small)

  -- every id of a run has a later counter
  ids_of-later :
      (calls : List (String × ℕ)) (l : LogicService D C) (id : String)
      → l.id_counter + length calls < 2 ^ 64
      → contains id (ids_of calls l) ≡ true
      → (k : ℕ) × (l.id_counter < k) × (after_last 45 id ≡ show k)
  unfolding ids_of
  ids_of-later [] l id h c = absurd (ground arith)
  ids_of-later ((p, now) ∷ calls) l id h c =
      let l' = (generate_server_msg_id p now l).0 in
      let first = (generate_server_msg_id p now l).1 in
      let (name, counter) = generate-id p now l (ground arith) in
      elim (Bool-cases (str_eq first id)) [
        | inl same ↦ (
          l.id_counter + 1,
          omega arith,
          ap (λ t. after_last 45 t) (sym ((eq_iff first id).0 same)) ∙ name,
        )
        | inr other ↦
            (let (k, above, r) = ids_of-later calls l' id (ground arith) (ground arith) in
              (k, ground arith, r))
      ]

  -- The ids of a run of fewer than 2^64 calls from a fresh counter are all different, whatever the prefixes and
  -- the times of the calls are.
  pub ids_of-Distinct :
      (calls : List (String × ℕ)) (l : LogicService D C)
      → l.id_counter + length calls < 2 ^ 64
      → Distinct (ids_of calls l)
  unfolding ids_of
  ids_of-Distinct [] l h = tt
  ids_of-Distinct ((p, now) ∷ calls) l h =
      let l' = (generate_server_msg_id p now l).0 in
      let id = (generate_server_msg_id p now l).1 in
      let (name, counter) = generate-id p now l (ground arith) in
      let small : l'.id_counter + length calls < 2 ^ 64 = ground arith in
      (
        elim (Bool-cases (contains id (ids_of calls l'))) [
          | inl again ↦
              (let (k, above, e) = ids_of-later calls l' id small again in
                let same : l.id_counter + 1 ≡ k =
                  show_injective (l.id_counter + 1) k (sym name ∙ e) in
                absurd (ground arith))
          | inr new ↦ new
        ],
        ids_of-Distinct calls l' small,
      )
