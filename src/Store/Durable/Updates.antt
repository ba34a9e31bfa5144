-- ===== src/Store/Durable/Updates.antt =====
-- One update of the entries and of the rows.
use h_go.Base.{
  ℕ, String, ◌≡◌, refl, ap, sym, ◌∙◌, subst, none, Bool, ◌&&◌, if◌then◌else◌, some, arith, eq_iff,
  str_eq, Option-cases, Bool-cases, inl, inr,
}
use mathlib.Core.Path.{subst₂}
use h_go.Storage.{RecipientRow, found, Database, Answer-cases}
use h_go.Store.{Store, DeliveryEntry}
use h_go.Store.Deliveries.{entry, update_entry, entry-update_entry, map_entry}
use h_go.Store.Durable.{map_answer, row_of, KeepsKeys, IsTable, HasKeys, Agrees, IsDurable, stamped}

module _ {D : Type 0} (sql : Database D) (law : IsTable sql) where
  -- a row that is found after an update was found before
  pub row_before :
      (p : RecipientRow → Bool) (f : RecipientRow → RecipientRow) (i t : String) (d : D)
      (r : RecipientRow)
      → KeepsKeys f
      → (sql.recipients.update_rows p f d).1 ≡ none
      → row_of sql i t (sql.recipients.update_rows p f d).0 ≡ found r
      → (q : RecipientRow) × (row_of sql i t d ≡ found q) × (q.id ≡ r.id)
  row_before p f i t d r keeps ok h =
      let same = law.updated p f i t d keeps ok in
      elim (Answer-cases (row_of sql i t d)) [
        | inl (q, e) ↦ (q, e, ground (arith, keeps.id q, same))
        | inr (inl e) ↦ absurd (ground (arith, same))
        | inr (inr (x, e)) ↦ absurd (ground (arith, same))
      ]

  pub update_rows-HasKeys :
      (p : RecipientRow → Bool) (f : RecipientRow → RecipientRow) (d : D)
      → KeepsKeys f
      → (sql.recipients.update_rows p f d).1 ≡ none
      → HasKeys sql d
      → HasKeys sql (sql.recipients.update_rows p f d).0
  update_rows-HasKeys p f d keeps ok h i t j u r q hr hq same =
      let (r', er, ir) = row_before p f i t d r keeps ok hr in
      let (q', eq, iq) = row_before p f j u d q keeps ok hq in
      h i t j u r' q' er eq (ir ∙ same ∙ sym iq)

stamped-Agrees :
    (time : ℕ) (e : DeliveryEntry) (r : RecipientRow) → Agrees e r → Agrees e (stamped time r)
stamped-Agrees time e r a = record { openness = a.openness; attempts = a.attempts }

-- One entry changes in memory, and the rows that pass a test change in the database.
module _ {D C : Type 0} (sql : Database D) (s s' : Store D C) (f : DeliveryEntry → DeliveryEntry)
    (id to : String) (memory : s'.deliveries ≡ update_entry f id to s.deliveries) where
  entry_before :
      (i t : String) (e : DeliveryEntry)
      → entry i t s'.deliveries ≡ some e
      → (x : DeliveryEntry) × (entry i t s.deliveries ≡ some x)
        × (e ≡ (if str_eq id i && str_eq to t then f x else x))
  entry_before i t e h =
      let changed : entry i t s'.deliveries ≡ (
          if str_eq id i && str_eq to t
          then map_entry f (entry id to s.deliveries)
          else entry i t s.deliveries) =
        ap (entry i t) memory ∙ entry-update_entry f id to i t s.deliveries in
      elim (Bool-cases (str_eq id i && str_eq to t)) [
        | inr other ↦ (e, ground (arith, changed), ground arith)
        | inl same ↦
            (let moved : entry i t s.deliveries ≡ entry id to s.deliveries =
                subst₂ (λ a b. entry a b s.deliveries ≡ entry id to s.deliveries)
                  ((eq_iff id i).0 (ground arith)) ((eq_iff to t).0 (ground arith)) refl in
              elim (Option-cases (entry id to s.deliveries)) [
                | inl missing ↦ absurd (ground (arith, changed))
                | inr (x, there) ↦ (x, moved ∙ there, ground (arith, changed))
              ])
      ]

  changed-IsDurable :
      ((i t : String) (e : DeliveryEntry) (r : RecipientRow)
        → entry i t s.deliveries ≡ some e
        → row_of sql i t s.db ≡ found r
        → Agrees e r
        → (r' : RecipientRow) × (row_of sql i t s'.db ≡ found r')
          × Agrees (if str_eq id i && str_eq to t then f e else e) r')
      → IsDurable sql s
      → IsDurable sql s'
  changed-IsDurable step h i t e there =
      let (x, before, changed) = entry_before i t e there in
      let (r, row, agrees) = h i t x before in
      let (r', row', agrees') = step i t x r before row agrees in
      (r', row', subst (λ y. Agrees y r') (sym changed) agrees')

  -- The rows stay as they are.
  pub kept-IsDurable :
      s'.db ≡ s.db
      → ((e : DeliveryEntry) (r : RecipientRow)
          → entry id to s.deliveries ≡ some e
          → row_of sql id to s.db ≡ found r
          → Agrees e r
          → Agrees (f e) r)
      → IsDurable sql s
      → IsDurable sql s'
  kept-IsDurable same step h =
      changed-IsDurable
        (λ i t e r there row agrees. (
          r,
          ap (row_of sql i t) same ∙ row,
          elim (Bool-cases (str_eq id i && str_eq to t)) [
            | inr other ↦ rw other agrees
            | inl here ↦ rw here (
                step e r
                  (subst₂ (λ a b. entry a b s.deliveries ≡ some e)
                    (sym ((eq_iff id i).0 (ground arith))) (sym ((eq_iff to t).0 (ground arith)))
                    there)
                  (subst₂ (λ a b. row_of sql a b s.db ≡ found r)
                    (sym ((eq_iff id i).0 (ground arith))) (sym ((eq_iff to t).0 (ground arith)))
                    row)
                  agrees)
          ],
        ))
        h

  -- The rows that pass a test change, and only that of the delivery passes it.
  pub updated-IsDurable :
      (p : RecipientRow → Bool) (g : RecipientRow → RecipientRow)
      → (law : IsTable sql) → s'.db ≡ (sql.recipients.update_rows p g s.db).0
      → (sql.recipients.update_rows p g s.db).1 ≡ none
      → KeepsKeys g
      → ((i t : String) (r : RecipientRow)
          → row_of sql i t s.db ≡ found r
          → p r ≡ (str_eq id i && str_eq to t))
      → ((e : DeliveryEntry) (r : RecipientRow)
          → entry id to s.deliveries ≡ some e
          → row_of sql id to s.db ≡ found r
          → Agrees e r
          → Agrees (f e) (g r))
      → IsDurable sql s
      → IsDurable sql s'
  updated-IsDurable p g law same ok keeps only step h =
      let time = law.time p g s.db in
      changed-IsDurable
        (λ i t e r there row agrees. (
          (if str_eq id i && str_eq to t then stamped time (g r) else r),
          ap (row_of sql i t) same
              ∙ law.updated p g i t s.db keeps ok
              ∙ ap (map_answer (λ r. if p r then stamped time (g r) else r)) row
              ∙ ap (λ b. found (if b then stamped time (g r) else r)) (only i t r row),
          elim (Bool-cases (str_eq id i && str_eq to t)) [
            | inr other ↦ rw other agrees
            | inl here ↦ rw here (
                stamped-Agrees time (f e) (g r) (
                  step e r
                    (subst₂ (λ a b. entry a b s.deliveries ≡ some e)
                      (sym ((eq_iff id i).0 (ground arith))) (sym ((eq_iff to t).0 (ground arith)))
                      there)
                    (subst₂ (λ a b. row_of sql a b s.db ≡ found r)
                      (sym ((eq_iff id i).0 (ground arith))) (sym ((eq_iff to t).0 (ground arith)))
                      row)
                    agrees))
          ],
        ))
        h
