-- ===== src/Store/Helpers/Dedupe.antt =====
-- What dedupeStrings keeps.
use h_go.Base.{
  ℕ, String, ◌≡◌, refl, Bool, true, false, not, ◌&&◌, ◌||◌, List, [], ◌∷◌, ◌++◌, arith, eq_iff,
  contains, count, count-append, if◌then◌else◌, Bool-cases, inl, inr,
}
use h_go.Text.Trim.{is_empty}
use h_go.Store.Helpers.{dedupe_from, dedupe_strings}

contains-append :
    (k : String) (xs ys : List String) → contains k (xs ++ ys) ≡ (contains k xs || contains k ys)
contains-append k [] ys = refl
contains-append k (x ∷ xs) ys = ground (arith, contains-append k xs ys)

abbrev flag : Bool → ℕ
flag true = 1
flag false = 0

-- `out` holds a text once or not at all.
abbrev Once : List String → Type 0
Once out = (k : String) → count k out ≡ flag (contains k out)

is_empty-eq : (x k : String) → x ≡ k → is_empty x ≡ is_empty k
is_empty-eq x k e = ground (arith, e)

Once-snoc :
    (out : List String) (x : String) → Once out → contains x out ≡ false → Once (out ++ x ∷ [])
Once-snoc out x h new k =
    ground (arith, h k, count-append k out (x ∷ []), contains-append k out (x ∷ []), eq_iff x k)

count-dedupe_from :
    (k : String) (out xs : List String)
    → Once out
    → count k (dedupe_from out xs) ≡ flag (contains k out || contains k xs && not (is_empty k))
unfolding dedupe_from
count-dedupe_from k out [] once = ground (arith, once k)
count-dedupe_from k out (x ∷ xs) once = elim (Bool-cases (is_empty x || contains x out)) [
  | inl old ↦
      rw (old, dedupe_from)
        (ground (arith, count-dedupe_from k out xs once, eq_iff x k, is_empty-eq x k))
  | inr new ↦
      rw (new, dedupe_from)
        (ground (
          arith,
          count-dedupe_from k (out ++ x ∷ []) xs (Once-snoc out x once (ground arith)),
          contains-append k out (x ∷ []),
          eq_iff x k,
          is_empty-eq x k,
        ))
]

-- Every text of the list that is not empty occurs exactly once in the result, and nothing else does.
pub count-dedupe_strings :
    (k : String) (xs : List String)
    → count k (dedupe_strings xs) ≡ (if contains k xs && not (is_empty k) then 1 else 0)
unfolding dedupe_strings
count-dedupe_strings k xs = ground (arith, count-dedupe_from k [] xs (λ j. refl))
