-- ===== src/Text/Chars.antt =====
-- Texts character by character: which characters occur, and where a text divides.
use Prim.Native.Char.{Char, code}
use Prim.Native.String.append
use h_go.Base.{ℕ, String, ◌≡◌, Bool, true, false, ◌||◌, ◌==◌, arith, cat}

-- Whether a character with the given code occurs.
abbrev pub has_code : ℕ → String → Bool
has_code k String.[] = false
has_code k (String.◌∷◌ c s) = code c == k || has_code k s

pub cat-nil : (t : String) → cat String.[] t ≡ t
cat-nil t = append.nil t

pub cat-cons : (c : Char) (s t : String) → cat (String.◌∷◌ c s) t ≡ String.◌∷◌ c (cat s t)
cat-cons c s t = append.cons c s t

pub cat_assoc : (r s t : String) → cat (cat r s) t ≡ cat r (cat s t)
cat_assoc String.[] s t = ground (arith, cat-nil s, cat-nil (cat s t))
cat_assoc (String.◌∷◌ c r) s t =
    ground (arith, cat-cons c r s, cat-cons c (cat r s) t, cat-cons c r (cat s t), cat_assoc r s t)

pub cat_cancel : (p s t : String) → cat p s ≡ cat p t → s ≡ t
cat_cancel String.[] s t e = ground (arith, cat-nil s, cat-nil t)
cat_cancel (String.◌∷◌ c p) s t e = ground (arith, cat-cons c p s, cat-cons c p t, cat_cancel p s t)

pub has_code-cat : (k : ℕ) (s t : String) → has_code k (cat s t) ≡ (has_code k s || has_code k t)
has_code-cat k String.[] t = ground (arith, cat-nil t)
has_code-cat k (String.◌∷◌ c s) t = ground (arith, cat-cons c s t, has_code-cat k s t)

-- Two texts that are cut at the first place of one character have equal parts.
pub cat_injective :
    (d : Char) (a a' b b' : String)
    → has_code (code d) a ≡ false
    → has_code (code d) a' ≡ false
    → cat a (String.◌∷◌ d b) ≡ cat a' (String.◌∷◌ d b')
    → (a ≡ a') × (b ≡ b')
cat_injective d String.[] String.[] b b' h h' e =
    ground (arith, cat-nil (String.◌∷◌ d b), cat-nil (String.◌∷◌ d b'))
cat_injective d String.[] (String.◌∷◌ c a') b b' h h' e =
    ground (arith, cat-nil (String.◌∷◌ d b), cat-cons c a' (String.◌∷◌ d b'))
cat_injective d (String.◌∷◌ c a) String.[] b b' h h' e =
    ground (arith, cat-nil (String.◌∷◌ d b'), cat-cons c a (String.◌∷◌ d b))
cat_injective d (String.◌∷◌ c a) (String.◌∷◌ c' a') b b' h h' e = ground (
  arith,
  cat-cons c a (String.◌∷◌ d b),
  cat-cons c' a' (String.◌∷◌ d b'),
  cat_injective d a a' b b',
)

-- A text that does not hold the character is what follows its last place.
abbrev pub after_last : ℕ → String → String
after_last k String.[] = String.[]
after_last k (String.◌∷◌ c s) =
    let rest = after_last k s in
    elim (has_code k s) [
      | true ↦ rest
      | false ↦ elim (code c == k) [ true ↦ s | false ↦ String.◌∷◌ c s ]
    ]

pub after_last-cat :
    (d : Char) (a b : String)
    → has_code (code d) b ≡ false
    → after_last (code d) (cat a (String.◌∷◌ d b)) ≡ b
after_last-cat d String.[] b h = ground (arith, cat-nil (String.◌∷◌ d b))
after_last-cat d (String.◌∷◌ c a) b h = ground (
  arith,
  cat-cons c a (String.◌∷◌ d b),
  has_code-cat (code d) a (String.◌∷◌ d b),
  after_last-cat d a b h,
)
