-- ===== src/Text/Decimal.antt =====
-- `%d` of fmt.Sprintf on a natural number, and strconv.Atoi.
use Prim.Native.Char.{Char, code}
use h_go.Base.{
  ℕ, zero, suc, ◌+◌, ◌-◌, ◌*◌, ◌/◌, ◌%◌, ◌^◌, ◌≤◌, ◌<◌, String, ◌≡◌, refl, ap, ◌∙◌, Bool, true,
  false, ◌&&◌, Option, none, some, arith, ◌==◌, ltb, leb, if◌then◌else◌, ℤ, pos, negsuc, Bool-cases,
  ltb→lt, inl, inr,
}
use h_go.Text.Chars.{has_code}
use h_go.Text.Trim.{is_empty}

unfoldable pub digit : ℕ → Char
digit d =
    if d == 0
    then "0"
    else if d == 1
    then "1"
    else if d == 2
    then "2"
    else if d == 3
    then "3"
    else if d == 4
    then "4"
    else if d == 5
    then "5"
    else if d == 6
    then "6"
    else if d == 7
    then "7"
    else if d == 8
    then "8"
    else "9"

-- The digits of `n` in front of `out`; the fuel `n + 1` suffices.
digits_before : ℕ → ℕ → String → String
digits_before zero n out = out
digits_before (suc fuel) n out =
    let rest = digits_before fuel (n / 10) (String.◌∷◌ (digit (n % 10)) out) in
    if ltb n 10 then String.◌∷◌ (digit n) out else rest

unfoldable pub show : ℕ → String
unfolding digits_before digit
show n = digits_before (n + 1) n String.[]

-- The number that a run of digits after `n` stands for; `none` at anything else.
unfoldable pub scan_digits : ℕ → String → Option ℕ
scan_digits n String.[] = some n
scan_digits n (String.◌∷◌ c s) =
    let rest = scan_digits (n * 10 + (code c - 48)) s in
    if leb 48 (code c) && leb (code c) 57 then rest else none

scan_number : String → Option ℕ
scan_number s = if is_empty s then none else scan_digits 0 s

abbrev in_range : Bool → Option ℕ → Option ℤ
in_range negative none = none
in_range false (some n) = if ltb n (2 ^ 63) then some (pos n) else none
in_range true (some zero) = some (pos 0)
in_range true (some (suc n)) = if ltb n (2 ^ 63) then some (negsuc n) else none

-- strconv.Atoi; `none` is any error.
unfoldable pub atoi : String → Option ℤ
unfolding scan_number scan_digits
atoi String.[] = none
atoi (String.◌∷◌ c s) =
    if code c == 45
    then in_range true (scan_number s)
    else if code c == 43
    then in_range false (scan_number s)
    else in_range false (scan_number (String.◌∷◌ c s))

abbrev below_64 : Option ℕ → Option ℕ
below_64 none = none
below_64 (some n) = if ltb n (2 ^ 64) then some n else none

-- `strconv.ParseUint(s, 10, 64)`; `none` is any error.
unfoldable pub parse_uint : String → Option ℕ
unfolding scan_number scan_digits
parse_uint s = below_64 (scan_number s)

code-digit : (d : ℕ) → d < 10 → code (digit d) ≡ 48 + d
unfolding digit
code-digit zero h = refl
code-digit (suc zero) h = refl
code-digit (suc (suc zero)) h = refl
code-digit (suc (suc (suc zero))) h = refl
code-digit (suc (suc (suc (suc zero)))) h = refl
code-digit (suc (suc (suc (suc (suc zero))))) h = refl
code-digit (suc (suc (suc (suc (suc (suc zero)))))) h = refl
code-digit (suc (suc (suc (suc (suc (suc (suc zero))))))) h = refl
code-digit (suc (suc (suc (suc (suc (suc (suc (suc zero)))))))) h = refl
code-digit (suc (suc (suc (suc (suc (suc (suc (suc (suc zero))))))))) h = refl
code-digit (suc (suc (suc (suc (suc (suc (suc (suc (suc (suc d)))))))))) h = absurd (omega arith)

scan-digit :
    (n d : ℕ) (out : String)
    → d < 10
    → scan_digits n (String.◌∷◌ (digit d) out) ≡ scan_digits (n * 10 + d) out
unfolding scan_digits
scan-digit n d out h =
    let e : n * 10 + (code (digit d) - 48) ≡ n * 10 + d = omega (arith, code-digit d h) in
    ground (arith, code-digit d h, ap (λ k. scan_digits k out) e)

scan-digits_before :
    (f n : ℕ) (out : String)
    → n ≤ f
    → scan_digits 0 (digits_before (suc f) n out) ≡ scan_digits n out
unfolding digits_before
scan-digits_before zero n out h =
    let small : ltb n 10 ≡ true = ground arith in
    rw (small, digits_before)
      (scan-digit 0 n out (ltb→lt n 10 small) ∙ ap (λ k. scan_digits k out) (omega arith))
scan-digits_before (suc f) n out h = elim (Bool-cases (ltb n 10)) [
  | inl small ↦
      rw (small, digits_before)
        (scan-digit 0 n out (ltb→lt n 10 small) ∙ ap (λ k. scan_digits k out) (omega arith))
  | inr large ↦
      rw (large, digits_before)
        (scan-digits_before f (n / 10) (String.◌∷◌ (digit (n % 10)) out) (ground arith)
          ∙ scan-digit (n / 10) (n % 10) out (omega arith)
          ∙ ap (λ k. scan_digits k out) (omega arith))
]

abbrev begins_digit : String → Bool
begins_digit String.[] = false
begins_digit (String.◌∷◌ c s) = leb 48 (code c) && leb (code c) 57

begins_digit-digits_before :
    (f n : ℕ) (out : String) → n ≤ f → begins_digit (digits_before (suc f) n out) ≡ true
unfolding digits_before
begins_digit-digits_before zero n out h =
    let small : ltb n 10 ≡ true = ground arith in
    rw (small, digits_before) (ground (arith, code-digit n))
begins_digit-digits_before (suc f) n out h = elim (Bool-cases (ltb n 10)) [
  | inl small ↦ rw (small, digits_before) (ground (arith, code-digit n))
  | inr large ↦
      rw (large, digits_before)
        (begins_digit-digits_before f (n / 10) (String.◌∷◌ (digit (n % 10)) out) (ground arith))
]

atoi_unsigned : (s : String) → begins_digit s ≡ true → atoi s ≡ in_range false (scan_digits 0 s)
unfolding atoi
atoi_unsigned String.[] h = cc
atoi_unsigned (String.◌∷◌ c s) h = ground arith

scan-show : (n : ℕ) → scan_digits 0 (show n) ≡ some n
unfolding show scan_digits
scan-show n =
    let e : n + 1 ≡ suc n = omega arith in rw e (scan-digits_before n n String.[] (omega arith))

-- Atoi reads back what `%d` printed, of every number that an int64 holds.
pub atoi-show : (n : ℕ) → n < 2 ^ 63 → atoi (show n) ≡ some (pos n)
unfolding show
atoi-show n h =
    let e : n + 1 ≡ suc n = omega arith in
    let first : begins_digit (show n) ≡ true =
      rw e (begins_digit-digits_before n n String.[] (omega arith)) in
    atoi_unsigned (show n) first ∙ ground (arith, scan-show n)

-- Two numbers with one print are equal.
pub show_injective : (m n : ℕ) → show m ≡ show n → m ≡ n
show_injective m n e = ground (arith, scan-show m, scan-show n, ap (λ s. scan_digits 0 s) e)

no-dash-digits_before :
    (f n : ℕ) (out : String) → has_code 45 out ≡ false → has_code 45 (digits_before f n out) ≡ false
unfolding digits_before
no-dash-digits_before zero n out h = h
no-dash-digits_before (suc f) n out h = elim (Bool-cases (ltb n 10)) [
  | inl small ↦ rw (small, digits_before) (ground (arith, code-digit n))
  | inr large ↦
      let d : n % 10 < 10 = omega arith in
      rw (large, digits_before)
        (no-dash-digits_before f (n / 10) (String.◌∷◌ (digit (n % 10)) out)
          (ground (arith, code-digit (n % 10) d)))
]

pub no-dash-show : (n : ℕ) → has_code 45 (show n) ≡ false
unfolding show
no-dash-show n = no-dash-digits_before (n + 1) n String.[] refl
