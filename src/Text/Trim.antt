-- ===== src/Text/Trim.antt =====
-- strings.TrimSpace.
use Prim.Native.Char.{Char, code}
use h_go.Base.{
  ℕ, String, ◌≡◌, refl, Bool, true, false, ◌&&◌, ◌||◌, arith, ◌==◌, leb, if◌then◌else◌, ap, ◌∙◌,
}

-- unicode.IsSpace.
is_space_code : ℕ → Bool
is_space_code c =
    leb 9 c && leb c 13
    || c == 0x20
    || c == 0x85
    || c == 0xA0
    || c == 0x1680
    || leb 0x2000 c && leb c 0x200a
    || c == 0x2028
    || c == 0x2029
    || c == 0x202f
    || c == 0x205f
    || c == 0x3000

unfoldable pub is_space : Char → Bool
unfolding is_space_code
is_space c = is_space_code (code c)

abbrev pub is_empty : String → Bool
is_empty String.[] = true
is_empty (String.◌∷◌ c s) = false

unfoldable pub trim_left : String → String
trim_left String.[] = String.[]
trim_left (String.◌∷◌ c s) = let rest = trim_left s in if is_space c then rest else String.◌∷◌ c s

unfoldable pub trim_right : String → String
trim_right String.[] = String.[]
trim_right (String.◌∷◌ c s) =
    let rest = trim_right s in if is_space c && is_empty rest then String.[] else String.◌∷◌ c rest

unfoldable pub trim_space : String → String
unfolding trim_left trim_right is_space
trim_space s = trim_right (trim_left s)

pub trim_right_idem : (s : String) → trim_right (trim_right s) ≡ trim_right s
unfolding trim_right
trim_right_idem String.[] = refl
trim_right_idem (String.◌∷◌ c s) = ground (arith, trim_right_idem s)

-- A text that does not begin with a space still does not once its end is trimmed.
abbrev trimmed_left : String → Bool
trimmed_left String.[] = true
trimmed_left (String.◌∷◌ c s) = elim (is_space c) [ true ↦ false | false ↦ true ]

trimmed_left-trim_left : (s : String) → trimmed_left (trim_left s) ≡ true
unfolding trim_left
trimmed_left-trim_left String.[] = refl
trimmed_left-trim_left (String.◌∷◌ c s) = ground (arith, trimmed_left-trim_left s)

trimmed_left-trim_right : (s : String) → trimmed_left s ≡ true → trimmed_left (trim_right s) ≡ true
unfolding trim_right
trimmed_left-trim_right String.[] h = refl
trimmed_left-trim_right (String.◌∷◌ c s) h = ground arith

trim_left_fixed : (s : String) → trimmed_left s ≡ true → trim_left s ≡ s
unfolding trim_left
trim_left_fixed String.[] h = refl
trim_left_fixed (String.◌∷◌ c s) h = ground arith

-- Trimming a trimmed text changes nothing.
pub trim_space_idem : (s : String) → trim_space (trim_space s) ≡ trim_space s
unfolding trim_space
trim_space_idem s =
    let t = trim_left s in
    ap trim_right
      (trim_left_fixed (trim_right t) (trimmed_left-trim_right t (trimmed_left-trim_left s)))
    ∙ trim_right_idem t

trim_space_test : trim_space " \t 群 a|b \n" ≡ "群 a|b"
unfolding trim_space
trim_space_test = refl
