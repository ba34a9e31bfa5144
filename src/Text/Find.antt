-- ===== src/Text/Find.antt =====
-- strings.HasPrefix, TrimPrefix, ContainsAny and Join, `len` of a text, and the parts of a command.
use Prim.Native.Char.{code}
use h_go.Base.{
  ℕ, zero, suc, ◌+◌, String, ◌≡◌, refl, Bool, true, false, ◌&&◌, ◌||◌, List, [], ◌∷◌, ◌==◌, ltb,
  if◌then◌else◌, cat,
}
use h_go.Text.Chars.{has_code}

-- strings.HasPrefix(s, prefix), with the prefix first
unfoldable pub has_prefix : String → String → Bool
has_prefix String.[] s = true
has_prefix (String.◌∷◌ p ps) String.[] = false
has_prefix (String.◌∷◌ p ps) (String.◌∷◌ c s) = code p == code c && has_prefix ps s

-- `s[n:]`, by characters
unfoldable pub drop_chars : ℕ → String → String
drop_chars zero s = s
drop_chars (suc n) String.[] = String.[]
drop_chars (suc n) (String.◌∷◌ c s) = drop_chars n s

-- strings.ContainsAny(s, chars), with the characters by their codes
unfoldable pub has_any : List ℕ → String → Bool
has_any [] s = false
has_any (k ∷ ks) s = has_code k s || has_any ks s

-- How many bytes a character takes in UTF-8.
abbrev char_bytes : ℕ → ℕ
char_bytes c = if ltb c 0x80 then 1 else if ltb c 0x800 then 2 else if ltb c 0x10000 then 3 else 4

-- `len(s)`
unfoldable pub byte_length : String → ℕ
byte_length String.[] = 0
byte_length (String.◌∷◌ c s) = char_bytes (code c) + byte_length s

-- strings.Join(parts, sep)
unfoldable pub join : String → List String → String
join sep [] = ""
join sep (p ∷ ps) = elim ps [ [] ↦ p | ◌∷◌ q qs ↦ cat p (cat sep (join sep ps)) ]

find_tests :
    (has_prefix "to|" "to|bob|hi" ≡ true)
    × (has_prefix "to|" "to" ≡ false)
    × (byte_length "a群" ≡ 4)
    × (join ", " ("a" ∷ "b" ∷ "c" ∷ []) ≡ "a, b, c")
unfolding has_prefix byte_length join
find_tests = (refl, refl, refl, refl)
