-- ===== src/Text/Split.antt =====
-- strings.Split, strings.SplitN and strings.Join with a separator of one character.
use Prim.Native.Char.{Char, code}
use h_go.Base.{ℕ, zero, suc, String, ◌≡◌, refl, true, false, ◌==◌, List, [], ◌∷◌}

abbrev pub push_head : Char → List String → List String
push_head c [] = String.◌∷◌ c String.[] ∷ []
push_head c (p ∷ ps) = String.◌∷◌ c p ∷ ps

-- Cut at the first `cuts` places where the separator stands.
unfoldable pub split_cuts : Char → ℕ → String → List String
split_cuts sep cuts String.[] = String.[] ∷ []
split_cuts sep zero (String.◌∷◌ c s) = String.◌∷◌ c s ∷ []
split_cuts sep (suc cuts) (String.◌∷◌ c s) = elim (code c == code sep) [
  | true ↦ String.[] ∷ split_cuts sep cuts s
  | false ↦ push_head c (split_cuts sep (suc cuts) s)
]

-- `strings.Split(s, sep)`: there are no more cuts than characters.
abbrev pub char_count : String → ℕ
char_count String.[] = 0
char_count (String.◌∷◌ c s) = suc (char_count s)

unfoldable pub split : Char → String → List String
unfolding split_cuts
split sep s = split_cuts sep (char_count s) s

split_test : split_cuts "|" 2 "to|bob|a|b" ≡ "to" ∷ "bob" ∷ "a|b" ∷ []
unfolding split_cuts
split_test = refl
