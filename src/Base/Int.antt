-- ===== src/Base/Int.antt =====
-- The integers over the native numbers, 64-bit wrap-around, and what the program does with Go's int, int64
-- and time.Duration.
use Prim.Native.Nat.{ℕ, zero, suc, ◌+◌, ◌-◌, ◌/◌, ◌%◌, ◌^◌}
use mathlib.Core.Bool.{Bool, true, false}
use mathlib.Core.Option.{Option, none, some}
use mathlib.Core.List.{List}
use h_go.Base.Tests.{ltb, leb, if◌then◌else◌}
use h_go.Base.Lists.{length, take}

-- `negsuc n` is -(n + 1).
pub data ℤ : Type 0 where
  pos : ℕ → ℤ
  negsuc : ℕ → ℤ

-- a <= b
abbrev pub le_int : ℤ → ℤ → Bool
le_int (pos a) (pos b) = leb a b
le_int (pos a) (negsuc b) = false
le_int (negsuc a) (pos b) = true
le_int (negsuc a) (negsuc b) = leb b a

-- `if v > 0`, with the value as a natural number: `v` if it is positive, else the default.
abbrev pub positive_or : ℤ → ℕ → ℕ
positive_or (pos zero) d = d
positive_or (pos (suc n)) d = suc n
positive_or (negsuc n) d = d

-- `if limit > 0 { q = q.Limit(limit) }`
abbrev pub limit_clause : ℤ → Option ℕ
limit_clause (pos zero) = none
limit_clause (pos (suc n)) = some (suc n)
limit_clause (negsuc n) = none

-- `if limit > 0 && len(out) > limit { out = out[:limit] }`
unfoldable pub cut {ℓ} : {A : Type ℓ} → ℤ → List A → List A
cut (pos zero) xs = xs
cut (pos (suc n)) xs = if ltb (suc n) (length xs) then take (suc n) xs else xs
cut (negsuc n) xs = xs

-- The int64 with the given bit pattern.
unfoldable pub to_int64 : ℕ → ℤ
to_int64 n = let m = n % 2 ^ 64 in if ltb m (2 ^ 63) then pos m else negsuc (2 ^ 64 - 1 - m)

abbrev pub second : ℕ
second = 1_000_000_000

-- `now.Add(d)`, an instant in nanoseconds since 1970.
unfoldable pub add_duration : ℕ → ℤ → ℤ
add_duration now (pos d) = pos (now + d)
add_duration now (negsuc d) = if ltb d now then pos (now - (d + 1)) else negsuc (d - now)

-- `t.Unix()`: whole seconds, rounded down.
unfoldable pub unix : ℤ → ℤ
unix (pos t) = pos (t / second)
unix (negsuc t) = negsuc (t / second)
