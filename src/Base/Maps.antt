-- ===== src/Base/Maps.antt =====
-- Go's `map[string]V` as an association list. The order of the list stands for the order in which
-- `range` visits the keys, which Go leaves open.
use Prim.Native.String.{String}
use mathlib.Core.Path.{◌≡◌, refl, subst₂}
use mathlib.Core.Logic.{◌≢◌, inl, inr}
use mathlib.Core.Bool.{false}
use mathlib.Core.Option.{Option, none, some}
use mathlib.Core.List.{List, [], ◌∷◌}
use native.Mathlib.Omega.{arith}
use text.Mathlib.TextEquality.{eq_iff}
use h_go.Base.Tests.{Bool-cases, str_eq, if◌then◌else◌, is_some}
use h_go.Base.Lists.{contains, Distinct}

abbrev pub Dict {ℓ} : Type ℓ → Type ℓ
Dict V = List (String × V)

module _ {ℓ} {V : Type ℓ} where
  -- `v, ok := m[k]`
  unfoldable pub get : String → Dict V → Option V
  get k [] = none
  get k ((j, v) ∷ m) = if str_eq j k then some v else get k m

  -- `m[k] = v`
  unfoldable pub put : String → V → Dict V → Dict V
  put k v [] = (k, v) ∷ []
  put k v ((j, w) ∷ m) = if str_eq j k then (j, v) ∷ m else (j, w) ∷ put k v m

  -- `delete(m, k)`
  unfoldable pub remove : String → Dict V → Dict V
  remove k [] = []
  remove k ((j, v) ∷ m) = let rest = remove k m in if str_eq j k then rest else (j, v) ∷ rest

  -- `for k := range m`
  unfoldable pub keys : Dict V → List String
  keys [] = []
  keys ((j, v) ∷ m) = j ∷ keys m

  pub get-put :
      (k j : String) (v : V) (m : Dict V)
      → get j (put k v m) ≡ (if str_eq k j then some v else get j m)
  unfolding get put
  get-put k j v [] = refl
  get-put k j v ((i, w) ∷ m) = ground (arith, get-put k j v m, eq_iff i k, eq_iff i j, eq_iff k j)

  pub get-remove :
      (k j : String) (m : Dict V) → get j (remove k m) ≡ (if str_eq k j then none else get j m)
  unfolding get remove
  get-remove k j [] = ground arith
  get-remove k j ((i, w) ∷ m) = ground (arith, get-remove k j m, eq_iff i k, eq_iff i j, eq_iff k j)

  pub get-nil : (k : String) → ◌≡◌ {A = Option V} (get k []) none
  unfolding get
  get-nil k = refl

  -- `range` visits exactly the keys that a lookup finds.
  pub contains-keys : (k : String) (m : Dict V) → contains k (keys m) ≡ is_some (get k m)
  unfolding get keys
  contains-keys k [] = refl
  contains-keys k ((j, v) ∷ m) = ground (arith, contains-keys k m)

  pub keys-put-contains :
      (i k : String) (v : V) (m : Dict V)
      → contains i (keys m) ≡ false
      → str_eq k i ≡ false
      → contains i (keys (put k v m)) ≡ false
  keys-put-contains i k v m h e =
      ground (arith, contains-keys i m, contains-keys i (put k v m), get-put k i v m)

  pub keys-remove-contains :
      (i k : String) (m : Dict V)
      → contains i (keys m) ≡ false
      → contains i (keys (remove k m)) ≡ false
  keys-remove-contains i k m h =
      ground (arith, contains-keys i m, contains-keys i (remove k m), get-remove k i m)

  -- A key is kept once.
  pub keys-put-Distinct :
      (k : String) (v : V) (m : Dict V) → Distinct (keys m) → Distinct (keys (put k v m))
  unfolding keys put
  keys-put-Distinct k v [] d = (refl, tt)
  keys-put-Distinct k v ((j, w) ∷ m) d =
      ground (arith, eq_iff j k, eq_iff k j, keys-put-Distinct k v m d.1, keys-put-contains j k v m)

  pub keys-remove-Distinct :
      (k : String) (m : Dict V) → Distinct (keys m) → Distinct (keys (remove k m))
  unfolding keys remove
  keys-remove-Distinct k [] d = tt
  keys-remove-Distinct k ((j, w) ∷ m) d =
      ground (arith, keys-remove-Distinct k m d.1, keys-remove-contains j k m)

module _ {ℓ} {V : Type ℓ} where
  pub get-put_ne : (k j : String) (v : V) (m : Dict V) → k ≢ j → get j (put k v m) ≡ get j m
  get-put_ne k j v m h = ground (arith, get-put k j v m, eq_iff k j)

  pub get-put_self : (k : String) (v : V) (m : Dict V) → get k (put k v m) ≡ some v
  get-put_self k v m = ground (arith, get-put k k v m, eq_iff k k)

  pub get-remove_ne : (k j : String) (m : Dict V) → k ≢ j → get j (remove k m) ≡ get j m
  get-remove_ne k j m h = ground (arith, get-remove k j m, eq_iff k j)

  pub get-remove_self : (k : String) (m : Dict V) → get k (remove k m) ≡ none
  get-remove_self k m = ground (arith, get-remove k k m, eq_iff k k)

  -- What holds of every entry.
  abbrev pub Every {κ} : (String → V → Type κ) → Dict V → Type (ℓ ⊔ κ)
  Every P m = (k : String) (v : V) → get k m ≡ some v → P k v

module _ {ℓ κ} {V : Type ℓ} (P : String → V → Type κ) where
  pub Every-put : (k : String) (v : V) (m : Dict V) → Every P m → P k v → Every P (put k v m)
  Every-put k v m h p j w e = elim (Bool-cases (str_eq k j)) [
    | inl same ↦
        let k=j : k ≡ j = (eq_iff k j).0 same in
        let v=w : v ≡ w = ground (arith, get-put k j v m) in subst₂ P k=j v=w p
    | inr other ↦ h j w (ground (arith, get-put k j v m))
  ]

  pub Every-remove : (k : String) (m : Dict V) → Every P m → Every P (remove k m)
  Every-remove k m h j w e = h j w (ground (arith, get-remove k j m))

pub ruleset dict_laws = (get-put, get-remove, get-nil)
