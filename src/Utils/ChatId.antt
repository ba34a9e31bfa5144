-- ===== src/Utils/ChatId.antt =====
-- One id for both directions of a chat, and different ids for different pairs of users without a colon.
use Prim.Native.Nat.{compare, Ordering}
use Prim.Native.Char.{code}
use Prim.Native.String.{compare as compare_text}
use Prim.Native.String.compare
use text.Mathlib.TextEquality.{path_by_compare}
use h_go.Base.{ℕ, String, ◌≡◌, ◌⊎◌, refl, true, false, arith, cat, str_le}
use h_go.Text.Chars.{has_code, cat-nil, cat-cons, cat_assoc, cat_cancel, cat_injective}
use h_go.Utils.{c2c_chat_id}

abbrev flip : Ordering → Ordering
flip Ordering.lt = Ordering.gt
flip Ordering.eq = Ordering.eq
flip Ordering.gt = Ordering.lt

compare-flip : (m n : ℕ) → compare m n ≡ flip (compare n m)
compare-flip m n = grind arith

compare_text-flip : (a b : String) → compare_text a b ≡ flip (compare_text b a)
compare_text-flip String.[] String.[] = refl
compare_text-flip String.[] (String.◌∷◌ d t) =
    ground (arith, compare.nil-cons d t, compare.cons-nil d t)
compare_text-flip (String.◌∷◌ c s) String.[] =
    ground (arith, compare.nil-cons c s, compare.cons-nil c s)
compare_text-flip (String.◌∷◌ c s) (String.◌∷◌ d t) = ground (
  arith,
  compare.cons-cons c d s t,
  compare.cons-cons d c t s,
  compare-flip (code c) (code d),
  compare_text-flip s t,
)

-- The id does not depend on the order of the two users.
pub c2c_chat_id_comm : (a b : String) → c2c_chat_id a b ≡ c2c_chat_id b a
unfolding c2c_chat_id
c2c_chat_id_comm a b = ground (arith, compare_text-flip a b, path_by_compare a b)

abbrev tagged : String → String → String
tagged a b = cat "c2c:" (cat a (cat ":" b))

colon-cons : (b : String) → cat ":" b ≡ String.◌∷◌ ":" b
colon-cons b = ground (arith, cat-cons ":" String.[] b, cat-nil b)

tagged_injective :
    (a b a' b' : String)
    → has_code b':' a ≡ false
    → has_code b':' a' ≡ false
    → tagged a b ≡ tagged a' b'
    → (a ≡ a') × (b ≡ b')
tagged_injective a b a' b' ha ha' e = cat_injective ":" a a' b b' ha ha' (
    ground (
      arith,
      cat_cancel "c2c:" (cat a (cat ":" b)) (cat a' (cat ":" b')),
      colon-cons b,
      colon-cons b',
    ))

-- Users without a colon in their names have one chat id only for one pair, in either order.
pub c2c_chat_id_injective :
    (a b a' b' : String)
    → has_code b':' a ≡ false
    → has_code b':' b ≡ false
    → has_code b':' a' ≡ false
    → has_code b':' b' ≡ false
    → c2c_chat_id a b ≡ c2c_chat_id a' b'
    → (a ≡ a') × (b ≡ b') ⊎ (a ≡ b') × (b ≡ a')
unfolding c2c_chat_id
c2c_chat_id_injective a b a' b' ha hb ha' hb' e = ground (
  arith,
  tagged_injective a b a' b',
  tagged_injective a b b' a',
  tagged_injective b a a' b',
  tagged_injective b a b' a',
)

-- A colon in a name, which registration allows, gives two different chats one id.
pub c2c_chat_id_clash :
    (a b c : String)
    → str_le (cat a (cat ":" b)) c ≡ true
    → str_le a (cat b (cat ":" c)) ≡ true
    → c2c_chat_id (cat a (cat ":" b)) c ≡ c2c_chat_id a (cat b (cat ":" c))
unfolding c2c_chat_id
c2c_chat_id_clash a b c h k =
    ground (arith, cat_assoc a (cat ":" b) (cat ":" c), cat_assoc ":" b (cat ":" c))
