-- ===== src/Session/Dispatch/Cases.antt =====
-- A command with two arguments, from the text that a user types to the call that it makes.
use Prim.Native.Char.{Char}
use h_go.Base.{
  ℕ, suc, ◌≡◌, refl, ap, sym, ◌∙◌, subst, String, true, false, some, List, [], ◌∷◌, arith, cat,
  str_eq, eq_iff,
}
use h_go.Text.Chars.{has_code, cat-nil, cat-cons}
use h_go.Text.Trim.{is_empty, trim_space, trim_left, trim_right, is_space, trim_right_idem}
use h_go.Text.Split.{split_cuts, push_head}
use h_go.Text.Find.{has_prefix}
use h_go.Storage.{Database, Redis}
use h_go.Logic.{Clock}
use h_go.Outside.{Outside}
use h_go.Session.{Session, Presence}
use h_go.Session.Commands.{two_arguments, second_and_third}
use h_go.Session.Dispatch.{
  Command, group_kick, group_grant_admin, group_revoke_admin, group_talk, chat, run_command,
  do_message, command_of,
}

-- The commands that take two arguments, by the word that they start with.
pub data Tag : Type 0 where
  gk ga gr gt to : Tag

abbrev pub command_named : Tag → Command
command_named gk = group_kick
command_named ga = group_grant_admin
command_named gr = group_revoke_admin
command_named gt = group_talk
command_named to = chat

-- The rest of a line after its tag, with the bar before it.
abbrev pub tagged : Tag → String → String
tagged gk r = cat "gk|" r
tagged ga r = cat "ga|" r
tagged gr r = cat "gr|" r
tagged gt r = cat "gt|" r
tagged to r = cat "to|" r

push_head-cons :
    (c : Char) (x : String) (ps : List String) → push_head c (x ∷ ps) ≡ String.◌∷◌ c x ∷ ps
push_head-cons c x ps = refl

-- The part before the first bar is cut off.
split_cuts-cat :
    (n : ℕ) (x y : String)
    → has_code b'|' x ≡ false
    → split_cuts "|" (suc n) (cat x (String.◌∷◌ "|" y)) ≡ x ∷ split_cuts "|" n y
unfolding split_cuts
split_cuts-cat n String.[] y h = ap (split_cuts "|" (suc n)) (cat-nil (String.◌∷◌ "|" y))
split_cuts-cat n (String.◌∷◌ c x) y h =
    let rest = split_cuts-cat n x y (ground arith) in
    let e : split_cuts "|" (suc n) (String.◌∷◌ c (cat x (String.◌∷◌ "|" y)))
        ≡ String.◌∷◌ c x ∷ split_cuts "|" n y =
      ground arith in
    ap (split_cuts "|" (suc n)) (cat-cons c x (String.◌∷◌ "|" y)) ∙ e

is_empty-cat : (x y : String) → is_empty y ≡ false → is_empty (cat x y) ≡ false
is_empty-cat String.[] y k = ground (arith, cat-nil y)
is_empty-cat (String.◌∷◌ c x) y k = ground (arith, cat-cons c x y)

trim_right-cat :
    (x y : String) → trim_right y ≡ y → is_empty y ≡ false → trim_right (cat x y) ≡ cat x y
unfolding trim_right
trim_right-cat String.[] y h k = ground (arith, cat-nil y)
trim_right-cat (String.◌∷◌ c x) y h k =
    let rest = trim_right-cat x y h k in
    let full = is_empty-cat x y k in
    let e : trim_right (String.◌∷◌ c (cat x y)) ≡ String.◌∷◌ c (cat x y) = ground arith in
    ap trim_right (cat-cons c x y) ∙ e ∙ sym (cat-cons c x y)

trim_right_cons :
    (c : Char) (y : String)
    → trim_right y ≡ y
    → is_empty y ≡ false
    → trim_right (String.◌∷◌ c y) ≡ String.◌∷◌ c y
unfolding trim_right
trim_right_cons c y h k = ground arith

-- A text that is not changed by TrimSpace has nothing to trim at its end.
trim_right_fixed : (s : String) → trim_space s ≡ s → trim_right s ≡ s
unfolding trim_space
trim_right_fixed s h = ap trim_right (sym h) ∙ trim_right_idem (trim_left s) ∙ h

split_cuts-zero : (s : String) → split_cuts "|" 0 s ≡ s ∷ []
unfolding split_cuts
split_cuts-zero String.[] = refl
split_cuts-zero (String.◌∷◌ c s) = refl

-- The same text as `tagged`, character by character.
abbrev spelled : Tag → String → String
spelled gk r = String.◌∷◌ "g" (String.◌∷◌ "k" (String.◌∷◌ "|" r))
spelled ga r = String.◌∷◌ "g" (String.◌∷◌ "a" (String.◌∷◌ "|" r))
spelled gr r = String.◌∷◌ "g" (String.◌∷◌ "r" (String.◌∷◌ "|" r))
spelled gt r = String.◌∷◌ "g" (String.◌∷◌ "t" (String.◌∷◌ "|" r))
spelled to r = String.◌∷◌ "t" (String.◌∷◌ "o" (String.◌∷◌ "|" r))

three-cat :
    (a b c : Char) (r : String)
    → cat (String.◌∷◌ a (String.◌∷◌ b (String.◌∷◌ c String.[]))) r
      ≡ String.◌∷◌ a (String.◌∷◌ b (String.◌∷◌ c r))
three-cat a b c r = ground (
  arith,
  cat-cons a (String.◌∷◌ b (String.◌∷◌ c String.[])) r,
  cat-cons b (String.◌∷◌ c String.[]) r,
  cat-cons c String.[] r,
  cat-nil r,
)

tagged-spelled : (t : Tag) (r : String) → tagged t r ≡ spelled t r
tagged-spelled gk r = three-cat "g" "k" "|" r
tagged-spelled ga r = three-cat "g" "a" "|" r
tagged-spelled gr r = three-cat "g" "r" "|" r
tagged-spelled gt r = three-cat "g" "t" "|" r
tagged-spelled to r = three-cat "t" "o" "|" r

trim_space-spelled :
    (t : Tag) (r : String) → trim_right r ≡ r → trim_space (spelled t r) ≡ spelled t r
unfolding trim_space trim_left trim_right is_space
trim_space-spelled gk r h = ground arith
trim_space-spelled ga r h = ground arith
trim_space-spelled gr r h = ground arith
trim_space-spelled gt r h = ground arith
trim_space-spelled to r h = ground arith

other_word : (s w : String) → has_code b'|' s ≡ true → has_code b'|' w ≡ false → str_eq s w ≡ false
other_word s w h k = ground (arith, eq_iff s w, ap (has_code b'|'))

command_of-spelled : (t : Tag) (r : String) → command_of (spelled t r) ≡ command_named t
unfolding command_of has_prefix
command_of-spelled t r =
    let e = other_word (spelled t r) "exit" (bar t) refl in
    let w = other_word (spelled t r) "who" (bar t) refl in
    let h = other_word (spelled t r) "help" (bar t) refl in
    let s = other_word (spelled t r) "stats" (bar t) refl in
    elim t [
      | gk ↦ ground arith
      | ga ↦ ground arith
      | gr ↦ ground arith
      | gt ↦ ground arith
      | to ↦ ground arith
    ]
  where
    bar : (t : Tag) → has_code b'|' (spelled t r) ≡ true
    bar gk = refl
    bar ga = refl
    bar gr = refl
    bar gt = refl
    bar to = refl

two_arguments-spelled :
    (t : Tag) (x y : String)
    → has_code b'|' x ≡ false
    → trim_space x ≡ x
    → trim_space y ≡ y
    → is_empty x ≡ false
    → is_empty y ≡ false
    → two_arguments (spelled t (cat x (String.◌∷◌ "|" y))) ≡ some (x, y)
unfolding two_arguments second_and_third split_cuts
two_arguments-spelled t x y h tx ty ex ey =
    let parts = split_cuts-cat 0 x y h ∙ ap (λ ps. x ∷ ps) (split_cuts-zero y) in
    elim t [
      | gk ↦ ground arith
      | ga ↦ ground arith
      | gr ↦ ground arith
      | gt ↦ ground arith
      | to ↦ ground arith
    ]

-- An argument of a command: it is not blank, and has no white space around it.
abbrev pub IsArgument : String → Type 0
IsArgument x = (trim_space x ≡ x) × (is_empty x ≡ false)

module _ {D C Conn : Type 0} (sql : Database D) (redis : Redis C) (o : Outside) (p : Presence) where
  -- What a user types as a tag and two arguments, with bars between them, is taken for the command of the tag with just
  -- these arguments: the first has no bar, the second may have some, and both are not blank and have no white space around
  -- them.
  pub do_message-tagged :
      (t : Tag) (x y : String) (clock : Clock) (s : Session D C Conn)
      → has_code b'|' x ≡ false
      → IsArgument x
      → IsArgument y
      → (let text = tagged t (cat x (cat "|" y)) in
          (do_message sql redis o p clock text s
            ≡ run_command sql redis o p (command_named t) clock text s)
          × (two_arguments text ≡ some (x, y)))
  unfolding do_message
  do_message-tagged t x y clock s h (tx, ex) (ty, ey) =
      let r = cat x (String.◌∷◌ "|" y) in
      let bar : cat "|" y ≡ String.◌∷◌ "|" y =
        cat-cons "|" String.[] y ∙ ap (String.◌∷◌ "|") (cat-nil y) in
      let same : tagged t (cat x (cat "|" y)) ≡ spelled t r =
        ap (λ z. tagged t (cat x z)) bar ∙ tagged-spelled t r in
      let end : trim_right (String.◌∷◌ "|" y) ≡ String.◌∷◌ "|" y =
        trim_right_cons "|" y (trim_right_fixed y ty) ey in
      let whole = trim_space-spelled t r (trim_right-cat x (String.◌∷◌ "|" y) end refl) in
      subst
        (λ text.
          (do_message sql redis o p clock text s
            ≡ run_command sql redis o p (command_named t) clock text s)
          × (two_arguments text ≡ some (x, y)))
        (sym same)
        (
          ap (λ text. run_command sql redis o p (command_of text) clock text s) whole
              ∙ ap (λ k. run_command sql redis o p k clock (spelled t r) s)
                  (command_of-spelled t r),
          two_arguments-spelled t x y h tx ty ex ey,
        )
