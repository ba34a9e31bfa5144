-- ===== src/Security/Limit.antt =====
-- The rate limit against its specification, which remembers every connection that was ever let in.
use h_go.Base.{
  ℤ, ℕ, ◌≤◌, String, ◌≡◌, refl, ap, Bool, true, false, List, [], ◌∷◌, ◌++◌, arith, eq_iff, str_eq,
  ltb, length, select, contains, get-put, get-nil, if◌then◌else◌,
}
use mathlib.Core.Path.{subst₃}
use mathlib.Core.List.{append-nil}
use h_go.Text.Trim.{is_empty}
use h_go.Security.{Gate, is_recent, recorded, allow_connection}

abbrev pub History : Type 0
History = List (String × ℕ)

-- When connections from an address were let in.
abbrev pub times : String → History → List ℕ
times ip [] = []
times ip ((j, t) ∷ h) = if str_eq j ip then t ∷ times ip h else times ip h

-- How many connections from the address were let in during the window that ends now.
abbrev pub in_window : ℤ → String → ℕ → History → ℕ
in_window window ip now h = length (select (is_recent window now) (times ip h))

-- The specification: one without an address is let in, and an address that is not blacklisted is let in while fewer
-- than the limit of its connections were let in during the window.
abbrev pub spec : List String → ℤ → ℕ → String → ℕ → History → History × Bool
spec blacklist window limit ip now h =
    if is_empty ip
    then (h, true)
    else if contains ip blacklist
    then (h, false)
    else if ltb (in_window window ip now h) limit
    then (h ++ (ip, now) ∷ [], true)
    else (h, false)

times-append :
    (ip j : String) (t : ℕ) (h : History)
    → times ip (h ++ (j, t) ∷ []) ≡ times ip h ++ (if str_eq j ip then t ∷ [] else [])
times-append ip j t [] = ground arith
times-append ip j t ((i, u) ∷ h) = ground (arith, times-append ip j t h)

select-append : (p : ℕ → Bool) (xs ys : List ℕ) → select p (xs ++ ys) ≡ select p xs ++ select p ys
select-append p [] ys = refl
select-append p (x ∷ xs) ys = ground (arith, select-append p xs ys)

-- What is forgotten now would not count later.
select-select :
    (window : ℤ) (now later : ℕ) (xs : List ℕ)
    → now ≤ later
    → select (is_recent window later) (select (is_recent window now) xs)
      ≡ select (is_recent window later) xs
select-select window now later [] h = refl
select-select window now later (x ∷ xs) h = ground (arith, select-select window now later xs h)

-- From the time `since` on, the attempts that the gate has kept and the whole history count alike.
pub record Agrees (blacklist : List String) (window : ℤ) (limit since : ℕ) (g : Gate) (h : History)
    : Type 0 where
  pub same_blacklist : g.blacklist_ips ≡ blacklist
  pub same_window : g.rate_window ≡ window
  pub same_limit : g.rate_limit ≡ limit
  pub same_recent :
      (ip : String) (now : ℕ)
      → since ≤ now
      → select (is_recent window now) (recorded ip g) ≡ select (is_recent window now) (times ip h)

module _ (g : Gate) (h : History) (ip : String) (since now : ℕ) (order : since ≤ now)
    (agrees : Agrees g.blacklist_ips g.rate_window g.rate_limit since g h) where
  allow_connection-spec :
      (allow_connection ip now g).1 ≡ (spec g.blacklist_ips g.rate_window g.rate_limit ip now h).1
  unfolding allow_connection
  allow_connection-spec = ground (arith, ap length (agrees.same_recent ip now order))

  allow_connection-recent :
      (j : String) (later : ℕ)
      → now ≤ later
      → select (is_recent g.rate_window later) (recorded j (allow_connection ip now g).0)
        ≡ select
            (is_recent g.rate_window later)
            (times j (spec g.blacklist_ips g.rate_window g.rate_limit ip now h).0)
  unfolding allow_connection recorded
  allow_connection-recent j later after =
      let recent = is_recent g.rate_window in
      let kept = select (recent now) (recorded ip g) in
      ground (
        arith,
        get-put ip j kept g.attempts,
        get-put ip j (kept ++ now ∷ []) g.attempts,
        eq_iff ip j,
        ap length (agrees.same_recent ip now order),
        agrees.same_recent j later (omega arith),
        select-select g.rate_window now later (recorded ip g) after,
        select-append (recent later) kept (now ∷ []),
        times-append j ip now h,
        select-append (recent later) (times j h) (now ∷ []),
        append-nil (times j h),
      )

  allow_connection-Agrees :
      Agrees g.blacklist_ips g.rate_window g.rate_limit now
        (allow_connection ip now g).0
        (spec g.blacklist_ips g.rate_window g.rate_limit ip now h).0
  allow_connection-Agrees = record {
    same_blacklist = unfold allow_connection in ground arith;
    same_window = unfold allow_connection in ground arith;
    same_limit = unfold allow_connection in ground arith;
    same_recent = allow_connection-recent;
  }

-- Connections in the order of their times: what the gate answers to each, and what the specification does.
pub answers : Gate → History → List Bool
answers g [] = []
answers g ((ip, now) ∷ es) = let (g', ok, reason) = allow_connection ip now g in ok ∷ answers g' es

unfoldable pub spec_answers : List String → ℤ → ℕ → History → History → List Bool
spec_answers blacklist window limit h [] = []
spec_answers blacklist window limit h ((ip, now) ∷ es) =
    let (h', ok) = spec blacklist window limit ip now h in
    ok ∷ spec_answers blacklist window limit h' es

abbrev pub InOrder : ℕ → History → Type 0
InOrder since [] = Unit {0}
InOrder since ((ip, now) ∷ es) = (since ≤ now) × InOrder now es

answers-spec :
    (blacklist : List String) (window : ℤ) (limit since : ℕ) (g : Gate) (h es : History)
    → Agrees blacklist window limit since g h
    → InOrder since es
    → answers g es ≡ spec_answers blacklist window limit h es
unfolding answers spec_answers
answers-spec blacklist window limit since g h [] agrees order = refl
answers-spec blacklist window limit since g h ((ip, now) ∷ es) agrees order =
    subst₃ Goal agrees.same_blacklist agrees.same_window agrees.same_limit
      (λ a. cc (
        allow_connection-spec g h ip since now order.0 a,
        answers-spec g.blacklist_ips g.rate_window g.rate_limit now (allow_connection ip now g).0
            (spec g.blacklist_ips g.rate_window g.rate_limit ip now h).0 es
            (allow_connection-Agrees g h ip since now order.0 a) order.1,
      ))
      agrees
  where
    Goal : List String → ℤ → ℕ → Type 0
    Goal bl w l =
        Agrees bl w l since g h
        → answers g ((ip, now) ∷ es) ≡ spec_answers bl w l h ((ip, now) ∷ es)

-- A gate with no attempts on record.
abbrev pub new_gate : List String → ℤ → ℕ → Gate
new_gate blacklist window limit = record {
  blacklist_ips = blacklist;
  rate_window = window;
  rate_limit = limit;
  attempts = [];
}

-- Over any connections in the order of their times, the gate, which forgets what is older than the window, answers as the
-- specification, which forgets nothing: one without an address is let in, and an address that is not blacklisted is let
-- in exactly while fewer than the limit of its connections were let in during the window.
pub allow_connection_refines :
    (blacklist : List String) (window : ℤ) (limit since : ℕ) (es : History)
    → InOrder since es
    → answers (new_gate blacklist window limit) es ≡ spec_answers blacklist window limit [] es
allow_connection_refines blacklist window limit since es order =
    answers-spec blacklist window limit since (new_gate blacklist window limit) [] es
      (record {
        same_blacklist = refl;
        same_window = refl;
        same_limit = refl;
        same_recent = λ ip now h. unfold recorded in ground (arith, get-nil {V = List ℕ} ip);
      })
      order
