-- ===== src/Security.antt =====
-- internal/server/conn_security.go: the blacklist and the limit on connections from one address.
mod Tests
pub mod Limit
pub mod Blacklist
use h_go.Base.{
  ℤ, pos, negsuc, ℕ, ◌+◌, String, Bool, true, false, Option, none, some, List, [], ◌∷◌, ◌++◌, ltb,
  leb, length, select, contains, get, put, Dict, if◌then◌else◌,
}
use h_go.Text.Trim.{trim_space, is_empty}
use h_go.Text.Split.{split}

-- The fields of Server that the check of a new connection uses. The window is a time.Duration.
pub record Gate : Type 0 where
  pub blacklist_ips : List String
  pub rate_window : ℤ
  pub rate_limit : ℕ
  pub attempts : Dict (List ℕ)

abbrev or_empty : Option (List ℕ) → List ℕ
or_empty none = []
or_empty (some ts) = ts

-- `t.After(now.Add(-s.rateWindow))`
abbrev pub is_recent : ℤ → ℕ → ℕ → Bool
is_recent (pos window) now t = ltb now (t + window)
is_recent (negsuc n) now t = ltb (now + n + 1) t

unfoldable pub recorded : String → Gate → List ℕ
recorded ip g = or_empty (get ip g.attempts)

-- allowConnection
unfoldable pub allow_connection : String → ℕ → Gate → Gate × Bool × String
unfolding recorded
allow_connection ip now g =
    if is_empty ip
    then (g, true, "")
    else if contains ip g.blacklist_ips
    then (g, false, "ip is blacklisted")
    else (let filtered = select (is_recent g.rate_window now) (recorded ip g) in
        if leb g.rate_limit (length filtered)
        then (record g { attempts = put ip filtered g.attempts }, false, "rate limit exceeded")
        else (record g { attempts = put ip (filtered ++ now ∷ []) g.attempts }, true, ""))

-- The loop of loadBlacklistFromEnv; a set is the list of its elements.
add_ips : List String → List String → List String
add_ips out [] = out
add_ips out (item ∷ rest) =
    let ip = trim_space item in
    add_ips (if is_empty ip then out else if contains ip out then out else out ++ ip ∷ []) rest

-- loadBlacklistFromEnv, with the value of IM_BLACKLIST_IPS as an argument.
unfoldable pub load_blacklist : String → List String
unfolding add_ips
load_blacklist env =
    let raw = trim_space env in if is_empty raw then [] else add_ips [] (split "," raw)
