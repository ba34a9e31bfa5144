-- ===== src/Outside.antt =====
-- What the session and the connection take from packages that are not the program's: encoding/json, strings.ToLower,
-- the formats of time and of `%.2f`, bcrypt, unicode/utf8, the decoder of GB18030, and
-- net.SplitHostPort.
use h_go.Base.{ℕ, ◌≡◌, ◌⊎◌, inl, inr, refl, String, Bool, Option, List}
use h_go.Protocol.{Message}

-- A value, or the text of an error.
pub data Outcome {ℓ} (A : Type ℓ) : Type ℓ where
  done : A → Outcome A
  fails : String → Outcome A

pub Outcome-cases {ℓ} :
    {A : Type ℓ} (r : Outcome A) → ((a : A) × (r ≡ done a)) ⊎ ((e : String) × (r ≡ fails e))
Outcome-cases (done a) = inl (a, refl)
Outcome-cases (fails e) = inr (e, refl)

abbrev pub Bytes : Type 0
Bytes = List ℕ

pub record Outside : Type 0 where
  -- `json.Marshal(m)`; none where it fails
  pub to_json : Message → Option String
  -- `json.Unmarshal([]byte(s), &pm)`
  pub from_json : String → Outcome Message
  -- strings.ToLower
  pub to_lower : String → String
  -- `time.Unix(ts, 0).Format("2006-01-02 15:04:05")`
  pub format_time : ℕ → String
  -- `startAt.Format(time.RFC3339)`, of an instant in nanoseconds
  pub format_start : ℕ → String
  -- `%s` of `uptime.Truncate(time.Second)`, of a duration in nanoseconds
  pub format_uptime : ℕ → String
  -- `%.2f` of a number of messages by a duration
  pub format_rate : ℕ → ℕ → String
  -- `bcrypt.GenerateFromPassword(password, bcrypt.DefaultCost)`; the number is the randomness of the salt
  pub hash_password : ℕ → String → Outcome String
  -- `bcrypt.CompareHashAndPassword(hash, password) == nil`
  pub matches_hash : String → String → Bool
  -- `string(b)`, if `utf8.Valid(b)`
  pub as_utf8 : Bytes → Option String
  -- the text that GB18030 decodes to, if it does without an error and is valid UTF-8
  pub from_gb18030 : Bytes → Option String
  -- `string(b)` of any bytes, as the texts of this model show them
  pub as_is : Bytes → String
  -- the host that `net.SplitHostPort(addr)` gives; none where it fails
  pub split_host_port : String → Option String
