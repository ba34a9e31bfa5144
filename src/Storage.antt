-- ===== src/Storage.antt =====
-- internal/storage/model.go: the rows, and what the program asks of MySQL through gorm and of Redis.
pub mod Sample
use h_go.Base.{ℕ, ◌≡◌, ◌⊎◌, inl, inr, refl, String, Bool, Option, List, ℤ, cat}

pub record UserRow : Type 0 where
  pub id : ℕ
  pub user_name : String
  pub password_hash : String
  pub nick_name : String
  pub avatar_url : String
  pub status : ℕ
  pub create_time : ℕ
  pub update_time : ℕ

pub record MessageRow : Type 0 where
  pub id : ℕ
  pub client_msg_id : String
  pub server_msg_id : String
  pub seq : ℕ
  pub chat_type : ℕ
  pub chat_id : String
  pub send_id : String
  pub recv_id : String
  pub content_type : ℕ
  pub content : String
  pub status : ℕ
  pub create_time : ℕ

-- An instant is a number of nanoseconds; a nil `*time.Time` is `none`.
pub record RecipientRow : Type 0 where
  pub id : ℕ
  pub server_msg_id : String
  pub to_user : String
  pub status : ℕ
  pub retry_count : ℕ
  pub next_retry_at : Option ℤ
  pub last_error : String
  pub last_send_at : Option ℕ
  pub acked_at : Option ℕ
  pub read_at : Option ℕ
  pub create_time : ℕ
  pub update_time : ℕ

-- What a query answers: a value, gorm.ErrRecordNotFound, or another error.
pub data Answer {ℓ} (A : Type ℓ) : Type ℓ where
  found : A → Answer A
  not_found : Answer A
  failed : String → Answer A

pub Answer-cases {ℓ} :
    {A : Type ℓ} (r : Answer A)
    → ((a : A) × (r ≡ found a)) ⊎ ((r ≡ not_found) ⊎ ((e : String) × (r ≡ failed e)))
Answer-cases (found a) = inl (a, refl)
Answer-cases not_found = inr (inl refl)
Answer-cases (failed e) = inr (inr (e, refl))

-- The statements that the code builds with gorm on one table, over a database of type `D`. A `Where` is
-- the test that it makes of a row, the map of an `Updates` is what it does to a row. A writing
-- statement answers its error (`none` for nil) and the number of rows that it changed.
pub record Table (D Row : Type 0) : Type 0 where
  -- `DB.Create(row)`, with the row as it leaves it: with its key and its times
  pub insert : Row → D → D × Row × Option String
  -- `DB.Clauses(clause.OnConflict{DoNothing: true}).Create(row)`
  pub insert_ignore : Row → D → D × Option String
  -- `DB.Where(…).Take(&row)`
  pub take_row : (Row → Bool) → D → Answer Row
  -- `DB.Where(…).First(&row)`, the row with the least key
  pub first_row : (Row → Bool) → D → Answer Row
  -- `DB.Where(…).Order(…).Limit(1).Take(&row)`
  pub take_ordered : (Row → Bool) → String → D → Answer Row
  -- `DB.Where(…).Order(…).Limit(…).Offset(…).Find(&rows)`
  pub find_page : (Row → Bool) → String → Option ℕ → Option ℕ → D → Answer (List Row)
  -- `DB.Where(…).Order(…).Limit(…).Find(&rows)`; an empty order and no limit where the code gives none
  pub find_rows : (Row → Bool) → String → Option ℕ → D → Answer (List Row)
  -- `DB.Model(…).Where(…).Updates(…)`
  pub update_rows : (Row → Bool) → (Row → Row) → D → D × Option String × ℕ

pub record Database (D : Type 0) : Type 0 where
  pub messages : Table D MessageRow
  pub recipients : Table D RecipientRow
  pub users : Table D UserRow
  -- `DB.Transaction(f)`
  pub transaction : (D → D × Option String) → D → D × Option String
  -- `Select("COALESCE(MAX(seq), 0)")` of the messages that pass the test
  pub max_seq : (MessageRow → Bool) → D → Answer ℕ
  -- `Select("status, COUNT(*) as count").Group("status")` of the recipients
  pub count_by_status : D → List (ℕ × ℕ)

-- What the code asks of a connected Redis client, over a state of type `C`; an error of a write is dropped.
-- The value is the JSON of a list of texts: `get_list` answers `none` on a miss, an error or a value that
-- is no such list.
pub record Redis (C : Type 0) : Type 0 where
  pub del : String → C → C
  pub get_list : String → C → Option (List String)
  -- the last number is the time to live in seconds
  pub set_list : String → List String → ℕ → C → C
  -- the same for the JSON of a user
  pub get_user : String → C → Option UserRow
  pub set_user : String → UserRow → ℕ → C → C
  -- a plain text, with its time to live as a time.Duration
  pub set_text : String → String → ℤ → C → C

-- The keys of internal/cache/redis.go.
abbrev pub recipients_key : String → String
recipients_key server_msg_id = cat "deliver:recips:" server_msg_id

abbrev pub pending_user_key : String → String
pending_user_key username = cat "deliver:pending:user:" username

abbrev pub pending_due_key : String
pending_due_key = "deliver:pending:due"

abbrev pub pending_recover_key : String
pending_recover_key = "deliver:pending:recover"

-- UserKey and OnlineKey
abbrev pub user_key : String → String
user_key username = cat "user:byname:" username

abbrev pub online_key : String → String
online_key username = cat "user:online:" username
