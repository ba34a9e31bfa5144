-- ===== src/Storage/Sample.antt =====
-- A database that is two lists of rows and a cache that is a dictionary: they show that what the theorems ask of the
-- two can be had, and the tests run on them.
use h_go.Base.{
  ◌≡◌, ap, false, arith, eq_iff, get-put_self, Bool-cases, ℕ, String, Bool, ◌&&◌, Option, none,
  some, List, [], ◌∷◌, ◌++◌, map, any, str_eq, ltb, select, length, take, drop, if◌then◌else◌, Dict,
  get, put, remove,
}
use h_go.Storage.{
  UserRow, MessageRow, RecipientRow, Answer, found, not_found, Table, Database, Redis,
}

pub record Rows : Type 0 where
  pub message_rows : List MessageRow
  pub recipient_rows : List RecipientRow
  pub user_rows : List UserRow

abbrev pub no_rows : Rows
no_rows = record { message_rows = []; recipient_rows = []; user_rows = [] }

pub data Cell : Type 0 where
  texts : List String → Cell
  text : String → Cell
  user : UserRow → Cell

abbrev pub Cache : Type 0
Cache = Dict Cell

abbrev pub first : {Row : Type 0} → List Row → Answer Row
first [] = not_found
first (r ∷ rows) = found r

abbrev limited : {Row : Type 0} → Option ℕ → List Row → List Row
limited none rows = rows
limited (some n) rows = take n rows

abbrev skipped : {Row : Type 0} → Option ℕ → List Row → List Row
skipped none rows = rows
skipped (some n) rows = drop n rows

-- a table in a list that is read and written by the two functions; rows that are the same to `is_same` clash
abbrev list_table :
    {Row : Type 0}
    → (Row → Row → Bool)
    → (Rows → List Row)
    → (List Row → Rows → Rows)
    → Table Rows Row
list_table is_same read write = record {
  insert = λ r d.
      if any (is_same r) (read d)
      then (d, r, some "duplicate entry")
      else (write (read d ++ r ∷ []) d, r, none);
  insert_ignore = λ r d. (if any (is_same r) (read d) then d else write (read d ++ r ∷ []) d, none);
  take_row = λ p d. first (select p (read d));
  first_row = λ p d. first (select p (read d));
  take_ordered = λ p order d. first (select p (read d));
  find_page = λ p order limit offset d. found (limited limit (skipped offset (select p (read d))));
  find_rows = λ p order limit d. found (limited limit (select p (read d)));
  update_rows = λ p f d.
      (write (map (λ r. if p r then f r else r) (read d)) d, none, length (select p (read d)));
}

abbrev largest : List MessageRow → ℕ
largest [] = 0
largest (r ∷ rows) = let m = largest rows in if ltb m r.seq then r.seq else m

abbrev or_rollback : Rows → Rows × Option String → Rows × Option String
or_rollback d (d', none) = (d', none)
or_rollback d (d', some e) = (d, some e)

abbrev pub sql : Database Rows
sql = record {
  messages =
      list_table (λ a b. str_eq a.server_msg_id b.server_msg_id) (λ d. d.message_rows)
        (λ rows d. record d { message_rows = rows });
  recipients =
      list_table (λ a b. str_eq a.server_msg_id b.server_msg_id && str_eq a.to_user b.to_user)
        (λ d. d.recipient_rows) (λ rows d. record d { recipient_rows = rows });
  users =
      list_table (λ a b. str_eq a.user_name b.user_name) (λ d. d.user_rows)
        (λ rows d. record d { user_rows = rows });
  transaction = λ f d. or_rollback d (f d);
  max_seq = λ p d. found (largest (select p d.message_rows));
  count_by_status = λ d. map (λ r. (r.status, 1)) d.recipient_rows;
}

abbrev as_list : Option Cell → Option (List String)
as_list (some (texts xs)) = some xs
as_list _ = none

abbrev as_user : Option Cell → Option UserRow
as_user (some (user u)) = some u
as_user _ = none

abbrev pub redis : Redis Cache
redis = record {
  del = remove;
  get_list = λ k c. as_list (get k c);
  set_list = λ k v ttl. put k (texts v);
  set_text = λ k v ttl. put k (text v);
  get_user = λ k c. as_user (get k c);
  set_user = λ k u ttl. put k (user u);
}

-- The cache gives back the user that was set.
pub get_user-set_user :
    (k : String) (u : UserRow) (ttl : ℕ) (c : Cache)
    → redis.get_user k (redis.set_user k u ttl c) ≡ some u
get_user-set_user k u ttl c = ap as_user (get-put_self k (user u) c)

first-append :
    (r : UserRow) (rows : List UserRow)
    → any (λ b. str_eq r.user_name b.user_name) rows ≡ false
    → first (select (λ x. str_eq x.user_name r.user_name) (rows ++ r ∷ [])) ≡ found r
first-append r [] h = ground (arith, eq_iff r.user_name r.user_name)
first-append r (x ∷ rows) h =
    ground
      (arith, first-append r rows, eq_iff r.user_name x.user_name, eq_iff x.user_name r.user_name)

-- A row that was inserted into the users is found by its name, and is stored as it was.
pub first_row-insert :
    (r : UserRow) (d : Rows)
    → (sql.users.insert r d).2 ≡ none
    → sql.users.first_row (λ x. str_eq x.user_name r.user_name) (sql.users.insert r d).0
      ≡ found (sql.users.insert r d).1
first_row-insert r d h = ground (
  arith,
  first-append r d.user_rows,
  Bool-cases (any (λ b. str_eq r.user_name b.user_name) d.user_rows),
)

pub insert-password_hash :
    (r : UserRow) (d : Rows)
    → (sql.users.insert r d).2 ≡ none
    → (sql.users.insert r d).1.password_hash ≡ r.password_hash
insert-password_hash r d h = ground arith
