-- ===== src/Session/Sample.antt =====
-- A user of a small server, with what the program takes from other packages as plain functions.
use h_go.Base.{
  ◌≡◌, arith, eq_iff, ℕ, String, true, Option, none, some, [], ◌∷◌, ◌==◌, str_eq, if◌then◌else◌,
  cat, pos,
}
use h_go.Text.Decimal.{show}
use h_go.Group.{GroupManager, member, admin, owner}
use h_go.Storage.{UserRow}
use h_go.Storage.Sample.{Rows, Cache, no_rows}
use h_go.Outside.{Outside, done, fails, Bytes}
use h_go.Worker.{new_worker}
use h_go.Server.{Server, new_server}
use h_go.Logic.{Clock}
use h_go.Session.{Session, Presence, new_user}

-- the texts that two lines of bytes stand for
abbrev typed : Bytes → Option String
typed [] = none
typed (b ∷ bs) = if b == 1 then some "login|ann|wrong" else some "login|ann|secret"

abbrev pub outside : Outside
outside = record {
  to_json = λ m. some m.body;
  from_json = λ s. fails "no JSON";
  to_lower = λ s. s;
  format_time = show;
  format_start = show;
  format_uptime = show;
  format_rate = λ n d. show n;
  hash_password = λ salt s. done (cat "#" s);
  matches_hash = λ h s. str_eq h (cat "#" s);
  as_utf8 = typed;
  from_gb18030 = typed;
  as_is = λ b. "?";
  split_host_port = λ addr. if str_eq addr "10.0.0.1:1" then some "10.0.0.1" else none;
}

abbrev pub presence : Presence
presence = record { gateway = "gw"; ttl = pos 60 }

abbrev pub clock : Clock
clock n = 7_000_000_000

-- Ann is registered.
abbrev pub ann_row : UserRow
ann_row = record {
  id = 1;
  user_name = "ann";
  password_hash = "#secret";
  nick_name = "";
  avatar_url = "";
  status = 0;
  create_time = 0;
  update_time = 0;
}

-- Alice owns the group go, Bob is an administrator of it and Carol a plain member.
abbrev pub book : GroupManager
book = record {
  groups =
      (
        "go",
        record {
          id = "go";
          owner_name = "alice";
          members = ("alice", owner) ∷ ("bob", admin) ∷ ("carol", member) ∷ [];
        },
      )
      ∷ [];
}

abbrev pub server : Server Rows Cache ℕ
server =
    record (new_server [] 0 true (record no_rows { user_rows = ann_row ∷ [] }) (some [])
      (new_worker (pos 5) (pos 0))) { group_manager = book }

abbrev pub guest : Session Rows Cache ℕ
guest = record { user = new_user 1 "10.0.0.1:1"; server = server }

abbrev pub alice : Session Rows Cache ℕ
alice = record guest { user = record guest.user { name = "alice"; authenticated = true } }

-- Alice, who is online.
abbrev pub alice_online : Session Rows Cache ℕ
alice_online = record alice {
  server = record server {
    online_map = ("alice", record { sender = 1; addr = "10.0.0.1:1" }) ∷ [];
  };
}

-- bcrypt of the sample accepts what it hashed.
pub outside-accepts :
    (salt : ℕ) (password hash : String)
    → outside.hash_password salt password ≡ done hash
    → outside.matches_hash hash password ≡ true
outside-accepts salt password hash h = ground (arith, eq_iff hash (cat "#" password))
