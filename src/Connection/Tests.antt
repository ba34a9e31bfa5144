-- ===== src/Connection/Tests.antt =====
-- A short connection: a wrong password, a line that is too long, and the end.
use h_go.Base.{ℕ, ◌<◌, ◌≡◌, ◌⊎◌, refl, true, false, List, [], ◌∷◌, arith, get}
use h_go.Text.Trim.{trim_space}
use h_go.Text.Find.{has_prefix}
use h_go.Text.Split.{split_cuts}
use h_go.Storage.Sample.{Rows, Cache, sql, redis}
use h_go.Dao.{get_user_by_name}
use h_go.Session.{Session, send_msg}
use h_go.Session.Sample.{outside, presence, clock, server, guest}
use h_go.Session.Auth.{login, login_as, store_of}
use h_go.Session.Auth.Lookups.{IsLookup}
use h_go.Connection.{
  Read, chunk, broken, Turn, concat, read_raw_line, decode_input_text, process_raw_line,
  handle_auth_command, auth_login, manager_message, handler, returned, blocked, three_parts,
  login_parts,
}
use h_go.Connection.Lines.{line_reads, taken, read_raw_line-line_reads}
use h_go.Session.Auth.Refusal.{only_storage_and_count}
use h_go.Connection.Guard.{process_raw_line-guarded}
use h_go.Connection.Steps.{handler-IsSession}
use h_go.Connection.Ending.{manager_message-closed}

abbrev turn : Turn
turn = record { clock = clock; salt = 0 }

abbrev two_lines : List Read
two_lines =
    chunk (1 ∷ 2 ∷ []) true ∷ chunk (3 ∷ []) false ∷ chunk (2 ∷ []) false ∷ broken "EOF" ∷ []

read_raw_line-line_reads_example :
    read_raw_line (line_reads ((1 ∷ 2 ∷ []) ∷ []) (3 ∷ []) (broken "EOF" ∷ []))
    ≡ (taken (concat ((1 ∷ 2 ∷ []) ∷ (3 ∷ []) ∷ [])), broken "EOF" ∷ [])
read_raw_line-line_reads_example =
    read_raw_line-line_reads ((1 ∷ 2 ∷ []) ∷ []) (3 ∷ []) (broken "EOF" ∷ [])

manager_message-closed_example :
    let s = handler sql redis outside presence 1 "10.0.0.1:1" server in
    let end =
      manager_message sql redis outside presence 5 (λ n. turn) (λ n. true) false two_lines s in
    ((s' : Session Rows Cache ℕ) × (end ≡ returned s')
      × (s'.user.logged_out ≡ true)
      × (s'.user.is_closed ≡ true))
    ⊎ ((s' : Session Rows Cache ℕ) × (n : ℕ) × (end ≡ blocked s') × (n < 5) × (true ≡ false))
manager_message-closed_example =
    manager_message-closed sql redis outside presence 5 (λ n. turn) (λ n. true) false two_lines
      (handler sql redis outside presence 1 "10.0.0.1:1" server)
      (handler-IsSession sql redis outside presence 1 "10.0.0.1:1" server) (omega arith)

-- The first of the two lines that the sample knows is a login with a wrong password.
still_out :
    (process_raw_line sql redis outside presence turn (1 ∷ []) guest).0.user.authenticated ≡ false
unfolding process_raw_line handle_auth_command auth_login three_parts login_parts login login_as
    decode_input_text has_prefix trim_space split_cuts get_user_by_name send_msg get
still_out = refl

process_raw_line-guarded_example :
    let s' = (process_raw_line sql redis outside presence turn (1 ∷ []) guest).0 in
    (s'.server ≡ record (only_storage_and_count guest.server s'.server) {
      inbound_messages = s'.server.inbound_messages;
    })
    × IsLookup sql redis (store_of guest) (store_of s')
process_raw_line-guarded_example =
    process_raw_line-guarded sql redis outside presence turn (1 ∷ []) guest refl still_out
