-- ===== src/Session/Tests.antt =====
-- Ann logs in, and Alice talks to her group and kicks a member.
use h_go.Base.{
  ℕ, ◌≡◌, ◌≢◌, ◌↔◌, refl, String, true, false, not, ◌&&◌, none, some, [], ◌∷◌, cat, arith, get, put,
  remove, keys, ltb, str_eq, if◌then◌else◌,
}
use h_go.Text.Trim.{trim_space, is_empty}
use h_go.Text.Find.{has_prefix, has_any}
use h_go.Text.Split.{split_cuts}
use h_go.Storage.{UserRow, found}
use h_go.Storage.Sample.{Rows, Cache, sql, redis}
use h_go.Dao.{get_user_by_name, create_user}
use h_go.Outside.{done}
use h_go.Group.{kick, role_in, role_of, members_of}
use h_go.Session.{Session, logout, send_msg}
use h_go.Session.Leaving.{logout-offline, login-online}
use h_go.Session.Sample.{alice_online, outside, presence, clock, ann_row, guest, alice}
use h_go.Session.Auth.{with_store_of, login, register, is_online_name, store_of, new_row, has_name}
use h_go.Session.Auth.Checks.{login-accepts, register-accepts, is_free_of_blanks, is_found}
use h_go.Session.Commands.{two_arguments, second_and_third}
use h_go.Session.Commands.Groups.{report, use_group_kick}
use h_go.Session.Commands.{one_argument, second_of, use_rename}
use h_go.Session.Commands.Rename.{use_rename-online}
use h_go.Session.Commands.Chat.{use_group_talk}
use h_go.Session.Commands.Chat.Talk.{submit_talk, use_group_talk-delivers}
use h_go.Text.Decimal.{show}
use h_go.Text.Find.{byte_length}
use h_go.Protocol.{Message}
use h_go.Logic.{process_send, client_id_of, generate_server_msg_id, saved}
use h_go.Store.Messages.{
  get_message_by_client_id, save_message_with_recipients, next_seq, save_transaction, seqs_loaded,
  max_stored,
}
use h_go.Store.Deliveries.{entry, or_fresh}
use h_go.Worker.{enqueue_server_msg}
use h_go.Session.Dispatch.{do_message, run_command, command_of}
use h_go.Session.Dispatch.Cases.{gk, command_named, tagged, IsArgument, do_message-tagged}

login-accepts_example :
    ((login sql redis outside presence clock " ann " "secret" guest).1 ≡ none) ↔ (
      (is_empty (trim_space " ann ") ≡ false)
      × (is_online_name (trim_space " ann ") guest ≡ false)
      × ((u : UserRow) × ((get_user_by_name sql redis (trim_space " ann ") (store_of guest)).1
            ≡ found u)
          × (outside.matches_hash u.password_hash "secret" ≡ true)))
login-accepts_example = login-accepts sql redis outside presence clock " ann " "secret" guest

register-accepts_example :
    let (st, su) = get_user_by_name sql redis (trim_space "bob") (store_of guest) in
    ((register sql redis outside presence clock 0 "bob" "pw" guest).1 ≡ none) ↔ (
      (is_free_of_blanks (trim_space "bob") ≡ true)
      × (is_online_name (trim_space "bob") guest ≡ false)
      × (is_found su ≡ false)
      × ((hash : String) × (outside.hash_password 0 "pw" ≡ done hash)
          × ((create_user sql redis (new_row (trim_space "bob") hash) st).1 ≡ none)))
register-accepts_example = register-accepts sql redis outside presence clock 0 "bob" "pw" guest

-- The login of the example succeeds.
ann_logs_in : (login sql redis outside presence clock " ann " "secret" guest).1 ≡ none
unfolding trim_space get_user_by_name is_online_name has_name get
ann_logs_in =
    (login-accepts sql redis outside presence clock " ann " "secret" guest).1
      (refl, refl, (ann_row, refl, refl))

go_IsArgument : IsArgument "go"
unfolding trim_space
go_IsArgument = (refl, refl)

carol_IsArgument : IsArgument "carol"
unfolding trim_space
carol_IsArgument = (refl, refl)

do_message-tagged_example :
    let text = tagged gk (cat "go" (cat "|" "carol")) in
    (do_message sql redis outside presence clock text alice
      ≡ run_command sql redis outside presence (command_named gk) clock text alice)
    × (two_arguments text ≡ some ("go", "carol"))
do_message-tagged_example =
    do_message-tagged sql redis outside presence gk "go" "carol" clock alice refl go_IsArgument
      carol_IsArgument

carol_kicked :
    role_in
      (do_message sql redis outside presence clock "gk|go|carol" alice).server.group_manager
      "go"
      "carol"
    ≢ role_in alice.server.group_manager "go" "carol"
unfolding do_message run_command command_of has_prefix trim_space use_group_kick two_arguments
    second_and_third split_cuts report send_msg kick get put remove
carol_kicked e = absurd (ground arith)

abbrev talk : Message
talk = record {
  type = "deliver";
  client_msg_id = "gc-7000000000";
  server_msg_id = "s-7000-1";
  chat_id = "group:go";
  from = "alice";
  to = "";
  seq = 1;
  status = 0;
  body = "hi";
  ts = 7;
}

talk_saved : (submit_talk sql redis clock "go" "hi" alice).1 ≡ saved talk
unfolding process_send client_id_of trim_space get put get_message_by_client_id
    save_message_with_recipients generate_server_msg_id show next_seq save_transaction seqs_loaded
    max_stored members_of keys
talk_saved = refl

talk_parts : two_arguments "gt|go|hi" ≡ some ("go", "hi")
unfolding two_arguments second_and_third split_cuts trim_space
talk_parts = refl

alice_in : (role_of alice.server.group_manager "go" "alice").1 ≡ true
unfolding role_of trim_space get
alice_in = refl

use_group_talk-delivers_example :
    let s' = use_group_talk sql redis clock "gt|go|hi" alice in
    (talk.from ≡ "alice")
    × (talk.body ≡ "hi")
    × (s'.server.worker ≡ enqueue_server_msg talk.server_msg_id alice.server.worker)
    × ((i t : String)
        → entry i t s'.server.logic.store.deliveries ≡ (
            if str_eq talk.server_msg_id i
              && ((role_of alice.server.group_manager "go" t).1 && not (str_eq t "alice"))
            then or_fresh t (entry i t alice.server.logic.store.deliveries)
            else entry i t alice.server.logic.store.deliveries))
use_group_talk-delivers_example =
    use_group_talk-delivers sql redis clock "gt|go|hi" "go" "hi" alice talk talk_parts alice_in
      talk_saved

new_name : one_argument "rename|ann" ≡ some "ann"
unfolding one_argument second_of split_cuts trim_space
new_name = refl

short_name : ltb 20 (byte_length "ann") ≡ false
unfolding byte_length
short_name = refl

clean_name : has_any (b' ' ∷ b'\t' ∷ b'\n' ∷ b'\r' ∷ b'|' ∷ []) "ann" ≡ false
unfolding has_any
clean_name = refl

use_rename-online_example : get "ann" (use_rename "rename|ann" alice).server.online_map ≡ (
    if str_eq "ann" "ann"
    then some (record { sender = 1; addr = "10.0.0.1:1" })
    else if str_eq "alice" "ann"
    then none
    else get "ann" alice.server.online_map)
use_rename-online_example =
    use_rename-online "rename|ann" "ann" "ann" alice new_name short_name clean_name refl

logout-offline_example :
    get "alice" (logout sql redis outside presence clock alice_online).server.online_map
    ≡ (if str_eq "alice" "alice" then none else get "alice" alice_online.server.online_map)
logout-offline_example =
    logout-offline sql redis outside presence clock alice_online "alice" refl refl

login-online_example :
    get "ann" (login sql redis outside presence clock " ann " "secret" guest).0.server.online_map
    ≡ (if str_eq (trim_space " ann ") "ann"
        then some (record { sender = 1; addr = "10.0.0.1:1" })
        else get "ann" guest.server.online_map)
login-online_example =
    login-online sql redis outside presence clock " ann " "secret" "ann" guest ann_logs_in

-- Bob registers, and logs in from a connection that reads the store as it is then.
abbrev bob_arrives : Session Rows Cache ℕ
bob_arrives = with_store_of guest (create_user sql redis (new_row "bob" "#pw") (store_of guest)).0
