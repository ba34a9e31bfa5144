-- ===== src/Network/Tests.antt =====
-- Ann connects and logs in; Alice, who has logged in, kicks Carol out of her group.
use h_go.Base.{ℕ, String, ◌≡◌, ◌≢◌, refl, true, none, some, [], ◌∷◌, arith, get, put, remove}
use h_go.Text.Trim.{trim_space}
use h_go.Text.Find.{has_prefix}
use h_go.Text.Split.{split_cuts}
use h_go.Storage.Sample.{Rows, Cache, sql, redis}
use h_go.Outside.{Outside}
use h_go.Group.{Request, new_group_manager, kick, role_in, group_named}
use h_go.Group.Rights.{Entitled}
use h_go.Security.{allow_connection, load_blacklist}
use h_go.Env.Settings.{get_env, rate_limit}
use h_go.Server.{Server, accept, parse_ip}
use h_go.Session.{User, send_msg}
use h_go.Session.Sample.{outside, presence, clock, server, alice}
use h_go.Session.Requests.{actor}
use h_go.Session.Commands.{two_arguments, second_and_third}
use h_go.Session.Commands.Groups.{use_group_kick, report}
use h_go.Session.Dispatch.{do_message, run_command, command_of}
use h_go.Connection.{Turn, process_raw_line, decode_input_text, known_line}
use h_go.Connection.Steps.{reads}
use h_go.Network.{Network, nth, with_session, connect, begins, then_steps, connects, acts}
use h_go.Network.Invariant.{IsNetwork, Reachable-IsNetwork}
use h_go.Network.Rights.{Step-rights}

abbrev turn : Turn
turn = record { clock = clock; salt = 0 }

-- no connections and no groups yet
abbrev empty_server : Server Rows Cache ℕ
empty_server = record server { group_manager = new_group_manager }

abbrev addr : String
addr = "10.0.0.1:1"

abbrev let_in : Server Rows Cache ℕ
let_in = (accept (parse_ip outside (some addr)) 5 empty_server).0

accepted : (accept (parse_ip outside (some addr)) 5 empty_server).1 ≡ none
unfolding accept parse_ip allow_connection get put load_blacklist trim_space get_env rate_limit
accepted = refl

abbrev connected : Network Rows Cache
connected =
    connect sql redis outside presence addr let_in (record { users = []; server = empty_server })

Reachable-IsNetwork_example : IsNetwork connected
Reachable-IsNetwork_example =
    Reachable-IsNetwork sql redis outside presence
      (then_steps (begins empty_server refl) (connects addr 5 accepted))

-- the line that Alice types
abbrev kicking : Outside
kicking = record outside { as_utf8 = λ b. some "gk|go|carol" }

abbrev with_alice : Network Rows Cache
with_alice = record { users = alice.user ∷ []; server = server }

alice_there : nth 0 with_alice.users ≡ some alice.user
unfolding nth
alice_there = refl

abbrev kicked : Network Rows Cache
kicked =
    with_session 0 (process_raw_line sql redis kicking presence turn (1 ∷ []) alice).0 with_alice

carol_kicked :
    role_in kicked.server.group_manager "go" "carol"
    ≢ role_in with_alice.server.group_manager "go" "carol"
unfolding process_raw_line known_line decode_input_text do_message run_command command_of has_prefix
    trim_space use_group_kick two_arguments second_and_third split_cuts report send_msg kick get put
    remove
carol_kicked e = absurd (ground arith)

Step-rights_example :
    (i : ℕ) × (u : User ℕ) × (r : Request) × (nth i with_alice.users ≡ some u)
    × (u.authenticated ≡ true)
    × (actor r ≡ u.name)
    × (group_named r ≡ "go")
    × Entitled with_alice.server.group_manager r "carol"
Step-rights_example =
    Step-rights sql redis kicking presence "go" "carol"
      (acts 0 alice.user alice_there (reads turn (1 ∷ []))) carol_kicked
