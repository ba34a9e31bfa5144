-- ===== src/Connection.antt =====
-- internal/server/conn.go: the lines of a connection, from the reader to the commands.
pub mod Lines
pub mod Ending
pub mod Guard
pub mod Standing
pub mod Steps
mod Tests
use h_go.Base.{
  ℕ, zero, suc, ◌+◌, ◌-◌, String, Bool, true, false, not, ◌&&◌, ◌||◌, Option, none, some, List, [],
  ◌∷◌, ◌++◌, ltb, length, if◌then◌else◌, cat, null,
}
use h_go.Text.Trim.{trim_space, is_empty}
use h_go.Text.Split.{split_cuts}
use h_go.Text.Find.{has_prefix}
use h_go.Protocol.{Message}
use h_go.Storage.{Database, Redis}
use h_go.Logic.{Clock}
use h_go.Outside.{Outside, Outcome, done, fails, Bytes}
use h_go.Server.{Server, handle_message, mark_inbound_message, add_one}
use h_go.Session.{Session, User, Presence, new_user, with_server, send_msg, send_json, logout}
use h_go.Session.Auth.{register, login}
use h_go.Session.Dispatch.{do_message}

-- MaxMessageLength
abbrev pub max_message_length : ℕ
max_message_length = 1024

-- What a call of ReadLine of a bufio.Reader gives: a piece of a line, with whether the line goes on, or an error. A reader is
-- the list of what its calls will give; after the last one they give io.EOF.
pub data Read : Type 0 where
  chunk : Bytes → Bool → Read
  broken : String → Read

pub data Line : Type 0 where
  whole : Bytes → Line
  too_long : Line
  stopped : String → Line

-- `for isPrefix { _, isPrefix, err = reader.ReadLine() … }`
unfoldable pub discard : Bool → List Read → Line × List Read
discard false reads = (too_long, reads)
discard true [] = (stopped "EOF", [])
discard true (broken e ∷ reads) = (stopped e, reads)
discard true (chunk b more ∷ reads) = discard more reads

-- bytes.Join(parts, nil)
unfoldable pub concat : List Bytes → Bytes
concat [] = []
concat (b ∷ bs) = b ++ concat bs

-- The loop of readRawLine, with the parts so far and their length.
unfoldable pub read_from : ℕ → List Bytes → List Read → Line × List Read
unfolding discard
read_from total parts [] = (stopped "EOF", [])
read_from total parts (broken e ∷ reads) = (stopped e, reads)
read_from total parts (chunk b more ∷ reads) =
    let total' = total + length b in
    let rest = read_from total' (parts ++ b ∷ []) reads in
    if ltb max_message_length total'
    then discard more reads
    else if not more
    then (whole (concat (parts ++ b ∷ [])), reads)
    else rest

-- readRawLine
unfoldable pub read_raw_line : List Read → Line × List Read
unfolding read_from
read_raw_line reads = read_from 0 [] reads

-- decodeInputText
unfoldable pub decode_input_text : Outside → Bytes → String
decode_input_text o b = if null b then "" else elim (o.as_utf8 b) [
  | some s ↦ s
  | none ↦ elim (o.from_gb18030 b) [ some s ↦ s | none ↦ o.as_is b ]
]

-- What the handling of one line reads from outside: the clock and the randomness of a salt.
pub record Turn : Type 0 where
  pub clock : Clock
  pub salt : ℕ

-- The parts of a line around its first two bars, if it has two; those of a login, if the third is not blank.
three_parts : List String → Option (String × String)
three_parts (a ∷ b ∷ c ∷ []) = some (b, c)
three_parts _ = none

login_parts : Option (String × String) → Option (String × String)
login_parts none = none
login_parts (some (b, c)) = if is_empty (trim_space c) then none else some (b, trim_space c)

-- How far ManagerMessage comes: it returns, or it waits for good to send on `isLive`, or the rounds it was given are too few.
pub data Reading (D C Conn : Type 0) : Type 0 where
  returned : Session D C Conn → Reading D C Conn
  blocked : Session D C Conn → Reading D C Conn
  unfinished : Reading D C Conn

module _ {D C Conn : Type 0} (sql : Database D) (redis : Redis C) (o : Outside) (p : Presence) where
  -- the two branches of handleAuthCommand; the flag is whether `isLive` is signalled
  auth_register : Turn → String → Session D C Conn → Session D C Conn × Bool
  unfolding three_parts split_cuts
  auth_register t msg s = elim (three_parts (split_cuts "|" 2 msg)) [
    | none ↦ (send_msg "注册格式错误，正确用法：register|用户名|密码\n" s, false)
    | some (name, password) ↦
        (let (s', e) = register sql redis o p t.clock t.salt (trim_space name) password s in
          elim e [
            | some x ↦ (send_msg (cat "注册失败：" (cat x "\n")) s', false)
            | none ↦ (send_msg (cat "注册并登录成功，欢迎：" (cat s'.user.name "\n")) s', true)
          ])
  ]

  auth_login : Turn → String → Session D C Conn → Session D C Conn × Bool
  unfolding three_parts login_parts split_cuts
  auth_login t msg s = elim (login_parts (three_parts (split_cuts "|" 2 msg))) [
    | none ↦ (send_msg "登录格式错误，正确用法：login|用户名|密码\n" s, false)
    | some (name, password) ↦
        (let (s', e) = login sql redis o p t.clock (trim_space name) password s in
          elim e [
            | some x ↦ (send_msg (cat "登录失败：" (cat x "\n")) s', false)
            | none ↦ (send_msg (cat "登录成功，欢迎回来：" (cat s'.user.name "\n")) s', true)
          ])
  ]

  -- handleAuthCommand, whose result is always true
  unfoldable pub handle_auth_command : Turn → String → Session D C Conn → Session D C Conn × Bool
  unfolding auth_register auth_login has_prefix
  handle_auth_command t msg s =
      let lower = o.to_lower msg in
      if has_prefix "register|" lower
      then auth_register t msg s
      else if has_prefix "login|" lower
      then auth_login t msg s
      else (send_msg "请先注册或登录。注册: register|用户名|密码  登录: login|用户名|密码\n" s, false)

  send_all : List Message → Session D C Conn → Session D C Conn
  send_all [] s = s
  send_all (m ∷ ms) s = send_all ms (send_json o m s)

  -- HandleMessage of the server, with its calls of SendJSON
  abbrev user_message : Clock → Message → Session D C Conn → Session D C Conn
  user_message clock m s =
      let (v, answers) = handle_message sql redis clock s.user.name m s.server in
      send_all answers (with_server s v)

  -- what processRawLine does with the text of a line of a user who is known
  unfoldable pub known_line : Turn → String → Session D C Conn → Session D C Conn × Bool
  unfolding send_all has_prefix
  known_line t msg s =
      if has_prefix "{" msg
      then elim (o.from_json msg) [
        | done m ↦ (user_message t.clock m s, true)
        | fails e ↦ (send_msg (cat "非法 JSON 协议: " e) s, false)
      ]
      else (do_message sql redis o p t.clock msg s, true)

  -- processRawLine: the session, and whether `isLive` is signalled
  unfoldable pub process_raw_line : Turn → Bytes → Session D C Conn → Session D C Conn × Bool
  unfolding known_line decode_input_text trim_space
  process_raw_line t raw s =
      let msg = trim_space (decode_input_text o raw) in
      if is_empty msg
      then (s, false)
      else (let s' = with_server s (mark_inbound_message s.server) in
          if not s.user.authenticated then handle_auth_command t msg s' else known_line t msg s')

  -- ManagerMessage, each round with its turn; one round more than there are reads is enough. `isLive` has room for one
  -- signal. `full` says whether an earlier round has sent one, and `heard n` whether Handler receives that one, before the
  -- send of round n or while it waits; a send for which neither holds room stops the loop for good.
  unfoldable pub manager_message :
      ℕ → (ℕ → Turn) → (ℕ → Bool) → Bool → List Read → Session D C Conn → Reading D C Conn
  unfolding read_raw_line
  manager_message zero turns heard full reads s = unfinished
  manager_message (suc fuel) turns heard full reads s =
      let later = λ (n : ℕ). turns (suc n) in
      let heard_later = λ (n : ℕ). heard (suc n) in
      let (line, rest) = read_raw_line reads in
      elim line [
        | stopped e ↦ returned (logout sql redis o p (turns 0).clock s)
        | too_long ↦
            manager_message fuel later heard_later full rest
              (send_msg "消息长度超限，最多 1024 字节，本条已丢弃。\n" s)
        | whole raw ↦
            (let (s', signal) = process_raw_line (turns 0) raw s in
              elim (signal && full && not (heard 0)) [
                | true ↦ blocked s'
                | false ↦ manager_message fuel later heard_later (full || signal) rest s'
              ])
      ]

  -- Handler, up to its loop: the user of a new connection
  unfoldable pub handler : Conn → String → Server D C Conn → Session D C Conn
  handler conn addr v = send_msg "欢迎，请先注册：register|用户名|密码 或 登录：login|用户名|密码\n" (record {
    user = new_user conn addr;
    server = record v {
      total_connections = add_one v.total_connections;
      active_conn = v.active_conn + 1;
    };
  })

  -- The end of Handler's loop: `isLive` was closed, or 300 seconds went by without a signal.
  unfoldable pub handler_done : Session D C Conn → Session D C Conn
  handler_done s = with_server s (record s.server { active_conn = s.server.active_conn - 1 })

  unfoldable pub handler_timeout : Clock → Session D C Conn → Session D C Conn
  unfolding handler_done
  handler_timeout clock s = handler_done (logout sql redis o p clock (send_msg "你被踢了!\n" s))
