-- ===== src/Connection/Ending.antt =====
-- A connection from its first line to its last: what its session keeps, and that it ends.
use h_go.Base.{
  ℕ, zero, suc, ◌+◌, ◌<◌, ◌≡◌, ◌⊎◌, ◌||◌, refl, String, Bool, true, false, not, ◌&&◌, Bool-cases,
  List, [], ◌∷◌, ◌++◌, ltb, length, arith, Option-cases, inl, inr, cat, if◌then◌else◌,
}
use h_go.Text.Trim.{trim_space}
use h_go.Text.Split.{split_cuts}
use h_go.Storage.{Database, Redis}
use h_go.Protocol.{Message}
use h_go.Outside.{Outside, Outcome-cases, Bytes}
use h_go.Server.{mark_inbound_message, handle_message}
use h_go.Session.{Session, Presence, with_server, send_msg, send_json, logout}
use h_go.Session.Invariant.{
  IsSession, send_msg-IsSession, send_json-IsSession, logout-IsSession, with_server-IsSession,
}
use h_go.Session.Dispatch.Bounds.{do_message-IsSession}
use h_go.Session.Auth.{register, login}
use h_go.Session.Auth.Keeping.{register-IsSession, login-IsSession}
use h_go.Connection.{
  Read, chunk, broken, Line, whole, too_long, stopped, discard, concat, read_from, read_raw_line,
  max_message_length, decode_input_text, Turn, auth_register, auth_login, handle_auth_command,
  send_all, known_line, process_raw_line, manager_message, returned, blocked, three_parts,
  login_parts,
}

Line-cases :
    (l : Line) → ((b : Bytes) × (l ≡ whole b)) ⊎ ((l ≡ too_long) ⊎ ((e : String) × (l ≡ stopped e)))
Line-cases (whole b) = inl (b, refl)
Line-cases too_long = inr (inl refl)
Line-cases (stopped e) = inr (inr (e, refl))

-- Whether a call of readRawLine gave an error.
abbrev pub is_stop : Line → Bool
is_stop (stopped e) = true
is_stop _ = false

-- The call ended with an error, or left fewer reads than `n`.
abbrev shrinks : ℕ → Line × List Read → Bool
shrinks n (line, rest) = is_stop line || ltb (length rest) n

shrinks-suc : (n : ℕ) (r : Line × List Read) → shrinks n r ≡ true → shrinks (suc n) r ≡ true
shrinks-suc n (line, rest) h = ground arith

discard-shrinks :
    (more : Bool) (reads : List Read) → shrinks (suc (length reads)) (discard more reads) ≡ true
unfolding discard
discard-shrinks false reads = ground arith
discard-shrinks true [] = refl
discard-shrinks true (broken e ∷ reads) = refl
discard-shrinks true (chunk b more ∷ reads) =
    shrinks-suc (suc (length reads)) _ (discard-shrinks more reads)

chosen-shrinks :
    (long more : Bool) (b : Bytes) (reads : List Read) (d r : Line × List Read)
    → shrinks (suc (length reads)) d ≡ true
    → shrinks (length reads) r ≡ true
    → shrinks (suc (length reads)) (if long then d else if not more then (whole b, reads) else r)
      ≡ true
chosen-shrinks true more b reads d r hd hr = hd
chosen-shrinks false true b reads d r hd hr = shrinks-suc (length reads) r hr
chosen-shrinks false false b reads d r hd hr = ground arith

read_from-shrinks :
    (total : ℕ) (parts : List Bytes) (reads : List Read)
    → shrinks (length reads) (read_from total parts reads) ≡ true
unfolding read_from
read_from-shrinks total parts [] = refl
read_from-shrinks total parts (broken e ∷ reads) = refl
read_from-shrinks total parts (chunk b more ∷ reads) =
    chosen-shrinks (ltb max_message_length (total + length b)) more (concat (parts ++ b ∷ [])) reads
      (discard more reads) (read_from (total + length b) (parts ++ b ∷ []) reads)
      (discard-shrinks more reads) (read_from-shrinks (total + length b) (parts ++ b ∷ []) reads)

-- A call of readRawLine ends with an error, or leaves fewer reads than there were.
read_raw_line-shrinks : (reads : List Read) → shrinks (length reads) (read_raw_line reads) ≡ true
unfolding read_raw_line
read_raw_line-shrinks reads = read_from-shrinks 0 [] reads

module _ {D C Conn : Type 0} (sql : Database D) (redis : Redis C) (o : Outside) (p : Presence) where
  auth_register-IsSession :
      (t : Turn) (msg : String) (s : Session D C Conn)
      → IsSession s
      → IsSession (auth_register sql redis o p t msg s).0
  unfolding auth_register
  auth_register-IsSession t msg s h = elim (Option-cases (three_parts (split_cuts "|" 2 msg))) [
    | inl e ↦ ground (arith, send_msg-IsSession "注册格式错误，正确用法：register|用户名|密码\n" s h)
    | inr ((name, password), e) ↦
        (let (s', err) = register sql redis o p t.clock t.salt (trim_space name) password s in
          let kept =
            register-IsSession sql redis o p t.clock t.salt (trim_space name) password s h in
          elim (Option-cases err) [
            | inl n ↦
                ground
                  (arith, send_msg-IsSession (cat "注册并登录成功，欢迎：" (cat s'.user.name "\n")) s' kept)
            | inr (x, n) ↦ ground (arith, send_msg-IsSession (cat "注册失败：" (cat x "\n")) s' kept)
          ])
  ]

  auth_login-IsSession :
      (t : Turn) (msg : String) (s : Session D C Conn)
      → IsSession s
      → IsSession (auth_login sql redis o p t msg s).0
  unfolding auth_login
  auth_login-IsSession t msg s h =
      elim (Option-cases (login_parts (three_parts (split_cuts "|" 2 msg)))) [
        | inl e ↦ ground (arith, send_msg-IsSession "登录格式错误，正确用法：login|用户名|密码\n" s h)
        | inr ((name, password), e) ↦
            (let (s', err) = login sql redis o p t.clock (trim_space name) password s in
              let kept = login-IsSession sql redis o p t.clock (trim_space name) password s h in
              elim (Option-cases err) [
                | inl n ↦
                    ground
                      (arith, send_msg-IsSession (cat "登录成功，欢迎回来：" (cat s'.user.name "\n")) s' kept)
                | inr (x, n) ↦ ground (arith, send_msg-IsSession (cat "登录失败：" (cat x "\n")) s' kept)
              ])
      ]

  handle_auth_command-IsSession :
      (t : Turn) (msg : String) (s : Session D C Conn)
      → IsSession s
      → IsSession (handle_auth_command sql redis o p t msg s).0
  unfolding handle_auth_command
  handle_auth_command-IsSession t msg s h = ground (
    arith,
    auth_register-IsSession t msg s h,
    auth_login-IsSession t msg s h,
    send_msg-IsSession "请先注册或登录。注册: register|用户名|密码  登录: login|用户名|密码\n" s h,
  )

  send_all-IsSession :
      (ms : List Message) (s : Session D C Conn)
      → IsSession s
      → IsSession (send_all sql redis o p ms s)
  unfolding send_all
  send_all-IsSession [] s h = h
  send_all-IsSession (m ∷ ms) s h =
      send_all-IsSession ms (send_json o m s) (send_json-IsSession o m s h)

  known_line-IsSession :
      (t : Turn) (msg : String) (s : Session D C Conn)
      → IsSession s
      → IsSession (known_line sql redis o p t msg s).0
  unfolding known_line
  known_line-IsSession t msg s h = elim (Outcome-cases (o.from_json msg)) [
    | inl (m, e) ↦
        (let (v, answers) = handle_message sql redis t.clock s.user.name m s.server in
          ground (
            arith,
            do_message-IsSession sql redis o p t.clock msg s h,
            send_all-IsSession answers (with_server s v) (with_server-IsSession s v h),
          ))
    | inr (x, e) ↦ ground (
      arith,
      do_message-IsSession sql redis o p t.clock msg s h,
      send_msg-IsSession (cat "非法 JSON 协议: " x) s h,
    )
  ]

  pub process_raw_line-IsSession :
      (t : Turn) (raw : Bytes) (s : Session D C Conn)
      → IsSession s
      → IsSession (process_raw_line sql redis o p t raw s).0
  unfolding process_raw_line
  process_raw_line-IsSession t raw s h =
      let msg = trim_space (decode_input_text o raw) in
      let s' = with_server s (mark_inbound_message s.server) in
      let kept = with_server-IsSession s (mark_inbound_message s.server) h in
      ground
        (arith, handle_auth_command-IsSession t msg s' kept, known_line-IsSession t msg s' kept)

  -- With more rounds than there are reads, from a session whose channel is within its capacity and which is closed exactly
  -- if it was logged out, the reader of a connection does not go on for good, whatever the lines were: either it returns,
  -- with the session logged out and closed, or it is stuck at a signal of a line, and then Handler did not receive
  -- the signal before.
  pub manager_message-closed :
      (fuel : ℕ) (turns : ℕ → Turn) (heard : ℕ → Bool) (full : Bool) (reads : List Read)
      (s : Session D C Conn)
      → IsSession s
      → length reads < fuel
      → let end = manager_message sql redis o p fuel turns heard full reads s in
        ((s' : Session D C Conn) × (end ≡ returned s')
          × (s'.user.logged_out ≡ true)
          × (s'.user.is_closed ≡ true))
        ⊎ ((s' : Session D C Conn) × (n : ℕ) × (end ≡ blocked s') × (n < fuel) × (heard n ≡ false))
  unfolding manager_message IsSession
  manager_message-closed zero turns heard full reads s h enough = absurd (omega arith)
  manager_message-closed (suc fuel) turns heard full reads s h enough =
      let (line, rest) = read_raw_line reads in
      let later : ℕ → Turn = λ n. turns (suc n) in
      let heard_later : ℕ → Bool = λ n. heard (suc n) in
      let shorter = read_raw_line-shrinks reads in
      elim (Line-cases line) [
        | inl (raw, e) ↦
            (let (s', signal) = process_raw_line sql redis o p (turns 0) raw s in
              let kept = process_raw_line-IsSession (turns 0) raw s h in
              elim (Bool-cases (signal && full && not (heard 0))) [
                | inl stuck ↦ inr (s', zero, ground arith, omega arith, ground arith)
                | inr sent ↦
                    elim (manager_message-closed fuel later heard_later (full || signal) rest s'
                      kept (ground arith)) [
                        | inl (end, q, out, closed) ↦ inl (end, ground arith, out, closed)
                        | inr (end, n, q, few, unheard) ↦
                            inr (end, suc n, ground arith, omega arith, unheard)
                      ]
              ])
        | inr (inl e) ↦
            (let text : String = "消息长度超限，最多 1024 字节，本条已丢弃。\n" in
              elim (manager_message-closed fuel later heard_later full rest (send_msg text s)
                (send_msg-IsSession text s h) (ground arith)) [
                  | inl (end, q, out, closed) ↦ inl (end, ground arith, out, closed)
                  | inr (end, n, q, few, unheard) ↦
                      inr (end, suc n, ground arith, omega arith, unheard)
                ])
        | inr (inr (x, e)) ↦
            (let ended = logout-IsSession sql redis o p (turns 0).clock s h in
              inl
                (logout sql redis o p (turns 0).clock s, ground arith, ground arith, ground arith))
      ]
