-- ===== src/Connection/Steps.antt =====
-- A session as a state machine: the goroutines of a connection, and the rest of the program, take turns.
use h_go.Base.{◌≤◌, ◌≡◌, refl, String, Bool, length, arith, inl}
use h_go.Storage.{Database, Redis}
use h_go.Protocol.{Message}
use h_go.Logic.{Clock}
use h_go.Outside.{Outside, Bytes}
use h_go.Server.{Server}
use h_go.Session.{
  Session, Presence, with_server, send_msg, send_json, logout, listen, run_due, heartbeat_tick,
}
use h_go.Session.Invariant.{
  IsSession, with_server-IsSession, send_msg-IsSession, send_json-IsSession, logout-IsSession,
  listen-IsSession, run_due-IsSession, heartbeat_tick-IsSession,
}
use h_go.Connection.{Turn, process_raw_line, handler, handler_done, handler_timeout}
use h_go.Session.Standing.{
  HasGroups, send_msg-HasGroups, logout-HasGroups, listen-HasGroups, run_due-HasGroups,
  heartbeat_tick-HasGroups,
}
use h_go.Connection.Standing.{IsEntry, process_raw_line-IsEntry}
use h_go.Connection.Ending.{process_raw_line-IsSession}

module _ {D C Conn : Type 0} (sql : Database D) (redis : Redis C) (o : Outside) (p : Presence) where
  -- What the goroutines of a connection do: ManagerMessage reads a line, drops one that is too long, or comes to an
  -- error; ListenMessage writes a text or fails to; a Logout that SendMsg started runs; the heartbeat ticks; the handler
  -- ends, by itself or after 300 seconds.
  pub data Act : Session D C Conn → Session D C Conn → Type 0 where
    reads :
        (t : Turn) (raw : Bytes) {s : Session D C Conn}
        → Act s (process_raw_line sql redis o p t raw s).0
    drops : {s : Session D C Conn} → Act s (send_msg "消息长度超限，最多 1024 字节，本条已丢弃。\n" s)
    read_ends : (clock : Clock) {s : Session D C Conn} → Act s (logout sql redis o p clock s)
    listens :
        (written : Bool) (clock : Clock) {s : Session D C Conn}
        → Act s (listen sql redis o p written clock s).0
    logs_out : (clock : Clock) {s : Session D C Conn} → Act s (run_due sql redis o p clock s)
    ticks : {s : Session D C Conn} → Act s (heartbeat_tick sql redis o p s)
    handler_ends : {s : Session D C Conn} → Act s (handler_done sql redis o p s)
    times_out :
        (clock : Clock) {s : Session D C Conn} → Act s (handler_timeout sql redis o p clock s)

  -- What can happen to a session: its own goroutines, a message that a worker delivers, and other connections, which
  -- change the server.
  pub data Step : Session D C Conn → Session D C Conn → Type 0 where
    acts : {s s' : Session D C Conn} → Act s s' → Step s s'
    delivers : (m : Message) {s : Session D C Conn} → Step s (send_json o m s)
    others_change : (v : Server D C Conn) {s : Session D C Conn} → Step s (with_server s v)

  -- The sessions that a new connection can come to.
  pub data Reachable (conn : Conn) (addr : String) : Session D C Conn → Type 0 where
    begins : (v : Server D C Conn) → Reachable conn addr (handler sql redis o p conn addr v)
    then_steps :
        {s s' : Session D C Conn} → Reachable conn addr s → Step s s' → Reachable conn addr s'

  pub Act-IsSession : {s s' : Session D C Conn} → Act s s' → IsSession s → IsSession s'
  unfolding handler_timeout handler_done
  Act-IsSession (reads t raw) h = process_raw_line-IsSession sql redis o p t raw _ h
  Act-IsSession drops h = send_msg-IsSession _ _ h
  Act-IsSession (read_ends clock) h = (logout-IsSession sql redis o p clock _ h).0
  Act-IsSession (listens written clock) h = listen-IsSession sql redis o p written clock _ h
  Act-IsSession (logs_out clock) h = run_due-IsSession sql redis o p clock _ h
  Act-IsSession ticks h = heartbeat_tick-IsSession sql redis o p _ h
  Act-IsSession handler_ends h = with_server-IsSession _ _ h
  Act-IsSession (times_out clock) h =
      with_server-IsSession _ _
        (logout-IsSession sql redis o p clock _ (send_msg-IsSession _ _ h)).0

  Step-IsSession : {s s' : Session D C Conn} → Step s s' → IsSession s → IsSession s'
  Step-IsSession (acts a) h = Act-IsSession a h
  Step-IsSession (delivers m) h = send_json-IsSession o m _ h
  Step-IsSession (others_change v) h = with_server-IsSession _ v h

  -- What an act of a connection does to the groups.
  pub Act-IsEntry : {s s' : Session D C Conn} → Act s s' → IsEntry sql redis o p s s'.server
  unfolding handler_timeout handler_done HasGroups IsEntry
  Act-IsEntry (reads t raw) = process_raw_line-IsEntry sql redis o p t raw _
  Act-IsEntry drops = inl (send_msg-HasGroups _ _ _ refl)
  Act-IsEntry (read_ends clock) = inl (logout-HasGroups sql redis o p _ clock _ refl)
  Act-IsEntry (listens written clock) = inl (listen-HasGroups sql redis o p _ written clock _ refl)
  Act-IsEntry (logs_out clock) = inl (run_due-HasGroups sql redis o p _ clock _ refl)
  Act-IsEntry ticks = inl (heartbeat_tick-HasGroups sql redis o p _ _ refl)
  Act-IsEntry handler_ends = inl refl
  Act-IsEntry (times_out clock) =
      inl (logout-HasGroups sql redis o p _ clock _ (send_msg-HasGroups _ _ _ refl))

  pub handler-IsSession :
      (conn : Conn) (addr : String) (v : Server D C Conn)
      → IsSession (handler sql redis o p conn addr v)
  unfolding handler
  handler-IsSession conn addr v = send_msg-IsSession _ _ (unfold IsSession in (omega arith, refl))

  -- However the steps are ordered, the channel of a session never holds more than its ten texts, and the session is
  -- closed exactly if it was logged out.
  pub Reachable-IsUser :
      (conn : Conn) (addr : String) {s : Session D C Conn}
      → Reachable conn addr s
      → (length s.user.c ≤ 10) × (s.user.logged_out ≡ s.user.is_closed)
  unfolding IsSession
  Reachable-IsUser conn addr r = inside r
    where
      inside : {s : Session D C Conn} → Reachable conn addr s → IsSession s
      inside (begins v) = handler-IsSession conn addr v
      inside (then_steps r step) = Step-IsSession step (inside r)
