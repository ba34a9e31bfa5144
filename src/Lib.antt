-- ===== src/Lib.antt =====
-- The verification of goim, an instant-messaging server in Go over TCP.
--
-- A connection that internal/server lets in is read by lines (conn.go). Its user (internal/session) first registers or logs in,
-- against the users that internal/dao stores; then each line is a command, or a message of the protocol in JSON. What goes
-- back to the user waits in a channel of ten texts.
--
-- A client sends a message over its connection. LogicService (internal/server/logic.go) gives it a sequence number of
-- its chat and a server id and saves it with one delivery for each recipient in InMemoryStore (internal/store), which
-- keeps everything in maps and, where there is one, in MySQL, with Redis as a cache of lists. The id goes on the queue of
-- Worker (internal/delivery/worker.go), whose one goroutine hands the message to each recipient who is online and plans
-- a retry for each who is not. Acknowledgements change the delivery. GroupManager (internal/server/group.go) keeps
-- the groups, and internal/server/conn_security.go decides which connections are let in.
--
-- Which file models which part:
--   Program       main.go, internal/storage/db.go, the client of internal/cache/redis.go and internal/server/start.go: from the
--                 environment to the accept loop. Program/Starting is about the dsn that is opened and the client that is connected.
--   Network       all connections with the server that they share, as a step relation: acceptLoop of internal/server/accept.go, the
--                 goroutines of Handler, and the two of the worker. Network/Invariant and Network/Rights have its theorems.
--   Protocol      internal/protocol/protocol.go: Message.
--   Storage       internal/storage/model.go: the rows; the statements that the code builds with gorm, and the calls of the Redis
--                 client, as the records Table, Database and Redis. Storage/Sample is an instance of them, for the tests.
--   Store         internal/store: InMemoryStore. Store/Helpers is helpers.go and convert.go; Store/Deliveries the map of the
--                 deliveries; Store/Messages, Store/Delivery, Store/Retry and Store/History the source files of these names,
--                 each with its theorems below it; Store/Lifecycle is about all of them together, and Store/Durable about the deliveries in memory and
--                 their rows.
--   Logic         internal/server/logic.go: LogicService.
--   Server        internal/server/server.go, messages.go, broadcast.go, api.go, bootstrap.go, accept.go and start.go: the state of
--                 the server, and what it does with a connection and with a message of the protocol; Server/Stats is stats.go,
--                 Server/Resend, Server/Broadcast, Server/Arrival and Server/Reaching have theorems.
--   Session       internal/session: a user with his channel, and the server that he shares with the others. Session/Auth is
--                 auth.go, Session/Commands commands.go, Session/Dispatch dispatch.go, each with its theorems below it;
--                 Session/Invariant, Session/Keeping, Session/Standing and Session/Requests say what every command keeps,
--                 Session/Leaving who is online.
--   Svcapi        internal/svcapi/api.go: the interfaces between the session and the server, with their instances, among them the
--                 methods of internal/server/api.go that only pass a call on; Svcapi/Contract is the contract of a group manager.
--   Connection    internal/server/conn.go: from the pieces of a line to the commands. Connection/Lines is about the reader,
--                 Connection/Guard about users who have not logged in (Session/Auth/Lookups has what their lines may do to the store), Connection/Standing about what a line does to the groups,
--                 Connection/Ending about the end of a connection, and Connection/Steps has the goroutines of a session as a
--                 step relation.
--   Dao           internal/dao: the queries on users, messages and recipients.
--   Env           internal/utils/env.go; Env/Settings the settings that main.go, bootstrap.go and internal/cache/redis.go read.
--   Outside       what the session takes from packages that are not the program's: JSON, time formats, bcrypt, decoders.
--   Worker        internal/delivery/worker.go: Worker. Worker/Queue has the queue as a step relation, Worker/Progress the
--                 rounds of its loop, Worker/Deliver the delivery of one message, Worker/Calls what
--                 it sends to whom, Worker/Loop and Worker/Sparing the loop with its deliveries,
--                 Worker/Recovering what a list of ids leaves on the channel.
--   Group         internal/server/group.go: GroupManager. Group/Invariant, Group/Order, Group/Rights, Group/Changes and Group/Views
--                 have its theorems, Group/Replay reads it as functions from names to owners and roles.
--   Security      internal/server/conn_security.go: the blacklist and the limit on connections.
--   Utils         internal/utils/helpers.go: C2CChatID.
--   Text          what the code uses of the packages strings and strconv.
--   Base          what the files share: the libraries' names, tests, lists, maps and integers.
--
-- How the code is modelled. A method is a function from the state, its arguments and the time to the new state and the
-- results; a method that holds its lock throughout is one step. An operation of the code is named as in the source, in
-- lower case: SaveMessageWithRecipients is save_message_with_recipients. A map is an association list, Dict, and its order
-- stands for the order in which Go visits the keys. A pointer that only a map holds is its value, so that cloneMessage is
-- the identity. An `error` is an optional text. A uint64 wraps at 2^64, a time.Duration is an int64; a counter
-- of type `int` that begins at 0 and grows by one is a natural number without a bound. A time is a number of
-- nanoseconds since 1970.
--
-- The database, the cache and the functions of Outside are parameters, about which only the theorems of Session/Auth/Roundtrip and
-- Store/Durable assume anything, as hypotheses that Storage/Sample, Session/Sample and Store/Durable/Tests show to hold of an
-- instance. Store/Durable asks this only of updates that answer no error. The theorems that speak of
-- both modes hold whatever the database and the cache answer, and those about memory alone ask that `persistent` is false.
--
-- A reader is the list of what its calls will give. Two loops have fuel: reverse_messages the index from which it counts
-- down, which is at least the number of rounds, and manager_message a number of rounds, for which one more than the calls of
-- the reader is enough. The functions atoi, show and split recurse on bounds in their arguments that are large enough.
--
-- The channel isLive of a connection is in manager_message: whether a signal was sent, and, for each round, whether Handler has
-- received it by the next send, which is an argument. After its 300 seconds Handler receives nothing any more, and a reader
-- that sends twice after that is stuck. In Network, where a line is one step, the signals are left out.
--
-- A delivery reads the clock once in the turn of each recipient. The start recovers the waiting
-- messages before the worker takes the first id, where the code has begun the worker's goroutines just before.
--
-- A session is its user and the server. What another goroutine does in between is a step of its own: a logout that is due, a
-- tick of the heartbeat, a message that a worker delivers, or any change of the server. In Network the user of a connection
-- is his position in the list of users; the reading of one line, one delivery with its calls of SendJSON, and one tick of the
-- retry loop are single steps there, while Worker/Queue has the smaller steps of the channel and the set in flight.
--
-- Not modelled: sockets and their deadlines, the division of MsgPerSec, and the JSON, gorm, MySQL,
-- Redis, bcrypt and net packages, which are not the program's. Opening and migrating the database, connecting to Redis, listening
-- and taking an address apart are parameters. The store is made with the client of Redis in it, which the program connects at the
-- first call that needs it.
pub mod Base
pub mod Text
pub mod Utils
pub mod Protocol
pub mod Group
pub mod Store
pub mod Logic
pub mod Worker
pub mod Server
pub mod Session
pub mod Connection
pub mod Dao
pub mod Env
pub mod Network
pub mod Outside
pub mod Program
pub mod Security
pub mod Storage
pub mod Svcapi
