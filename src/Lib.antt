-- ===== src/Lib.antt =====
-- Linkbit: a WireGuard network whose controller keeps users, devices and policies, and whose agents
-- ask it for their configuration, with relays for devices that cannot reach each other. This library
-- models the controller, the agent and the relay's registration, and states what makes them correct.
--
-- The parts and how they meet. A device registers with the key of an invitation and gets a token
-- (internal/controller/server.go, handleDeviceRegister). With the token it reports its health, asks
-- for its network configuration, and opens, polls and streams relay sessions
-- (internal/controller/tcp_relay.go). An admin's or a relay's API key opens the other routes. All of
-- them read and write one store (internal/store/sqlite/store.go); the relay sessions are in the
-- memory of the broker. Where the controller has a hub (internal/controller/wireguard_hub.go), it is
-- set up anew from the devices in the store after each registration and removal. The agent chooses
-- its keys and keeps them with its registration in a file (internal/agent/state.go), talks to the
-- controller through one client (internal/agent/client.go), makes its interface from the
-- configuration it gets (internal/agent/wireguard.go) and reports until it is stopped
-- (internal/agent/agent.go). A relay registers and sends heartbeats (internal/relay/relay.go).
--
-- The files:
-- Prelude: what the modules share. Booleans, an integer type, texts, association lists, rows of
--   tables (Select, Distinct), sorting.
-- Models: the records of internal/models/models.go. A time is the number of nanoseconds since the
--   zero time, an int is an integer, a float64 its bit pattern. A row of a table is the same record
--   with texts for its times; PolicyRow and InvitationRow have integers for their flags.
-- Auth: internal/auth/apikey.go. HMAC-SHA256 is a parameter.
-- Net: validWireGuardEndpoint (internal/controller/server.go) and ParseRelayTarget
--   (internal/agent/tcp_relay.go), with net.SplitHostPort, net.JoinHostPort and strconv.Atoi.
-- Store: internal/store/sqlite/store.go, a child for each kind of row. A method is a function on the
--   tables, and any statement may fail for a reason of the database's own. Write is the sum of the
--   methods that write, Unique and Revoked what every history of writes keeps.
-- Controller.Broker: TCPRelayBroker of internal/controller/tcp_relay.go. Each operation runs under
--   the broker's lock, so what goroutines do is a sequence of operations; PendingWait is three of
--   them, since it lets go of the lock. Connections are handles, and the broker's effects on them
--   are recorded.
-- Controller.Peers: allowedPeers and resolveRelayTarget.
-- Controller.Hub, Agent.WireGuard, Command: scripts of commands against any answers of the system,
--   and the plans that they follow.
-- Controller.DerpMap: buildDERPMap of internal/controller/derpmap.go.
-- Controller.Server, Guard, Enrolment, Admin, Requests: the handlers, one function each, which
--   return the response and the world that they leave: the store, the broker and the commands run.
--   Registration is split where another request may come between. Requests.Health and
--   Requests.Joining put handlers one after another: a report and a check of credentials, and the
--   opening, the poll and the two streams of a relay session.
-- Controller.Start, Status: NewServer, and the handlers that only show (/healthz, settings, metrics,
--   DERP map).
-- Controller.Routes: the routes with the check that stands before each, and what any sequence of
--   requests keeps.
--
-- Config: internal/config/config.go, with durations that wrap at 64 bits.
-- Agent.Outcome: a result with its error. Agent.Http, Agent.Client: the requests of
--   internal/agent/client.go and internal/agent/tcp_relay.go, each with what the controller's side
--   of the wire does to its world. Agent.Health: internal/agent/health.go.
-- Agent.State, Agent.Identity: internal/agent/state.go on a disk whose calls may fail.
-- Agent.Service: NewService and Run of internal/agent/agent.go, for any implementation of its
--   interfaces (Calls). The select of the loop receives a sequence of events, and a run that has
--   none left is waiting. Cases and Tunnel say how runs end, Loop what the loop does, Restart and
--   Again what a second run finds, File a file that is not read, Ticker the panic of time.NewTicker.
-- Agent.RelayTarget, Agent.Upgrade: internal/agent/tcp_relay.go. Goroutines are a sequence of
--   steps: a poll offers sessions, handlers end in any order.
-- Agent.Program: main of cmd/linkbit-agent/main.go behind the flags, with the client, the manager
--   of WireGuard and the file put together. Restarts follows a sequence of its runs.
-- Agent.Wire, Relay.Answers: the controller's handlers at the other end of the wire, by the
--   method and the path of a request. What net/url and the mux make of the segment of a path that
--   stands for an id is a parameter (`path_value`). Agent.Sample is the test data.
-- Relay: internal/relay/relay.go. Loop and Forgotten follow its heartbeats.
--
-- Loops are recursion on the list of events, steps or rows that they consume. The one fuel is that
-- of skip_headers in Agent.Upgrade, the length of the text that is read: enough, since each line
-- takes at least one character. Nothing bounds the number of rows, requests, sessions or events.
--
-- Parameters of the model: the text forms of times and of lists (time.RFC3339Nano, encoding/json)
-- with the law that they are read back (CodecLaws: a time only before the year 10000), the order
-- in which Go ranges over the regions of a DERP map, the HMAC, the random source, the clock,
-- UUIDs, net.ParseIP, url.Parse, strings.EqualFold, the operating system's answers to commands,
-- and the statements of the database that fail (an update's RowsAffected does not: the driver has
-- the number). strings.TrimSpace is modelled for ASCII white space.
--
-- On the agent's side also: the file system's calls that fail, the JSON text of the state file with
-- the law that it is read back, base64, SHA-256 and Curve25519, the environment, net/http's
-- transport, net.Dial and the TLS handshake.
--
-- Not modelled: logging, the decoding of request bodies (a body is decoded or not), the copying of
-- bytes between streams, the headers of responses, flags and signals, the other commands' main
-- functions and the agent's forward command, the DERP server, static files, the tray and the remote
-- desktop, the web console and the desktop client. The goroutine of the relay target runs beside
-- the service's loop and shares only the client with it, so the two are modelled one by one.
pub mod Prelude
pub mod Models
pub mod Net
pub mod Command
pub mod Auth
pub mod Store
pub mod Controller
pub mod Config
pub mod Agent
pub mod Relay
