-- ===== src/Lib.antt =====
-- vks4: a video conference server. Its services are models of their Go code.
--
-- A media worker (services/media-worker) holds rooms. A room knows its participants (WebRTC peers and
-- SIP peers), seats them in a table of twenty slots, forwards the sound of each on the track of its
-- slot, and hands the compositor a layout, which the active speaker detector drives. The router
-- (services/media-router) gives each room a worker and keeps the choice in Redis. The SIP gateway
-- (services/sip-gateway) answers calls, makes each a SIP peer of a worker, and keeps the table of calls
-- from the events of FreeSWITCH. The signaling service (services/signaling) talks to the browsers over
-- WebSockets: it knows who is in which room, passes on what one client says to the others, and asks the
-- worker for a client's peer. The control plane (services/control-plane) keeps users, rooms, layouts and
-- recordings in PostgreSQL, gives out the tokens that signaling checks, writes the names of rooms that SIP
-- calls resolve into Redis, and tells the worker and signaling what an operator changes.
--
-- The files, and the code that they model:
--   Common         Go's strings, maps, sorting, float64 (a parameter with named laws) and results
--   Worker         services/media-worker/internal: layout, asd, room, pipeline (the registry, and the
--                  peers and pads of a pipeline), httpapi
--   Router         services/media-router/internal: registry, dispatcher
--   Signaling      services/signaling/internal: protocol, session (the hub and the sessions)
--   Gateway        services/sip-gateway: internal/esl, internal/bridge, internal/sipsrv, cmd/bridge
--   Control        services/control-plane/internal: usecase, adapters/httpapi,
--                  adapters/mediarpc, the statements of adapters/repo, domain, pkg/errors
--   Examples       concrete inputs at which the theorems are applied
-- Each operation is a function of the state before it to the state after it and its answer. What a room
-- or a service asks of its surroundings (GStreamer, Pion, the network, Redis) is recorded as a list of
-- calls; what they answer is an argument. A record of the model has the fields of the Go struct in their
-- order, less mutexes, loggers and sockets.
--
-- Bounds: Go's `int` is an unbounded integer where its values stay small; the sums of digits of a
-- Content-Length, the 32-bit hash of a room, the 16-bit count of RTP ports and the 32-bit runes of itoa
-- wrap as in Go. Recursion is structural everywhere, so that no fuel is needed but for printing a number,
-- which takes as many rounds as the number has units. Where the code panics, the model says so: Close of a
-- closed room, rand.Intn without ports.
--
-- Not modelled: how GStreamer elements are made and what they do, Pion, sockets and the goroutines that copy
-- packets, JSON and the check of tokens (their results are arguments), metrics and logs, the web
-- client; of the control plane, the lists and other views that only read, and the client of
-- signaling, whose answers are arguments. Unique columns, CHECKs and foreign keys of a table show as
-- failures of a statement, which are arguments too. A handler runs
-- as one step: where the code releases a lock in between, the comment of the function says so.
pub mod Common
pub mod Worker
pub mod Router
pub mod Signaling
pub mod Control
pub mod Gateway
pub mod Examples
