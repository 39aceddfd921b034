-- ===== src/Lib.antt =====
-- The matchmaking server of this repository: a Go module, nextendo-nex, with the wire formats, the
-- connections and the handlers of a console's online protocols, and a program, server, that serves
-- them for one game. A console sends remote method calls (RMC) over packets; the endpoint keeps the
-- connections; the handlers of the matchmaking protocols keep one store of gatherings under a mutex,
-- answer, and push notifications to other connections.
--
-- Base has what all parts share: Boolean tests, lists and maps over native numbers, bits.
-- Wire models nextendo-nex/stream.go and the structure headers of nextendo-nex/types.go: Out writes,
-- In reads, with the sticky error of StreamIn, and Reads has the rules that make a round trip.
-- Session models nextendo-nex/matchmaking.go: the session, its variants and parameters, their codecs.
-- Rmc models nextendo-nex/rmc.go and nextendo-nex/resultcodes.go.
-- Kerberos models nextendo-nex/kerberos.go and `processLoginRequest` of
-- nextendo-nex/endpoint.go (Login); Tickets is about both.
-- Station models the station URLs of nextendo-nex/types.go: Parse reads them, RoundTrip is about their
-- text, Params about their integers.
-- Endpoint models the registry and the connections of nextendo-nex/endpoint.go and the evictions of
-- nextendo-nex/reaper.go.
-- Matchmaking models nextendo-nex/matchmaking_handlers.go, nextendo-nex/matchmaking_reservations.go,
-- nextendo-nex/notification.go, nextendo-nex/matchmaking_acnh.go and
-- nextendo-nex/matchmaking_notifdata.go. State is
-- `Matchmaking` and `gathering`; World is what a call reads besides (clock, environment, the runtime's
-- order of map iteration, connections) and what it does besides changing the store (pushes, reply).
-- Nat is the NAT classes; Reservations the two-step taking of a seat; Create, Join, Leave, Update and
-- SessionPart the handlers, function by function; Criteria and Queries the calls that look gatherings
-- up, Codes the room codes, NotifData what players publish for their friends. Each handler is one
-- step, since it holds the mutex.
-- The other modules are proofs: Seats on one gathering's seats, Invariant and Preservation on the
-- whole store, Steps on runs of the store, Selection on which gathering is taken, Placement on where
-- a player ends up, Departure on what leaving does, Attributes on the one loop whose length a request
-- sets, NatRules on NAT classes, QueryRules on what queries show, CodeRules on codes, NotifRules on
-- published events.
-- Tournament models nextendo-nex/tournament.go: Blob the structure that a creator sends and its code,
-- Store the tournaments and what is restored of them, Handlers the calls. Form describes the structure
-- part by part, Stamped what completing it yields; Rules, Invariant, Restart and Runs are on the
-- store. Saved is the flusher, the dirty flag and the start of a process, Survival what it keeps.
-- Ranking models nextendo-nex/ranking_board.go (Board) and nextendo-nex/ranking.go (Common); Best is on
-- the scores that are kept, Pages on what is shown, CommonRules on common data.
-- Traversal models nextendo-nex/secureconnection.go (Register), nextendo-nex/natbridge.go and the
-- addresses of a session (Bridge), and nextendo-nex/nattraversal.go (Probes); Rules is on the first two.
-- Dispatch models the three handlers of nextendo-nex/matchmaking_handlers.go, which choose a call by its
-- method number. Labels is on which number leads to which step of the stores, Effects on calls as a
-- client sees them, Rules has what they share.
-- Prudp models the packets of nextendo-nex/prudp_lite.go and `Feed` of nextendo-nex/endpoint.go. Stream
-- is about input in pieces, RoundTrip about encoded packets.
-- Fragments models how nextendo-nex/endpoint.go cuts a payload into packets and puts it together.
-- Acks models the data packets of nextendo-nex/endpoint.go in both directions, acknowledgements and
-- retransmission; Pending is about what is kept to be sent again.
-- Dedup models server/rmc_dedup.go: one turn of the loop in `wrap`, which the lock makes one step, and
-- the end of an execution. Table has the map's lemmas, Turns one turn, Runs any interleaving of turns
-- and ends, Replay the life of an answer. SHA-256 is a parameter.
-- Examples has concrete inputs and runs.
--
-- Numbers are natural numbers, with the wrap-around of fixed widths written out where the source
-- converts or counts. Times are nanoseconds. A Go map is an association list; where the source ranges
-- over one, the order is an input. Loops on fuel: extend_attribs, whose loop need
-- not end; the decoders of packets and options, each of whose turns takes twelve bytes or two, with
-- the length of the input as fuel, beyond which more changes nothing (Prudp/Stream, decode_loop_fuel);
-- and the decimal digits of a number, as many as its bound has.
-- The loop over fragments has 256 turns, since its counter is a byte.
--
-- Parameters: RC4, MD5 and HMAC, what reads or writes JSON, Go's calendar, `sort.Slice`, the checks of
-- the package net on an address, the file of observed ports, random bytes and the runtime's order of
-- map iteration.
--
-- Not modelled: sockets, TLS, cryptography, files, HTTP, logs and the dashboard, which are input and
-- output or library code; the packets SYN and CONNECT; the calls of the ticket-granting protocol; the
-- gates and the utility protocol.
pub mod Base
pub mod Wire
pub mod Session
pub mod Rmc
pub mod Kerberos
pub mod Station
pub mod Endpoint
pub mod Matchmaking
pub mod Tournament
pub mod Ranking
pub mod Traversal
pub mod Dispatch
pub mod Prudp
pub mod Fragments
pub mod Acks
pub mod Dedup
pub mod Examples
