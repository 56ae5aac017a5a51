-- ===== src/Lib.antt =====
-- A verification library for the SSH server (package `ssh`, the Go files at the repository's root).
--
-- The server accepts connections under limits on their number, runs the handshake, and hands channels,
-- sessions and global requests to handlers. The parts modelled here, and their files:
--
-- Prelude: tests, lists over native numbers, and integers with the wrap-around of a Go `int`.
-- Codec: codec-util.go. `parsePtyRequest`, `parseWinchRequest` and their helpers are functions of the
--   payload's bytes (numbers below 256); `ok = false` is `none`. The width of `int` is a parameter.
-- Algorithm, Cipher, KeyExchange, MessageAuthentication: cipher.go, key-exchange.go and
--   message-authentication.go. The three files have the same code over different tables, so Algorithm
--   has it once over a table, and the others instantiate it with the table of their file.
-- Errors: error trees as `errors.Is`, `errors.As` and `Unwrap` see them, with `isOnlyError` and
--   `resolveErrorLocation` (error-handling.go) and `exclusiveSessionExitError` (session.go). An error's
--   identity, which Go compares as an interface value, is a number.
-- Limiter: `resourceLimiter` and `connectionChannelLimiter` (server.go). Counters live in a store, so
--   that limiters share them; Limiter/Concurrent has the atomic steps of callers that interleave, on a
--   limiter that counts and on one that does not.
-- Startups: `MaxStartupsConfig`, `effectiveMaxStartups` and `maxStartupsDropRate` (server.go).
-- Lifecycle: `serveContext` (lifecycle.go). Its methods run under one mutex, so each is a function of
--   the state; connections are addresses in a heap. What closing the listener gives, the random
--   number of the early drop, and `errors.Join` are parameters. Lifecycle/Runs takes the methods in any
--   order, and Lifecycle/Shutdown has the parts of `shutdown`.
-- Response: `requestResponse` (request.go), one function for each critical section; Response/Interleaved
--   has the steps of the callers that interleave. What `request.Reply` gives is a parameter.
-- Resources: `connectionResources` and the acquisitions (context.go), in the same way.
-- Dispatch: `errorResponse`, `nextErrorHandler` and `dispatchError` (error-handling.go). The handler of
--   the application is a tree of the calls that it makes, in the order in which it makes them; a call may
--   also be left running in a goroutine. Responders and default actions are parameters.
-- NewChannel: `trackedNewChannel` (server.go), in the same way as Response; what the SSH library gives for
--   `Accept` and `Reject` is a parameter.
-- ErrorNames: the text forms of `ErrorScope` and `ErrorOperation` (error-handling.go), over the generic
--   tables of Algorithm.
-- Deadlines: `earliestDeadline` and the delay of `waitForRetry` (server.go).
-- SessionWindow: `mergeWindow` (session.go).
-- Session: a session (session.go). State has its fields; Requests, Settings and Loop are
--   `handleRequests`, one function for each request type, over a sequence of requests that comes from
--   the peer. Before a request stand the calls that the application makes meanwhile, among them the turns
--   of `drainSignals`. Deferred is `waitDeferredSubsystem`, CallbackError `reply`, `handleCallbackError`
--   and, with the error handler of the session, `dispatchErrorOrEscalate`, Signals the buffer and the
--   channels of signals, and Exit what the application calls: `Signals`, `Break`, `Exit`, `Close`, `Write`,
--   and the methods of the channel that the session embeds. Replies, Fair, Waiting, Limits,
--   Frozen and Lost are about the loop. Finish is the goroutine of `startHandler` from the return of the
--   handler on, and Write is `Write`. `gossh.Unmarshal`, `Reply`, the application's callbacks and what
--   becomes of a signal that is sent are parameters.
-- GlobalRequests: `handleRequests` of the server and `handleRequestReplyError` (server.go). The handler of a
--   request and the error handler are trees of their calls, and run on the response of Response.
-- ServerConn: `serverConn` (conn.go), with the clock and the transport's answers as parameters.
--
-- Loops are structural recursion, on the payload, the list or the tree, so no fuel is needed;
-- `parseTerminalModes` consumes five bytes in a step, which its clauses match. The loop of a session runs
-- on fuel, since a deferred subsystem may read requests that the loop then does not see; more fuel than
-- there are requests is enough, and the theorems on the loop say so.
--
-- Not modelled: network and file system operations, the SSH transport of golang.org/x/crypto/ssh,
-- logging, the wrappers that only pass on a call; and the
-- set-up of connections, authentication, forwarding and the copy loops.
pub mod Prelude
pub mod Codec
pub mod Algorithm
pub mod Errors
pub mod Limiter
pub mod Startups
pub mod Lifecycle
pub mod Response
pub mod Resources
pub mod Dispatch
pub mod NewChannel
pub mod ErrorNames
pub mod Deadlines
pub mod SessionWindow
pub mod Session
pub mod GlobalRequests
pub mod ServerConn
pub mod AlgorithmTables
pub mod AlgorithmExamples
pub mod Cipher
pub mod KeyExchange
pub mod MessageAuthentication
