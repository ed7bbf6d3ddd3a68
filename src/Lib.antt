-- ===== src/Lib.antt =====
-- code-quest is a web front end for command line coding agents. A server starts one process of a
-- provider for each channel and passes its messages on to the browsers that follow the channel; a
-- browser sends requests to the process through the server. Everything in between may fail: the
-- connection of a browser, the process, the disk. This library models the parts that carry that
-- traffic and keep it in order, and the pure functions around them.
--
-- How the parts interact: the browser's WsClient (Transport.Client) speaks Envelopes
-- (Transport.Envelope) over a WebSocket to the socket that WsTransport gives a connection
-- (Transport.Wire), once the middleware has let the request pass (Transport.Pipeline). A
-- ResumableSocket (Transport.Resumable) stands before that socket; it outlives the
-- connection and replays what the client has missed; a registry (Transport.Registry) finds it again
-- by the session's key. On the server the ChannelEmitter (Hub.Emitter)
-- knows which socket follows which channel and dispatches events to handlers, the ChannelManager
-- (Hub.Manager) owns the channels, a Channel (Hub.Channel) listens to its process and keeps its control
-- requests in a ControlRequestTracker (Hub.Tracker), and the RawRecorder (Hub.Recorder) stores the
-- raw lines of the process. Agents on other machines are reached over an RpcChannel
-- (Transport.Rpc), which a connection loop (Transport.Loop) keeps up.
--
-- Files and the code that they model:
--   Transport/Envelope      packages/transport/src/envelope.ts
--   Transport/Resumable     packages/transport/src/resumable-socket.ts
--   Transport/Rpc           packages/transport/src/rpc-channel.ts
--   Transport/Client        packages/transport/src/ws-client.ts
--   Transport/Wire          packages/transport/src/ws-transport.ts and middleware/resumable.ts
--   Transport/Loop          packages/transport/src/connection-loop.ts
--   Transport/Pipeline      packages/transport/src/pipeline.ts, the middleware auth, bearer-auth,
--                           bearer-token and heartbeat, and WsTransport.runMiddleware
--   Transport/Registry      packages/transport/src/middleware/resumable.ts
--   Broadcaster             packages/broadcaster/src/broadcaster.ts
--   Git                     packages/git/src/worktree.ts, and the validators of names in
--                           packages/utils/src
--   Hub/Tracker             apps/server/src/socket/control-request-tracker.ts
--   Hub/Channel             apps/server/src/socket/channel.ts
--   Hub/Emitter             apps/server/src/socket/channel-emitter.ts
--   Hub/Manager             apps/server/src/socket/channel-manager.ts, and the two callbacks in
--                           handlers/app.ts and bin/server.ts that move a socket
--   Hub/Recorder            apps/server/src/socket/raw-recorder.ts and raw-classifier.ts
--   Files                   packages/filesystem/src/is-path-within.ts and root-guard-filesystem.ts
--   Timeline                apps/web/src/utils/timeline-utils.ts
--   Topics                  packages/utils/src/topic-emitter.ts
--   Streaming               apps/web/src/contexts/channel/handlers/streaming.ts
--   Controls                apps/server/src/socket/handlers/permission.ts,
--                           apps/web/src/contexts/channel/handlers/permission.ts and
--                           ChannelControlContext.tsx beside it
--   Router                  apps/web/src/contexts/channel/socket-router.ts
--   Sessions                packages/session-store/src/jsonl, session-migrator.ts
--                           and writer/jsonl-file-writer.ts
--   Common                  strings, JSON, the JavaScript Map and Set, lemmas
--
-- How the code is modelled: an object is a record, a method a function from the state to the new
-- state and the list of its effects outside (messages sent, promises settled, callbacks called, timers
-- cleared), under the method's name in snake case. What the platform does (a message arrives, a timer
-- fires, a socket closes, the store answers) is a step, and a history is a list of steps in any
-- order, so that interleavings are covered by induction over that list. A string is the list of its
-- code units; a JavaScript Map is an association list in the order of insertion, and a Set a list
-- without repetitions. Numbers are natural numbers. A JSON value is a data type, and what a zod
-- schema makes of a payload is an argument.
--
-- Bounds and fuel: the loops of the program are structural recursion here, over the list that the
-- code goes over, except that Hub/Recorder/Order lets the store answer a number of times, one more than
-- the buffer has lines. The capacity of a buffer, the outbox limit and the delays are parameters;
-- the cap of the recorder's buffer is the code's 1000.
--
-- Not modelled: rendering, the zod schemas, the databases and the reading of session files, the
-- providers' adapters, calls of git besides those for worktrees and of the operating system, and the
-- socket handlers besides those of connections and of permissions. Random ids, clocks and jitter are
-- arguments, and so is what the platform or another program computes: the decoding of base 64, the
-- parsing of JSON and of dates, and the answers of git. Exceptions inside
-- callbacks are modelled in the emitters' dispatch only, and the
-- microtasks between two promises of one chain of the recorder are taken together.
pub mod Broadcaster
pub mod Common
pub mod Transport
pub mod Git
pub mod Hub
pub mod Files
pub mod Controls
pub mod Router
pub mod Sessions
pub mod Streaming
pub mod Timeline
pub mod Topics
