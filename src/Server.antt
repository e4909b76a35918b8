-- ===== src/Server.antt =====
-- The server, CS2RemoteConsole-server/src. The children hold the client list, the start-up, the
-- handlers, the older free handler, the command line, and the proofs about each.
pub mod Utils
pub mod Clients
pub mod Startup
pub mod Handlers
pub mod FreeHandler
pub mod Options
pub mod Threads
pub mod Room
