-- ===== src/VConsole.antt =====
-- libvconsole: the VConsole2 protocol client of libvconsole/src. The children hold the message
-- structs, the memory reads, the parsers, the command encoder and the session object.
pub mod Messages
pub mod Memory
pub mod Parse
pub mod Command
pub mod Session
