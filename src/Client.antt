-- ===== src/Client.antt =====
-- The client around its console and its screen: the threads of
-- CS2RemoteConsole-client/src/connection, and what main.cpp puts together.
pub mod Utils
pub mod Console
pub mod Remote
pub mod App
pub mod Shutdown
