-- ===== src/Tui.antt =====
-- The text user interface, CS2RemoteConsole-client/src/tui. The children hold the state, the
-- colours, the console window and the keyboard.
pub mod State
pub mod Colors
pub mod Console
pub mod Input
pub mod Display
