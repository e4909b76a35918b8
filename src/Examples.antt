-- ===== src/Examples.antt =====
-- The theorems at concrete inputs, and tests of the definitions. The children follow the components.
mod Scripted
mod Protocol
mod Hub
mod Screen
mod Settings
mod Link
mod Threads
mod Client
mod Stream
mod Remote
mod Network
mod Members
