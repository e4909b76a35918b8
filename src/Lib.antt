-- ===== src/Lib.antt =====
-- CS2RemoteConsole: a client that joins the console of Counter-Strike 2, through the library
-- libvconsole, to a text user interface and to a server, from which commands reach many clients.
--
-- The parts and the files that model them:
--   libvconsole/src: VConsole.antt. VConsole/Messages has the structs of messages.h, VConsole/Memory
--     the reads of a chunk's memory, VConsole/Parse the parsers parseAINF to parseCFGV,
--     VConsole/Command createCommandPayload, and VConsole/Session the class VConsole with connect,
--     disconnect, sendCmd, readChunk, processIncomingData and processPacket.
--   CS2RemoteConsole-server/src: Server.antt. Server/Clients has the client list and its operations,
--     Server/Startup Server::start, Server/Handlers handleClient, handleClientMessage and
--     userInputHandler, Server/Threads run with the accept thread, the client threads and the
--     operator, Server/Room what these do to the set of members and their names, Server/Options
--     main.cpp, Server/Utils setNonBlocking, and Server/FreeHandler client_handler.cpp.
--   CS2RemoteConsole-client/src/tui: Tui.antt, with Tui/State, Tui/Colors (mapTo256Color,
--     initializeColor, registerChannel), Tui/Console (addConsoleMessage, scrollConsole,
--     drawConsoleWindow), Tui/Input (handleInput) and Tui/Display (init, the windows and run).
--   CS2RemoteConsole-client/src/config.cpp: Config.antt.
--   CS2RemoteConsole-client/src/connection and main.cpp: Client.antt. Client/Console has the threads
--     of connection_cs2console.cpp as a step relation, Client/Remote the functions of
--     connection_remoteserver.cpp, its threads with cleanupRemoteServer as another step relation, and
--     handlePRNT, Client/App the callbacks, the start of main, and the listener on a stream, and
--     Client/Shutdown both links' threads while main is in gracefulShutdown.
--   CS2RemoteConsole-client/src/utils.cpp: Client/Utils.antt. common/platform.h: Platform.antt.
--   The programs together: EndToEnd.antt, with the way of a line of the operator to the game in
--     EndToEnd/Command and that of a player's name to the server in EndToEnd/Name.
-- A function keeps the name of the C++ function in snake case, and a class is a record of its
-- members that each method takes and returns. Base.antt holds shared lemmas and Examples.antt the
-- theorems at concrete inputs.
--
-- How the model stands to the code:
--   Sockets are a parameter, the record of Net.antt: any functions on a world that holds the rest.
--     Net/Pipe has what TCP promises of a connection of two of them: that all that was sent has arrived
--     is a condition on a state, which the theorems on a whole way name.
--     What the system is documented to do, that recv returns no more bytes than asked for, that a
--     connection gives the bytes that were sent in their order, and that descriptors are as open as
--     the calls leave them, is a hypothesis of the theorems that need it. So is what start finds: that
--     the same ports can be bound as long as it runs.
--   An access outside a chunk, or through a dangling reference, is the result `none`.
--   Words are native numbers with their wrap-around written out; an int32_t is its bit pattern; the
--     host is little-endian, and a float is the pattern of its bytes.
--   Server::start loops on fuel. With d + 1 rounds it ends where the first free port lies d steps on.
--     The other loops run over a list of what they meet, or are modelled a round or a step at a time,
--     since they end when their peer or the operator does.
--   The threads of the server hold references into a vector; a reference is a storage block and an
--     index, and a vector that is full moves to a new block of twice its size, as in libstdc++.
--     A vector's other growth policies differ in the capacity only.
--   Curses calls are recorded as lists: the lines of the console window in one, and what is asked of
--     the windows in another. The calls that set the terminal up at the start of init are left out.
--
--   The threads of the console's link, of the remote link and of the server take steps in any order; a
--     step is one access to the atomic flags, one operation under a lock, or one call of the session
--     object or of recv and accept, whose own interleavings are left out. An exception out of
--     processIncomingData is a step of its own, with any effect but on the session's socket.
--   A callback of the session object acts on the globals of main.cpp next to the world outside.
--
-- Not modelled: log lines, time formatting, sleeps, locks as such, what throws an exception through
-- main, and the copies of spdlog and PDCurses.
pub mod Client
pub mod Base
pub mod Platform
pub mod Net
pub mod VConsole
pub mod Server
pub mod Tui
pub mod Config
pub mod EndToEnd
pub mod Examples
