-- ===== src/Server/Options.antt =====
-- The server's command line, CS2RemoteConsole-server/src/main.cpp, and its way through main.
pub mod Port
use cs2remote_console.Base.{
  ◌==◌, if◌then◌else◌, ◌>>=◌, Bytes, codes, eqb, ℤ, to_u16, ℕ, Bool, false, ◌&&◌, ◌||◌, Option,
  none, some, List, [], ◌∷◌, pos,
}
use cs2remote_console.Net.{Sockets}
use cs2remote_console.Config.{skip_spaces, is_digit, signed_int}
use cs2remote_console.Server.Clients.{Server, new_server, cleanup_sockets}
use cs2remote_console.Server.Startup.{start}

abbrev pub default_port : ℕ
default_port = 42069

-- A sign is followed by a digit, or a digit stands first.
abbrev pub starts_number : Bytes → Bool
starts_number [] = false
starts_number (c ∷ []) = is_digit c
starts_number (c ∷ d ∷ cs) = is_digit c || ((c == b'-' || c == b'+') && is_digit d)

-- std::atoi: white space, a sign and digits, and 0 without digits; `none` is a number out of the
-- range of an int, which is undefined.
unfoldable pub atoi : Bytes → Option ℤ
atoi text = if starts_number (skip_spaces text) then signed_int (skip_spaces text) else some (pos 0)

abbrev pub is_port_option : Bytes → Bool
is_port_option arg = eqb arg (codes "-p") || eqb arg (codes "--port")

-- The loop over the arguments behind the program's name.
unfoldable pub port_option : ℕ → List Bytes → Option ℕ
unfolding atoi
port_option port [] = some port
port_option port (arg ∷ []) = some port
port_option port (arg ∷ value ∷ rest) =
    if is_port_option arg
    then (do number ← atoi value; port_option (to_u16 number) rest)
    else port_option port (value ∷ rest)

module _ (net : Sockets) where
  -- An interrupt: the flag is cleared and standard input, descriptor 0, closed, so that getline returns.
  unfoldable pub signal_handler : Server → net.World → Server × net.World
  signal_handler s w = (record s { running = false }, net.close (some 0) w)

  -- main up to run: the exit code 1, or the server that runs. The outer `none` is a loop of start
  -- that has not ended within the fuel, or a port out of range. An exit runs the destructor.
  unfoldable pub main_start : ℕ → List Bytes → net.World → Option (Option Server × net.World)
  main_start fuel args w = do
    port ← port_option default_port args
    started ← start net fuel (new_server port) w
    let (cleaned, w1) = cleanup_sockets net started.1 started.2
    some (if started.0 then (some started.1, started.2) else (none, w1))
