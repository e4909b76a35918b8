-- ===== src/Client/Utils.antt =====
-- CS2RemoteConsole-client/src/utils.cpp: the working directory, and the initialisation of sockets.
use cs2remote_console.Base.{Bytes, Bool, Option, none, some, []}
use cs2remote_console.Platform.{platform_socket_init}

-- What getcwd gives, `none` for nullptr.
unfoldable pub get_current_directory : Option Bytes → Bytes
get_current_directory none = []
get_current_directory (some path) = path

unfoldable pub setup_application_sockets : Bool
setup_application_sockets = platform_socket_init
