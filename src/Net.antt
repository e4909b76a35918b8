-- ===== src/Net.antt =====
-- The sockets of the operating system, as far as the programs use them: a parameter of the model.
-- `World` is everything outside the program: the kernel's sockets, the network, the console and
-- errno. A socket handle is `some n`, and `none` is INVALID_SOCKET; a result `none` of recv or send
-- is SOCKET_ERROR, and a Bool is true for success.
pub mod Pipe
use cs2remote_console.Base.{Bytes, ℕ, Bool, Option}

pub record Sockets : Type 1 where
  pub World : Type 0
  -- socket(AF_INET, SOCK_STREAM, IPPROTO_TCP)
  pub socket : World → Option ℕ × World
  -- connect to an address and a port
  pub connect : Option ℕ → Bytes → ℕ → World → Bool × World
  -- recv of at most so many bytes, and the same with MSG_PEEK
  pub recv : Option ℕ → ℕ → World → Option Bytes × World
  pub peek : Option ℕ → ℕ → World → Option Bytes × World
  -- send; the result is the number of bytes taken
  pub send : Option ℕ → Bytes → World → Option ℕ × World
  -- shutdown(SHUT_RDWR), and close
  pub shutdown : Option ℕ → World → World
  pub close : Option ℕ → World → World
  -- fcntl with F_GETFL, where `none` is -1, and with F_SETFL
  pub get_flags : Option ℕ → World → Option ℕ × World
  pub set_flags : Option ℕ → ℕ → World → Bool × World
  -- errno is EWOULDBLOCK (which is EAGAIN)
  pub would_block : World → Bool
  -- std::chrono::system_clock::now(), in any unit
  pub now : World → ℕ
  -- the calls of a listening socket
  pub set_reuse_address : Option ℕ → World → Bool × World
  pub bind : Option ℕ → ℕ → World → Bool × World
  pub listen : Option ℕ → World → Bool × World
  -- accept gives the socket, the peer's address as text, and its port
  pub accept : Option ℕ → World → Option (ℕ × Bytes × ℕ) × World

-- O_NONBLOCK on Linux.
abbrev pub o_nonblock : ℕ
o_nonblock = 2048
