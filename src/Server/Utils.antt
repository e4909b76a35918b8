-- ===== src/Server/Utils.antt =====
-- CS2RemoteConsole-server/src/utils.cpp on POSIX: setNonBlocking, which looks whether fcntl fails.
use Prim.Native.Nat.{bit_or}
use cs2remote_console.Base.{ℕ, ◌≡◌, Option, none, some, arith}
use cs2remote_console.Net.{Sockets, o_nonblock}
use cs2remote_console.Platform.{set_socket_non_blocking}

module _ (net : Sockets) where
  unfoldable pub set_non_blocking : Option ℕ → net.World → net.World
  set_non_blocking s w =
      let (flags, w1) = net.get_flags s w in
      elim flags [ none ↦ w1 | some f ↦ (net.set_flags s (bit_or f o_nonblock) w1).1 ]

  -- Where the flags can be read, the server's function and the client's setSocketNonBlocking make the
  -- same calls. Where they cannot, the server leaves the socket alone, and the client sets every flag.
  set_non_blocking_cases :
      (s : Option ℕ) (w : net.World)
      → let r = net.get_flags s w in
        ((f : ℕ) → r.0 ≡ some f → set_non_blocking s w ≡ set_socket_non_blocking net s w)
        × (r.0 ≡ none
            → (set_non_blocking s w ≡ r.1)
              × (set_socket_non_blocking net s w
                  ≡ (net.set_flags s (bit_or 4294967295 2048) r.1).1))
  unfolding set_non_blocking set_socket_non_blocking
  set_non_blocking_cases s w = (λ f e. ground arith, λ e. (ground arith, ground arith))
