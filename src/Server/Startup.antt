-- ===== src/Server/Startup.antt =====
-- Server::start of server.cpp. m_port is a uint16_t, so its increment wraps at 65536.
pub mod Ports
use cs2remote_console.Base.{
  ltb, leb, if◌then◌else◌, ◌>>=◌, is_some, ℕ, zero, suc, ◌+◌, ◌%◌, Bool, true, false, Option, none,
  some,
}
use cs2remote_console.Net.{Sockets}
use cs2remote_console.Server.Utils.{set_non_blocking}
use cs2remote_console.Server.Clients.{Server, cleanup_sockets}

abbrev pub max_port : ℕ
max_port = 65535

module _ (net : Sockets) where
  -- The while loop, on fuel: true is the break after a successful bind, false is `return false`.
  unfoldable pub bind_loop : ℕ → Server → net.World → Option (Bool × Server × net.World)
  bind_loop zero s w = none
  bind_loop (suc fuel) s w =
      let opened = net.socket w in
      let s1 = record s { listen_socket = opened.0 } in
      let reused = net.set_reuse_address opened.0 opened.1 in
      let bound = net.bind opened.0 s.port reused.1 in
      let cleaned_early = cleanup_sockets net s1 reused.1 in
      let cleaned = cleanup_sockets net s1 bound.1 in
      let next = record cleaned.0 { port = (s.port + 1) % 65536 } in
      let rest = bind_loop fuel next cleaned.1 in
      if leb s.port max_port
      then (if is_some opened.0
          then (if reused.0
              then (if bound.0
                  then some (true, s1, bound.1)
                  else if ltb max_port next.port
                  then some (false, next, cleaned.1)
                  else rest)
              else some (false, cleaned_early.0, cleaned_early.1))
          else some (false, s1, opened.1))
      else some (true, s, w)

  -- What follows the loop.
  unfoldable pub listen_phase : Server → net.World → Bool × Server × net.World
  listen_phase s w =
      let (listening, w1) = net.listen s.listen_socket w in
      if listening
      then (true, s, set_non_blocking net s.listen_socket w1)
      else (let cleaned = cleanup_sockets net s w1 in (false, cleaned.0, cleaned.1))

  unfoldable pub start : ℕ → Server → net.World → Option (Bool × Server × net.World)
  start fuel s w = do
    bound ← bind_loop fuel s w
    some (if bound.0 then listen_phase bound.1 bound.2 else bound)
