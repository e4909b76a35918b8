-- ===== src/Client/Console/Connected.antt =====
-- The invariant of the link's threads: what a set cs2ConsoleConnected says about the session object.
use cs2remote_console.Base.{
  Bool-cases, Option-cases, is_some, take, ℕ, ◌≡◌, refl, inl, inr, Bool, true, false, not, ◌&&◌,
  ◌||◌, some, arith,
}
use cs2remote_console.Net.{Sockets}
use cs2remote_console.VConsole.Session.{
  VConsole, connect, disconnect, process_incoming_data, process_packet, process_result, ReadResult,
  chunk, retry, broken, overrun, read_chunk,
}
use cs2remote_console.VConsole.Session.Dispatch.{process_packet_frame}
use cs2remote_console.Client.Console.{
  ConnectorPoint, testing, opened, reported, marked, joining, started, sanity, probing, lost,
  lost_cleared, lost_quiet, stopped, ListenerPoint, absent, looping, leaving, cleared, ended,
  CleanupPoint, not_called, running_cleared, listening_cleared, connected_cleared, hung_up,
  listener_joined, cleaned, LinkSettings, Link, connector_at, connector_step, listener_at,
  listener_step, listener_round, open_console, sanity_check, cleanup_at, cleanup_step, Step,
  by_connector, by_listener, by_cleanup, interrupt, raised, Steps, here, then_step, new_link,
}

-- The points where the connector has a socket, those where it has cleared cs2ConsoleConnected.
abbrev pub holds_socket : ConnectorPoint → Bool
holds_socket opened = true
holds_socket reported = true
holds_socket _ = false

abbrev pub hangs_up : ConnectorPoint → Bool
hangs_up lost_cleared = true
hangs_up lost_quiet = true
hangs_up _ = false

abbrev pub is_called : CleanupPoint → Bool
is_called not_called = false
is_called _ = true

unfoldable pub linked : {W : Type 0} → Link W → Bool
linked s =
    not s.running
    || (not (is_called s.cleanup)
        && ((not (s.console_connected || holds_socket s.connector)
              || is_some s.vconsole.client_socket)
            && not (hangs_up s.connector && s.console_connected)))

module _ (net : Sockets) (settings : LinkSettings) where
  connector_at-linked :
      (p : ConnectorPoint) (s : Link net.World) (w : net.World) (t : Link net.World × net.World)
      → s.connector ≡ p
      → linked s ≡ true
      → connector_at net settings p s w ≡ some t
      → linked t.0 ≡ true
  unfolding connector_at linked open_console sanity_check connect disconnect
  connector_at-linked testing s w t p h e = ground arith
  connector_at-linked opened s w t p h e = ground arith
  connector_at-linked reported s w t p h e = ground arith
  connector_at-linked marked s w t p h e = ground arith
  connector_at-linked joining s w t p h e = ground arith
  connector_at-linked started s w t p h e = ground arith
  connector_at-linked sanity s w t p h e = ground arith
  connector_at-linked probing s w t p h e = ground arith
  connector_at-linked lost s w t p h e = ground arith
  connector_at-linked lost_cleared s w t p h e = ground arith
  connector_at-linked lost_quiet s w t p h e = ground arith
  connector_at-linked stopped s w t p h e = cc

  cleanup_at-linked :
      (p : CleanupPoint) (s : Link net.World) (w : net.World) (t : Link net.World × net.World)
      → s.cleanup ≡ p
      → linked s ≡ true
      → cleanup_at net settings p s w ≡ some t
      → linked t.0 ≡ true
  unfolding cleanup_at linked
  cleanup_at-linked not_called s w t p h e = ground arith
  cleanup_at-linked running_cleared s w t p h e = ground arith
  cleanup_at-linked listening_cleared s w t p h e = ground arith
  cleanup_at-linked connected_cleared s w t p h e = ground arith
  cleanup_at-linked hung_up s w t p h e = ground arith
  cleanup_at-linked listener_joined s w t p h e = ground arith
  cleanup_at-linked cleaned s w t p h e = cc

  read_keeps_socket :
      (c c' : VConsole net.World) (b : Bool) (w' : net.World) (r : ReadResult × net.World)
      → process_result net c r ≡ some (b, c', w')
      → c'.client_socket ≡ c.client_socket
  read_keeps_socket c c' b w' (chunk buf, w1) e =
      elim (Option-cases (process_packet (take 4 buf) buf c w1)) [
        | inl outside ↦ absurd (ground arith)
        | inr (done, found) ↦
            let frame = process_packet_frame (take 4 buf) buf c done.0 w1 done.1 found in
            ground arith
      ]
  read_keeps_socket c c' b w' (overrun, w1) e = cc
  read_keeps_socket c c' b w' (retry, w1) e = ground arith
  read_keeps_socket c c' b w' (broken, w1) e = ground arith

  listener_round-linked :
      (s : Link net.World) (w : net.World) (t : Link net.World × net.World)
      → linked s ≡ true
      → listener_round net settings s w ≡ some t
      → linked t.0 ≡ true
  unfolding listener_round linked process_incoming_data
  listener_round-linked s w t h e = elim (Option-cases (process_incoming_data net s.vconsole w)) [
    | inl outside ↦ absurd (ground arith)
    | inr (done, found) ↦
        let same =
          read_keeps_socket s.vconsole done.1 done.0 done.2 (read_chunk net s.vconsole w) found in
        ground arith
  ]

  listener_at-linked :
      (p : ListenerPoint) (s : Link net.World) (w : net.World) (t : Link net.World × net.World)
      → linked s ≡ true
      → listener_at net settings p s w ≡ some t
      → linked t.0 ≡ true
  unfolding listener_at linked
  listener_at-linked absent s w t h e = cc
  listener_at-linked looping s w t h e = elim (Bool-cases (s.listening && s.running)) [
    | inl on ↦ listener_round-linked s w t h (ground arith)
    | inr off ↦ ground arith
  ]
  listener_at-linked leaving s w t h e = ground arith
  listener_at-linked cleared s w t h e = ground arith
  listener_at-linked ended s w t h e = cc

  Step-linked :
      (s t : Link net.World × net.World)
      → linked s.0 ≡ true
      → Step net settings s t
      → linked t.0 ≡ true
  unfolding connector_step listener_step cleanup_step linked
  Step-linked _ t h (by_connector s w _ e) = connector_at-linked s.connector s w t refl h e
  Step-linked _ t h (by_listener s w _ e) = listener_at-linked s.listener s w t h e
  Step-linked _ t h (by_cleanup s w _ e) = cleanup_at-linked s.cleanup s w t refl h e
  Step-linked _ _ h (interrupt s w) = refl
  Step-linked _ _ h (raised s w c v at on same) = ground arith

  Steps-linked :
      (s t : Link net.World × net.World)
      → linked s.0 ≡ true
      → Steps net settings s t
      → linked t.0 ≡ true
  Steps-linked s _ h (here _) = h
  Steps-linked s _ h (then_step _ t u one more) = Steps-linked t u (Step-linked s t h one) more

  -- Whatever the order of the steps of the connector, the listener and the clean-up: in every state
  -- that is reached from the start, while `running` holds and cs2ConsoleConnected is set, the session
  -- object has a socket.
  pub console_connected_has_socket :
      (start : ℕ) (c : VConsole net.World) (w : net.World) (t : Link net.World × net.World)
      → Steps net settings (new_link start c, w) t
      → t.0.running ≡ true
      → t.0.console_connected ≡ true
      → (n : ℕ) × (t.0.vconsole.client_socket ≡ some n)
  unfolding linked new_link
  console_connected_has_socket start c w t steps on connected =
      let inv = Steps-linked (new_link start c, w) t refl steps in
      elim (Option-cases t.0.vconsole.client_socket) [
        | inl no_socket ↦ absurd (ground arith)
        | inr (n, socket) ↦ (n, socket)
      ]
