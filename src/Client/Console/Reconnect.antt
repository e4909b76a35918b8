-- ===== src/Client/Console/Reconnect.antt =====
-- How the connector and the listener interleave around a reconnection.
use cs2remote_console.Base.{Bytes, ℕ, ◌≡◌, refl, ◌↔◌, ◌⊎◌, true, false, none, some, arith}
use cs2remote_console.Net.{Sockets}
use cs2remote_console.VConsole.Session.{VConsole, connect, disconnect, send_cmd}
use cs2remote_console.Client.Console.{
  testing, opened, reported, marked, joining, started, lost, lost_cleared, lost_quiet, looping,
  leaving, cleared, ended, LinkSettings, Link, connector_at, connector_step, listener_at,
  listener_step, open_console, send_payload, by_connector, by_listener, Steps, here, then_step,
}

module _ (net : Sockets) (settings : LinkSettings) where
  -- A connector that finds no connection, while the old listener has cleared cs2ConsoleConnected but
  -- not yet its other flag, can connect again before that listener goes on. The assignment of the
  -- old listener then stops the new listener before it has read anything: cs2ConsoleConnected is
  -- cleared while the new socket is open, nothing was asked of the system but that connection, and
  -- the old situation is back.
  pub reconnect_stops_listener :
      (s : Link net.World) (w w2 : net.World) (c : VConsole net.World) (n : ℕ)
      → s.running ≡ true
      → s.console_connected ≡ false
      → s.connector ≡ testing
      → s.listener ≡ cleared
      → connect net settings.ip settings.port s.vconsole w ≡ (true, c, w2)
      → c.client_socket ≡ some n
      → (t : Link net.World × net.World) × Steps net settings (s, w) t
        × (t.0.running ≡ true)
        × (t.0.console_connected ≡ false)
        × (t.0.listener ≡ cleared)
        × (t.0.connector ≡ started)
        × (t.0.vconsole.client_socket ≡ some n)
        × (t.1 ≡ w2)
  unfolding connector_step connector_at listener_step listener_at open_console
  reconnect_stops_listener s w w2 c n on off at old done socket =
      let s1 = record s { vconsole = c; connector = opened } in
      let s2 = record s1 { console_connected = true; connector = reported } in
      let s3 = record s2 { connector = marked } in
      let s4 = record s3 { listening = true; connector = joining } in
      let s5 = record s4 { listening = false; listener = ended } in
      let s6 = record s5 { listener = looping; connector = started } in
      let s7 = record s6 { listener = leaving } in
      let s8 = record s7 { console_connected = false; listener = cleared } in
      (
        (s8, w2),
        then_step _ (s1, w2) _ (by_connector s w _ (ground arith))
            (then_step _ (s2, w2) _ (by_connector s1 w2 _ refl)
              (then_step _ (s3, w2) _ (by_connector s2 w2 _ refl)
                (then_step _ (s4, w2) _ (by_connector s3 w2 _ refl)
                  (then_step _ (s5, w2) _ (by_listener s4 w2 _ (ground arith))
                    (then_step _ (s6, w2) _ (by_connector s5 w2 _ refl)
                      (then_step _ (s7, w2) _ (by_listener s6 w2 _ (ground arith))
                        (then_step _ (s8, w2) _ (by_listener s7 w2 _ refl) (here _)))))))),
        on,
        refl,
        refl,
        refl,
        socket,
        refl,
      )

  -- sendPayloadToCS2Console returns 1 exactly if it is not connected or the payload was sent. When it
  -- is not connected, it sends nothing.
  send_payload_ambiguous :
      (payload : Bytes) (s : Link net.World) (w : net.World)
      → let r = send_payload net settings payload s w in
        (r.0 ≡ 1 ↔ ((s.console_connected ≡ false) ⊎ ((send_cmd net payload s.vconsole w).0 ≡ true)))
        × (s.console_connected ≡ false → r.1 ≡ w)
  unfolding send_payload
  send_payload_ambiguous payload s w = (ground arith, λ e. ground arith)

  -- A connector that has seen the connection lost, while the listener is in its loop, can clear both
  -- flags, hang up, connect again and set both flags before the listener looks at them. It then
  -- waits in join for a listener that has no reason to stop: it cannot step until that listener
  -- leaves its loop.
  pub reconnect_waits_for_listener :
      (s : Link net.World) (w w1 w2 : net.World) (c c' : VConsole net.World)
      → s.running ≡ true
      → s.connector ≡ lost
      → s.listener ≡ looping
      → disconnect net s.vconsole w ≡ (c, w1)
      → connect net settings.ip settings.port c w1 ≡ (true, c', w2)
      → (t : Link net.World × net.World) × Steps net settings (s, w) t
        × (t ≡ (
          record s {
            console_connected = true;
            listening = true;
            vconsole = c';
            connector = joining;
          },
          w2,
        ))
        × (connector_step net settings t.0 t.1 ≡ none)
  unfolding connector_step connector_at open_console
  reconnect_waits_for_listener s w w1 w2 c c' on at loops hung done =
      let s1 = record s { console_connected = false; connector = lost_cleared } in
      let s2 = record s1 { listening = false; connector = lost_quiet } in
      let s3 = record s2 { vconsole = c; connector = testing } in
      let s4 = record s3 { vconsole = c'; connector = opened } in
      let s5 = record s4 { console_connected = true; connector = reported } in
      let s6 = record s5 { connector = marked } in
      let s7 = record s6 { listening = true; connector = joining } in
      (
        (s7, w2),
        then_step _ (s1, w) _ (by_connector s w _ (ground arith))
            (then_step _ (s2, w) _ (by_connector s1 w _ refl)
              (then_step _ (s3, w1) _ (by_connector s2 w _ (ground arith))
                (then_step _ (s4, w2) _ (by_connector s3 w1 _ (ground arith))
                  (then_step _ (s5, w2) _ (by_connector s4 w2 _ refl)
                    (then_step _ (s6, w2) _ (by_connector s5 w2 _ refl)
                      (then_step _ (s7, w2) _ (by_connector s6 w2 _ refl) (here _))))))),
        refl,
        ground arith,
      )
