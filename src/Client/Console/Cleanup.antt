-- ===== src/Client/Console/Cleanup.antt =====
-- cleanupCS2Console next to the threads that it ends.
use cs2remote_console.Base.{◌≡◌, refl, true, false, arith}
use cs2remote_console.Net.{Sockets}
use cs2remote_console.VConsole.Session.{disconnect}
use cs2remote_console.Client.Console.Moves.{Moves, by_connector, by_cleanup, here, then_step}
use cs2remote_console.Client.Console.{
  joining, started, stopped, absent, looping, CleanupPoint, not_called, running_cleared,
  listening_cleared, connected_cleared, hung_up, listener_joined, cleaned, LinkSettings, Link,
  join_returns, connector_at, connector_step, cleanup_at, cleanup_step,
}
use cs2remote_console.Client.Console.Ways.{
  State, Way, Quiet, Stopped, Way-Step, Way-Way, listener_ends, connector-Stops,
}

module _ (net : Sockets) (settings : LinkSettings) where
  abbrev Cleaned : State net settings → Type 0
  Cleaned t = (t.0.cleanup ≡ cleaned) × (t.0.running ≡ false)

  -- The ways of the clean-up, when the listener has ended and the connector stopped.
  abbrev Cleans : CleanupPoint → Type 0
  Cleans p =
      (s : State net settings)
      → s.0.cleanup ≡ p
      → Quiet net settings stopped s
      → Way net settings (Cleaned) s

  listener_joined-Cleans : Cleans listener_joined
  unfolding cleanup_step cleanup_at
  listener_joined-Cleans s at q =
      let s1 : State net settings = (record s.0 { cleanup = cleaned }, s.1) in
      Way-Step net settings Cleaned s s1 (by_cleanup s.0 s.1 s1 (ground arith))
        (s1, here s1, (refl, q.1))

  hung_up-Cleans : Cleans hung_up
  unfolding cleanup_step cleanup_at
  hung_up-Cleans s at q =
      let s1 : State net settings =
        (record s.0 { listener = absent; cleanup = listener_joined }, s.1) in
      Way-Step net settings Cleaned s s1 (by_cleanup s.0 s.1 s1 (ground arith))
        (listener_joined-Cleans s1 refl (q.0, q.1, refl))

  connected_cleared-Cleans : Cleans connected_cleared
  unfolding cleanup_step cleanup_at
  connected_cleared-Cleans s at q =
      let (c, w1) = disconnect net s.0.vconsole s.1 in
      let s1 : State net settings = (record s.0 { vconsole = c; cleanup = hung_up }, w1) in
      Way-Step net settings Cleaned s s1 (by_cleanup s.0 s.1 s1 (ground arith))
        (hung_up-Cleans s1 refl q)

  listening_cleared-Cleans : Cleans listening_cleared
  unfolding cleanup_step cleanup_at
  listening_cleared-Cleans s at q =
      let s1 : State net settings =
        (record s.0 { console_connected = false; cleanup = connected_cleared }, s.1) in
      Way-Step net settings Cleaned s s1 (by_cleanup s.0 s.1 s1 (ground arith))
        (connected_cleared-Cleans s1 refl q)

  running_cleared-Cleans : Cleans running_cleared
  unfolding cleanup_step cleanup_at
  running_cleared-Cleans s at q =
      let s1 : State net settings =
        (record s.0 { listening = false; cleanup = listening_cleared }, s.1) in
      Way-Step net settings Cleaned s s1 (by_cleanup s.0 s.1 s1 (ground arith))
        (listening_cleared-Cleans s1 refl q)

  quiet-Cleans : (p : CleanupPoint) → Cleans p
  unfolding cleanup_step cleanup_at
  quiet-Cleans not_called s at q =
      let s1 : State net settings =
        (record s.0 { running = false; cleanup = running_cleared }, s.1) in
      Way-Step net settings Cleaned s s1 (by_cleanup s.0 s.1 s1 (ground arith))
        (running_cleared-Cleans s1 refl (q.0, refl, q.2))
  quiet-Cleans running_cleared s at q = running_cleared-Cleans s at q
  quiet-Cleans listening_cleared s at q = listening_cleared-Cleans s at q
  quiet-Cleans connected_cleared s at q = connected_cleared-Cleans s at q
  quiet-Cleans hung_up s at q = hung_up-Cleans s at q
  quiet-Cleans listener_joined s at q = listener_joined-Cleans s at q
  quiet-Cleans cleaned s at q = (s, here s, (at, q.1))

  -- From any state, wherever the connector, the listener and the clean-up stand, once `running` is
  -- false there is an order of their steps in which the clean-up comes to its end: no join waits for
  -- a thread that cannot end.
  pub cleanup_can_end :
      (s : Link net.World) (w : net.World)
      → s.running ≡ false
      → (t : Link net.World × net.World) × Moves net settings (s, w) t
        × (t.0.cleanup ≡ cleaned)
        × (t.0.running ≡ false)
  cleanup_can_end s w off =
      let (t, steps, done) =
        Way-Way net settings (Stopped net settings) Cleaned (s, w)
          (connector-Stops net settings s.connector (s, w) refl off)
          (λ t stop.
            Way-Way net settings (Quiet net settings stopped) Cleaned t
              (listener_ends net settings t.0.listener stopped t refl stop.0 stop.1)
              (λ u quiet. quiet-Cleans u.0.cleanup u refl quiet)) in
      (t, steps, done.0, done.1)

  -- A connector that is at its join when the clean-up joins the listener can start another listener
  -- behind it: the clean-up has then joined the listener thread for the last time, and a new one runs.
  pub cleanup_misses_listener :
      (s : Link net.World) (w : net.World)
      → s.connector ≡ joining
      → s.cleanup ≡ hung_up
      → join_returns s.listener ≡ true
      → Moves net settings
          (s, w)
          (record s { connector = started; listener = looping; cleanup = listener_joined }, w)
  unfolding cleanup_step cleanup_at connector_step connector_at
  cleanup_misses_listener s w at up over =
      let s1 : State net settings =
        (record s { listener = absent; cleanup = listener_joined }, w) in
      let s2 : State net settings = (record s1.0 { listener = looping; connector = started }, w) in
      then_step (s, w) s1 s2 (by_cleanup s w s1 (ground arith))
        (then_step s1 s2 s2 (by_connector s1.0 w s2 (ground arith)) (here s2))
