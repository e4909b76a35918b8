-- ===== src/Client/Remote/Threads/Ends.antt =====
-- The ways of the remote link's threads to their ends, once `running` is false.
use cs2remote_console.Base.{
  if◌then◌else◌, is_empty, ℕ, ◌≤◌, ◌<◌, ◌≡◌, refl, ◌⊎◌, inl, inr, true, false, none, arith,
}
use cs2remote_console.Net.{Sockets}
use cs2remote_console.Platform.{set_socket_non_blocking}
use cs2remote_console.Config.{Config}
use cs2remote_console.Client.Console.{LinkSettings, Link}
use cs2remote_console.Client.Remote.{send_message_to_remote_server, name_message}
use cs2remote_console.Client.Remote.Threads.{
  RemoteConnector, no_connector, at_test, connected_now, flagged, at_join, announcing,
  connector_over, RemoteListener, no_listener, starting, in_loop, behind_loop, unconnected,
  unlistening, closed_socket, listener_over, set_connected, set_listening, set_socket, can_join,
  connector_joins, connector_at, connector_step, listener_at, listener_step,
}
use cs2remote_console.Client.Remote.Threads.Ways.{
  Move, by_connector, by_listener, State, IsOff, rest, Way, Way-Way, Way-Advances,
}

-- How many steps a thread is from its end, at most, once `running` is false.
listener_left : RemoteListener → ℕ
listener_left no_listener = 0
listener_left starting = 6
listener_left in_loop = 5
listener_left behind_loop = 4
listener_left unconnected = 3
listener_left unlistening = 2
listener_left closed_socket = 1
listener_left listener_over = 0

connector_left : RemoteConnector → ℕ
connector_left no_connector = 0
connector_left at_test = 1
connector_left connected_now = 5
connector_left flagged = 4
connector_left at_join = 3
connector_left announcing = 2
connector_left connector_over = 0

module _ (net : Sockets) (config : Config) (settings : LinkSettings) (game : Link net.World) where
  -- Off, and the connector is where it was.
  abbrev Parked : RemoteConnector → State net config settings game → Type 0
  Parked q s = IsOff net config settings game s × (s.0.connector ≡ q)

  abbrev Quiet : RemoteConnector → State net config settings game → Type 0
  Quiet q s = Parked q s × (can_join s.0.listener ≡ true)

  listener_advances :
      (p : RemoteListener) (q : RemoteConnector) (s : State net config settings game)
      → s.0.listener ≡ p
      → Parked q s
      → Quiet q s
        ⊎ ((t : State net config settings game) × Move net config settings game s t
            × Parked q t
            × (listener_left t.0.listener < listener_left p))
  unfolding listener_step listener_at listener_left
  listener_advances no_listener q s at k = inl (k, ground arith)
  listener_advances starting q s at k =
      let t : State net config settings game = (
        record s.0 { listener = in_loop },
        set_socket_non_blocking net s.0.link.remote_server_sock s.1,
      ) in
      inr (t, by_listener (ground arith), k, omega arith)
  listener_advances in_loop q s at k =
      let t : State net config settings game = (record s.0 { listener = behind_loop }, s.1) in
      inr (t, by_listener (ground arith), k, omega arith)
  listener_advances behind_loop q s at k =
      let t : State net config settings game =
        (record (set_connected false s.0) { listener = unconnected }, s.1) in
      inr (t, by_listener (ground arith), k, omega arith)
  listener_advances unconnected q s at k =
      let t : State net config settings game =
        (record (set_listening false s.0) { listener = unlistening }, s.1) in
      inr (t, by_listener (ground arith), k, omega arith)
  listener_advances unlistening q s at k =
      let t : State net config settings game =
        (record s.0 { listener = closed_socket }, net.close s.0.link.remote_server_sock s.1) in
      inr (t, by_listener (ground arith), k, omega arith)
  listener_advances closed_socket q s at k =
      let t : State net config settings game =
        (record (set_socket none s.0) { listener = listener_over }, s.1) in
      inr (t, by_listener (ground arith), k, omega arith)
  listener_advances listener_over q s at k = inl (k, ground arith)

  listener_ends :
      (q : RemoteConnector) (s : State net config settings game)
      → Parked q s
      → Way net config settings game (Quiet q) s
  listener_ends q s k =
      Way-Advances net config settings game (Parked q) (Quiet q) (λ u. listener_left u.0.listener)
        (λ u. listener_advances u.0.listener q u refl) (λ u k. k.0) (listener_left s.0.listener) s
        (omega arith) k

  -- Off, and a connector that is still before its join finds the listener ended.
  abbrev Ready : State net config settings game → Type 0
  Ready s =
      IsOff net config settings game s
      × (3 ≤ connector_left s.0.connector → can_join s.0.listener ≡ true)

  abbrev pub Over : State net config settings game → Type 0
  Over s = IsOff net config settings game s × (connector_joins s.0.connector ≡ true)

  connector_advances :
      (p : RemoteConnector) (s : State net config settings game)
      → s.0.connector ≡ p
      → Ready s
      → Over s
        ⊎ ((t : State net config settings game) × Move net config settings game s t
            × Ready t
            × (connector_left t.0.connector < connector_left p))
  unfolding connector_step connector_at connector_left
  connector_advances no_connector s at r = inl (r.0, ground arith)
  connector_advances at_test s at r =
      let t : State net config settings game = (record s.0 { connector = connector_over }, s.1) in
      inr (
        t,
        by_connector (ground (arith, r.0)),
        (r.0, λ late. absurd (omega (arith, late))),
        omega arith,
      )
  connector_advances connected_now s at r =
      let t : State net config settings game =
        (record (set_connected true s.0) { connector = flagged }, s.1) in
      inr (t, by_connector (ground arith), (r.0, λ late. r.1 (ground arith)), omega arith)
  connector_advances flagged s at r =
      let t : State net config settings game =
        (record (set_listening true s.0) { connector = at_join }, s.1) in
      inr (t, by_connector (ground arith), (r.0, λ late. r.1 (ground arith)), omega arith)
  connector_advances at_join s at r =
      let t : State net config settings game =
        (record s.0 { listener = starting; connector = announcing }, s.1) in
      let free : can_join s.0.listener ≡ true = r.1 (ground arith) in
      inr (t, by_connector (ground arith), (r.0, λ late. absurd (omega (arith, late))), omega arith)
  connector_advances announcing s at r =
      let sent =
        (send_message_to_remote_server net (name_message s.0.link.client_name) s.0.link s.1).1 in
      let t : State net config settings game =
        (record s.0 { connector = at_test }, if is_empty s.0.link.client_name then s.1 else sent) in
      inr (t, by_connector (ground arith), (r.0, λ late. absurd (omega (arith, late))), omega arith)
  connector_advances connector_over s at r = inl (r.0, ground arith)

  connector_ends :
      (s : State net config settings game) → Ready s → Way net config settings game Over s
  connector_ends s r =
      Way-Advances net config settings game Ready Over (λ u. connector_left u.0.connector)
        (λ u. connector_advances u.0.connector u refl) (λ u r. r.0) (connector_left s.0.connector) s
        (omega arith) r

  -- Both threads have ended.
  abbrev pub Ended : State net config settings game → Type 0
  Ended s = Over s × (can_join s.0.listener ≡ true)

  pub threads_end :
      (s : State net config settings game)
      → IsOff net config settings game s
      → Way net config settings game Ended s
  threads_end s off =
      Way-Way net config settings game (Quiet s.0.connector) Ended s
        (listener_ends s.0.connector s (off, refl))
        (λ t q.
          Way-Way net config settings game Over Ended t (connector_ends t (q.0.0, λ late. q.1))
            (λ u over.
              Way-Way net config settings game (Quiet u.0.connector) Ended u
                (listener_ends u.0.connector u (over.0, refl))
                (λ v r. (v, rest v, ((r.0.0, ground arith), r.1)))))
