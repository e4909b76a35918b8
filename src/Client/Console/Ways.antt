-- ===== src/Client/Console/Ways.antt =====
-- The ways of the connector and of the listener to their ends, once `running` is false.
use cs2remote_console.Base.{
  if◌then◌else◌, Bool-cases, codes, ◌≡◌, refl, inl, inr, true, false, arith,
}
use cs2remote_console.Net.{Sockets}
use cs2remote_console.VConsole.Session.{is_connected, disconnect, send_cmd}
use cs2remote_console.Client.Console.Moves.{Move, Moves, by_connector, by_listener, here, then_step}
use cs2remote_console.Client.Console.{
  ConnectorPoint, testing, opened, reported, marked, joining, started, sanity, probing, lost,
  lost_cleared, lost_quiet, stopped, ListenerPoint, absent, looping, leaving, cleared, ended,
  LinkSettings, Link, join_returns, connector_at, connector_step, listener_at, listener_step,
  sanity_check,
}

module _ (net : Sockets) (settings : LinkSettings) where
  abbrev pub State : Type 0
  State = Link net.World × net.World

  Steps-trans :
      (s t u : State) → Moves net settings s t → Moves net settings t u → Moves net settings s u
  Steps-trans s _ u (here _) r = r
  Steps-trans s t u (then_step _ m _ one more) r = then_step s m u one (Steps-trans m t u more r)

  -- There is a way to a state with the property.
  abbrev pub Way : (State → Type 0) → State → Type 0
  Way P s = (t : State) × Moves net settings s t × P t

  pub Way-Step : (P : State → Type 0) (s t : State) → Move net settings s t → Way P t → Way P s
  Way-Step P s t one (u, rest, found) = (u, then_step s t u one rest, found)

  pub Way-Way :
      (P Q : State → Type 0) (s : State) → Way P s → ((t : State) → P t → Way Q t) → Way Q s
  Way-Way P Q s (t, first, found) go =
      let (u, rest, there) = go t found in (u, Steps-trans s t u first rest, there)

  abbrev pub IsOff : State → Type 0
  IsOff t = t.0.running ≡ false

  -- The listener has ended, and the connector is where it was.
  abbrev pub Quiet : ConnectorPoint → State → Type 0
  Quiet p t = (t.0.connector ≡ p) × IsOff t × (join_returns t.0.listener ≡ true)

  abbrev pub Stopped : State → Type 0
  Stopped t = (t.0.connector ≡ stopped) × IsOff t

  leaving_ends :
      (q : ConnectorPoint) (s : State)
      → s.0.listener ≡ leaving
      → s.0.connector ≡ q
      → IsOff s
      → Way (Quiet q) s
  unfolding listener_step listener_at
  leaving_ends q s at q_at off =
      let s1 : State = (record s.0 { console_connected = false; listener = cleared }, s.1) in
      let s2 : State = (record s1.0 { listening = false; listener = ended }, s.1) in
      Way-Step (Quiet q) s s1 (by_listener s.0 s.1 s1 (ground arith))
        (Way-Step (Quiet q) s1 s2 (by_listener s1.0 s.1 s2 refl) (s2, here s2, (q_at, off, refl)))

  pub listener_ends :
      (p : ListenerPoint) (q : ConnectorPoint) (s : State)
      → s.0.listener ≡ p
      → s.0.connector ≡ q
      → IsOff s
      → Way (Quiet q) s
  unfolding listener_step listener_at
  listener_ends absent q s at q_at off = (s, here s, (q_at, off, ground arith))
  listener_ends looping q s at q_at off =
      let s1 : State = (record s.0 { listener = leaving }, s.1) in
      Way-Step (Quiet q) s s1 (by_listener s.0 s.1 s1 (ground arith))
        (leaving_ends q s1 refl q_at off)
  listener_ends leaving q s at q_at off = leaving_ends q s at q_at off
  listener_ends cleared q s at q_at off =
      let s1 : State = (record s.0 { listening = false; listener = ended }, s.1) in
      Way-Step (Quiet q) s s1 (by_listener s.0 s.1 s1 (ground arith))
        (s1, here s1, (q_at, off, refl))
  listener_ends ended q s at q_at off = (s, here s, (q_at, off, ground arith))

  abbrev pub Stops : ConnectorPoint → Type 0
  Stops p = (s : State) → s.0.connector ≡ p → IsOff s → Way Stopped s

  testing-Stops : Stops testing
  unfolding connector_step connector_at
  testing-Stops s at off =
      let s1 : State = (record s.0 { connector = stopped }, s.1) in
      Way-Step Stopped s s1 (by_connector s.0 s.1 s1 (ground arith)) (s1, here s1, (refl, off))

  lost_quiet-Stops : Stops lost_quiet
  unfolding connector_step connector_at
  lost_quiet-Stops s at off =
      let (c, w1) = disconnect net s.0.vconsole s.1 in
      let s1 : State = (record s.0 { vconsole = c; connector = testing }, w1) in
      Way-Step Stopped s s1 (by_connector s.0 s.1 s1 (ground arith)) (testing-Stops s1 refl off)

  lost_cleared-Stops : Stops lost_cleared
  unfolding connector_step connector_at
  lost_cleared-Stops s at off =
      let s1 : State = (record s.0 { listening = false; connector = lost_quiet }, s.1) in
      Way-Step Stopped s s1 (by_connector s.0 s.1 s1 (ground arith)) (lost_quiet-Stops s1 refl off)

  lost-Stops : Stops lost
  unfolding connector_step connector_at
  lost-Stops s at off =
      let s1 : State = (record s.0 { console_connected = false; connector = lost_cleared }, s.1) in
      Way-Step Stopped s s1 (by_connector s.0 s.1 s1 (ground arith))
        (lost_cleared-Stops s1 refl off)

  probing-Stops : Stops probing
  unfolding connector_step connector_at
  probing-Stops s at off =
      let (alive, w1) = is_connected net s.0.vconsole s.1 in
      let s1 : State = (record s.0 { connector = (if alive then testing else lost) }, w1) in
      Way-Step Stopped s s1 (by_connector s.0 s.1 s1 (ground arith)) (elim (Bool-cases alive) [
        | inl yes_alive ↦ testing-Stops s1 (ground arith) off
        | inr not_alive ↦ lost-Stops s1 (ground arith) off
      ])

  sanity-Stops : Stops sanity
  unfolding connector_step connector_at sanity_check
  sanity-Stops s at off =
      let s1 : State = sanity_check net settings s.0 s.1 in
      Way-Step Stopped s s1 (by_connector s.0 s.1 s1 (ground arith))
        (probing-Stops s1 (ground arith) (ground arith))

  started-Stops : Stops started
  unfolding connector_step connector_at
  started-Stops s at off =
      let s1 : State =
        (record s.0 { connector = sanity }, (send_cmd net (codes "name") s.0.vconsole s.1).1) in
      Way-Step Stopped s s1 (by_connector s.0 s.1 s1 (ground arith)) (sanity-Stops s1 refl off)

  joining-Stops : Stops joining
  unfolding connector_step connector_at
  joining-Stops s at off =
      Way-Way (Quiet joining) Stopped s (listener_ends s.0.listener joining s refl at off) (λ t q.
        let s1 : State = (record t.0 { listener = looping; connector = started }, t.1) in
        Way-Step Stopped t s1 (by_connector t.0 t.1 s1 (ground arith)) (started-Stops s1 refl q.1))

  marked-Stops : Stops marked
  unfolding connector_step connector_at
  marked-Stops s at off =
      let s1 : State = (record s.0 { listening = true; connector = joining }, s.1) in
      Way-Step Stopped s s1 (by_connector s.0 s.1 s1 (ground arith)) (joining-Stops s1 refl off)

  reported-Stops : Stops reported
  unfolding connector_step connector_at
  reported-Stops s at off =
      let s1 : State = (record s.0 { console_connected = true; connector = marked }, s.1) in
      Way-Step Stopped s s1 (by_connector s.0 s.1 s1 (ground arith)) (marked-Stops s1 refl off)

  pub connector-Stops : (p : ConnectorPoint) → Stops p
  unfolding connector_step connector_at
  connector-Stops testing s at off = testing-Stops s at off
  connector-Stops opened s at off =
      let s1 : State = (record s.0 { console_connected = true; connector = reported }, s.1) in
      Way-Step Stopped s s1 (by_connector s.0 s.1 s1 (ground arith)) (reported-Stops s1 refl off)
  connector-Stops reported s at off = reported-Stops s at off
  connector-Stops marked s at off = marked-Stops s at off
  connector-Stops joining s at off = joining-Stops s at off
  connector-Stops started s at off = started-Stops s at off
  connector-Stops sanity s at off = sanity-Stops s at off
  connector-Stops probing s at off = probing-Stops s at off
  connector-Stops lost s at off = lost-Stops s at off
  connector-Stops lost_cleared s at off = lost_cleared-Stops s at off
  connector-Stops lost_quiet s at off = lost_quiet-Stops s at off
  connector-Stops stopped s at off = (s, here s, (at, off))
