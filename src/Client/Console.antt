-- ===== src/Client/Console.antt =====
-- The link to the game's console, CS2RemoteConsole-client/src/connection/connection_cs2console.cpp:
-- the connector thread, the listener thread and the clean-up of the main thread share the atomic
-- flags and the session object. A step is one access to what they share; a thread stands at a point
-- of its loop. Calls of the session object count as one step, and sleeps as none.
pub mod Connected
pub mod Reconnect
pub mod Moves
pub mod Ways
pub mod Cleanup
use cs2remote_console.Base.{
  leb, ◌==◌, if◌then◌else◌, ◌>>=◌, Bytes, codes, ℤ, ℕ, ◌-◌, ◌≡◌, Bool, true, false, not, ◌&&◌, ◌||◌,
  Option, none, some, pos, negsuc,
}
use cs2remote_console.Net.{Sockets}
use cs2remote_console.Config.{Config, get, get_int}
use cs2remote_console.VConsole.Session.{
  VConsole, connect, disconnect, send_cmd, is_connected, process_incoming_data,
}

-- Where cs2ConsoleConnectorLoop stands: at the test of the loop, behind connect, behind the two
-- assignments of cs2ConsoleConnected, at the join of the old listener, behind the start of the new
-- one, at the sanity check, at isConnected, in the branch of a lost connection, at its end.
pub data ConnectorPoint : Type 0 where
  testing : ConnectorPoint
  opened : ConnectorPoint
  reported : ConnectorPoint
  marked : ConnectorPoint
  joining : ConnectorPoint
  started : ConnectorPoint
  sanity : ConnectorPoint
  probing : ConnectorPoint
  lost : ConnectorPoint
  lost_cleared : ConnectorPoint
  lost_quiet : ConnectorPoint
  stopped : ConnectorPoint

-- Where the listener stands: no thread yet, in the loop, behind it, behind the assignment of
-- cs2ConsoleConnected, at its end.
pub data ListenerPoint : Type 0 where
  absent : ListenerPoint
  looping : ListenerPoint
  leaving : ListenerPoint
  cleared : ListenerPoint
  ended : ListenerPoint

-- Where the main thread stands in cleanupCS2Console.
pub data CleanupPoint : Type 0 where
  not_called : CleanupPoint
  running_cleared : CleanupPoint
  listening_cleared : CleanupPoint
  connected_cleared : CleanupPoint
  hung_up : CleanupPoint
  listener_joined : CleanupPoint
  cleaned : CleanupPoint

-- The values that cs2ConsoleConnectorLoop and connectToCS2Console read from the configuration.
pub record LinkSettings : Type 0 where
  pub ip : Bytes
  pub port : ℤ
  pub debug_sanity : Bool
  pub sanity_check_interval : ℤ

-- `== 1`, and `>=` of a difference of clock times with an int.
abbrev pub is_one : ℤ → Bool
is_one (pos n) = n == 1
is_one (negsuc n) = false

abbrev pub leb_int : ℤ → ℕ → Bool
leb_int (pos n) m = leb n m
leb_int (negsuc n) m = true

unfoldable pub link_settings : Config → LinkSettings
link_settings config = record {
  ip = get (codes "cs2_console_ip") (codes "127.0.0.1") config;
  port = get_int (codes "cs2_console_port") (pos 29000) config;
  debug_sanity = is_one (get_int (codes "debug_sanity_enabled") (pos 0) config);
  sanity_check_interval = get_int (codes "debug_sanity_interval") (pos 5000) config;
}

-- The globals of the file, and where the threads stand.
pub record Link (W : Type 0) : Type 0 where
  pub running : Bool
  pub console_connected : Bool
  pub listening : Bool
  pub vconsole : VConsole W
  pub last_sanity_check : ℕ
  pub connector : ConnectorPoint
  pub listener : ListenerPoint
  pub cleanup : CleanupPoint

-- join on a listener that is still in its function blocks.
abbrev pub join_returns : ListenerPoint → Bool
join_returns absent = true
join_returns looping = false
join_returns leaving = false
join_returns cleared = false
join_returns ended = true

module _ (net : Sockets) (settings : LinkSettings) where
  -- The connect of connectToCS2Console.
  unfoldable pub open_console : Link net.World → net.World → Link net.World × net.World
  open_console s w =
      let (connected, c, w1) = connect net settings.ip settings.port s.vconsole w in
      (record s { vconsole = c; connector = (if connected then opened else testing) }, w1)

  -- `if (debug_sanity && cs2ConsoleConnected)`; the clock counts milliseconds.
  unfoldable pub sanity_check : Link net.World → net.World → Link net.World × net.World
  sanity_check s w =
      if settings.debug_sanity && s.console_connected
      then (if leb_int settings.sanity_check_interval (net.now w - s.last_sanity_check)
          then (
            record s { last_sanity_check = net.now w; connector = probing },
            (send_cmd net (codes "echo CS2RemoteConsole_SanityCheck") s.vconsole w).1,
          )
          else (record s { connector = probing }, w))
      else (record s { connector = probing }, w)

  -- A step of the connector thread; `none` where it waits in join or has ended.
  unfoldable pub connector_at :
      ConnectorPoint → Link net.World → net.World → Option (Link net.World × net.World)
  unfolding open_console sanity_check
  connector_at testing s w =
      if not s.running
      then some (record s { connector = stopped }, w)
      else if s.console_connected
      then some (record s { connector = sanity }, w)
      else some (open_console s w)
  connector_at opened s w = some (record s { console_connected = true; connector = reported }, w)
  connector_at reported s w = some (record s { console_connected = true; connector = marked }, w)
  connector_at marked s w = some (record s { listening = true; connector = joining }, w)
  connector_at joining s w =
      if join_returns s.listener
      then some (record s { listener = looping; connector = started }, w)
      else none
  connector_at started s w =
      some (record s { connector = sanity }, (send_cmd net (codes "name") s.vconsole w).1)
  connector_at sanity s w = some (sanity_check s w)
  connector_at probing s w =
      let (alive, w1) = is_connected net s.vconsole w in
      some (record s { connector = (if alive then testing else lost) }, w1)
  connector_at lost s w = some (record s { console_connected = false; connector = lost_cleared }, w)
  connector_at lost_cleared s w = some (record s { listening = false; connector = lost_quiet }, w)
  connector_at lost_quiet s w =
      let (c, w1) = disconnect net s.vconsole w in
      some (record s { vconsole = c; connector = testing }, w1)
  connector_at stopped s w = none

  unfoldable pub connector_step : Link net.World → net.World → Option (Link net.World × net.World)
  unfolding connector_at
  connector_step s w = connector_at s.connector s w

  -- A round of listenForCS2ConsoleData; `none` is an access outside a chunk.
  unfoldable pub listener_round : Link net.World → net.World → Option (Link net.World × net.World)
  listener_round s w = do
    (processed, c, w1) ← process_incoming_data net s.vconsole w
    let (alive, w2) = is_connected net c w1
    some (
        if processed || alive
        then (record s { vconsole = c }, if processed then w1 else w2)
        else (record s { vconsole = c; listener = leaving }, w2))

  unfoldable pub listener_at :
      ListenerPoint → Link net.World → net.World → Option (Link net.World × net.World)
  unfolding listener_round
  listener_at absent s w = none
  listener_at looping s w =
      if s.listening && s.running
      then listener_round s w
      else some (record s { listener = leaving }, w)
  listener_at leaving s w = some (record s { console_connected = false; listener = cleared }, w)
  listener_at cleared s w = some (record s { listening = false; listener = ended }, w)
  listener_at ended s w = none

  unfoldable pub listener_step : Link net.World → net.World → Option (Link net.World × net.World)
  unfolding listener_at
  listener_step s w = listener_at s.listener s w

  -- cleanupCS2Console; `none` where it waits in join or is done.
  unfoldable pub cleanup_at :
      CleanupPoint → Link net.World → net.World → Option (Link net.World × net.World)
  cleanup_at not_called s w = some (record s { running = false; cleanup = running_cleared }, w)
  cleanup_at running_cleared s w =
      some (record s { listening = false; cleanup = listening_cleared }, w)
  cleanup_at listening_cleared s w =
      some (record s { console_connected = false; cleanup = connected_cleared }, w)
  cleanup_at connected_cleared s w =
      let (c, w1) = disconnect net s.vconsole w in
      some (record s { vconsole = c; cleanup = hung_up }, w1)
  cleanup_at hung_up s w =
      if join_returns s.listener
      then some (record s { listener = absent; cleanup = listener_joined }, w)
      else none
  cleanup_at listener_joined s w = elim s.connector [
    | stopped ↦ some (record s { cleanup = cleaned }, w)
    | _ ↦ none
  ]
  cleanup_at cleaned s w = none

  unfoldable pub cleanup_step : Link net.World → net.World → Option (Link net.World × net.World)
  unfolding cleanup_at
  cleanup_step s w = cleanup_at s.cleanup s w

  -- sendPayloadToCS2Console: the int it returns.
  unfoldable pub send_payload : Bytes → Link net.World → net.World → ℕ × net.World
  send_payload payload s w =
      let (sent, w1) = send_cmd net payload s.vconsole w in
      if not s.console_connected then (1, w) else (if sent then 1 else 0, w1)

  -- The steps of the program in any interleaving; an interrupt clears `running`. An exception out of
  -- processIncomingData ends the listener's loop: the session object has its socket still, and what
  -- else the round has done by then, to it and outside, is left open.
  pub data Step : Link net.World × net.World → Link net.World × net.World → Type 0 where
    by_connector :
        (s : Link net.World) (w : net.World) (t : Link net.World × net.World)
        → connector_step s w ≡ some t
        → Step (s, w) t
    by_listener :
        (s : Link net.World) (w : net.World) (t : Link net.World × net.World)
        → listener_step s w ≡ some t
        → Step (s, w) t
    by_cleanup :
        (s : Link net.World) (w : net.World) (t : Link net.World × net.World)
        → cleanup_step s w ≡ some t
        → Step (s, w) t
    interrupt : (s : Link net.World) (w : net.World) → Step (s, w) (record s { running = false }, w)
    raised :
        (s : Link net.World) (w : net.World) (c : VConsole net.World) (v : net.World)
        → s.listener ≡ looping
        → (s.listening && s.running) ≡ true
        → c.client_socket ≡ s.vconsole.client_socket
        → Step (s, w) (record s { vconsole = c; listener = leaving }, v)

  pub data Steps : Link net.World × net.World → Link net.World × net.World → Type 0 where
    here : (s : Link net.World × net.World) → Steps s s
    then_step : (s t u : Link net.World × net.World) → Step s t → Steps t u → Steps s u

-- The state of the globals when the connector thread starts, at the time `start`.
unfoldable pub new_link : {W : Type 0} → ℕ → VConsole W → Link W
new_link start c = record {
  running = true;
  console_connected = false;
  listening = false;
  vconsole = c;
  last_sanity_check = start;
  connector = testing;
  listener = absent;
  cleanup = not_called;
}
