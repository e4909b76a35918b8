-- ===== src/Examples/Network.antt =====
-- The programs together: their theorems on a network of two connections, from socket 1 to socket 2
-- and from socket 3 to socket 4, whose world is the bytes on their way.
use cs2remote_console.Base.{
  ◌==◌, if◌then◌else◌, length, take, drop, replicate, take_all, take_append, drop_append, drop_none,
  Bytes, codes, eqb, ℕ, ◌≤◌, ◌≡◌, refl, ◌⊎◌, inl, inr, true, false, Option, none, some, [], ◌∷◌,
  ◌++◌, append-nil, arith,
}
use cs2remote_console.Net.{Sockets}
use cs2remote_console.VConsole.Messages.{Prnt}
use cs2remote_console.VConsole.Session.{
  VConsole, new_vconsole, retry, declared_length, read_body, read_chunk,
}
use cs2remote_console.VConsole.Session.Partial.{partial_packet_desynchronises}
use cs2remote_console.VConsole.Memory.{be_value}
use cs2remote_console.Server.Clients.{Server, Ref, deref}
use cs2remote_console.Server.Clients.Registry.{recipients, send_each}
use cs2remote_console.Server.Handlers.{join_message, handle_client_round}
use cs2remote_console.Tui.State.{new_tui}
use cs2remote_console.Tui.Console.{add_console_message}
use cs2remote_console.Client.Console.{Link, new_link}
use cs2remote_console.Client.Remote.{RemoteLink, new_remote_link, name_message}
use cs2remote_console.Client.App.{App, app_on_prnt}
use cs2remote_console.Net.Pipe.{Pipe, AllArrives}
use cs2remote_console.VConsole.Command.{create_command_payload}
use cs2remote_console.EndToEnd.Name.{name_reaches_server}
use cs2remote_console.Examples.Client.{prnt_header}
use cs2remote_console.Examples.Hub.{member, hub}

record Traffic : Type 0 where
  to_2 : Bytes
  to_4 : Bytes
  sent_1 : Bytes
  sent_3 : Bytes
  taken_2 : Bytes
  taken_4 : Bytes

abbrev sends : Option ℕ → Bytes → Traffic → Option ℕ × Traffic
sends none text w = (none, w)
sends (some n) text w =
    if n == 1
    then (some (length text), record w { to_2 = w.to_2 ++ text; sent_1 = w.sent_1 ++ text })
    else if n == 3
    then (some (length text), record w { to_4 = w.to_4 ++ text; sent_3 = w.sent_3 ++ text })
    else (some (length text), w)

abbrev receives : Option ℕ → ℕ → Traffic → Option Bytes × Traffic
receives none k w = (none, w)
receives (some n) k w =
    if n == 2
    then (
      some (take k w.to_2),
      record w { to_2 = drop k w.to_2; taken_2 = w.taken_2 ++ take k w.to_2 },
    )
    else if n == 4
    then (
      some (take k w.to_4),
      record w { to_4 = drop k w.to_4; taken_4 = w.taken_4 ++ take k w.to_4 },
    )
    else (none, w)

abbrev two_pipes : Sockets
two_pipes = record {
  World = Traffic;
  socket = λ w. (none, w);
  connect = λ s ip port w. (false, w);
  recv = receives;
  peek = λ s k w. ((receives s k w).0, w);
  send = sends;
  shutdown = λ s w. w;
  close = λ s w. w;
  get_flags = λ s w. (some 2, w);
  set_flags = λ s f w. (true, w);
  would_block = λ w. true;
  now = λ w. 0;
  set_reuse_address = λ s w. (true, w);
  bind = λ s port w. (true, w);
  listen = λ s w. (true, w);
  accept = λ s w. (none, w);
}

take_first :
    (n : ℕ) (first rest : Bytes)
    → (length first ≡ n) ⊎ ((rest ≡ []) × (length first ≤ n))
    → (take n (first ++ rest) ≡ first) × (drop n (first ++ rest) ≡ rest)
take_first n first rest (inl whole) =
    (take_append n first rest whole, drop_append n first rest whole)
take_first n first rest (inr (none_left, fits)) =
    rw (none_left, append-nil first) (take_all n first fits, drop_none n first fits)

first_pipe : Pipe two_pipes 1 2
first_pipe = record {
  sent = λ w. w.sent_1;
  taken = λ w. w.taken_2;
  arrived = λ w. w.to_2;
  send_adds = λ text w k e. ground (arith, take_all (length text) text (omega arith));
  send_keeps = λ n text w h. (ground arith, ground arith);
  send_takes_none = λ n text w. ground arith;
  recv_takes = λ n first rest w waiting some_first size.
      let parts = take_first n first rest size in
      (
        record w { to_2 = drop n w.to_2; taken_2 = w.taken_2 ++ take n w.to_2 },
        ground arith,
        ground arith,
      );
  recv_keeps = λ n k w h. (ground arith, ground arith);
}

second_pipe : Pipe two_pipes 3 4
second_pipe = record {
  sent = λ w. w.sent_3;
  taken = λ w. w.taken_4;
  arrived = λ w. w.to_4;
  send_adds = λ text w k e. ground (arith, take_all (length text) text (omega arith));
  send_keeps = λ n text w h. (ground arith, ground arith);
  send_takes_none = λ n text w. ground arith;
  recv_takes = λ n first rest w waiting some_first size.
      let parts = take_first n first rest size in
      (
        record w { to_4 = drop n w.to_4; taken_4 = w.taken_4 ++ take n w.to_4 },
        ground arith,
        ground arith,
      );
  recv_keeps = λ n k w h. (ground arith, ground arith);
}

abbrev silent : Traffic
silent = record { to_2 = []; to_4 = []; sent_1 = []; sent_3 = []; taken_2 = []; taken_4 = [] }

-- A server with two clients, and the client on the connection.
abbrev crowd : Server
crowd = record hub { clients = member 9 [] ∷ member 1 [] ∷ [] }

abbrev to_server : RemoteLink
to_server = record new_remote_link { remote_server_sock = some 2; listening_remote_server = true }

abbrev to_game : Link Traffic
to_game = record (new_link 0 (record new_vconsole { client_socket = some 3 })) {
  console_connected = true;
}

abbrev game : VConsole Traffic
game = record new_vconsole { client_socket = some 4 }

-- The worlds where the operator's line, and the command for the game, have arrived.
abbrev told : Traffic
told = record silent { to_2 = codes "say hi"; sent_1 = codes "say hi" }

abbrev relayed : Traffic
relayed = record silent {
  sent_1 = codes "say hi";
  taken_2 = codes "say hi";
  to_4 = create_command_payload (codes "say hi");
  sent_3 = create_command_payload (codes "say hi");
}

abbrev named_line : Prnt
named_line = record { channel_id = 7; unknown = []; color = 0; message = codes "] name = Ann\n" }

-- The client announces itself on socket 1, and the server serves it on socket 2.
abbrev announcing_app : App Traffic
announcing_app = record {
  tui = new_tui false;
  remote = record new_remote_link { remote_server_sock = some 1 };
}

abbrev hall : Server
hall = record hub { clients = member 9 [] ∷ member 2 [] ∷ [] }

abbrev newcomer : Ref
newcomer = record { block = 2; index = 1 }

newcomer-deref : deref newcomer hall ≡ some (member 2 [])
unfolding deref
newcomer-deref = refl

-- The world where the announcement has arrived.
abbrev announced : Traffic
announced = record silent { to_2 = codes "PLAYERNAME:Ann"; sent_1 = codes "PLAYERNAME:Ann" }

name_reaches_server_example :
    (v : Traffic) × (w2 : Traffic) × (s' : Server) × (AllArrives two_pipes 1 2 first_pipe v
      announced)
    × (app_on_prnt two_pipes Traffic 64 named_line (announcing_app, silent) ≡ (
      record {
        tui = add_console_message 7 (codes "] name = Ann\n") 0 0 announcing_app.tui;
        remote = record announcing_app.remote { client_name = codes "Ann" };
      },
      v,
    ))
    × (handle_client_round two_pipes newcomer hall announced
        ≡ some (
          true,
          s',
          send_each two_pipes (join_message (codes "Ann")) (recipients (some 2) s'.clients) w2,
        ))
    × ((o : Ref)
        → o.block ≡ newcomer.block
        → deref o s'
          ≡ (if o.index == newcomer.index then some (member 2 (codes "Ann")) else deref o hall))
    × (w2.to_2 ≡ [])
unfolding new_remote_link first_pipe name_message eqb
name_reaches_server_example =
    name_reaches_server two_pipes 1 2 first_pipe Traffic 64 named_line (codes "] ") (codes "nn") []
      b'A' announcing_app silent announced newcomer hall (member 2 []) refl (refl, (refl, tt))
      (refl, (refl, (refl, tt))) (omega arith) (omega arith) refl refl newcomer-deref refl
      (λ w. refl) refl (refl, refl, refl)

-- A packet of 44 bytes: the header and 12 bytes of the body have arrived, and 20 are to come.
abbrev half_read : VConsole Traffic
half_read = record new_vconsole { client_socket = some 2 }

abbrev half_there : Traffic
half_there = record silent { to_2 = prnt_header ++ replicate 12 1 }

partial_packet_desynchronises_example :
    (w1 : Traffic) × (read_chunk two_pipes half_read half_there ≡ (retry, w1))
    × (w1.to_2 ≡ [])
    × ((v : Traffic)
        → v.to_2 ≡ replicate 20 2 ++ codes "PRNT"
        → (v1 : Traffic) × (read_chunk two_pipes half_read v
            ≡ read_body two_pipes (replicate 12 2) half_read v1)
          × (v1.to_2 ≡ replicate 8 2 ++ codes "PRNT"))
unfolding first_pipe new_vconsole declared_length be_value
partial_packet_desynchronises_example =
    partial_packet_desynchronises two_pipes 1 2 first_pipe half_read refl prnt_header
      (replicate 12 1) (replicate 20 2) (codes "PRNT") half_there refl (omega arith) refl
      (omega arith) refl
