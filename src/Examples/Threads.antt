-- ===== src/Examples/Threads.antt =====
-- The server's threads and its command line: their theorems on sockets whose world is the list of
-- open descriptors.
use cs2remote_console.Base.{
  ◌==◌, if◌then◌else◌, Bytes, codes, eqb, Lacks, ℕ, suc, ◌+◌, ◌%◌, ◌<◌, ◌≡◌, refl, subst, Bool,
  true, false, not, ◌&&◌, ◌||◌, Option, none, some, List, [], ◌∷◌, ◌++◌, arith,
}
use cs2remote_console.Net.{Sockets}
use cs2remote_console.Examples.Scripted.{scripted}
use cs2remote_console.Server.Utils.{set_non_blocking}
use cs2remote_console.Server.Clients.{ClientInfo, Server, new_server, emplace_back, cleanup_sockets}
use cs2remote_console.Server.Handlers.{handle_client, user_input_round}
use cs2remote_console.Server.FreeHandler.{free_handler}
use cs2remote_console.Server.FreeHandler.Agrees.{SendsNoColon, free_handler_agrees}
use cs2remote_console.Server.Options.{is_port_option, port_option}
use cs2remote_console.Server.Options.Port.{port_option_given}
use cs2remote_console.Server.Threads.{
  accepted, accept_ended, receiving, cleaning, joining_accept, run_ended, destroyed, System,
  Handler, moves, run, accept_at, accept_step, operator_at, operator_step, by_accept, by_operator,
  Reach, here, next,
}
use cs2remote_console.Server.Threads.Accounts.{Descriptors}
use cs2remote_console.Server.Threads.Shutdown.{destroyed_closes_all}
use cs2remote_console.Server.Threads.Ending.{server_can_end}

abbrev pub is_member : List ℕ → ℕ → Bool
is_member [] n = false
is_member (m ∷ ms) n = m == n || is_member ms n

abbrev pub total : List ℕ → ℕ
total [] = 0
total (m ∷ ms) = m + total ms

abbrev pub without : ℕ → List ℕ → List ℕ
without m [] = []
without m (n ∷ ns) = if m == n then without m ns else n ∷ without m ns

abbrev pub close_listed : Option ℕ → List ℕ → List ℕ
close_listed none w = w
close_listed (some m) w = without m w

-- Every client sends "hi", and accept gives a descriptor above all that are open.
abbrev pub listed : Sockets
listed = record scripted {
  World = List ℕ;
  socket = λ w. (some (suc (total w)), suc (total w) ∷ w);
  connect = λ s ip port w. (true, w);
  recv = λ s n w. (some (codes "hi"), w);
  peek = λ s n w. (some [], w);
  send = λ s text w. (some 0, w);
  shutdown = λ s w. w;
  close = close_listed;
  get_flags = λ s w. (some 2, w);
  set_flags = λ s f w. (true, w);
  would_block = λ w. true;
  now = λ w. 0;
  set_reuse_address = λ s w. (true, w);
  bind = λ s port w. (true, w);
  listen = λ s w. (true, w);
  accept = λ s w. (some (suc (total w), codes "10.0.0.1", 5000), suc (total w) ∷ w);
}

is_member-total : (w : List ℕ) (n : ℕ) → total w < n → is_member w n ≡ false
is_member-total [] n h = refl
is_member-total (m ∷ w) n h = ground (arith, is_member-total w n)

pub is_member-without :
    (m : ℕ) (w : List ℕ) (n : ℕ) → is_member (without m w) n ≡ (not (m == n) && is_member w n)
is_member-without m [] n = ground arith
is_member-without m (k ∷ w) n = ground (arith, is_member-without m w n)

pub accept_is_new :
    (w : List ℕ) (m : ℕ) (ip : Bytes) (port : ℕ)
    → ◌≡◌ {A = Option (ℕ × Bytes × ℕ)}
        (some (suc (total w), codes "10.0.0.1", 5000))
        (some (m, ip, port))
    → (is_member w m ≡ false)
      × ((n : ℕ) → is_member (suc (total w) ∷ w) n ≡ (m == n || is_member w n))
accept_is_new w m ip port e =
    let same : suc (total w) ≡ m = ground arith in
    (is_member-total w m (omega (arith, same)), λ n. rw same refl)

pub never_fails :
    (w : List ℕ)
    → ◌≡◌ {A = Option (ℕ × Bytes × ℕ)} (some (suc (total w), codes "10.0.0.1", 5000)) none
    → (n : ℕ) → is_member (suc (total w) ∷ w) n ≡ is_member w n
never_fails w e = cc

abbrev pub open_list : Descriptors listed
open_list = record {
  is_open = is_member;
  recv_keeps = λ s k w n. refl;
  send_keeps = λ s text w n. refl;
  shutdown_keeps = λ s w n. refl;
  get_flags_keeps = λ s w n. refl;
  set_flags_keeps = λ s f w n. refl;
  accept_fails = λ s w e. never_fails w e;
  accept_is_new = λ s w m ip port e. accept_is_new w m ip port e;
  close_ends = is_member-without;
}

abbrev pub listening : Server
listening = record (new_server 42069) { listen_socket = some 3 }

abbrev pub client_four : ClientInfo
client_four = record {
  name = [];
  socket = 4;
  ip = codes "10.0.0.1";
  port = 5000;
  connection_time = 0;
}

abbrev found_four : System
found_four = record (run listening) { accepting = accepted 4 (codes "10.0.0.1") 5000 }

abbrev pub with_four : System
with_four = record (run listening) {
  server = (emplace_back client_four listening).0;
  handlers = record { client = (emplace_back client_four listening).1; point = receiving } ∷ [];
}

Reach-four : Reach listed (run listening, 3 ∷ 0 ∷ []) (with_four, 4 ∷ 3 ∷ 0 ∷ [])
unfolding set_non_blocking accept_step accept_at run new_server
Reach-four =
    next (found_four, 4 ∷ 3 ∷ 0 ∷ []) _ (next (run listening, 3 ∷ 0 ∷ []) _ here (by_accept refl))
      (by_accept refl)

-- A second client is between accept and the list.
abbrev pub found_eight : System
found_eight = record with_four { accepting = accepted 8 (codes "10.0.0.1") 5000 }

pub Reach-eight : Reach listed (run listening, 3 ∷ 0 ∷ []) (found_eight, 8 ∷ 4 ∷ 3 ∷ 0 ∷ [])
unfolding set_non_blocking accept_step accept_at run new_server emplace_back
Reach-eight = next (with_four, 4 ∷ 3 ∷ 0 ∷ []) _ Reach-four (by_accept refl)

-- The server after the operator's "/quit" with one client.
abbrev quit_line : Option Bytes
quit_line = some (codes "/quit")

abbrev told_to_quit : System
told_to_quit = record with_four {
  server = record with_four.server { running = false };
  operator = cleaning;
}

abbrev cleaned_up : System
cleaned_up = record told_to_quit {
  server = record told_to_quit.server { clients = []; listen_socket = none };
  operator = joining_accept;
}

cleans_up : operator_step listed none told_to_quit (4 ∷ 3 ∷ 0 ∷ []) ≡ moves (cleaned_up, 0 ∷ [])
unfolding operator_step operator_at cleanup_sockets emplace_back new_server run
cleans_up = refl

quits :
    operator_step listed quit_line with_four (4 ∷ 3 ∷ 0 ∷ []) ≡ moves (told_to_quit, 4 ∷ 3 ∷ 0 ∷ [])
unfolding operator_step operator_at emplace_back new_server run user_input_round eqb
quits = refl

abbrev accept_over : System
accept_over = record cleaned_up { accepting = accept_ended }

abbrev at_the_end : System
at_the_end = record accept_over { operator = destroyed }

Reach-the_end : Reach listed (run listening, 3 ∷ 0 ∷ []) (at_the_end, 0 ∷ [])
unfolding operator_step operator_at accept_step accept_at cleanup_sockets emplace_back new_server
    run
Reach-the_end =
    next (record accept_over { operator = run_ended }, 0 ∷ []) _
      (next (accept_over, 0 ∷ []) _
        (next (cleaned_up, 0 ∷ []) _
          (next (told_to_quit, 4 ∷ 3 ∷ 0 ∷ []) _
            (next (with_four, 4 ∷ 3 ∷ 0 ∷ []) _ Reach-four (by_operator quit_line quits))
            (by_operator none cleans_up))
          (by_accept refl))
        (by_operator none refl))
      (by_operator none refl)

destroyed_closes_all_example :
    open_list.is_open (0 ∷ []) 4 ≡ (not (3 == 4) && open_list.is_open (3 ∷ 0 ∷ []) 4)
unfolding new_server
destroyed_closes_all_example =
    destroyed_closes_all listed open_list listening (3 ∷ 0 ∷ []) 3 (at_the_end, 0 ∷ []) 4 refl refl
      refl (refl, omega arith) (omega arith) Reach-the_end refl

server_can_end_example :
    (t : System × List ℕ) × Reach listed (told_to_quit, 4 ∷ 3 ∷ 0 ∷ []) t
    × (t.0.operator ≡ destroyed)
server_can_end_example = server_can_end listed told_to_quit (4 ∷ 3 ∷ 0 ∷ []) refl

abbrev served_four : Handler
served_four = record { client = (emplace_back client_four listening).1; point = receiving }

sends_hi : SendsNoColon listed
sends_hi s n w text e =
    let same : codes "hi" ≡ text = ground arith in subst (Lacks b':') same (omega arith)

-- Three rounds for the first client of two.
abbrev two_clients : Server
two_clients = (emplace_back (record client_four { socket = 5 }) with_four.server).0

free_handler_agrees_example :
    free_handler listed 3 (record { block = 2; index = 0 }) two_clients (5 ∷ 4 ∷ 3 ∷ 0 ∷ [])
    ≡ handle_client listed 3 (record { block = 2; index = 0 }) two_clients (5 ∷ 4 ∷ 3 ∷ 0 ∷ [])
free_handler_agrees_example =
    free_handler_agrees listed 3 (record { block = 2; index = 0 }) two_clients (5 ∷ 4 ∷ 3 ∷ 0 ∷ [])
      sends_hi

port_option_given_example :
    (is_port_option (codes "--port") ≡ true
      → port_option 42069
          ((codes "-v" ∷ []) ++ codes "--port" ∷ ((b'7' ∷ codes "0000") ++ []) ∷ (codes "x" ∷ []))
        ≡ some (70000 % 65536))
    × (port_option 42069 (codes "-v" ∷ []) ≡ some 42069)
unfolding eqb
port_option_given_example =
    port_option_given 42069 b'7' (codes "0000") [] (codes "--port") (codes "-v" ∷ [])
      (codes "x" ∷ []) (refl, tt) (refl, tt) (omega arith) tt (omega arith)
