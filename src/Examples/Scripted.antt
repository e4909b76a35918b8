-- ===== src/Examples/Scripted.antt =====
-- Sockets that follow a script, as a value of the interface: recv gives the scripted results in
-- order, every port can be bound, and each send and close is noted.
use cs2remote_console.Base.{
  leb, length, take, Bytes, ℕ, ◌+◌, true, false, Option, none, some, List, [], ◌∷◌, ◌++◌,
}
use cs2remote_console.Net.{Sockets}

pub record Script : Type 0 where
  pub incoming : List (Option Bytes)
  pub arrivals : List (ℕ × Bytes × ℕ)
  pub next_socket : ℕ
  pub sent : List (Option ℕ × Bytes)
  pub closed : List (Option ℕ)

abbrev pub quiet : Script
quiet = record { incoming = []; arrivals = []; next_socket = 3; sent = []; closed = [] }

abbrev pub next_result : ℕ → List (Option Bytes) → Option Bytes
next_result n [] = none
next_result n (none ∷ rest) = none
next_result n (some bs ∷ rest) = some (take n bs)

abbrev later_results : List (Option Bytes) → List (Option Bytes)
later_results [] = []
later_results (r ∷ rest) = rest

abbrev pub scripted : Sockets
scripted = record {
  World = Script;
  socket = λ w. (some w.next_socket, record w { next_socket = w.next_socket + 1 });
  connect = λ s ip port w. (true, w);
  recv = λ s n w. (next_result n w.incoming, record w { incoming = later_results w.incoming });
  peek = λ s n w. (next_result n w.incoming, w);
  send = λ s bs w. (some (length bs), record w { sent = w.sent ++ (s, bs) ∷ [] });
  shutdown = λ s w. w;
  close = λ s w. record w { closed = w.closed ++ s ∷ [] };
  get_flags = λ s w. (some 2, w);
  set_flags = λ s f w. (true, w);
  would_block = λ w. true;
  now = λ w. 0;
  set_reuse_address = λ s w. (true, w);
  bind = λ s port w. (true, w);
  listen = λ s w. (true, w);
  accept =
      λ s w. elim w.arrivals [ [] ↦ (none, w) | a ∷ rest ↦ (some a, record w { arrivals = rest }) ];
}

-- The same, where only the ports from `first` on can be bound.
abbrev pub ports_from : ℕ → Sockets
ports_from first = record scripted { bind = λ s port w. (leb first port, w) }

-- The same, where no port can be bound.
abbrev pub no_ports : Sockets
no_ports = record scripted { bind = λ s port w. (false, w) }
