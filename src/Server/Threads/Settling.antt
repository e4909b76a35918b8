-- ===== src/Server/Threads/Settling.antt =====
-- What holds behind Server::run and behind the destructor, whatever the other threads do then.
use cs2remote_console.Base.{
  ◌==◌, Option-cases, is_some, length, get_elem?, Bytes, ℕ, ◌≡◌, refl, inl, inr, Bool, true, false,
  not, ◌&&◌, Option, none, some, List, [], ◌∷◌, ◌++◌, arith,
}
use cs2remote_console.Net.{Sockets}
use cs2remote_console.VConsole.Memory.{c_string}
use cs2remote_console.Server.Clients.{
  ClientInfo, Server, Ref, deref, emplace_back, remove_client, cleanup_sockets,
}
use cs2remote_console.Server.Handlers.{handle_client_message}
use cs2remote_console.Server.Options.{signal_handler}
use cs2remote_console.Server.Threads.{
  AcceptPoint, awaiting, accepted, accept_ended, HandlerPoint, receiving, handling, behind_loop,
  handler_ended, OperatorPoint, reading, cleaning, joining_accept, run_ended, destroyed, System,
  moves, accept_at, accept_step, receive, handler_at, handler_step, operator_at, operator_step,
  Step, by_accept, by_handler, by_operator, interrupt, Reach, here, next,
}

abbrev pub has_ended : AcceptPoint → Bool
has_ended accept_ended = true
has_ended _ = false

abbrev pub is_bare : Server → Bool
is_bare s = length s.clients == 0 && not (is_some s.listen_socket)

-- What holds behind the join, and behind the destructor.
abbrev pub settled : OperatorPoint → AcceptPoint → Server → Bool
settled run_ended a s = has_ended a
settled destroyed a s = has_ended a && is_bare s
settled _ a s = true

get_elem?-none : (cs : List ClientInfo) (i : ℕ) → length cs ≡ 0 → get_elem? cs i ≡ none
get_elem?-none [] i e = refl
get_elem?-none (c ∷ cs) i e = absurd (omega arith)

pub deref-empty : (r : Ref) (s : Server) → length s.clients ≡ 0 → deref r s ≡ none
unfolding deref
deref-empty r s e = ground (arith, get_elem?-none s.clients r.index)

module _ (net : Sockets) where
  -- Nothing but the accept thread adds a client, and no thread sets the listening socket.
  handle_client_message-is_bare :
      (r : Ref) (m : Bytes) (s s' : Server) (w w' : net.World)
      → handle_client_message net r m s w ≡ some (s', w')
      → is_bare s ≡ true
      → is_bare s' ≡ true
  unfolding handle_client_message
  handle_client_message-is_bare r m s s' w w' e bare =
      let never = deref-empty r s (ground arith) in ground arith

  remove_client-is_bare :
      (r : Ref) (s s' : Server) (w w' : net.World)
      → remove_client net r s w ≡ some (s', w')
      → is_bare s ≡ true
      → is_bare s' ≡ true
  unfolding remove_client
  remove_client-is_bare r s s' w w' e bare =
      let never = deref-empty r s (ground arith) in ground arith

  abbrev pub is_settled : System × net.World → Bool
  is_settled t = settled t.0.operator t.0.accepting t.0.server

  accept_at-settled :
      (p : AcceptPoint) (y : System) (w : net.World) (t : System × net.World)
      → y.accepting ≡ p
      → accept_at net p y w ≡ moves t
      → is_settled (y, w) ≡ true
      → is_settled t ≡ true
  unfolding accept_at emplace_back
  accept_at-settled awaiting y w t at e h = ground arith
  accept_at-settled (accepted n ip port) y w t at e h = ground arith
  accept_at-settled accept_ended y w t at e h = cc

  handler_at-settled :
      (p : HandlerPoint) (i : ℕ) (r : Ref) (y : System) (w : net.World) (t : System × net.World)
      → handler_at net p i r y w ≡ moves t
      → is_settled (y, w) ≡ true
      → is_settled t ≡ true
  unfolding handler_at receive
  handler_at-settled receiving i r y w t e h = ground arith
  handler_at-settled (handling text) i r y w t e h =
      elim (Option-cases (c_string (text ++ 0 ∷ []))) [
        | inl unterminated ↦ absurd (ground arith)
        | inr (m, read) ↦ elim (Option-cases (handle_client_message net r m y.server w)) [
          | inl dangling ↦ absurd (ground arith)
          | inr (u, done) ↦
              let bare = handle_client_message-is_bare r m y.server u.0 w u.1 done in ground arith
        ]
      ]
  handler_at-settled behind_loop i r y w t e h =
      elim (Option-cases (remove_client net r y.server w)) [
        | inl dangling ↦ absurd (ground arith)
        | inr (u, done) ↦ let bare = remove_client-is_bare r y.server u.0 w u.1 done in ground arith
      ]
  handler_at-settled handler_ended i r y w t e h = cc

  operator_at-settled :
      (p : OperatorPoint) (line : Option Bytes) (y : System) (w : net.World)
      (t : System × net.World)
      → y.operator ≡ p
      → operator_at net p line y w ≡ moves t
      → is_settled (y, w) ≡ true
      → is_settled t ≡ true
  unfolding operator_at cleanup_sockets
  operator_at-settled reading line y w t at e h = ground arith
  operator_at-settled cleaning line y w t at e h = ground arith
  operator_at-settled joining_accept line y w t at e h = ground arith
  operator_at-settled run_ended line y w t at e h = ground arith
  operator_at-settled destroyed line y w t at e h = cc

  Step-settled :
      (s t : System × net.World) → Step net s t → is_settled s ≡ true → is_settled t ≡ true
  unfolding accept_step handler_step operator_step signal_handler
  Step-settled s t (by_accept e) h = accept_at-settled s.0.accepting s.0 s.1 t refl e h
  Step-settled s t (by_handler i e) h = elim (Option-cases (get_elem? s.0.handlers i)) [
    | inl no_thread ↦ absurd (ground arith)
    | inr (th, found) ↦ handler_at-settled th.point i th.client s.0 s.1 t (ground arith) h
  ]
  Step-settled s t (by_operator line e) h = operator_at-settled s.0.operator line s.0 s.1 t refl e h
  Step-settled s t (interrupt e) h = ground arith

  pub Reach-settled :
      (s t : System × net.World) → Reach net s t → is_settled s ≡ true → is_settled t ≡ true
  Reach-settled s _ here h = h
  Reach-settled s t (next m _ before last) h = Step-settled m t last (Reach-settled s m before h)
