-- ===== src/Client/Remote/Announce.antt =====
-- From the console's answer to "name" to the message that the remote server gets.
use cs2remote_console.Base.{
  ◌==◌, ==_iff, Bool-cases, length, take, All, Bytes, codes, eqb, eqb_iff, split_at-append, ℕ, ◌≡◌,
  refl, ap, ◌∙◌, ◌≢◌, inl, inr, false, none, some, [], ◌∷◌, ◌++◌, arith,
}
use cs2remote_console.Net.{Sockets}
use cs2remote_console.Server.Handlers.{split_colon}
use cs2remote_console.Client.Remote.{
  RemoteLink, is_line_end, line_of, match_name, search_name, name_message, handle_prnt,
  send_message_to_remote_server,
}

-- A name that stands on one line.
abbrev pub IsLine : Bytes → Type 0
IsLine = All (λ c. is_line_end c ≡ false)

line_of-append : (name rest : Bytes) → IsLine name → line_of (name ++ b'\n' ∷ rest) ≡ name
unfolding line_of
line_of-append [] rest l = refl
line_of-append (c ∷ name) rest l = ground (arith, line_of-append name rest l.1)

-- "name = " stands nowhere in the text before what follows.
abbrev pub NotBefore : Bytes → Bytes → Type 0
NotBefore text [] = Unit
NotBefore text (c ∷ before) =
    (eqb (take 7 (c ∷ (before ++ text))) (codes "name = ") ≡ false) × NotBefore text before

match_name-none :
    (pattern text : Bytes) → take (length pattern) text ≢ pattern → match_name pattern text ≡ none
unfolding match_name
match_name-none [] text other = absurd (other refl)
match_name-none (p ∷ ps) [] other = refl
match_name-none (p ∷ ps) (c ∷ cs) other = elim (Bool-cases (c == p)) [
  | inl same ↦ rw same (
      match_name-none ps cs (λ e. other (
        ap (λ (x : ℕ). x ∷ take (length ps) cs) ((==_iff c p).0 same)
        ∙ ap (λ (xs : Bytes). p ∷ xs) e)))
  | inr differ ↦ rw differ refl
]

search_name-append :
    (before text : Bytes) → NotBefore text before → search_name (before ++ text) ≡ search_name text
unfolding search_name
search_name-append [] text first = refl
search_name-append (c ∷ before) text first =
    let here_now = take 7 (c ∷ (before ++ text)) in
    let other : here_now ≢ codes "name = " =
      λ e. ground (arith, (eqb_iff here_now (codes "name = ")).1 e, first.0) in
    ground (
      arith,
      match_name-none (codes "name = ") (c ∷ (before ++ text)) other,
      search_name-append before text first.1,
    )

match_name-line :
    (c : ℕ) (name rest : Bytes)
    → IsLine (c ∷ name)
    → match_name (codes "name = ") (codes "name = " ++ ((c ∷ name) ++ b'\n' ∷ rest))
      ≡ some (c ∷ name)
unfolding match_name
match_name-line c name rest l = rw (line_of-append (c ∷ name) rest l)

search_name-line :
    (c : ℕ) (name rest : Bytes)
    → IsLine (c ∷ name)
    → search_name (codes "name = " ++ ((c ∷ name) ++ b'\n' ∷ rest)) ≡ some (c ∷ name)
unfolding search_name
search_name-line c name rest l = ground (arith, match_name-line c name rest l)

module _ (net : Sockets) where
  -- What handlePRNT makes of such a line: the client keeps the name, and announces it once.
  pub handle_prnt-line :
      (before name rest : Bytes) (c n : ℕ) (s : RemoteLink) (w : net.World)
      → NotBefore (codes "name = " ++ ((c ∷ name) ++ b'\n' ∷ rest)) before
      → IsLine (c ∷ name)
      → s.remote_server_sock ≡ some n
      → handle_prnt net (before ++ (codes "name = " ++ ((c ∷ name) ++ b'\n' ∷ rest))) s w
        ≡ (record s { client_name = c ∷ name }, (net.send (some n) (name_message (c ∷ name)) w).1)
  unfolding handle_prnt search_name send_message_to_remote_server
  handle_prnt-line before name rest c n s w l line linked =
      let found =
        search_name-append before (codes "name = " ++ ((c ∷ name) ++ b'\n' ∷ rest)) l
        ∙ search_name-line c name rest line in
      ground arith

  -- A console line of which the first "name = " stands before a name of at least one character makes the client keep that name and send "PLAYERNAME:" with it to an open remote server,
  -- in one send; the server splits what was sent into the command PLAYERNAME and that very name,
  -- whatever characters the name has.
  pub handle_prnt_announces :
      (before name rest : Bytes) (c n : ℕ) (s : RemoteLink) (w : net.World)
      → NotBefore (codes "name = " ++ ((c ∷ name) ++ b'\n' ∷ rest)) before
      → IsLine (c ∷ name)
      → s.remote_server_sock ≡ some n
      → let message = before ++ (codes "name = " ++ ((c ∷ name) ++ b'\n' ∷ rest)) in
        (sent : Bytes) × (handle_prnt net message s w
          ≡ (record s { client_name = c ∷ name }, (net.send (some n) sent w).1))
        × (split_colon sent ≡ some (codes "PLAYERNAME", c ∷ name))
  unfolding name_message split_colon
  handle_prnt_announces before name rest c n s w l line linked = (
    name_message (c ∷ name),
    handle_prnt-line before name rest c n s w l line linked,
    split_at-append b':' (codes "PLAYERNAME") (c ∷ name) (ground arith),
  )
