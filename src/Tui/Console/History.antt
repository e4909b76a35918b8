-- ===== src/Tui/Console/History.antt =====
-- The message history of addConsoleMessage.
use cs2remote_console.Base.{
  ltb, if◌then◌else◌, ltb→lt, Bool-cases, length, drop, length-append, length-drop, Bytes, ℕ, zero,
  suc, ◌+◌, ◌-◌, ◌≤◌, min, ◌≡◌, refl, sym, ap, ◌∙◌, inl, inr, List, [], ◌∷◌, ◌++◌, map, append-nil,
  append_assoc, arith,
}
use cs2remote_console.Platform.{byte_swap32}
use cs2remote_console.Tui.State.{Tui, ConsoleMessage, max_console_messages}
use cs2remote_console.Tui.Console.{add_console_message, pop_front}

-- The arguments of one call, with the time.
pub record Addition : Type 0 where
  pub channel_id : ℕ
  pub message : Bytes
  pub msg_color : ℕ
  pub now : ℕ

unfoldable pub stored : Addition → ConsoleMessage
stored a = record {
  channel_id = a.channel_id;
  color = byte_swap32 a.msg_color;
  message = a.message;
  timestamp = a.now;
}

unfoldable pub add_all : {W : Type 0} → List Addition → Tui W → Tui W
add_all [] t = t
add_all (a ∷ rest) t = add_all rest (add_console_message a.channel_id a.message a.msg_color a.now t)

-- The last `n` elements.
unfoldable pub last : ℕ → List ConsoleMessage → List ConsoleMessage
last n ms = drop (length ms - n) ms

last_all : (n : ℕ) (ms : List ConsoleMessage) → length ms ≤ n → last n ms ≡ ms
unfolding last
last_all n ms h = let none_more : length ms - n ≡ 0 = omega arith in rw none_more

length-last : (n : ℕ) (ms : List ConsoleMessage) → length (last n ms) ≡ min n (length ms)
unfolding last
length-last n ms = omega (arith, length-drop (length ms - n) ms)

drop_one : (ms : List ConsoleMessage) → drop 1 ms ≡ pop_front ms
drop_one [] = refl
drop_one (m ∷ ms) = refl

drop-append_le :
    (k : ℕ) (ms ns : List ConsoleMessage) → k ≤ length ms → drop k ms ++ ns ≡ drop k (ms ++ ns)
drop-append_le zero ms ns h = refl
drop-append_le (suc k) [] ns h = absurd (omega arith)
drop-append_le (suc k) (m ∷ ms) ns h = drop-append_le k ms ns (omega arith)

drop-nil : (k : ℕ) → drop {A = ConsoleMessage} k [] ≡ []
drop-nil zero = refl
drop-nil (suc k) = refl

drop-drop : (j k i : ℕ) (ms : List ConsoleMessage) → i ≡ j + k → drop j (drop k ms) ≡ drop i ms
drop-drop j zero i ms e = let same : i ≡ j = omega arith in rw same
drop-drop zero (suc k) i [] e = sym (drop-nil i)
drop-drop (suc j) (suc k) i [] e = sym (drop-nil i)
drop-drop j (suc k) zero (m ∷ ms) e = absurd (omega arith)
drop-drop j (suc k) (suc i) (m ∷ ms) e = drop-drop j k i ms (omega arith)

-- Only the last `n` of a list matter for the last `n` of a longer one.
last-last_append :
    (n : ℕ) (ms ns : List ConsoleMessage) → last n (last n ms ++ ns) ≡ last n (ms ++ ns)
unfolding last
last-last_append n ms ns =
    let k : ℕ = length ms - n in
    rw (drop-append_le k ms ns (omega arith)) (
      drop-drop (length (drop k (ms ++ ns)) - n) k (length (ms ++ ns) - n) (ms ++ ns)
        (omega (arith, length-drop k (ms ++ ns), length-append ms ns)))

push_bounded :
    (n : ℕ) (ms : List ConsoleMessage) (m : ConsoleMessage)
    → length ms ≤ n
    → (if ltb n (length (ms ++ m ∷ [])) then pop_front (ms ++ m ∷ []) else ms ++ m ∷ [])
      ≡ last n (ms ++ m ∷ [])
unfolding last
push_bounded n ms m h = elim (Bool-cases (ltb n (length (ms ++ m ∷ [])))) [
  | inl over ↦
      let one : length (ms ++ m ∷ []) - n ≡ 1 =
        omega (arith, ltb→lt n (length (ms ++ m ∷ [])) over, length-append ms (m ∷ [])) in
      rw (over, last, one) (sym (drop_one (ms ++ m ∷ [])))
  | inr fits ↦ rw fits (sym (last_all n (ms ++ m ∷ []) (ground arith)))
]

add_console_message_lem :
    {W : Type 0} (a : Addition) (t : Tui W)
    → length t.console_messages ≤ max_console_messages
    → (add_console_message a.channel_id a.message a.msg_color a.now t).console_messages
      ≡ last max_console_messages (t.console_messages ++ stored a ∷ [])
unfolding add_console_message stored
add_console_message_lem a t h = push_bounded max_console_messages t.console_messages (stored a) h

-- The console holds the last 10000 messages of all that were added, in order and each as it was
-- added, with its colour's bytes swapped, if it held at most so many before.
pub add_all-last :
    {W : Type 0} (adds : List Addition) (t : Tui W)
    → length t.console_messages ≤ max_console_messages
    → (add_all adds t).console_messages
      ≡ last max_console_messages (t.console_messages ++ map stored adds)
unfolding add_all
add_all-last [] t h = rw append-nil (sym (last_all max_console_messages t.console_messages h))
add_all-last (a ∷ rest) t h =
    let step = add_console_message_lem a t h in
    let t' = add_console_message a.channel_id a.message a.msg_color a.now t in
    let bound : length t'.console_messages ≤ max_console_messages = omega (
      arith,
      ap length step,
      length-last max_console_messages (t.console_messages ++ stored a ∷ []),
    ) in
    add_all-last rest t' bound
    ∙ ap (λ (ms : List ConsoleMessage). last max_console_messages (ms ++ map stored rest)) step
    ∙ last-last_append max_console_messages (t.console_messages ++ stored a ∷ []) (map stored rest)
    ∙ ap (last max_console_messages)
        (append_assoc t.console_messages (stored a ∷ []) (map stored rest))
