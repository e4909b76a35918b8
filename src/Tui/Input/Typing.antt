-- ===== src/Tui/Input/Typing.antt =====
-- Typing a command, and sending it.
use cs2remote_console.Base.{
  set, All, Bytes, codes, is_empty, ℕ, ◌≤◌, ◌≡◌, refl, ap, ◌∙◌, ◌≢◌, false, some, [], ◌∷◌, ◌++◌,
  append-nil, append_assoc, arith,
}
use cs2remote_console.Tui.State.{Tui, application_special_channel_id}
use cs2remote_console.Tui.Console.{add_console_message}
use cs2remote_console.Tui.Input.{
  key_code, key_backspace, pop_back, press_enter, press_backspace, press_code, handle_input,
}

-- The characters that the input line takes.
abbrev pub IsPrintable : ℕ → Type 0
IsPrintable c = (32 ≤ c) × (c ≤ 126)

-- handleInput for the keys of a text, one after another.
pub type_keys : {W : Type 0} → Bytes → ℕ → ℕ → Tui W → W → Tui W × W
type_keys [] height now t w = (t, w)
type_keys (c ∷ cs) height now t w =
    let (t', w') = handle_input (key_code c) height now t w in type_keys cs height now t' w'

press_printable :
    {W : Type 0} (c now : ℕ) (t : Tui W) (w : W)
    → IsPrintable c
    → press_code c now t w ≡ (record t { input_buffer = t.input_buffer ++ c ∷ [] }, w)
unfolding press_code
press_printable c now t w p = ground arith

type_keys-append :
    {W : Type 0} (text : Bytes) (height now : ℕ) (t : Tui W) (w : W)
    → All IsPrintable text
    → type_keys text height now t w ≡ (record t { input_buffer = t.input_buffer ++ text }, w)
unfolding type_keys handle_input
type_keys-append [] height now t w p = rw append-nil
type_keys-append (c ∷ text) height now t w p = rw (press_printable c now t w p.0) (
    type_keys-append text height now (record t { input_buffer = t.input_buffer ++ c ∷ [] }) w p.1
    ∙ rw append_assoc)

is_empty-append : (a b : Bytes) → b ≢ [] → is_empty (a ++ b) ≡ false
is_empty-append [] [] h = absurd (h refl)
is_empty-append [] (c ∷ b) h = refl
is_empty-append (c ∷ a) b h = refl

-- Typing printable characters and then Enter hands the line as it stood before, followed by the
-- text, to the command callback, once. The console gets the echo "> " with the line, and the input
-- line is empty afterwards.
pub typed_command :
    {W : Type 0} (text : Bytes) (callback : Bytes → W → W) (height now : ℕ) (t : Tui W) (w : W)
    → t.command_callback ≡ some callback
    → All IsPrintable text
    → text ≢ []
    → let typed = type_keys text height now t w in
      handle_input (key_code b'\n') height now typed.0 typed.1 ≡ (
        record (add_console_message application_special_channel_id
            (codes "> " ++ (t.input_buffer ++ text))
            0
            now
            typed.0) { input_buffer = [] },
        callback (t.input_buffer ++ text) w,
      )
unfolding handle_input press_code press_enter
typed_command text callback height now t w set p some_text =
    let line = type_keys-append text height now t w p in
    rw line (ground (arith, is_empty-append t.input_buffer text some_text))

pop_back-append : (b : Bytes) (c : ℕ) → pop_back (b ++ c ∷ []) ≡ b
unfolding pop_back
pop_back-append [] c = refl
pop_back-append (x ∷ b) c =
    rw (is_empty-append b (c ∷ []) (λ e. cc)) (ap (◌∷◌ x) (pop_back-append b c))

-- Backspace takes back the last character typed.
backspace_undoes :
    {W : Type 0} (c height now : ℕ) (t : Tui W) (w : W)
    → IsPrintable c
    → let typed = handle_input (key_code c) height now t w in
      handle_input key_backspace height now typed.0 typed.1 ≡ (t, w)
unfolding handle_input press_backspace
backspace_undoes c height now t w p =
    rw (press_printable c now t w p)
      (ap (λ (b : Bytes). (record t { input_buffer = b }, w)) (pop_back-append t.input_buffer c))
