-- ===== src/Tui/Console/Window.antt =====
-- The text of the console window: what drawConsoleWindow prints, line by line.
use cs2remote_console.Base.{
  leb, ◌==◌, if◌then◌else◌, Bool-cases, Option-cases, length, take, drop, length-take, take_all,
  Bytes, codes, ℕ, zero, suc, ◌+◌, ◌-◌, ◌%◌, ◌≤◌, ◌≡◌, refl, sym, ap, ◌∙◌, inl, inr, none, some,
  List, [], ◌∷◌, ◌++◌, append-nil, append_assoc, arith,
}
use cs2remote_console.Tui.State.{
  Tui, ConsoleChannel, ConsoleMessage, CursesCall, init_color, init_pair, color_content, print_line,
  find_key, application_special_channel_id,
}
use cs2remote_console.Tui.Colors.{initialize_color, extended_pair, nearest_pair}
use cs2remote_console.Tui.Colors.Cache.{initialize_color-channels}
use cs2remote_console.Tui.Console.{draw_message, line_prefix, pair_of, draw_console_window}
use cs2remote_console.Tui.Console.History.{last}
use cs2remote_console.Tui.Console.View.{visible, draw_each, draw_console_window_lem}

-- The lines printed, each with its row, oldest first.
abbrev pub printed : List CursesCall → List (ℕ × Bytes)
printed [] = []
printed (print_line row pair text ∷ calls) = (row, text) ∷ printed calls
printed (_ ∷ calls) = printed calls

-- The line of a message: the application's own as it is, another behind the name of its channel.
abbrev pub line_text : List (ℕ × ConsoleChannel) → ConsoleMessage → Bytes
line_text channels m =
    if m.channel_id == application_special_channel_id
    then m.message
    else elim (find_key m.channel_id channels) [
      | none ↦ codes "[Unknown] " ++ m.message
      | some channel ↦ codes "[" ++ (channel.name ++ (codes "] " ++ m.message))
    ]

-- One message to a row.
abbrev pub rows : List (ℕ × ConsoleChannel) → ℕ → List ConsoleMessage → List (ℕ × Bytes)
rows channels row [] = []
rows channels row (m ∷ ms) = (row, line_text channels m) ∷ rows channels (row + 1) ms

printed-append : (a b : List CursesCall) → printed (a ++ b) ≡ printed a ++ printed b
printed-append [] b = refl
printed-append (init_color n r g bl ∷ a) b = printed-append a b
printed-append (init_pair p n m ∷ a) b = printed-append a b
printed-append (color_content n ∷ a) b = printed-append a b
printed-append (print_line row pair text ∷ a) b = ap (◌∷◌ (row, text)) (printed-append a b)

-- A new pair prints nothing.
extended_pair-printed :
    {W : Type 0} (pair color background : ℕ) (t : Tui W)
    → printed (extended_pair pair color background t).calls ≡ printed t.calls
unfolding extended_pair
extended_pair-printed pair color background t =
    printed-append t.calls _ ∙ append-nil (printed t.calls)

nearest_pair-printed :
    {W : Type 0} (pair color background : ℕ) (t : Tui W)
    → printed (nearest_pair pair color background t).calls ≡ printed t.calls
unfolding nearest_pair
nearest_pair-printed pair color background t =
    printed-append t.calls _ ∙ append-nil (printed t.calls)

initialize_color-printed :
    {W : Type 0} (color background : ℕ) (t : Tui W)
    → printed (initialize_color color background t).1.calls ≡ printed t.calls
unfolding initialize_color
initialize_color-printed color background t =
    let pair = t.next_color_pair_id in
    let t1 = record t { next_color_pair_id = (pair + 1) % 65536 } in
    ground (
      arith,
      extended_pair-printed pair color background t1,
      nearest_pair-printed pair color background t1,
    )

line_text-prefix :
    (channels : List (ℕ × ConsoleChannel)) (m : ConsoleMessage)
    → line_prefix m.channel_id (find_key m.channel_id channels) ++ m.message ≡ line_text channels m
unfolding line_prefix
line_text-prefix channels m = elim (Option-cases (find_key m.channel_id channels)) [
  | inl unknown ↦ ground arith
  | inr (c, known) ↦ let joined = append_assoc c.name (codes "] ") m.message in ground arith
]

draw_message-printed :
    {W : Type 0} (row : ℕ) (m : ConsoleMessage) (t : Tui W)
    → (printed (draw_message row m t).calls ≡ printed t.calls ++ (row, line_text t.channels m) ∷ [])
      × ((draw_message row m t).channels ≡ t.channels)
unfolding draw_message
draw_message-printed row m t =
    let found = find_key m.channel_id t.channels in
    let text = line_prefix m.channel_id found ++ m.message in
    let ends : (pair : ℕ) (calls : List CursesCall)
        → printed (calls ++ print_line row pair text ∷ [])
          ≡ printed calls ++ (row, line_text t.channels m) ∷ [] =
      λ pair calls.
        printed-append calls (print_line row pair text ∷ [])
        ∙ ap (λ (bs : Bytes). printed calls ++ (row, bs) ∷ []) (line_text-prefix t.channels m) in
    elim (Bool-cases (m.color == 0)) [
      | inl plain ↦
          (let drawn : (draw_message row m t).calls
                ≡ t.calls ++ print_line row (pair_of found) text ∷ [] =
              ground arith in
            (ap printed drawn ∙ ends (pair_of found) t.calls, ground arith))
      | inr coloured ↦
          (let r = initialize_color m.color 0 t in
            let drawn : (draw_message row m t).calls ≡ r.1.calls ++ print_line row r.0 text ∷ [] =
              ground arith in
            (
              ap printed drawn
                  ∙ ends r.0 r.1.calls
                  ∙ ap (λ (ls : List (ℕ × Bytes)). ls ++ (row, line_text t.channels m) ∷ [])
                      (initialize_color-printed m.color 0 t),
              ground (arith, initialize_color-channels m.color 0 t),
            ))
    ]

draw_each-printed :
    {W : Type 0} (row : ℕ) (ms : List ConsoleMessage) (t : Tui W)
    → printed (draw_each row ms t).calls ≡ printed t.calls ++ rows t.channels row ms
unfolding draw_each
draw_each-printed row [] t = sym (append-nil (printed t.calls))
draw_each-printed row (m ∷ ms) t =
    let (line, same) = draw_message-printed row m t in
    draw_each-printed (row + 1) ms (draw_message row m t)
    ∙ rw (line, same)
        (append_assoc (printed t.calls) ((row, line_text t.channels m) ∷ [])
          (rows t.channels (row + 1) ms))

take-drop_swap :
    {A : Type 0} (n k m : ℕ) (xs : List A) → k + n ≡ m → take n (drop k xs) ≡ drop k (take m xs)
take-drop_swap n zero m xs e = ap (λ (i : ℕ). take i xs) (omega arith)
take-drop_swap n (suc k) zero xs e = absurd (omega arith)
take-drop_swap zero (suc k) (suc m) [] e = refl
take-drop_swap (suc n) (suc k) (suc m) [] e = refl
take-drop_swap n (suc k) (suc m) (x ∷ xs) e = take-drop_swap n k m xs (omega arith)

-- What drawConsoleWindow should show: of all but the newest messages that are scrolled over, as many
-- of the last as the window has rows.
abbrev pub in_view : {W : Type 0} → ℕ → Tui W → List ConsoleMessage
in_view height t =
    last height (take (length t.console_messages - t.scroll_position) t.console_messages)

visible-in_view :
    {W : Type 0} (height : ℕ) (t : Tui W)
    → t.scroll_position ≤ length t.console_messages - height
    → visible height t ≡ in_view height t
unfolding visible last
visible-in_view height t h = elim (Bool-cases (leb height (length t.console_messages))) [
  | inl fits ↦
      let ms = t.console_messages in
      let start = length ms - height - t.scroll_position in
      let bound : height ≤ length ms = ground arith in
      let whole : start + height ≡ length ms - t.scroll_position = omega arith in
      let size = length-take (length ms - t.scroll_position) ms in
      let first : length (take (length ms - t.scroll_position) ms) - height ≡ start =
        omega (arith, size) in
      rw first (take-drop_swap height start (length ms - t.scroll_position) ms whole)
  | inr short ↦
      let ms = t.console_messages in
      let bound : length ms ≤ height = ground arith in
      let start : length ms - height - t.scroll_position ≡ 0 = omega arith in
      let all : length ms - t.scroll_position ≡ length ms = omega arith in
      let none_cut : length ms - height ≡ 0 = omega arith in
      rw (start, all, take_all (length ms) ms (omega arith), none_cut) (take_all height ms bound)
]

-- While the scroll position is within its bounds, drawConsoleWindow indexes no message out of bounds
-- and prints these lines and no other: of all messages but the newest that are scrolled over, the last
-- as many as the window has rows, one to a row from row 0 on, each behind the name of its channel in
-- brackets, "[Unknown] " if there is no such channel, and nothing on the application's own.
pub window_shows_messages :
    {W : Type 0} (height : ℕ) (t : Tui W)
    → t.scroll_position ≤ length t.console_messages - height
    → (t' : Tui W) × (draw_console_window height t ≡ some t')
      × (printed t'.calls ≡ printed t.calls ++ rows t.channels 0 (in_view height t))
window_shows_messages height t h = (
  draw_each 0 (visible height t) t,
  draw_console_window_lem height t,
  draw_each-printed 0 (visible height t) t
      ∙ ap (λ (ms : List ConsoleMessage). printed t.calls ++ rows t.channels 0 ms)
          (visible-in_view height t h),
)
