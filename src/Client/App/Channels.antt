-- ===== src/Client/App/Channels.antt =====
-- The callback for CHAN of main: the channels of a packet on the screen, with their colour pairs.
use cs2remote_console.Base.{
  ◌==◌, if◌then◌else◌, length, All, ℕ, suc, ◌+◌, ◌≤◌, ◌<◌, ◌≡◌, refl, sym, ◌∙◌, subst, ◌≢◌, not,
  ◌&&◌, some, List, [], ◌∷◌, ◌++◌, arith,
}
use cs2remote_console.Net.{Sockets}
use cs2remote_console.VConsole.Messages.{Channel, Chan}
use cs2remote_console.Tui.State.{Tui, ConsoleChannel, find_key}
use cs2remote_console.Tui.Colors.{register_channel, pairs_left, initialize_color}
use cs2remote_console.Tui.Colors.Cache.{CacheInv}
use cs2remote_console.Tui.Colors.Register.{register_channel_pair, register_channel-CacheInv}
use cs2remote_console.Client.App.{App, array_text, register_channels, app_on_chan}

-- No channel of the list has the identifier.
abbrev pub NoChannel : ℕ → List Channel → Type 0
NoChannel id = All (λ ch. ch.id ≢ id)

abbrev pub AreColors : List Channel → Type 0
AreColors = All (λ ch. ch.text_rgba_override < 4294967296)

-- The cache's invariant, and shorts left for new pairs.
abbrev pub HasRoom : {W : Type 0} → ℕ → Tui W → Type 0
HasRoom n t = CacheInv t × (t.next_color_pair_id + n ≤ 32767)

module _ {W : Type 0} (color_pairs : ℕ) where
  abbrev with_channel : Channel → Tui W → Tui W
  with_channel ch t =
      register_channel color_pairs ch.id (array_text ch.name) ch.text_rgba_override 0 t

  with_channel-HasRoom :
      (n : ℕ) (ch : Channel) (t : Tui W)
      → ch.text_rgba_override < 4294967296
      → HasRoom (suc n) t
      → HasRoom n (with_channel ch t)
  with_channel-HasRoom n ch t word (v, room) =
      let (kept, next) =
        register_channel-CacheInv color_pairs ch.id ch.text_rgba_override 0 (array_text ch.name) t v
          word (omega (arith, room)) in
      (kept, omega (arith, next, room))

  register_channels-others :
      (id : ℕ) (chs : List Channel) (t : Tui W)
      → AreColors chs
      → HasRoom (length chs) t
      → NoChannel id chs
      → find_key id (register_channels color_pairs chs t).channels ≡ find_key id t.channels
  unfolding register_channels
  register_channels-others id [] t words room n = refl
  register_channels-others id (ch ∷ chs) t words room n =
      register_channels-others id chs (with_channel ch t) words.1
        (with_channel-HasRoom (length chs) ch t words.0 room) n.1
      ∙ (register_channel_pair color_pairs ch.id ch.text_rgba_override 0 (array_text ch.name) t
            room.0 words.0).1
          id (λ e. n.0 (sym e))

  -- The channel on the screen when it is registered in the state t.
  abbrev pub shown_channel : Channel → Tui W → ConsoleChannel
  shown_channel ch t = record {
    name = array_text ch.name;
    color = ch.text_rgba_override;
    color_pair_id =
        if not (ch.text_rgba_override == 0) && pairs_left color_pairs t
        then (initialize_color ch.text_rgba_override 0 t).0
        else 0;
  }

  register_channels-last :
      (before : List Channel) (ch : Channel) (after : List Channel) (t : Tui W)
      → AreColors (before ++ ch ∷ after)
      → HasRoom (length (before ++ ch ∷ after)) t
      → NoChannel ch.id after
      → find_key ch.id (register_channels color_pairs (before ++ ch ∷ after) t).channels
        ≡ some (shown_channel ch (register_channels color_pairs before t))
  unfolding register_channels
  register_channels-last [] ch after t words room n =
      register_channels-others ch.id after (with_channel ch t) words.1
        (with_channel-HasRoom (length after) ch t words.0 room) n
      ∙ (register_channel_pair color_pairs ch.id ch.text_rgba_override 0 (array_text ch.name) t
          room.0 words.0).0
  register_channels-last (b ∷ before) ch after t words room n =
      register_channels-last before ch after (with_channel b t) words.1
        (with_channel-HasRoom (length (before ++ ch ∷ after)) b t words.0 room) n

-- While the cache's invariant holds and m_nextColorPairId has room below 32768 for as many pairs as
-- the packet has channels, of 32-bit colours: after the callback for a CHAN packet, the last channel
-- of each identifier is the one that the screen has, under its name up to the first NUL and with its
-- colour. Its pair is the one that initializeColor gives for this colour, without a background, when
-- its turn comes, if the colour is not 0 and the terminal has pairs left, and else the default pair 0.
-- Channels that the packet does not name stay.
pub app_on_chan_registers :
    (net : Sockets) (V : Type 0) (color_pairs : ℕ) (chan : Chan) (before after : List Channel)
    (ch : Channel) (a : App V) (w : net.World)
    → chan.channels ≡ before ++ ch ∷ after
    → AreColors chan.channels
    → HasRoom (length chan.channels) a.tui
    → NoChannel ch.id after
    → let t = (app_on_chan net V color_pairs chan (a, w)).0.tui in
      (find_key ch.id t.channels
        ≡ some (shown_channel color_pairs ch (register_channels color_pairs before a.tui)))
      × ((j : ℕ) → NoChannel j chan.channels → find_key j t.channels ≡ find_key j a.tui.channels)
unfolding app_on_chan
app_on_chan_registers net V color_pairs chan before after ch a w split words room last = (
  rw split (
      register_channels-last color_pairs before ch after a.tui
        (subst (λ (cs : List Channel). AreColors cs) split words)
        (subst (λ (cs : List Channel). HasRoom (length cs) a.tui) split room) last),
  λ j n. register_channels-others color_pairs j chan.channels a.tui words room n,
)
