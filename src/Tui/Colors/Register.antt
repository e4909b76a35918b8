-- ===== src/Tui/Colors/Register.antt =====
-- registerChannel: the colour pair that a channel gets.
use cs2remote_console.Base.{
  ◌==◌, if◌then◌else◌, ==_iff, Bool-cases, Option-cases, Bytes, ℕ, ◌+◌, ◌≤◌, ◌<◌, ◌≡◌, ◌∙◌, ◌≢◌,
  ◌⊎◌, inl, inr, false, not, ◌&&◌, none, some, arith,
}
use cs2remote_console.Tui.State.{Tui, ConsoleChannel, find_key, find_key-assign_key}
use cs2remote_console.Tui.Colors.{
  combined_color, pairs_left, initialize_color, channel_pair, register_channel,
}
use cs2remote_console.Tui.Colors.Cache.{
  CacheInv, find-Rising, initialize_color-channels, initialize_color-next, initialize_color_lem,
}

-- registerChannel looks a colour up under its bare 32 bits, and no key of the cache has so few.
find_bare :
    {W : Type 0} (color : ℕ) (t : Tui W)
    → CacheInv t
    → color < 4294967296
    → find_key color t.color_cache ≡ none
find_bare color t v h = elim (Option-cases (find_key color t.color_cache)) [
  | inl missing ↦ missing
  | inr (p, e) ↦
      absurd (omega (arith, find-Rising 1 t.next_color_pair_id color p t.color_cache v.rising e))
]

-- A registered channel has its name and its colour. Its pair is that of initializeColor for the
-- colour and background if there is a colour and the terminal has pairs left, and 0 otherwise. The
-- other channels stay as they were.
pub register_channel_pair :
    {W : Type 0} (color_pairs id color background : ℕ) (name : Bytes) (t : Tui W)
    → CacheInv t
    → color < 4294967296
    → (find_key id (register_channel color_pairs id name color background t).channels
        ≡ some (record {
          name = name;
          color = color;
          color_pair_id =
              if not (color == 0) && pairs_left color_pairs t
              then (initialize_color color background t).0
              else 0;
        }))
      × ((j : ℕ)
          → j ≢ id
          → find_key j (register_channel color_pairs id name color background t).channels
            ≡ find_key j t.channels)
unfolding register_channel channel_pair
register_channel_pair color_pairs id color background name t v h =
    let r = channel_pair color_pairs color background t in
    let channel : ConsoleChannel = record { name = name; color = color; color_pair_id = r.0 } in
    (
      find_key-assign_key id id channel r.1.channels ∙ ground (arith, find_bare color t v h),
      λ j ne.
          find_key-assign_key id j channel r.1.channels
          ∙ ground (arith, find_bare color t v h, initialize_color-channels color background t),
    )

-- While the cache's invariant holds and the terminal has no pairs left, a channel whose colour has a
-- pair already in the cache, which is never 0, is registered with the default pair 0 all the same.
pub register_channel_loses_pair :
    {W : Type 0} (color_pairs id color background pair : ℕ) (name : Bytes) (t : Tui W)
    → CacheInv t
    → color < 4294967296
    → find_key (combined_color color background) t.color_cache ≡ some pair
    → pairs_left color_pairs t ≡ false
    → (0 < pair)
      × (find_key id (register_channel color_pairs id name color background t).channels
          ≡ some (record { name = name; color = color; color_pair_id = 0 }))
register_channel_loses_pair color_pairs id color background pair name t v h e out = (
  (find-Rising 1 t.next_color_pair_id (combined_color color background) pair t.color_cache v.rising
      e).0,
  (register_channel_pair color_pairs id color background name t v h).0 ∙ ground (arith, out),
)

-- Of the cache registerChannel leaves what it was, or what initializeColor makes of it.
register_channel-cache :
    {W : Type 0} (color_pairs id color background : ℕ) (name : Bytes) (t : Tui W)
    → CacheInv t
    → color < 4294967296
    → let t' = register_channel color_pairs id name color background t in
      let r = (initialize_color color background t).1 in
      ((t'.color_cache ≡ t.color_cache) × (t'.next_color_pair_id ≡ t.next_color_pair_id))
      ⊎ ((t'.color_cache ≡ r.color_cache)
          × (t'.next_color_pair_id ≡ r.next_color_pair_id)
          × (0 < color))
unfolding register_channel channel_pair
register_channel-cache color_pairs id color background name t v h =
    let missing = find_bare color t v h in
    elim (Bool-cases (color == 0)) [
      | inl black ↦ inl (ground arith, ground arith)
      | inr coloured ↦ elim (Bool-cases (pairs_left color_pairs t)) [
        | inl some_left ↦ inr (ground arith, ground arith, ground (arith, ==_iff color 0))
        | inr none_left ↦ inl (ground arith, ground arith)
      ]
    ]

-- registerChannel keeps the cache's invariant, and takes at most one new pair.
pub register_channel-CacheInv :
    {W : Type 0} (color_pairs id color background : ℕ) (name : Bytes) (t : Tui W)
    → CacheInv t
    → color < 4294967296
    → t.next_color_pair_id < 32767
    → let t' = register_channel color_pairs id name color background t in
      CacheInv t' × (t'.next_color_pair_id ≤ t.next_color_pair_id + 1)
register_channel-CacheInv color_pairs id color background name t v h small =
    elim (register_channel-cache color_pairs id color background name t v h) [
      | inl (cache, next) ↦ (
        record { short_range = rw next v.short_range; rising = rw (cache, next) v.rising },
        omega (arith, next),
      )
      | inr (cache, next, coloured) ↦
          let kept = (initialize_color_lem color background t v coloured small).0 in
          (
            record {
              short_range = rw next kept.short_range;
              rising = rw (cache, next) kept.rising;
            },
            omega (arith, next, initialize_color-next color background t),
          )
    ]
