-- ===== src/Tui/Colors/Cache.antt =====
-- The cache of colour pairs that initializeColor keeps.
use cs2remote_console.Base.{
  Option-cases, ℕ, suc, ◌+◌, ◌%◌, ◌≤◌, ◌<◌, ◌≡◌, ap, ◌∙◌, inl, inr, none, some, List, [], ◌∷◌,
  arith,
}
use cs2remote_console.Tui.State.{Tui, find_key, assign_key, find_key-assign_key}
use cs2remote_console.Tui.Colors.{combined_color, extended_pair, nearest_pair, initialize_color}

-- The pairs of a cache rise along it, from `lo` on and below `hi`; every key has a colour.
abbrev pub Rising : ℕ → ℕ → List (ℕ × ℕ) → Type 0
Rising lo hi [] = lo ≤ hi
Rising lo hi ((key, pair) ∷ m) = (4294967296 ≤ key) × (lo ≤ pair) × Rising (suc pair) hi m

-- The next pair is no negative short.
pub record CacheInv {W : Type 0} (t : Tui W) : Type 0 where
  pub short_range : t.next_color_pair_id ≤ 32767
  pub rising : Rising 1 t.next_color_pair_id t.color_cache

Rising-le : (lo hi : ℕ) (m : List (ℕ × ℕ)) → Rising lo hi m → lo ≤ hi
Rising-le lo hi [] r = r
Rising-le lo hi ((key, pair) ∷ m) r = omega (arith, Rising-le (suc pair) hi m r.2)

pub find-Rising :
    (lo hi k p : ℕ) (m : List (ℕ × ℕ))
    → Rising lo hi m
    → find_key k m ≡ some p
    → (lo ≤ p) × (p < hi) × (4294967296 ≤ k)
unfolding find_key
find-Rising lo hi k p [] r e = cc
find-Rising lo hi k p ((key, pair) ∷ m) r e =
    ground (arith, Rising-le (suc pair) hi m r.2, find-Rising (suc pair) hi k p m r.2)

assign-Rising :
    (lo hi k : ℕ) (m : List (ℕ × ℕ))
    → Rising lo hi m
    → 4294967296 ≤ k
    → find_key k m ≡ none
    → Rising lo (suc hi) (assign_key k hi m)
unfolding find_key assign_key
assign-Rising lo hi k [] r h e = (h, r, omega arith)
assign-Rising lo hi k ((key, pair) ∷ m) r h e =
    ground (arith, assign-Rising (suc pair) hi k m r.2 h)

-- Different keys have different pairs.
find_key-injective :
    (lo hi k j p : ℕ) (m : List (ℕ × ℕ))
    → Rising lo hi m
    → find_key k m ≡ some p
    → find_key j m ≡ some p
    → k ≡ j
unfolding find_key
find_key-injective lo hi k j p [] r e f = cc
find_key-injective lo hi k j p ((key, pair) ∷ m) r e f = ground (
  arith,
  find-Rising (suc pair) hi k p m r.2,
  find-Rising (suc pair) hi j p m r.2,
  find_key-injective (suc pair) hi k j p m r.2,
)

combined_color_injective :
    (c b c' b' : ℕ)
    → b < 4294967296
    → b' < 4294967296
    → combined_color c b ≡ combined_color c' b'
    → (c ≡ c') × (b ≡ b')
combined_color_injective c b c' b' h h' e = omega arith

module _ {W : Type 0} (color background : ℕ) (t : Tui W) where
  -- A colour that is not cached takes the next pair.
  initialize_color_new :
      find_key (combined_color color background) t.color_cache ≡ none
      → ((initialize_color color background t).0 ≡ t.next_color_pair_id)
        × ((initialize_color color background t).1.next_color_pair_id
            ≡ (t.next_color_pair_id + 1) % 65536)
        × ((initialize_color color background t).1.color_cache
            ≡ assign_key (combined_color color background) t.next_color_pair_id t.color_cache)
        × ((initialize_color color background t).1.console_messages ≡ t.console_messages)
        × ((initialize_color color background t).1.channels ≡ t.channels)
  unfolding initialize_color extended_pair nearest_pair
  initialize_color_new e = ground arith

  initialize_color_cached :
      (p : ℕ)
      → find_key (combined_color color background) t.color_cache ≡ some p
      → initialize_color color background t ≡ (p, t)
  unfolding initialize_color
  initialize_color_cached p e = ground arith

module _ {W : Type 0} (color background : ℕ) (t : Tui W) where
  -- For a colour that is not 0, while m_nextColorPairId is below 32767, initializeColor keeps the cache's
  -- invariant. The pair that it returns is cached for this colour and background, is not the default
  -- pair 0 and lies below the next free one, which is a short too. Asking again gives the same pair and changes nothing. All
  -- that was cached before is cached as before.
  pub initialize_color_lem :
      CacheInv t
      → 0 < color
      → t.next_color_pair_id < 32767
      → let r = initialize_color color background t in
        CacheInv r.1
        × (find_key (combined_color color background) r.1.color_cache ≡ some r.0)
        × (0 < r.0)
        × (r.0 < r.1.next_color_pair_id)
        × (initialize_color color background r.1 ≡ r)
        × ((k : ℕ) (p : ℕ)
            → find_key k t.color_cache ≡ some p
            → find_key k r.1.color_cache ≡ some p)
  initialize_color_lem v h small =
      let key = combined_color color background in
      elim (Option-cases (find_key key t.color_cache)) [
        | inl missing ↦
            let (pair, next, cache, _, _) = initialize_color_new color background t missing in
            let r = initialize_color color background t in
            let next' : r.1.next_color_pair_id ≡ suc t.next_color_pair_id = next ∙ omega arith in
            let held : find_key key r.1.color_cache ≡ some r.0 =
              rw (cache, pair)
                (find_key-assign_key key key t.next_color_pair_id t.color_cache ∙ ground arith) in
            (
              record {
                short_range = omega (arith, next');
                rising =
                    rw (next', cache)
                      (assign-Rising 1 t.next_color_pair_id key t.color_cache v.rising (omega arith)
                        missing);
              },
              held,
              rw pair (Rising-le 1 t.next_color_pair_id t.color_cache v.rising),
              omega (arith, pair, next'),
              initialize_color_cached color background r.1 r.0 held,
              λ k p e.
                  rw cache
                    (find_key-assign_key key k t.next_color_pair_id t.color_cache ∙ ground arith),
            )
        | inr (p, e) ↦
            let same = initialize_color_cached color background t p e in
            let bounds = find-Rising 1 t.next_color_pair_id key p t.color_cache v.rising e in
            rw same (v, e, bounds.0, bounds.1, same, λ k q f. f)
      ]

pub initialize_color-channels :
    {W : Type 0} (color background : ℕ) (t : Tui W)
    → (initialize_color color background t).1.channels ≡ t.channels
initialize_color-channels color background t =
    elim (Option-cases (find_key (combined_color color background) t.color_cache)) [
      | inl missing ↦ (initialize_color_new color background t missing).4
      | inr (p, e) ↦ rw (initialize_color_cached color background t p e)
    ]

pub initialize_color-messages :
    {W : Type 0} (color background : ℕ) (t : Tui W)
    → (initialize_color color background t).1.console_messages ≡ t.console_messages
initialize_color-messages color background t =
    elim (Option-cases (find_key (combined_color color background) t.color_cache)) [
      | inl missing ↦ (initialize_color_new color background t missing).3
      | inr (p, e) ↦ rw (initialize_color_cached color background t p e)
    ]

pub initialize_color-next :
    {W : Type 0} (color background : ℕ) (t : Tui W)
    → (initialize_color color background t).1.next_color_pair_id ≤ t.next_color_pair_id + 1
initialize_color-next color background t =
    elim (Option-cases (find_key (combined_color color background) t.color_cache)) [
      | inl missing ↦ omega (arith, (initialize_color_new color background t missing).1)
      | inr (p, e) ↦ rw (initialize_color_cached color background t p e) (omega arith)
    ]

-- Two colours get the same pair only if they are the same, background included.
initialize_color_distinct :
    {W : Type 0} (c b c' b' : ℕ) (t : Tui W)
    → CacheInv t
    → 0 < c
    → 0 < c'
    → b < 4294967296
    → b' < 4294967296
    → t.next_color_pair_id < 32766
    → let r = initialize_color c b t in
      let r' = initialize_color c' b' r.1 in r'.0 ≡ r.0 → (c ≡ c') × (b ≡ b')
initialize_color_distinct c b c' b' t v h h' k k' small same =
    let r = initialize_color c b t in
    let r' = initialize_color c' b' r.1 in
    let first = initialize_color_lem c b t v h (omega arith) in
    let second =
      initialize_color_lem c' b' r.1 first.0 h' (omega (arith, initialize_color-next c b t)) in
    combined_color_injective c b c' b' k k' (
      find_key-injective 1 r'.1.next_color_pair_id (combined_color c b) (combined_color c' b') r.0
        r'.1.color_cache second.0.rising (second.5 (combined_color c b) r.0 first.1)
        (second.1 ∙ ap some same))
