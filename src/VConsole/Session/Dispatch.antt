-- ===== src/VConsole/Session/Dispatch.antt =====
-- processPacket: what each type of packet changes, and what its callback gets.
use cs2remote_console.Base.{
  if◌then◌else◌, Bool-cases, Option-cases, ◌>>=◌, All, filterb_idem, Bytes, codes, eqb, eqb_iff,
  ◌≤◌, ◌≡◌, ◌∙◌, ◌≢◌, inl, inr, Option, none, some, List, [], ◌∷◌, ◌++◌, append-nil, append_assoc,
  arith,
}
use cs2remote_console.VConsole.Memory.{c_string_at}
use cs2remote_console.VConsole.Messages.{CvarInfo, Adon, Prnt, Cvar}
use cs2remote_console.VConsole.Parse.{strip_non_ascii, parse_adon, parse_prnt, parse_cvar}
use cs2remote_console.VConsole.Session.{VConsole, process_packet, notify}

strip_non_ascii-All : (s : Bytes) → All (λ c. c ≤ 127) (strip_non_ascii s)
unfolding strip_non_ascii
strip_non_ascii-All [] = tt
strip_non_ascii-All (c ∷ s) = ground (arith, strip_non_ascii-All s)

strip_non_ascii_twice : (s : Bytes) → strip_non_ascii (strip_non_ascii s) ≡ strip_non_ascii s
unfolding strip_non_ascii
strip_non_ascii_twice s = filterb_idem _ s

parse_prnt_message :
    (buf : Bytes) (p : Prnt)
    → parse_prnt buf ≡ some p
    → (m : Bytes) × (c_string_at buf 40 ≡ some m) × (p.message ≡ strip_non_ascii m)
unfolding parse_prnt
parse_prnt_message buf p e = elim (Option-cases (c_string_at buf 40)) [
  | inl none_found ↦ absurd (ground arith)
  | inr (m, found) ↦ (m, found, ground arith)
]

-- A PRNT packet that parses reaches its callback exactly as parsePRNT returned it: stripping the
-- message once more changes nothing. Its message is the ASCII part of the C string at offset 40, and
-- the client itself is unchanged.
pub process_packet_prnt :
    {W : Type 0} (buf : Bytes) (c : VConsole W) (w : W) (p : Prnt)
    → parse_prnt buf ≡ some p
    → (process_packet (codes "PRNT") buf c w ≡ some (c, notify c.on_prnt_received p w))
      × All (λ b. b ≤ 127) p.message
      × ((m : Bytes) × (c_string_at buf 40 ≡ some m) × (p.message ≡ strip_non_ascii m))
unfolding process_packet eqb
process_packet_prnt buf c w p e =
    let (m, found, text) = parse_prnt_message buf p e in
    let again : strip_non_ascii p.message ≡ p.message = rw text (strip_non_ascii_twice m) in
    (rw (e, again), rw text (strip_non_ascii-All m), (m, found, text))

process_packet_cvar :
    {W : Type 0} (buf : Bytes) (c c' : VConsole W) (w w' : W)
    → process_packet (codes "CVAR") buf c w ≡ some (c', w')
    → (v : Cvar) × (parse_cvar buf ≡ some v) × (c'.cvars ≡ c.cvars ++ v.cvar ∷ [])
unfolding process_packet eqb
process_packet_cvar buf c c' w w' e = elim (Option-cases (parse_cvar buf)) [
  | inl outside ↦ absurd (ground arith)
  | inr (v, found) ↦ (v, found, ground arith)
]

process_packet_adon :
    {W : Type 0} (buf : Bytes) (c c' : VConsole W) (w w' : W)
    → process_packet (codes "ADON") buf c w ≡ some (c', w')
    → (a : Adon) × (parse_adon buf ≡ some a) × (c'.adon_name ≡ a.name)
unfolding process_packet eqb
process_packet_adon buf c c' w w' e = elim (Option-cases (parse_adon buf)) [
  | inl outside ↦ absurd (ground arith)
  | inr (a, found) ↦ (a, found, ground arith)
]

-- A packet changes no part of the client but its console variables and its addon name. The
-- variables change in a CVAR packet only, which adds the parsed one at the end; the name changes in
-- an ADON packet only, to the parsed one.
pub process_packet_frame :
    {W : Type 0} (msg_type buf : Bytes) (c c' : VConsole W) (w w' : W)
    → process_packet msg_type buf c w ≡ some (c', w')
    → (c' ≡ record c { cvars = c'.cvars; adon_name = c'.adon_name })
      × ((msg_type ≢ codes "CVAR") → c'.cvars ≡ c.cvars)
      × ((msg_type ≡ codes "CVAR")
          → (v : Cvar) × (parse_cvar buf ≡ some v) × (c'.cvars ≡ c.cvars ++ v.cvar ∷ []))
      × ((msg_type ≢ codes "ADON") → c'.adon_name ≡ c.adon_name)
      × ((msg_type ≡ codes "ADON")
          → (a : Adon) × (parse_adon buf ≡ some a) × (c'.adon_name ≡ a.name))
unfolding process_packet
process_packet_frame msg_type buf c c' w w' e = (
  ground (
    arith,
    eqb_iff msg_type (codes "AINF"),
    eqb_iff msg_type (codes "ADON"),
    eqb_iff msg_type (codes "CHAN"),
    eqb_iff msg_type (codes "PRNT"),
    eqb_iff msg_type (codes "CVAR"),
    eqb_iff msg_type (codes "CFGV"),
  ),
  ground (
    arith,
    eqb_iff msg_type (codes "AINF"),
    eqb_iff msg_type (codes "ADON"),
    eqb_iff msg_type (codes "CHAN"),
    eqb_iff msg_type (codes "PRNT"),
    eqb_iff msg_type (codes "CVAR"),
    eqb_iff msg_type (codes "CFGV"),
  ),
  λ t. process_packet_cvar buf c c' w w' (rw t at e),
  ground (
    arith,
    eqb_iff msg_type (codes "AINF"),
    eqb_iff msg_type (codes "ADON"),
    eqb_iff msg_type (codes "CHAN"),
    eqb_iff msg_type (codes "PRNT"),
    eqb_iff msg_type (codes "CVAR"),
    eqb_iff msg_type (codes "CFGV"),
  ),
  λ t. process_packet_adon buf c c' w w' (rw t at e),
)

-- A packet of any other type than the six is ignored.
process_packet_unknown :
    {W : Type 0} (msg_type buf : Bytes) (c : VConsole W) (w : W)
    → msg_type ≢ codes "AINF"
    → msg_type ≢ codes "ADON"
    → msg_type ≢ codes "CHAN"
    → msg_type ≢ codes "PRNT"
    → msg_type ≢ codes "CVAR"
    → msg_type ≢ codes "CFGV"
    → process_packet msg_type buf c w ≡ some (c, w)
unfolding process_packet
process_packet_unknown msg_type buf c w a b d e f g = ground (
  arith,
  eqb_iff msg_type (codes "AINF"),
  eqb_iff msg_type (codes "ADON"),
  eqb_iff msg_type (codes "CHAN"),
  eqb_iff msg_type (codes "PRNT"),
  eqb_iff msg_type (codes "CVAR"),
  eqb_iff msg_type (codes "CFGV"),
)

-- The packets that the listener thread hands over one after another, as pairs of type and chunk.
unfoldable pub process_packets :
    {W : Type 0} → List (Bytes × Bytes) → VConsole W → W → Option (VConsole W × W)
process_packets [] c w = some (c, w)
process_packets ((msg_type, buf) ∷ rest) c w = do
  done ← process_packet msg_type buf c w
  process_packets rest done.0 done.1

-- The console variables of the CVAR packets of a list, in order.
unfoldable pub received_cvars : List (Bytes × Bytes) → List CvarInfo
received_cvars [] = []
received_cvars ((msg_type, buf) ∷ rest) =
    let later = received_cvars rest in
    if eqb msg_type (codes "CVAR")
    then elim (parse_cvar buf) [ none ↦ later | some v ↦ v.cvar ∷ later ]
    else later

received_one :
    {W : Type 0} (msg_type buf : Bytes) (c c' : VConsole W) (w w' : W)
    → process_packet msg_type buf c w ≡ some (c', w')
    → c'.cvars ≡ c.cvars ++ received_cvars ((msg_type, buf) ∷ [])
unfolding received_cvars
received_one msg_type buf c c' w w' e =
    let frame = process_packet_frame msg_type buf c c' w w' e in
    elim (Bool-cases (eqb msg_type (codes "CVAR"))) [
      | inl same ↦
          let (v, parsed, added) = frame.2 ((eqb_iff msg_type (codes "CVAR")).0 same) in
          rw (same, parsed) added
      | inr other ↦
          rw (other, append-nil) (frame.1 (λ t. ground (arith, eqb_iff msg_type (codes "CVAR"))))
    ]

received_cons :
    (msg_type buf : Bytes) (rest : List (Bytes × Bytes))
    → received_cvars ((msg_type, buf) ∷ rest)
      ≡ received_cvars ((msg_type, buf) ∷ []) ++ received_cvars rest
unfolding received_cvars
received_cons msg_type buf rest = elim (Bool-cases (eqb msg_type (codes "CVAR"))) [
  | inl same ↦ elim (Option-cases (parse_cvar buf)) [
    | inl none_found ↦ rw (same, none_found)
    | inr (v, found) ↦ rw (same, found)
  ]
  | inr other ↦ rw other
]

no_result : {A : Type 0} {a : A} → ◌≡◌ {A = Option A} none (some a) → ⊥
no_result e = cc

process_packets_cons :
    {W : Type 0} (msg_type buf : Bytes) (rest : List (Bytes × Bytes)) (c c' : VConsole W) (w w' : W)
    → process_packets ((msg_type, buf) ∷ rest) c w ≡ some (c', w')
    → (c1 : VConsole W) × (w1 : W) × (process_packet msg_type buf c w ≡ some (c1, w1))
      × (process_packets rest c1 w1 ≡ some (c', w'))
unfolding process_packets
process_packets_cons msg_type buf rest c c' w w' e =
    elim (Option-cases (process_packet msg_type buf c w)) [
      | inl outside ↦ absurd (no_result (rw outside at e))
      | inr (done, found) ↦ (done.0, done.1, found, rw found at e)
    ]

cc_cvars :
    {W : Type 0} {c c' : VConsole W} {w w' : W}
    → ◌≡◌ {A = Option (VConsole W × W)} (some (c, w)) (some (c', w'))
    → c'.cvars ≡ c.cvars
cc_cvars e = ground arith

-- After any run of packets the variables are those from before and then those of the CVAR packets,
-- in the order of arrival.
process_packets-cvars :
    {W : Type 0} (packets : List (Bytes × Bytes)) (c c' : VConsole W) (w w' : W)
    → process_packets packets c w ≡ some (c', w')
    → c'.cvars ≡ c.cvars ++ received_cvars packets
unfolding process_packets received_cvars
process_packets-cvars [] c c' w w' e = rw append-nil (cc_cvars e)
process_packets-cvars ((msg_type, buf) ∷ rest) c c' w w' e =
    let (c1, w1, first, later) = process_packets_cons msg_type buf rest c c' w w' e in
    process_packets-cvars rest c1 c' w1 w' later
    ∙ rw (received_one msg_type buf c c1 w w1 first, received_cons msg_type buf rest)
        (append_assoc c.cvars _ (received_cvars rest))
