-- ===== src/Client/Remote/Threads/Ways.antt =====
-- The ways of the threads of the remote link, to their ends among others.
use cs2remote_console.Base.{ℕ, zero, suc, ◌≤◌, ◌<◌, ◌≡◌, ◌⊎◌, inl, inr, false, some, arith}
use cs2remote_console.Net.{Sockets}
use cs2remote_console.Config.{Config}
use cs2remote_console.Client.Console.{LinkSettings, Link}
use cs2remote_console.Client.Remote.Threads.{
  RemoteThreads, connector_step, listener_step, cleanup_step, Step, Reach, here, next,
}
use cs2remote_console.Client.Remote.Threads as Threads

module _ (net : Sockets) (config : Config) (settings : LinkSettings) (game : Link net.World) where
  abbrev pub State : Type 0
  State = RemoteThreads × net.World

  abbrev pub IsOff : State → Type 0
  IsOff s = s.0.running ≡ false

  -- The steps that the threads and the clean-up take by themselves: no interrupt.
  pub data Move (s t : State) : Type 0 where
    by_connector : connector_step net config settings s.0 s.1 ≡ some t → Move s t
    by_listener : listener_step net config settings game s.0 s.1 ≡ some t → Move s t
    by_cleanup : cleanup_step net config settings s.0 s.1 ≡ some t → Move s t

  pub Move-Step : (s t : State) → Move s t → Step net config settings game s t
  Move-Step s t (by_connector e) = Threads.by_connector e
  Move-Step s t (by_listener e) = Threads.by_listener e
  Move-Step s t (by_cleanup e) = Threads.by_cleanup e

  -- Such steps to states in which `running` is false.
  pub data Calm : State → State → Type 0 where
    rest : (s : State) → Calm s s
    then_calm : (s t u : State) → Move s t → IsOff t → Calm t u → Calm s u

  -- There is such a way to a state with the property.
  abbrev pub Way : (State → Type 0) → State → Type 0
  Way P s = (t : State) × Calm s t × P t

  Reach-Step :
      (s t u : State)
      → Step net config settings game s t
      → Reach net config settings game t u
      → Reach net config settings game s u
  Reach-Step s t _ one here = next s t here one
  Reach-Step s t u one (next v _ more last) = next v u (Reach-Step s t v one more) last

  pub Calm-Reach : (s t : State) → Calm s t → Reach net config settings game s t
  Calm-Reach s _ (rest _) = here
  Calm-Reach s u (then_calm _ t _ one off more) =
      Reach-Step s t u (Move-Step s t one) (Calm-Reach t u more)

  Calm-trans : (s t u : State) → Calm s t → Calm t u → Calm s u
  Calm-trans s _ u (rest _) r = r
  Calm-trans s t u (then_calm _ v _ one off more) r =
      then_calm s v u one off (Calm-trans v t u more r)

  pub Way-Way :
      (P Q : State → Type 0) (s : State) → Way P s → ((t : State) → P t → Way Q t) → Way Q s
  Way-Way P Q s (t, first, found) go =
      let (u, more, there) = go t found in (u, Calm-trans s t u first more, there)

  -- What is at its goal, or takes a step that keeps P and lowers the rank, gets to its goal.
  abbrev pub Advances : (State → Type 0) → (State → Type 0) → (State → ℕ) → Type 0
  Advances P Goal rank =
      (s : State) → P s → Goal s ⊎ ((t : State) × Move s t × P t × (rank t < rank s))

  pub Way-Advances :
      (P Goal : State → Type 0) (rank : State → ℕ)
      → Advances P Goal rank
      → ((s : State) → P s → IsOff s)
      → (n : ℕ) (s : State) → rank s ≤ n
      → P s
      → Way Goal s
  Way-Advances P Goal rank go off zero s small p = elim (go s p) [
    | inl there ↦ (s, rest s, there)
    | inr (t, one, q, less) ↦ absurd (omega (arith, less))
  ]
  Way-Advances P Goal rank go off (suc n) s small p = elim (go s p) [
    | inl there ↦ (s, rest s, there)
    | inr (t, one, q, less) ↦
        let (u, more, there) = Way-Advances P Goal rank go off n t (omega (arith, less)) q in
        (u, then_calm s t u one (off t q) more, there)
  ]
