-- ===== src/Daemon/Idle/Ending.antt =====
-- Sessions end one by one: src/ulsp/controller/ulsp-daemon is then left to its idle timer.
use scip_lsp.Common.{
  ℕ, String, Option, none, some, Bool, true, false, List, [], ◌∷◌, Dict, remove, string_key,
  number_key, ◌==◌, ◌≡◌, refl, sym, ap, ◌∙◌, ◌&&◌, size, if◌then◌else◌, arith,
}
use scip_lsp.Sessions.{Repository, delete_session}
use scip_lsp.Daemon.{Controller, IdleTimer, no_timer, stopped, running}
use scip_lsp.Daemon.Lifecycle.{ended, refresh_idle_timer}
use scip_lsp.Daemon.Idle.{Surroundings, Reachable, next, ends, timer_fits, IsKept}
use scip_lsp.Daemon.Idle.Steps.{Reachable-IsKept}

abbrev pub has_key : String → List String → Bool
has_key k [] = false
has_key k (j ∷ js) = if j == k then true else has_key k js

abbrev pub all_within : {V : Type 0} → List String → Dict String V → Bool
all_within ks [] = true
all_within ks ((k, v) ∷ m) = has_key k ks && all_within ks m

all_within-remove :
    {V : Type 0} (k : String) (ks : List String) (m : Dict String V)
    → all_within (k ∷ ks) m ≡ true
    → all_within ks (remove k m) ≡ true
unfolding remove
all_within-remove k ks [] h = refl
all_within-remove k ks ((j, v) ∷ m) h =
    ground (arith, h, all_within-remove k ks m, string_key.same_iff j k, string_key.same_iff k j)

all_within-nil : {V : Type 0} (m : Dict String V) → all_within [] m ≡ true → m ≡ []
all_within-nil [] h = refl
all_within-nil ((j, v) ∷ m) h = ground (arith, h)

-- the minutes after which the daemon shuts down, if the timer runs
abbrev pub minutes_left : IdleTimer → Option ℕ
minutes_left no_timer = none
minutes_left stopped = none
minutes_left (running minutes) = some minutes

module _ {C : Type 0} {P : Type 0} {Client : Type 0} {W : Type 0}
    (around : Surroundings C P Client W) where
  -- EndSession for each of some sessions
  abbrev pub end_sessions : List String → Controller C P Client → W → Controller C P Client × W
  end_sessions [] c w = (c, w)
  end_sessions (id ∷ ids) c w =
      let (after, (called, started)) = ended around.notified (some id) id c w in
      end_sessions ids after called

  ended-sessions :
      (id : String) (c : Controller C P Client) (w : W)
      → (ended around.notified (some id) id c w).0.sessions ≡ remove id c.sessions
  unfolding ended delete_session refresh_idle_timer
  ended-sessions id c w = refl

  pub end_sessions-Reachable :
      (ids : List String) (c : Controller C P Client) (w : W)
      → Reachable around c
      → Reachable around (end_sessions ids c w).0
  end_sessions-Reachable [] c w r = r
  end_sessions-Reachable (id ∷ ids) c w r =
      end_sessions-Reachable ids _ _ (next r (ends (some id) id w))

  end_sessions-nil :
      (ids : List String) (c : Controller C P Client) (w : W)
      → all_within ids c.sessions ≡ true
      → (end_sessions ids c w).0.sessions ≡ []
  end_sessions-nil [] c w h = all_within-nil c.sessions h
  end_sessions-nil (id ∷ ids) c w h =
      end_sessions-nil ids _ _
        (ap (all_within ids) (ended-sessions id c w) ∙ all_within-remove id ids c.sessions h)

  -- When each session of a reachable controller ends, in any order, the repository is empty and the idle
  -- timer runs.
  pub end_sessions-running :
      (ids : List String) (c : Controller C P Client) (w : W)
      → Reachable around c
      → all_within ids c.sessions ≡ true
      → ((end_sessions ids c w).0.sessions ≡ [])
        × ((minutes : ℕ) × (minutes_left (end_sessions ids c w).0.idle_timer ≡ some minutes))
  unfolding IsKept
  end_sessions-running ids c w r h =
      let (keyed, fits) = Reachable-IsKept around _ (end_sessions-Reachable ids c w r) in
      let empty : (end_sessions ids c w).0.sessions ≡ [] = end_sessions-nil ids c w h in
      let last : Controller C P Client = (end_sessions ids c w).0 in
      (
        empty,
        runs last.idle_timeout_minutes last.full_shutdown last.idle_timer (
            ap
              (λ (r : Repository C P).
                timer_fits (size r) last.idle_timeout_minutes last.full_shutdown last.idle_timer)
              (sym empty)
            ∙ fits),
      )
    where
      runs :
          (timeout : ℕ) (full : Bool) (timer : IdleTimer)
          → timer_fits 0 timeout full timer ≡ true
          → (minutes : ℕ) × (minutes_left timer ≡ some minutes)
      runs timeout full no_timer e = ground (arith, e)
      runs timeout full stopped e = ground (arith, e)
      runs timeout full (running minutes) e = (minutes, refl)
