-- ===== src/Launcher/WindowsShutdown.antt =====
-- `coordinateWindowsShutdown` of packages/launcher/src/host-lifecycle.ts. How the flush settles, if it
-- does, is given with the milliseconds that it takes; closing the job returns.
use pidex.Prelude.{
  ℕ, ◌≤◌, ◌≡◌, refl, ap, min, List, [], ◌∷◌, ◌++◌, Option, none, some, arith, ltb, if◌then◌else◌,
}
use pidex.Launcher.Program.{
  Program, finish, perform, throw, ◌>>◌, Behaviour, returns, absent, throws,
}

abbrev pub windows_shutdown_budget_ms : ℕ
windows_shutdown_budget_ms = 10000

pub data ShutdownEffect : Type 0 where
  mutations_rejected job_closed : ShutdownEffect
  waited : ℕ → ShutdownEffect

-- `none`: it hangs.
abbrev pub Flush : Type 0
Flush = Option (ℕ × Behaviour)

abbrev pub settle_flush : Behaviour → Program ShutdownEffect ℕ
settle_flush (throws c) = throw c
settle_flush _ = finish

abbrev pub shutdown_budget_ms : Option ℕ → ℕ
shutdown_budget_ms none = windows_shutdown_budget_ms
shutdown_budget_ms (some ms) = min ms windows_shutdown_budget_ms

-- `Promise.race` of the flush and the timer
unfoldable pub race : ℕ → Flush → Program ShutdownEffect ℕ
race budget none = perform (waited budget)
race budget (some (ms, behaviour)) =
    if ltb ms budget then perform (waited ms) >> settle_flush behaviour else perform (waited budget)

-- `finally`
unfoldable pub close_always : Program ShutdownEffect ℕ → Program ShutdownEffect ℕ
close_always p = record p { effects = p.effects ++ job_closed ∷ [] }

unfoldable pub coordinate_windows_shutdown : Behaviour → Flush → Option ℕ → Program ShutdownEffect ℕ
unfolding race close_always
coordinate_windows_shutdown rejecting flush budget_ms =
    (elim rejecting [
      | returns ↦ perform mutations_rejected
      | absent ↦ perform mutations_rejected
      | throws c ↦ throw c
    ])
    >> close_always (race (shutdown_budget_ms budget_ms) flush)

-- How long the shutdown waits, and whether the job is closed behind the wait.
pub record IsTornDown (p : Program ShutdownEffect ℕ) : Type 0 where
  pub time : ℕ
  pub bounded : time ≤ windows_shutdown_budget_ms
  pub ordered : p.effects ≡ mutations_rejected ∷ waited time ∷ job_closed ∷ []

budget_bounded : (budget_ms : Option ℕ) → shutdown_budget_ms budget_ms ≤ windows_shutdown_budget_ms
budget_bounded none = omega arith
budget_bounded (some ms) = omega arith

abbrev time_of : ℕ → Flush → ℕ
time_of budget none = budget
time_of budget (some (ms, behaviour)) = if ltb ms budget then ms else budget

time_of_bounded :
    (budget_ms : Option ℕ) (flush : Flush)
    → time_of (shutdown_budget_ms budget_ms) flush ≤ windows_shutdown_budget_ms
time_of_bounded budget_ms none = budget_bounded budget_ms
time_of_bounded budget_ms (some (ms, behaviour)) =
    let bound = budget_bounded budget_ms in ground arith

race-effects :
    (budget : ℕ) (flush : Flush) → (race budget flush).effects ≡ waited (time_of budget flush) ∷ []
unfolding race
race-effects budget none = refl
race-effects budget (some (ms, behaviour)) = ground arith

-- A shutdown that could reject mutations closes the job last, behind a wait of ten seconds at most,
-- whether the flush returns, throws or hangs.
coordinate_windows_shutdown-IsTornDown :
    (rejecting : Behaviour) (flush : Flush) (budget_ms : Option ℕ)
    → ((c : ℕ) → rejecting ≡ throws c → ⊥)
    → IsTornDown (coordinate_windows_shutdown rejecting flush budget_ms)
unfolding coordinate_windows_shutdown close_always
coordinate_windows_shutdown-IsTornDown returns flush budget_ms h = record {
  time = time_of (shutdown_budget_ms budget_ms) flush;
  bounded = time_of_bounded budget_ms flush;
  ordered =
      ap (λ (es : List ShutdownEffect). mutations_rejected ∷ (es ++ job_closed ∷ []))
        (race-effects (shutdown_budget_ms budget_ms) flush);
}
coordinate_windows_shutdown-IsTornDown absent flush budget_ms h = record {
  time = time_of (shutdown_budget_ms budget_ms) flush;
  bounded = time_of_bounded budget_ms flush;
  ordered =
      ap (λ (es : List ShutdownEffect). mutations_rejected ∷ (es ++ job_closed ∷ []))
        (race-effects (shutdown_budget_ms budget_ms) flush);
}
coordinate_windows_shutdown-IsTornDown (throws c) flush budget_ms h = absurd (h c refl)
