-- ===== src/Launcher/Supervisor.antt =====
-- `superviseStartup` of packages/launcher/src/supervisor.ts: what the operations answer is given, and
-- the effects are kept in the order in which they happen. Causes of failures are numbers.
use pidex.Prelude.{ℕ, ◌+◌, Bool, true, false, List, [], ◌∷◌, ◌++◌, Option, none, some}
use pidex.Launcher.Program.{Behaviour, returns, throws}

pub data StartupState : Type 0 where
  ready : ℕ → StartupState
  circuit_open : ℕ → ℕ → StartupState

pub data Effect : Type 0 where
  job_created daemon_assigned release_started job_closed : Effect
  slept : ℕ → Effect
  reported : StartupState → Effect

-- The supervision job of an attempt: the operation that makes it is optional, and it or the assignment of
-- the daemon may throw.
pub data JobEnd : Type 0 where
  without_job assigned : JobEnd
  create_throws assign_throws : ℕ → JobEnd

-- What the operations do in one attempt: the start, the closing of the job and the sleep return, or throw
-- their cause.
pub record Attempt : Type 0 where
  pub job : JobEnd
  pub start_throws : Option ℕ
  pub report : Behaviour
  pub close_throws : Option ℕ
  pub sleep_throws : Option ℕ

abbrev pub startup_backoff : List ℕ
startup_backoff = 1000 ∷ 2000 ∷ 4000 ∷ 8000 ∷ 16000 ∷ []

abbrev pub thrown_by : Behaviour → Option ℕ
thrown_by (throws cause) = some cause
thrown_by _ = none

abbrev pub run_cause : Option ℕ → Behaviour → Option ℕ
run_cause (some cause) report = some cause
run_cause none report = thrown_by report

-- What the body of `try` throws.
abbrev pub job_cause : JobEnd → Option ℕ → Behaviour → Option ℕ
job_cause (create_throws cause) start report = some cause
job_cause (assign_throws cause) start report = some cause
job_cause _ start report = run_cause start report

abbrev pub failure : Attempt → Option ℕ
failure a = job_cause a.job a.start_throws a.report

-- A job that was created is closed in `catch`.
abbrev pub has_job : JobEnd → Bool
has_job assigned = true
has_job (assign_throws cause) = true
has_job _ = false

abbrev pub report_effects : Behaviour → StartupState → List Effect
report_effects returns s = reported s ∷ []
report_effects _ s = []

abbrev pub run_effects : ℕ → Option ℕ → Behaviour → List Effect
run_effects n (some cause) report = []
run_effects n none report = release_started ∷ report_effects report (ready n)

abbrev pub job_effects : JobEnd → List Effect → List Effect
job_effects without_job later = later
job_effects assigned later = job_created ∷ daemon_assigned ∷ later
job_effects (create_throws cause) later = []
job_effects (assign_throws cause) later = job_created ∷ []

-- The body of `try`.
abbrev pub try_effects : ℕ → Attempt → List Effect
try_effects n a = job_effects a.job (run_effects n a.start_throws a.report)

-- `supervisionJob?.close()`
abbrev pub closing : Bool → Option ℕ → Option ℕ
closing true close = close
closing false close = none

abbrev pub closing_throws : Attempt → Option ℕ
closing_throws a = closing (has_job a.job) a.close_throws

abbrev pub close_effects : Bool → List Effect
close_effects true = job_closed ∷ []
close_effects false = []

pub data StartupEnd : Type 0 where
  settled : StartupState → StartupEnd
  rejected : ℕ → StartupEnd

pub record Supervision : Type 0 where
  pub effects : List Effect
  pub ended : StartupEnd

abbrev pub after_effects : List Effect → Supervision → Supervision
after_effects es s = record s { effects = es ++ s.effects }

abbrev pub rejects : ℕ → Supervision
rejects cause = record { effects = []; ended = rejected cause }

-- What follows an operation that returns, or throws.
abbrev pub unless_thrown : Option ℕ → Supervision → Supervision
unless_thrown none s = s
unless_thrown (some cause) s = rejects cause

-- The status that is reported behind the last attempt.
abbrev pub give_up : Behaviour → StartupState → Supervision
give_up (throws cause) s = rejects cause
give_up report s = record { effects = report_effects report s; ended = settled s }

-- `catch`, up to the delay.
abbrev pub close_failed : Attempt → Supervision → Supervision
close_failed a later =
    unless_thrown (closing_throws a) (after_effects (close_effects (has_job a.job)) later)

-- The sleep before the next attempt.
abbrev pub sleep_before : ℕ → Attempt → Supervision → Supervision
sleep_before delay a later = unless_thrown a.sleep_throws (after_effects (slept delay ∷ []) later)

-- The loop from attempt `n`, with the delays that are left: behind the last attempt there is none.
unfoldable pub attempts_from : ℕ → List ℕ → (ℕ → Attempt) → Behaviour → Supervision
attempts_from n [] attempt final =
    after_effects (try_effects n (attempt n)) (elim (failure (attempt n)) [
      | none ↦ record { effects = []; ended = settled (ready n) }
      | some cause ↦ close_failed (attempt n) (give_up final (circuit_open n cause))
    ])
attempts_from n (delay ∷ delays) attempt final =
    let later = attempts_from (n + 1) delays attempt final in
    after_effects (try_effects n (attempt n)) (elim (failure (attempt n)) [
      | none ↦ record { effects = []; ended = settled (ready n) }
      | some cause ↦ close_failed (attempt n) (sleep_before delay (attempt n) later)
    ])

pub data Startup : Type 0 where
  already_running : Startup
  supervised : Supervision → Startup

unfoldable pub supervise_startup : Bool → (ℕ → Attempt) → Behaviour → Startup
unfolding attempts_from
supervise_startup locked attempt final = elim locked [
  | true ↦ supervised (attempts_from 1 startup_backoff attempt final)
  | false ↦ already_running
]
