-- ===== src/Launcher/StartupTests.antt =====
-- Supervisions of packages/launcher/src/supervisor.ts at concrete inputs.
use pidex.Prelude.{ℕ, ◌≡◌, refl, [], ◌∷◌, ltb, none, some, if◌then◌else◌}
use pidex.Launcher.Program.{returns, throws}
use pidex.Launcher.Supervisor.{
  Attempt, assigned, attempts_from, supervise_startup, startup_backoff, ready, rejected,
  job_created, daemon_assigned, release_started, job_closed, slept, reported,
}
use pidex.Launcher.Startup.{IsFirst, IsJobsOf, jobs, no_job, supervise_startup-IsFirst}

-- The first attempt fails, the second succeeds.
abbrev attempt : ℕ → Attempt
attempt n = record {
  job = assigned;
  start_throws = if ltb n 2 then some 3 else none;
  report = returns;
  close_throws = none;
  sleep_throws = none;
}

supervise_startup-IsFirst_example :
    IsFirst attempt returns 1 6 (attempts_from 1 startup_backoff attempt returns).ended
    × IsJobsOf attempt
        (attempts_from 1 startup_backoff attempt returns).ended
        (jobs no_job (attempts_from 1 startup_backoff attempt returns).effects)
unfolding supervise_startup
supervise_startup-IsFirst_example =
    supervise_startup-IsFirst attempt returns (attempts_from 1 startup_backoff attempt returns) refl

attempts_from-effects :
    (attempts_from 1 startup_backoff attempt returns).effects
    ≡ job_created
      ∷ daemon_assigned
      ∷ job_closed
      ∷ slept 1000
      ∷ job_created
      ∷ daemon_assigned
      ∷ release_started
      ∷ reported (ready 2)
      ∷ []
unfolding attempts_from
attempts_from-effects = refl

-- Every report throws: the last one rejects.
attempts_from-rejected :
    (attempts_from 1 startup_backoff
      (λ n. record (attempt 2) { report = throws 4 })
      (throws 4)).ended
    ≡ rejected 4
unfolding attempts_from
attempts_from-rejected = refl
