-- ===== src/Launcher/LifecycleTests.antt =====
-- Runs of `coordinatePlannedLifecycle` of packages/launcher/src/host-lifecycle.ts.
use pidex.Prelude.{
  ℕ, ◌+◌, ◌*◌, ◌≡◌, refl, true, false, [], ◌∷◌, none, some, arith, Text, codes, if◌then◌else◌, ◌==◌,
}
use pidex.Launcher.Program.{returns}
use pidex.Launcher.HostLifecycle.{
  Point, rejected, reported, slept, flushed, registration_removed, rules_removed, trust_removed,
  path_removed, durable_removed, Hooks, Paths, purge, Options, drain_timeout_ms,
  coordinate_planned_lifecycle, is_same_or_descendant_path, holds_durable,
}
use pidex.Launcher.OrderlyRun.{starts, coordinate_planned_lifecycle-is_in_order}
use pidex.Launcher.Resumption.{IsResumed, coordinate_planned_lifecycle-IsResumed}
use pidex.Launcher.Waiting.{IsClock, is_finished, coordinate_planned_lifecycle-is_finished}

-- Paths that are not inside one another.
abbrev flat_paths : Paths
flat_paths = record {
  resolve = λ (t : Text). t;
  relative = λ (t u : Text). codes "..";
  separator = codes "/";
}

-- A reading of the clock is a tenth of a second behind the one before.
abbrev one_job : Hooks
one_job = record {
  behaves = λ (p : Point). returns;
  work = λ (k : ℕ). if k == 0 then codes "r" ∷ [] else [];
  clock = λ (n : ℕ). n * 100;
}

abbrev purge_all : Options
purge_all = record {
  operation = purge;
  force = false;
  force_confirmation = none;
  timeout_ms = some 250;
  layout = some (record {
    install_directory = codes "i";
    disposable_caches = [];
    durable_data_directory = codes "d";
  });
  purge_confirmation = some (codes "PURGE PIDEX AND MANAGED BACKUPS");
  backup_consequences_acknowledged = true;
}

purges :
    (coordinate_planned_lifecycle one_job flat_paths purge_all).effects
    ≡ rejected
      ∷ reported (codes "r" ∷ [])
      ∷ slept 50
      ∷ reported []
      ∷ flushed
      ∷ registration_removed
      ∷ rules_removed
      ∷ trust_removed
      ∷ path_removed (codes "i")
      ∷ durable_removed
      ∷ []
unfolding coordinate_planned_lifecycle is_same_or_descendant_path holds_durable
purges = refl

coordinate_planned_lifecycle-is_in_order_example :
    starts flat_paths purge_all (coordinate_planned_lifecycle one_job flat_paths purge_all).effects
    ≡ true
coordinate_planned_lifecycle-is_in_order_example =
    coordinate_planned_lifecycle-is_in_order one_job flat_paths purge_all

coordinate_planned_lifecycle-IsResumed_example :
    IsResumed returns returns purge (coordinate_planned_lifecycle one_job flat_paths purge_all)
coordinate_planned_lifecycle-IsResumed_example =
    coordinate_planned_lifecycle-IsResumed one_job flat_paths purge_all

steady : IsClock one_job.clock (one_job.clock 0 + drain_timeout_ms purge_all)
steady = record { onward = λ n. omega arith; sleeps = λ k. omega arith }

coordinate_planned_lifecycle-is_finished_example :
    is_finished (coordinate_planned_lifecycle one_job flat_paths purge_all).ended ≡ true
coordinate_planned_lifecycle-is_finished_example =
    coordinate_planned_lifecycle-is_finished one_job flat_paths purge_all steady
