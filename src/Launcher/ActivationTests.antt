-- ===== src/Launcher/ActivationTests.antt =====
-- Runs of `activateSignedRelease` of packages/launcher/src/release-update.ts.
use pidex.Prelude.{
  ◌+◌, arith, ℕ, ◌*◌, ◌≡◌, refl, false, true, [], ◌∷◌, none, some, codes, not, ◌==◌,
}
use pidex.Launcher.Program.{threw, returns, throws, Behaviour}
use pidex.Launcher.Activation.{
  HookPoint, starting, stopped, resumed, slept, flushed, data_activated, data_rolled_back,
  pointer_written, hook, ReleaseManifest, ActivationHooks, activate_signed_release,
  quiescence_timeout_ms,
}
use pidex.Launcher.Atomicity.{apply_all}
use pidex.Launcher.Quiescence.{IsSteady, is_done, activate_signed_release-is_done}
use pidex.Launcher.Recovery.{before, IsAtomic, activate_signed_release-IsAtomic}

abbrev new_release : ReleaseManifest
new_release = record {
  release_id = codes "n";
  pi_artifact_generation = some 2;
  pi_artifact_compatibility = record { from = 1; to = 2 } ∷ [];
}

abbrev at_start : HookPoint → Behaviour
at_start starting = throws 7
at_start _ = returns

-- The new release does not start.
abbrev no_start : ActivationHooks
no_start = record {
  behaves = at_start;
  current_heads = record { session_id = codes "s"; generation = 1 } ∷ [];
  is_quiescent = λ (k : ℕ). not (k == 0);
  has_accepted_new_mutations = false;
  clock = λ (n : ℕ). n * 100;
}

rolls_back : activate_signed_release no_start (some (codes "o")) new_release false none ≡ record {
  effects =
      stopped
      ∷ slept 100
      ∷ flushed
      ∷ data_activated
      ∷ data_rolled_back
      ∷ pointer_written (codes "o")
      ∷ resumed
      ∷ [];
  ended = threw (hook 7);
}
unfolding activate_signed_release
rolls_back = refl

activate_signed_release-IsAtomic_example :
    IsAtomic no_start
      (some (codes "o"))
      new_release
      (activate_signed_release no_start (some (codes "o")) new_release false none)
      (apply_all
        (activate_signed_release no_start (some (codes "o")) new_release false none).effects
        (before (some (codes "o"))))
activate_signed_release-IsAtomic_example =
    activate_signed_release-IsAtomic no_start (some (codes "o")) new_release false none

no_start-IsSteady : IsSteady no_start.clock (no_start.clock 0 + quiescence_timeout_ms none)
no_start-IsSteady = record { onward = λ n. omega arith; pauses = λ k. omega arith }

activate_signed_release-is_done_example :
    is_done (activate_signed_release no_start (some (codes "o")) new_release false none).ended
    ≡ true
activate_signed_release-is_done_example =
    activate_signed_release-is_done no_start (some (codes "o")) new_release false none
      no_start-IsSteady
