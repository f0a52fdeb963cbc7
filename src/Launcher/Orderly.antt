-- ===== src/Launcher/Orderly.antt =====
-- The order of what `coordinatePlannedLifecycle` of packages/launcher/src/host-lifecycle.ts does: a
-- monitor of its effects.
use pidex.Prelude.{
  ◌≡◌, refl, sym, ap, subst, ◌∙◌, inl, inr, Bool, true, not, ◌&&◌, List, [], ◌∷◌, ◌++◌, Option,
  none, some, arith, if◌then◌else◌, Text, codes,
}
use pidex.Launcher.Program.{
  returned, threw, Program, ◌>>◌, Behaviour, returns, absent, throws, Ending-cases, then_returned,
  then_unfinished, then_threw,
}
use pidex.Launcher.HostLifecycle.{
  LifecycleEffect, rejected, resumed, force_stopped, flushed, restarted, registration_removed,
  rules_removed, trust_removed, durable_removed, reported, slept, path_removed, Cause, hook, Paths,
  UninstallLayout, Options, holds_durable, call_as, call_required, ask_as, is_none_left, is_restart,
  is_purge, is_text,
}

-- Work may be left; the last poll found none; the workers are stopped.
pub data Phase : Type 0 where
  working drained stopped : Phase

abbrev none_holds : Paths → Option UninstallLayout → Text → Bool
none_holds paths none path = true
none_holds paths (some layout) path = not (holds_durable paths layout path)

-- A purge with its confirmation and acknowledgement.
abbrev pub is_confirmed_purge : Options → Bool
is_confirmed_purge o =
    is_purge o.operation
    && (is_text o.purge_confirmation (codes "PURGE PIDEX AND MANAGED BACKUPS")
        && o.backup_consequences_acknowledged)

-- What an effect needs, and what it leads to: the workers are stopped right behind a poll that found no
-- work, and removals and the restart come behind that; no path is removed that holds the durable data,
-- and these are removed in a purge alone.
abbrev pub step : Paths → Options → Phase → LifecycleEffect → Option Phase
step paths o phase (reported work) = some (if is_none_left work then drained else working)
step paths o phase (slept ms) = some working
step paths o phase force_stopped = some working
step paths o drained flushed = some stopped
step paths o phase flushed = none
step paths o stopped restarted = if is_restart o.operation then some stopped else none
step paths o stopped registration_removed = some stopped
step paths o stopped rules_removed = some stopped
step paths o stopped trust_removed = some stopped
step paths o stopped (path_removed path) =
    if none_holds paths o.layout path then some stopped else none
step paths o stopped durable_removed = if is_confirmed_purge o then some stopped else none
step paths o phase resumed = some phase
step paths o phase rejected = some working
step paths o phase _ = none

abbrev pub run : Paths → Options → Option Phase → List LifecycleEffect → Option Phase
run paths o none es = none
run paths o (some phase) [] = some phase
run paths o (some phase) (e ∷ es) = run paths o (step paths o phase e) es

-- The effects of a program are in order from a phase, and lead to a phase where it returns.
pub record Leads (paths : Paths) (o : Options) (a : Phase) (p : Program LifecycleEffect Cause)
    (b : Phase) : Type 0 where
  pub somewhere : (c : Phase) × (run paths o (some a) p.effects ≡ some c)
  pub there : p.ended ≡ returned → run paths o (some a) p.effects ≡ some b

pub run-append :
    (paths : Paths) (o : Options) (x : Option Phase) (es fs : List LifecycleEffect)
    → run paths o x (es ++ fs) ≡ run paths o (run paths o x es) fs
run-append paths o none [] fs = refl
run-append paths o none (e ∷ es) fs = refl
run-append paths o (some a) [] fs = refl
run-append paths o (some a) (e ∷ es) fs = run-append paths o (step paths o a e) es fs

-- A program that ended without returning.
Leads-ended :
    (paths : Paths) (o : Options) (a b c : Phase) (p : Program LifecycleEffect Cause)
    → (p.ended ≡ returned → ⊥)
    → Leads paths o a p b
    → Leads paths o a p c
Leads-ended paths o a b c p n h = record { somewhere = h.somewhere; there = λ e. absurd (n e) }

pub Leads-then :
    (paths : Paths) (o : Options) (a b c : Phase) (p q : Program LifecycleEffect Cause)
    → Leads paths o a p b
    → Leads paths o b q c
    → Leads paths o a (p >> q) c
Leads-then paths o a b c p q h k = elim (Ending-cases p.ended) [
  | inl e ↦
      let joined : run paths o (some a) (p.effects ++ q.effects) ≡ run paths o (some b) q.effects =
        run-append paths o (some a) p.effects q.effects
        ∙ ap (λ (x : Option Phase). run paths o x q.effects) (h.there e) in
      let (d, somewhere) = k.somewhere in
      subst (λ (r : Program LifecycleEffect Cause). Leads paths o a r c) (sym (then_returned p q e))
        (record {
          somewhere = (d, joined ∙ somewhere);
          there = λ (f : q.ended ≡ returned). joined ∙ k.there f;
        })
  | inr (inl e) ↦
      subst (λ (r : Program LifecycleEffect Cause). Leads paths o a r c)
        (sym (then_unfinished p q e))
        (Leads-ended paths o a b c p (λ (f : p.ended ≡ returned). absurd (ground arith)) h)
  | inr (inr (cause, e)) ↦
      subst (λ (r : Program LifecycleEffect Cause). Leads paths o a r c)
        (sym (then_threw p q cause e))
        (Leads-ended paths o a b c p (λ (f : p.ended ≡ returned). absurd (ground arith)) h)
]

-- One effect at most.
pub Leads-call :
    (paths : Paths) (o : Options) (a : Phase) (x : Behaviour) (e : LifecycleEffect)
    → step paths o a e ≡ some a
    → Leads paths o a (call_as x e) a
Leads-call paths o a returns e h = record {
  somewhere = (a, ground arith);
  there = λ _. ground arith;
}
Leads-call paths o a absent e h = record { somewhere = (a, refl); there = λ _. refl }
Leads-call paths o a (throws c) e h = record { somewhere = (a, refl); there = λ _. refl }

pub Leads-need :
    (paths : Paths) (o : Options) (a b : Phase) (x : Behaviour) (e : LifecycleEffect)
    → step paths o a e ≡ some b
    → Leads paths o a (call_required x e) b
Leads-need paths o a b returns e h = record {
  somewhere = (b, ground arith);
  there = λ _. ground arith;
}
Leads-need paths o a b absent e h = record {
  somewhere = (b, ground arith);
  there = λ _. ground arith;
}
Leads-need paths o a b (throws c) e h = record {
  somewhere = (a, refl);
  there = λ (f : threw (hook c) ≡ returned). absurd (ground arith);
}

pub Leads-ask :
    (paths : Paths) (o : Options) (a : Phase) (x : Behaviour) → Leads paths o a (ask_as x) a
Leads-ask paths o a returns = record { somewhere = (a, refl); there = λ _. refl }
Leads-ask paths o a absent = record { somewhere = (a, refl); there = λ _. refl }
Leads-ask paths o a (throws c) = record { somewhere = (a, refl); there = λ _. refl }
