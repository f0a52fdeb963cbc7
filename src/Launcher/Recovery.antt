-- ===== src/Launcher/Recovery.antt =====
-- `activateSignedRelease` of packages/launcher/src/release-update.ts is done whole, or taken back.
use pidex.Prelude.{
  ℕ, ◌≡◌, refl, sym, ap, subst, ◌∙◌, inl, inr, Bool, true, false, not, ◌&&◌, ◌||◌, List, [], ◌∷◌,
  ◌++◌, ◌⊎◌, ◌≢◌, append-nil, Option, none, some, arith, any, all, Text,
}
use pidex.Launcher.Program.{
  Ending, returned, unfinished, threw, Program, ◌>>◌, Behaviour, returns, absent, throws,
  Ending-cases,
}
use pidex.Launcher.Activation.{
  stopping, accepting, rolling_back, resuming, ActivationEffect, stopped, resumed,
  ActivationFailure, hook, PiArtifactHead, ReleaseManifest, ActivationHooks, need_as, is_supported,
  unsupported, refuse, assert_compatible, switch_release, is_data_activated, recover, with_recovery,
  resume_always, activate_signed_release, quiescence_timeout_ms,
}
use pidex.Launcher.Atomicity.{
  Condition, apply_all, apply_all-append, Switches, switch_release-Switches,
}

-- The hooks of the recovery work, and the new release accepted nothing.
abbrev does_throw : Behaviour → Bool
does_throw (throws c) = true
does_throw _ = false

abbrev pub can_roll_back : ActivationHooks → Bool
can_roll_back h =
    not (does_throw (h.behaves accepting))
    && (not h.has_accepted_new_mutations && not (does_throw (h.behaves rolling_back)))

-- What the recovery leaves of a condition.
record Recovers (h : ActivationHooks) (s t : Condition) : Type 0 where
  pub kept : t.pointer ≡ s.pointer
  pub same : t.open_ ≡ s.open_
  pub rolled_back : can_roll_back h ≡ true → t.migrated ≡ false

recover-Recovers :
    (h : ActivationHooks) (previous : Option Text) (cause : ActivationFailure) (s : Condition)
    → s.pointer ≡ previous
    → Recovers h s (apply_all (recover h previous s.migrated cause).effects s)
unfolding recover
recover-Recovers h none cause s e = record {
  kept = ground arith;
  same = ground arith;
  rolled_back = λ f. ground arith;
}
recover-Recovers h (some id) cause s e = record {
  kept = ground arith;
  same = ground arith;
  rolled_back = λ f. ground arith;
}

abbrev is_returned : Ending ActivationFailure → Bool
is_returned returned = true
is_returned _ = false

recover-is_returned :
    (h : ActivationHooks) (previous : Option Text) (activated : Bool) (cause : ActivationFailure)
    → is_returned (recover h previous activated cause).ended ≡ false
unfolding recover
recover-is_returned h none activated cause = ground arith
recover-is_returned h (some id) activated cause = ground arith

abbrev pub before : Option Text → Condition
before previous = record { pointer = previous; migrated = false; open_ = true }

-- The effects of a program, from a condition in which nothing is migrated.
record IsWhole (h : ActivationHooks) (id : Text) (p : Program ActivationEffect ActivationFailure)
    (s t : Condition) : Type 0 where
  pub succeeded : p.ended ≡ returned → t ≡ record s { pointer = some id; migrated = true }
  pub failed : (c : ActivationFailure) → p.ended ≡ threw c → Recovers h s t

with_recovery-IsWhole :
    (h : ActivationHooks) (id : Text) (p : Program ActivationEffect ActivationFailure)
    (s : Condition)
    → s.migrated ≡ false
    → Switches id p
    → IsWhole h id
        (with_recovery h s.pointer p)
        s
        (apply_all (with_recovery h s.pointer p).effects s)
unfolding with_recovery
with_recovery-IsWhole h id p s fresh w = elim (Ending-cases p.ended) [
  | inl e ↦
      rw (e, with_recovery)
        (record {
          succeeded = λ f. w.succeeded e s;
          failed = λ c (f : p.ended ≡ threw c). absurd (ground arith);
        })
  | inr (inl e) ↦
      rw (e, with_recovery)
        (record {
          succeeded = λ (f : p.ended ≡ returned). absurd (ground arith);
          failed = λ c (f : p.ended ≡ threw c). absurd (ground arith);
        })
  | inr (inr (cause, e)) ↦
      let activated = any is_data_activated p.effects in
      let after = recover h s.pointer activated cause in
      let joined : apply_all (p.effects ++ after.effects) s
          ≡ apply_all after.effects (record s { migrated = activated }) =
        apply_all-append p.effects after.effects s
        ∙ ap (apply_all after.effects) (
            (w.failed cause e).leaves s
            ∙ ap (λ (b : Bool). record s { migrated = b || activated }) fresh) in
      rw (e, with_recovery)
        (record {
          succeeded = λ (f : after.ended ≡ returned).
              let never = recover-is_returned h s.pointer activated cause in absurd (ground arith);
          failed = λ c f. subst (Recovers h s) (sym joined) (
              let there =
                recover-Recovers h s.pointer cause (record s { migrated = activated }) refl in
              record { kept = there.kept; same = there.same; rolled_back = there.rolled_back });
        })
]

-- A Host that accepts mutations and whose pointer is where it was.
abbrev pub IsKept : ActivationHooks → Option Text → Condition → Type 0
IsKept h previous t =
    (t.pointer ≡ previous) × (t.open_ ≡ true) × (can_roll_back h ≡ true → t.migrated ≡ false)

-- The resumption threw: the Host accepts no mutations, and the pointer is where it was, or the switch was
-- done whole before.
abbrev pub IsStranded :
    ActivationHooks → Option Text → Text → ActivationFailure → Condition → Type 0
IsStranded h previous release_id c t =
    (d : ℕ) × (h.behaves resuming ≡ throws d)
    × (c ≡ hook d)
    × (t.open_ ≡ false)
    × (((t.pointer ≡ previous) × (can_roll_back h ≡ true → t.migrated ≡ false))
        ⊎ ((t.pointer ≡ some release_id) × (t.migrated ≡ true)))

-- All that an activation leaves.
pub record IsAtomic (h : ActivationHooks) (previous : Option Text) (manifest : ReleaseManifest)
    (p : Program ActivationEffect ActivationFailure) (t : Condition) : Type 0 where
  pub succeeded :
      p.ended ≡ returned
      → (t ≡ record { pointer = some manifest.release_id; migrated = true; open_ = true })
        × (all (is_supported manifest) h.current_heads ≡ true)
  pub failed :
      (c : ActivationFailure)
      → p.ended ≡ threw c
      → IsKept h previous t ⊎ IsStranded h previous manifest.release_id c t

refuse-all :
    (manifest : ReleaseManifest) (heads : List PiArtifactHead)
    → (refuse (unsupported manifest heads)).ended ≡ returned
    → all (is_supported manifest) heads ≡ true
unfolding unsupported
refuse-all manifest [] e = refl
refuse-all manifest (x ∷ xs) e = ground (arith, refuse-all manifest xs)

-- What stands behind the acceptance of mutations.
abbrev closed_before : Option Text → Condition
closed_before previous = record { pointer = previous; migrated = false; open_ = false }

module _ (h : ActivationHooks) (previous : Option Text) (manifest : ReleaseManifest)
    (w : Program ActivationEffect ActivationFailure)
    (supported : all (is_supported manifest) h.current_heads ≡ true)
    (whole : IsWhole h manifest.release_id w
      (closed_before previous)
      (apply_all w.effects (closed_before previous))) where
  reopened-IsAtomic :
      IsAtomic h previous manifest
        (record { effects = stopped ∷ w.effects ++ resumed ∷ []; ended = w.ended })
        (apply_all (w.effects ++ resumed ∷ []) (closed_before previous))
  reopened-IsAtomic =
      let joined : apply_all (w.effects ++ resumed ∷ []) (closed_before previous)
          ≡ record (apply_all w.effects (closed_before previous)) { open_ = true } =
        apply_all-append w.effects (resumed ∷ []) (closed_before previous) in
      record {
        succeeded = λ e. (
          joined ∙ ap (λ (t : Condition). record t { open_ = true }) (whole.succeeded e),
          supported,
        );
        failed = λ c e.
            let there = whole.failed c e in
            inl (
              ap (λ (t : Condition). t.pointer) joined ∙ there.kept,
              ap (λ (t : Condition). t.open_) joined,
              λ f. ap (λ (t : Condition). t.migrated) joined ∙ there.rolled_back f,
            );
      }

  stranded-IsAtomic :
      (d : ℕ)
      → h.behaves resuming ≡ throws d
      → w.ended ≢ unfinished
      → IsAtomic h previous manifest
          (record { effects = stopped ∷ w.effects ++ []; ended = threw (hook d) })
          (apply_all (w.effects ++ []) (closed_before previous))
  stranded-IsAtomic d same ends =
      let joined : apply_all (w.effects ++ []) (closed_before previous)
          ≡ apply_all w.effects (closed_before previous) =
        ap (λ (es : List ActivationEffect). apply_all es (closed_before previous))
          (append-nil w.effects) in
      record {
        succeeded = λ (e : threw (hook d) ≡ returned). absurd (ground arith);
        failed = λ (c : ActivationFailure) (e : threw (hook d) ≡ threw c).
            let named : c ≡ hook d = ground arith in
            inr (elim (Ending-cases w.ended) [
              | inl f ↦
                  let there = joined ∙ whole.succeeded f in
                  (
                    d,
                    same,
                    named,
                    ap (λ (t : Condition). t.open_) there,
                    inr (
                      ap (λ (t : Condition). t.pointer) there,
                      ap (λ (t : Condition). t.migrated) there,
                    ),
                  )
              | inr (inl f) ↦ absurd (ends f)
              | inr (inr (cause, f)) ↦
                  let there = whole.failed cause f in
                  (
                    d,
                    same,
                    named,
                    ap (λ (t : Condition). t.open_) joined ∙ there.same,
                    inl (
                      ap (λ (t : Condition). t.pointer) joined ∙ there.kept,
                      λ g. ap (λ (t : Condition). t.migrated) joined ∙ there.rolled_back g,
                    ),
                  )
            ]);
      }

  reopened_at :
      (z : Ending ActivationFailure)
      → w.ended ≡ z
      → IsAtomic h previous manifest
          (record { effects = stopped ∷ w.effects ++ resumed ∷ []; ended = z })
          (apply_all (w.effects ++ resumed ∷ []) (closed_before previous))
  reopened_at z e =
      subst
        (λ (y : Ending ActivationFailure).
          IsAtomic h previous manifest
            (record { effects = stopped ∷ w.effects ++ resumed ∷ []; ended = y })
            (apply_all (w.effects ++ resumed ∷ []) (closed_before previous)))
        e reopened-IsAtomic

  unfoldable AfterResumption : Behaviour → Type 0
  AfterResumption x =
      IsAtomic h previous manifest
        (record {
          effects = stopped ∷ (resume_always x w).effects;
          ended = (resume_always x w).ended;
        })
        (apply_all (resume_always x w).effects (closed_before previous))

  resume_returned :
      (x : Behaviour) → h.behaves resuming ≡ x → w.ended ≡ returned → AfterResumption x
  unfolding resume_always AfterResumption
  resume_returned returns same e = rw (e, resume_always) rw e (reopened_at returned e)
  resume_returned absent same e = rw (e, resume_always) rw e (reopened_at returned e)
  resume_returned (throws d) same e =
      rw (e, resume_always) rw e
        (stranded-IsAtomic d same (λ (g : w.ended ≡ unfinished). absurd (ground arith)))

  resume_threw :
      (x : Behaviour) (cause : ActivationFailure)
      → h.behaves resuming ≡ x
      → w.ended ≡ threw cause
      → AfterResumption x
  unfolding resume_always AfterResumption
  resume_threw returns cause same e = rw (e, resume_always) (reopened_at (threw cause) e)
  resume_threw absent cause same e = rw (e, resume_always) (reopened_at (threw cause) e)
  resume_threw (throws d) cause same e =
      rw (e, resume_always)
        (stranded-IsAtomic d same (λ (g : w.ended ≡ unfinished). absurd (ground arith)))

  resume_always-IsAtomic : (x : Behaviour) → h.behaves resuming ≡ x → AfterResumption x
  unfolding resume_always AfterResumption
  resume_always-IsAtomic x same = elim (Ending-cases w.ended) [
    | inl e ↦ resume_returned x same e
    | inr (inl e) ↦
        rw (e, resume_always)
          (record {
            succeeded = λ (f : w.ended ≡ returned). absurd (ground arith);
            failed = λ c (f : w.ended ≡ threw c). absurd (ground arith);
          })
    | inr (inr (cause, e)) ↦ resume_threw x cause same e
  ]

stopping-IsAtomic :
    (h : ActivationHooks) (previous : Option Text) (manifest : ReleaseManifest) (x : Behaviour)
    (w : Program ActivationEffect ActivationFailure) (u : List PiArtifactHead)
    → ((refuse u).ended ≡ returned → all (is_supported manifest) h.current_heads ≡ true)
    → IsWhole h manifest.release_id w
        (closed_before previous)
        (apply_all w.effects (closed_before previous))
    → IsAtomic h previous manifest
        (refuse u >> need_as x stopped >> resume_always (h.behaves resuming) w)
        (apply_all
          (refuse u >> need_as x stopped >> resume_always (h.behaves resuming) w).effects
          (before previous))
unfolding resume_always AfterResumption
stopping-IsAtomic h previous manifest x w (head ∷ heads) k whole = record {
  succeeded = λ (e : (refuse (head ∷ heads)).ended ≡ returned). absurd (ground arith);
  failed = λ c e. inl (refl, refl, λ f. refl);
}
stopping-IsAtomic h previous manifest returns w [] k whole =
    resume_always-IsAtomic h previous manifest w (k refl) whole (h.behaves resuming) refl
stopping-IsAtomic h previous manifest absent w [] k whole =
    resume_always-IsAtomic h previous manifest w (k refl) whole (h.behaves resuming) refl
stopping-IsAtomic h previous manifest (throws c) w [] k whole = record {
  succeeded = λ (e : threw (hook c) ≡ returned). absurd (ground arith);
  failed = λ d e. inl (refl, refl, λ f. refl);
}

-- An activation that returns leaves the pointer at the new release, its data and a Host that accepts
-- mutations, and the release reads every head. One that throws leaves the pointer where it was and the
-- Host accepting mutations, and, if the recovery could roll back, the old data; unless what it throws
-- comes from the resumption: then the Host accepts no mutations, and the pointer and the data are those
-- of either case.
pub activate_signed_release-IsAtomic :
    (h : ActivationHooks) (previous : Option Text) (manifest : ReleaseManifest) (force : Bool)
    (timeout_ms : Option ℕ)
    → IsAtomic h previous manifest (activate_signed_release h previous manifest force timeout_ms) (
        apply_all
          (activate_signed_release h previous manifest force timeout_ms).effects
          (before previous))
unfolding activate_signed_release assert_compatible
activate_signed_release-IsAtomic h previous manifest force timeout_ms =
    let body = switch_release h manifest.release_id force (quiescence_timeout_ms timeout_ms) in
    stopping-IsAtomic h previous manifest (h.behaves stopping) (with_recovery h previous body)
      (unsupported manifest h.current_heads) (refuse-all manifest h.current_heads)
      (with_recovery-IsWhole h manifest.release_id body (closed_before previous) refl
        (switch_release-Switches h manifest.release_id force (quiescence_timeout_ms timeout_ms)))
