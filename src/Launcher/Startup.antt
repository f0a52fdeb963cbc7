-- ===== src/Launcher/Startup.antt =====
-- What the supervision of packages/launcher/src/supervisor.ts promises: one daemon job at a time, and
-- the first attempt that succeeds.
use pidex.Prelude.{
  subst, refl, ◌==◌, ==_iff, ℕ, ◌+◌, ◌≤◌, ◌<◌, ◌≡◌, ◌⊎◌, Bool, true, false, List, [], ◌∷◌, arith,
  length, none, some, Bool-cases, Option-cases, inl, inr, if◌then◌else◌,
}
use pidex.Launcher.Program.{Behaviour, returns, absent, throws}
use pidex.Launcher.Supervisor.{
  ready, circuit_open, Effect, job_created, job_closed, Attempt, failure, has_job, closing_throws,
  StartupEnd, settled, rejected, Supervision, attempts_from, startup_backoff, supervise_startup,
  supervised, try_effects, close_failed, give_up, sleep_before, after_effects,
}

-- Is the job of a daemon open after the effects, and was there never a second one?
pub data Jobs : Type 0 where
  no_job one_job broken : Jobs

abbrev pub jobs : Jobs → List Effect → Jobs
jobs s [] = s
jobs no_job (job_created ∷ es) = jobs one_job es
jobs one_job (job_closed ∷ es) = jobs no_job es
jobs s (job_created ∷ es) = jobs broken es
jobs s (job_closed ∷ es) = jobs broken es
jobs s (_ ∷ es) = jobs s es

abbrev pub is_broken : Jobs → Bool
is_broken broken = true
is_broken _ = false

-- The jobs that an end of the startup calls for.
abbrev pub IsJobsOf : (ℕ → Attempt) → StartupEnd → Jobs → Type 0
IsJobsOf attempt (settled (ready n)) j = j ≡ (if has_job (attempt n).job then one_job else no_job)
IsJobsOf attempt (settled (circuit_open n cause)) j = j ≡ no_job
IsJobsOf attempt (rejected cause) j = is_broken j ≡ false

-- What an attempt does with the jobs, where it is followed by something that is right.
pub record IsSupervised (attempt : ℕ → Attempt) (s : Supervision) : Type 0 where
  pub right : IsJobsOf attempt s.ended (jobs no_job s.effects)

last_attempt :
    (attempt : ℕ → Attempt) (n : ℕ) (final : Behaviour) (cause : ℕ)
    → failure (attempt n) ≡ some cause
    → IsSupervised attempt (
        after_effects
          (try_effects n (attempt n))
          (close_failed (attempt n) (give_up final (circuit_open n cause))))
last_attempt attempt n final cause h = record { right = ground arith }

earlier_attempt :
    (attempt : ℕ → Attempt) (n delay cause : ℕ) (later : Supervision)
    → failure (attempt n) ≡ some cause
    → IsSupervised attempt later
    → IsSupervised attempt (
        after_effects
          (try_effects n (attempt n))
          (close_failed (attempt n) (sleep_before delay (attempt n) later)))
earlier_attempt attempt n delay cause later h k = record { right = let r = k.right in ground arith }

good_attempt :
    (attempt : ℕ → Attempt) (n : ℕ)
    → failure (attempt n) ≡ none
    → IsSupervised attempt (
        after_effects
          (try_effects n (attempt n))
          (record { effects = []; ended = settled (ready n) }))
good_attempt attempt n h = record { right = ground arith }

attempts_from-IsSupervised :
    (n : ℕ) (delays : List ℕ) (attempt : ℕ → Attempt) (final : Behaviour)
    → IsSupervised attempt (attempts_from n delays attempt final)
unfolding attempts_from
attempts_from-IsSupervised n [] attempt final = elim (Option-cases (failure (attempt n))) [
  | inl e ↦ rw e (good_attempt attempt n e)
  | inr (cause, e) ↦ rw e (last_attempt attempt n final cause e)
]
attempts_from-IsSupervised n (delay ∷ delays) attempt final =
    elim (Option-cases (failure (attempt n))) [
      | inl e ↦ rw e (good_attempt attempt n e)
      | inr (cause, e) ↦ rw e (
          earlier_attempt attempt n delay cause (attempts_from (n + 1) delays attempt final) e
            (attempts_from-IsSupervised (n + 1) delays attempt final))
    ]

abbrev pub has_failed : Attempt → Bool
has_failed a = elim (failure a) [ none ↦ false | some cause ↦ true ]

abbrev pub AllFailed : (ℕ → Attempt) → ℕ → ℕ → Type 0
AllFailed attempt from to = (m : ℕ) → from ≤ m → m < to → has_failed (attempt m) ≡ true

-- Among the attempts from one to another: the first that succeeds, or the cause of the last failure. A
-- rejection has the cause of a close, of a sleep, or of the last report.
abbrev pub IsFirst : (ℕ → Attempt) → Behaviour → ℕ → ℕ → StartupEnd → Type 0
IsFirst attempt final from last (settled (ready n)) =
    (from ≤ n) × (n ≤ last) × (failure (attempt n) ≡ none) × AllFailed attempt from n
IsFirst attempt final from last (settled (circuit_open n cause)) =
    (n ≡ last) × (failure (attempt last) ≡ some cause) × AllFailed attempt from (last + 1)
IsFirst attempt final from last (rejected cause) =
    (m : ℕ) × (from ≤ m)
    × (m ≤ last)
    × AllFailed attempt from (m + 1)
    × ((closing_throws (attempt m) ≡ some cause)
        ⊎ (((m < last) × ((attempt m).sleep_throws ≡ some cause))
            ⊎ ((m ≡ last) × (final ≡ throws cause))))

earlier_failed :
    (attempt : ℕ → Attempt) (n to : ℕ)
    → has_failed (attempt n) ≡ true
    → AllFailed attempt (n + 1) to
    → AllFailed attempt n to
earlier_failed attempt n to h k m le lt = elim (Bool-cases (n == m)) [
  | inl same ↦ let e : n ≡ m = (==_iff n m).0 same in subst (λ x. has_failed (attempt x) ≡ true) e h
  | inr other ↦ k m (ground arith) lt
]

only_failed :
    (attempt : ℕ → Attempt) (n : ℕ) → has_failed (attempt n) ≡ true → AllFailed attempt n (n + 1)
only_failed attempt n h = earlier_failed attempt n (n + 1) h (λ m le lt. absurd (omega arith))

IsFirst-later :
    (attempt : ℕ → Attempt) (final : Behaviour) (n last : ℕ) (s : StartupEnd)
    → has_failed (attempt n) ≡ true
    → IsFirst attempt final (n + 1) last s
    → IsFirst attempt final n last s
IsFirst-later attempt final n last (settled (ready k)) h f =
    (omega (arith, f.0), f.1, f.2, earlier_failed attempt n k h f.3)
IsFirst-later attempt final n last (settled (circuit_open k cause)) h f =
    (f.0, f.1, earlier_failed attempt n (last + 1) h f.2)
IsFirst-later attempt final n last (rejected cause) h (m, le, le', k, r) =
    (m, omega arith, le', earlier_failed attempt n (m + 1) h k, r)

module _ (attempt : ℕ → Attempt) (final : Behaviour) (n cause : ℕ)
    (e : failure (attempt n) ≡ some cause) where
  is_failed : has_failed (attempt n) ≡ true
  is_failed = rw (e, has_failed) refl

  closed_by :
      (last : ℕ) (later : Supervision)
      → n ≤ last
      → (closing_throws (attempt n) ≡ none → IsFirst attempt final n last later.ended)
      → IsFirst attempt final n last (close_failed (attempt n) later).ended
  closed_by last later le k = elim (Option-cases (closing_throws (attempt n))) [
    | inl f ↦ rw f (k f)
    | inr (c, f) ↦ rw f (n, omega arith, le, only_failed attempt n is_failed, inl f)
  ]

  give_up-IsFirst :
      (x : Behaviour)
      → final ≡ x
      → IsFirst attempt final n n (give_up x (circuit_open n cause)).ended
  give_up-IsFirst returns same = (refl, e, only_failed attempt n is_failed)
  give_up-IsFirst absent same = (refl, e, only_failed attempt n is_failed)
  give_up-IsFirst (throws c) same =
      (n, omega arith, omega arith, only_failed attempt n is_failed, inr (inr (refl, same)))

  sleep_before-IsFirst :
      (last delay : ℕ) (later : Supervision)
      → n < last
      → IsFirst attempt final (n + 1) last later.ended
      → IsFirst attempt final n last (sleep_before delay (attempt n) later).ended
  sleep_before-IsFirst last delay later lt k = elim (Option-cases (attempt n).sleep_throws) [
    | inl f ↦ rw f (IsFirst-later attempt final n last later.ended is_failed k)
    | inr (c, f) ↦
        rw f (n, omega arith, omega arith, only_failed attempt n is_failed, inr (inl (lt, f)))
  ]

attempts_from-IsFirst :
    (n : ℕ) (delays : List ℕ) (attempt : ℕ → Attempt) (final : Behaviour)
    → IsFirst attempt final n (n + length delays) (attempts_from n delays attempt final).ended
unfolding attempts_from
attempts_from-IsFirst n [] attempt final = elim (Option-cases (failure (attempt n))) [
  | inl e ↦ rw e (omega arith, omega arith, e, λ m le lt. absurd (omega arith))
  | inr (cause, e) ↦
      let given_up = give_up final (circuit_open n cause) in
      rw e (
        subst (λ x. IsFirst attempt final n x (close_failed (attempt n) given_up).ended)
          (omega arith)
          (closed_by attempt final n cause e n given_up (omega arith)
            (λ f. give_up-IsFirst attempt final n cause e final refl)))
]
attempts_from-IsFirst n (delay ∷ delays) attempt final =
    let last = n + length (delay ∷ delays) in
    let rest = attempts_from (n + 1) delays attempt final in
    elim (Option-cases (failure (attempt n))) [
      | inl e ↦ rw e (omega arith, omega arith, e, λ m le lt. absurd (omega arith))
      | inr (cause, e) ↦ rw e (
          closed_by attempt final n cause e last (sleep_before delay (attempt n) rest) (omega arith)
            (λ f. sleep_before-IsFirst attempt final n cause e last delay rest (omega arith) (
              subst (λ x. IsFirst attempt final (n + 1) x rest.ended) (omega arith)
                (attempts_from-IsFirst (n + 1) delays attempt final))))
    ]

-- A startup that has the user's lock ends ready with the first of six attempts that succeeds, or with
-- an open circuit and the cause of the sixth failure; or it is rejected behind failures only, with what the
-- closing of a job, a sleep between two attempts or the report of the open circuit threw. It never has two
-- daemon jobs open, and at its end has the job of the attempt that succeeded if it is ready, and none if
-- the circuit is open.
pub supervise_startup-IsFirst :
    (attempt : ℕ → Attempt) (final : Behaviour) (s : Supervision)
    → supervise_startup true attempt final ≡ supervised s
    → IsFirst attempt final 1 6 s.ended × IsJobsOf attempt s.ended (jobs no_job s.effects)
unfolding supervise_startup
supervise_startup-IsFirst attempt final s e =
    let same : attempts_from 1 startup_backoff attempt final ≡ s = cc e in
    let held = attempts_from-IsSupervised 1 startup_backoff attempt final in
    subst
      (λ (x : Supervision).
        IsFirst attempt final 1 6 x.ended × IsJobsOf attempt x.ended (jobs no_job x.effects))
      same (attempts_from-IsFirst 1 startup_backoff attempt final, held.right)
