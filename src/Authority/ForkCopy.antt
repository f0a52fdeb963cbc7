-- ===== src/Authority/ForkCopy.antt =====
-- What the copies of `forkSession` of packages/host/src/store.ts add: Runs and entries, each in the order of the parent.
use pidex.Prelude.{
  ◌≡◌, refl, ap, sym, subst, ◌∙◌, inl, inr, true, ◌&&◌, List, [], ◌∷◌, ◌++◌, map, append_assoc,
  append-nil, any, All, Bool-cases, ◌==◌,
}
use pidex.Authority.Schema.{Run, Entry, Authority}
use pidex.Authority.Result.{Result, committed, thrown, require, invalid_fork_point, ◌>>=◌}
use pidex.Authority.Insert.{has_session, has_run, insert_run, insert_entry}
use pidex.Authority.Fork.{ForkRequest, child_run, child_entry, copy_runs, is_copied, copy_entries}

-- A condition on what is committed.
abbrev pub Commits {ℓ κ} : {A : Type ℓ} → (A → Type κ) → Result A → Type κ
Commits P (committed a) = P a
Commits P (thrown e) = Unit

pub bind-Commits {ℓ κ μ ν} :
    {A : Type ℓ} {B : Type κ} (P : A → Type μ) (Q : B → Type ν) (m : Result A) (f : A → Result B)
    → Commits P m
    → ((a : A) → P a → Commits Q (f a))
    → Commits Q (m >>= f)
bind-Commits P Q (committed a) f h k = k a h
bind-Commits P Q (thrown e) f h k = tt

pub Commits-weaken {ℓ κ μ} :
    {A : Type ℓ} (P : A → Type κ) (Q : A → Type μ) (m : Result A)
    → ((a : A) → P a → Q a)
    → Commits P m
    → Commits Q m
Commits-weaken P Q (committed a) k h = k a h
Commits-weaken P Q (thrown e) k h = tt

pub record IsAppended (db d : Authority) (rs : List Run) (es : List Entry) : Type 0 where
  pub runs : d.runs ≡ db.runs ++ rs
  pub entries : d.entries ≡ db.entries ++ es

insert_run-Commits :
    (r : Run) (db : Authority) → Commits (λ d. IsAppended db d (r ∷ []) []) (insert_run r db)
unfolding insert_run
insert_run-Commits r db = elim (Bool-cases (has_run r.run_id db.runs)) [
  | inl e ↦ rw e tt
  | inr e ↦
      elim (Bool-cases (
        any (λ (x : Run). (x.session_id == r.session_id) && (x.session_order == r.session_order))
          db.runs)) [
            | inl k ↦ rw (e, k) tt
            | inr k ↦ elim (Bool-cases (has_session r.session_id db.sessions)) [
              | inl m ↦ rw (e, k, m) (record { runs = refl; entries = sym (append-nil db.entries) })
              | inr m ↦ rw (e, k, m) tt
            ]
          ]
]

insert_entry-Commits :
    (e : Entry) (db : Authority) → Commits (λ d. IsAppended db d [] (e ∷ [])) (insert_entry e db)
unfolding insert_entry
insert_entry-Commits e db =
    elim (Bool-cases (any (λ (x : Entry). x.entry_id == e.entry_id) db.entries)) [
      | inl k ↦ rw k tt
      | inr k ↦
          elim (Bool-cases (
            any (λ (x : Entry). (x.session_id == e.session_id) && (x.entry_order == e.entry_order))
              db.entries)) [
                | inl m ↦ rw (k, m) tt
                | inr m ↦ rw (k, m) (record { runs = sym (append-nil db.runs); entries = refl })
              ]
    ]

pub IsAppended-then :
    (db d c : Authority) (rs qs : List Run) (es fs : List Entry)
    → IsAppended db d rs es
    → IsAppended d c qs fs
    → IsAppended db c (rs ++ qs) (es ++ fs)
IsAppended-then db d c rs qs es fs h k = record {
  runs = k.runs ∙ ap (λ xs. xs ++ qs) h.runs ∙ append_assoc db.runs rs qs;
  entries = k.entries ∙ ap (λ xs. xs ++ fs) h.entries ∙ append_assoc db.entries es fs;
}

pub copy_runs-Commits :
    (f : ForkRequest) (rs : List Run) (db : Authority)
    → Commits (λ d. IsAppended db d (map (child_run f) rs) []) (copy_runs f rs db)
unfolding copy_runs
copy_runs-Commits f [] db = record {
  runs = sym (append-nil db.runs);
  entries = sym (append-nil db.entries);
}
copy_runs-Commits f (r ∷ rs) db =
    bind-Commits (λ d. IsAppended db d (child_run f r ∷ []) [])
      (λ d. IsAppended db d (map (child_run f) (r ∷ rs)) []) (insert_run (child_run f r) db)
      (copy_runs f rs) (insert_run-Commits (child_run f r) db)
      (λ a h.
        Commits-weaken (λ d. IsAppended a d (map (child_run f) rs) [])
          (λ d. IsAppended db d (map (child_run f) (r ∷ rs)) []) (copy_runs f rs a)
          (λ d k. IsAppended-then db a d (child_run f r ∷ []) (map (child_run f) rs) [] [] h k)
          (copy_runs-Commits f rs a))

pub copy_entries-Commits :
    (f : ForkRequest) (point : Entry) (rs : List Run) (es : List Entry) (db : Authority)
    → Commits
        (λ d.
          IsAppended db d [] (map (child_entry f point) es) × All (λ e. is_copied rs e ≡ true) es)
        (copy_entries f point rs es db)
unfolding copy_entries
copy_entries-Commits f point rs [] db =
    (record { runs = sym (append-nil db.runs); entries = sym (append-nil db.entries) }, tt)
copy_entries-Commits f point rs (e ∷ es) db = elim (Bool-cases (is_copied rs e)) [
  | inr k ↦ rw k tt
  | inl k ↦
      let copies = map (child_entry f point) es in
      let copy = child_entry f point e in
      let P = λ (a : Authority).
        λ (d : Authority). IsAppended a d [] copies × All (λ x. is_copied rs x ≡ true) es in
      let Q = λ (d : Authority).
        IsAppended db d [] (copy ∷ copies) × All (λ x. is_copied rs x ≡ true) (e ∷ es) in
      subst
        (λ b. Commits Q (
          require b invalid_fork_point >>= λ _.
          insert_entry copy db >>= copy_entries f point rs es))
        (sym k)
        (bind-Commits (λ d. IsAppended db d [] (copy ∷ [])) Q (insert_entry copy db)
          (copy_entries f point rs es) (insert_entry-Commits copy db)
          (λ a h.
            Commits-weaken (P a) Q (copy_entries f point rs es a)
              (λ d held. (IsAppended-then db a d [] [] (copy ∷ []) copies h held.0, (k, held.1)))
              (copy_entries-Commits f point rs es a)))
]
