-- ===== src/Projects/Execution/Recorded.antt =====
-- What a run leaves in the service.
use virtualme.Prelude.{
  ◌≡◌, ◌≢◌, refl, sym, ap, ◌∙◌, subst, true, Option, none, some, List, [], ◌∷◌, take, Bool-cases,
  inl, inr,
}
use virtualme.Text.{Text, text_eq, text_eq_iff}
use virtualme.Projects.Records.{
  Project, RunSummary, project, Fate, done, failed_before, failed_after, World, unavailable, Result,
  ok, err, next_fate, after_call, find, put, write_project, get, save,
}
use virtualme.Projects.Execution.{
  Failure, of_call, keep_first, runs_of, set_runs, run_call, push_run, trim_runs, record_run,
  failure_of, end_execute,
}

text_eq_refl : (t : Text) → text_eq t t ≡ true
text_eq_refl t = (text_eq_iff t t).1 refl

found_if :
    {A : Type 0} (k key : Text) (v : A) (rest : List (Text × A))
    → text_eq k key ≡ true
    → find key ((k, v) ∷ rest) ≡ some v
found_if k key v rest e = rw e refl

find-put : {A : Type 0} (key : Text) (v : A) (l : List (Text × A)) → find key (put key v l) ≡ some v
find-put key v [] = found_if key key v [] (text_eq_refl key)
find-put {A} key v ((k, u) ∷ rest) = elim (Bool-cases (text_eq k key)) [
  | inl e ↦ rw (e, e) refl
  | inr e ↦ rw (e, e) (find-put key v rest)
]

some_failure : (f : Failure) → some f ≢ none
some_failure f h = cc

kept_none :
    (f : Option Failure) (r : Result Unit) → keep_first f r ≡ none → (f ≡ none) × (r ≡ ok tt)
unfolding keep_first
kept_none none (ok tt) h = (refl, refl)
kept_none none (err e) h = absurd (some_failure (of_call e) h)
kept_none (some f) r h = absurd (some_failure f h)

err_ne_ok : err unavailable ≢ ok tt
err_ne_ok h = cc

-- A call that succeeded has its effect.
run_call-changed :
    (f : Fate) (changed w : World)
    → (run_call f changed w).0 ≡ ok tt
    → (run_call f changed w).1 ≡ changed
unfolding run_call
run_call-changed done changed w h = refl
run_call-changed failed_before changed w h = absurd (err_ne_ok h)
run_call-changed failed_after changed w h = refl

-- What the record of a run leaves of a project that was there.
pub record Recorded (id : Text) (run : RunSummary) (current : Project) (w w' : World) : Type 0 where
  pub runs : runs_of id w'.runs ≡ take 50 (run ∷ runs_of id w.runs)
  pub table : w'.table ≡ put current.id (project (record current { last_run_ts = run.ts })) w.table

runs_of-put :
    (id : Text) (rs : List RunSummary) (l : List (Text × List RunSummary))
    → runs_of id (put id rs l) ≡ rs
runs_of-put id rs l = ap (λ o. elim o [ none ↦ [] | some rs ↦ rs ]) (find-put id rs l)

pushed-at :
    (id : Text) (run : RunSummary) (w : World)
    → (push_run id run w).0 ≡ ok tt
    → (push_run id run w).1 ≡ set_runs id (run ∷ runs_of id w.runs) (after_call w)
unfolding push_run
pushed-at id run w h = run_call-changed (next_fate w.fates) _ _ h

trimmed-at :
    (id : Text) (w : World)
    → (trim_runs id w).0 ≡ ok tt
    → (trim_runs id w).1 ≡ set_runs id (take 50 (runs_of id w.runs)) (after_call w)
unfolding trim_runs
trimmed-at id w h = run_call-changed (next_fate w.fates) _ _ h

write_project-at :
    (f : Fate) (p : Project) (w : World)
    → (write_project f p w).0 ≡ ok tt
    → (write_project f p w).1 ≡ record w { table = put p.id (project p) w.table }
unfolding write_project
write_project-at done p w h = refl
write_project-at failed_before p w h = absurd (err_ne_ok h)
write_project-at failed_after p w h = refl

save-at :
    (p : Project) (w : World)
    → (save p w).0 ≡ ok tt
    → (save p w).1 ≡ record (after_call w) { table = put p.id (project p) w.table }
unfolding save
save-at p w h = write_project-at (next_fate w.fates) p (after_call w) h

record_run-Recorded :
    (id : Text) (run : RunSummary) (failure : Option Failure) (current : Project) (w : World)
    → (record_run id run failure (ok current) w).0 ≡ none
    → Recorded id run current w ((record_run id run failure (ok current) w).1)
unfolding record_run
record_run-Recorded id run failure current w h =
    let p1 = push_run id run w in
    let p2 = trim_runs id (p1.1) in
    let p3 = save (record current { last_run_ts = run.ts }) (p2.1) in
    let saved = kept_none (keep_first (keep_first failure (p1.0)) (p2.0)) (p3.0) h in
    let trimmed = kept_none (keep_first failure (p1.0)) (p2.0) (saved.0) in
    let pushed = kept_none failure (p1.0) (trimmed.0) in
    let e1 = pushed-at id run w (pushed.1) in
    let e2 = trimmed-at id (p1.1) (trimmed.1) in
    let e3 = save-at (record current { last_run_ts = run.ts }) (p2.1) (saved.1) in
    record {
      runs =
          ap (λ (v : World). runs_of id v.runs) e3
          ∙ ap (λ (v : World). runs_of id v.runs) e2
          ∙ runs_of-put id (take 50 (runs_of id (p1.1).runs)) (p1.1).runs
          ∙ ap (λ (v : World). take 50 (runs_of id v.runs)) e1
          ∙ ap (take 50) (runs_of-put id (run ∷ runs_of id w.runs) w.runs);
      table =
          ap (λ (v : World). v.table) e3
          ∙ ap
              (λ (v : World).
                put current.id (project (record current { last_run_ts = run.ts })) v.table)
              (e2
                ∙ ap (λ (v : World). set_runs id (take 50 (runs_of id (p1.1).runs)) (after_call v))
                    e1);
    }

-- Where Execute ends without an error for a project that is still stored, the new record is the first
-- of the project's runs and the older ones follow it, 50 in all at most; and the project is stored with
-- the time of the run, its other fields as they were stored last.
pub end_execute-Recorded :
    (id : Text) (run : RunSummary) (reply : Text) (run_error : Option Text) (current : Project)
    (w : World)
    → (get id w).0 ≡ ok current
    → ((end_execute id run reply run_error w).0).1 ≡ none
    → Recorded id run current w ((end_execute id run reply run_error w).1)
unfolding end_execute get
end_execute-Recorded id run reply run_error current w found quiet =
    let same =
      ap (λ (r : Result Project). record_run id run (failure_of run_error) r (after_call w))
        found in
    let fine = sym (ap (λ (x : Option Failure × World). x.0) same) ∙ quiet in
    let r = record_run-Recorded id run (failure_of run_error) current (after_call w) fine in
    subst (λ (x : Option Failure × World). Recorded id run current w (x.1)) (sym same)
      (record { runs = r.runs; table = r.table })
