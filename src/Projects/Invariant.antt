-- ===== src/Projects/Invariant.antt =====
-- The hash of the projects through every method that writes it.
use virtualme.Prelude.{ℕ, ◌≡◌, refl, sym, ◌∙◌, subst, Option, none, some, List, [], ◌∷◌, All}
use virtualme.Text.{Text}
use virtualme.Clock.{Time}
use virtualme.Projects.Records.{
  Project, RunSummary, Fate, done, failed_before, failed_after, Table, World, Result, ok, err,
  ◌>>=◌, next_fate, after_call, get, save, list,
}
use virtualme.Projects.Records.Tables.{
  IsHash, OnProject, Read, Listed, save-All, save-IsHash, get-Read, list-every, without-All,
  without-IsHash,
}
use virtualme.Projects.Edit.{
  UpdateRequest, saved, create, updated, update, delete_runs, delete_project, delete_found, delete,
}
use virtualme.Projects.Edit.Sound.{IsSound, Holds, created-IsSound, updated-IsSound}
use virtualme.Projects.Schedule.{due, enqueued, visit, visit_all, source_of, source}
use virtualme.Projects.Execution.{
  Failure, run_call, push_run, trim_runs, record_run, failure_of, end_execute,
}

-- The hash has each project once, under its id, and every project keeps the rules.
abbrev pub IsWell : Table → Type 0
IsWell table = IsHash table × All (OnProject IsSound) table

save-IsWell : (p : Project) (w : World) → IsSound p → IsWell w.table → IsWell ((save p w).1).table
save-IsWell p w s h = (save-IsHash p w (h.0), save-All (OnProject IsSound) p w s (h.1))

saved-IsWell :
    (r : Result Project) (w : World)
    → Holds IsSound r
    → IsWell w.table
    → IsWell ((saved r w).1).table
unfolding saved
saved-IsWell (ok p) w s h = save-IsWell p w s h
saved-IsWell (err e) w s h = h

create-IsWell :
    (id : Text) (now : ℕ) (name : Text) (w : World)
    → IsWell w.table
    → IsWell ((create id now name w).1).table
unfolding create
create-IsWell id now name w h = saved-IsWell _ w (created-IsSound id name now) h

update_read :
    (request : UpdateRequest) (r : Result Project)
    → Read IsSound r
    → Holds IsSound (do p ← r; updated request p)
update_read request (ok p) s = updated-IsSound request p s.trim
update_read request (err e) s = tt

get-table : (id : Text) (w : World) → ((get id w).1).table ≡ w.table
unfolding get
get-table id w = refl

update-IsWell :
    (request : UpdateRequest) (w : World) → IsWell w.table → IsWell ((update request w).1).table
unfolding update
update-IsWell request w h =
    saved-IsWell _ ((get request.id w).1)
      (update_read request ((get request.id w).0) (get-Read IsSound request.id w (h.1)))
      (subst IsWell (sym (get-table request.id w)) h)

delete_runs-table : (f : Fate) (id : Text) (w : World) → w.table ≡ ((delete_runs f id w).1).table
unfolding delete_runs
delete_runs-table done id w = refl
delete_runs-table failed_before id w = refl
delete_runs-table failed_after id w = refl

delete_project-IsWell :
    (f : Fate) (id : Text) (w : World) → IsWell w.table → IsWell ((delete_project f id w).1).table
unfolding delete_project
delete_project-IsWell done id w h =
    subst IsWell (delete_runs-table (next_fate w.fates) id _)
      (without-IsHash id w.table (h.0), without-All (OnProject IsSound) id w.table (h.1))
delete_project-IsWell failed_before id w h = h
delete_project-IsWell failed_after id w h =
    (without-IsHash id w.table (h.0), without-All (OnProject IsSound) id w.table (h.1))

delete_found-IsWell :
    (r : Result Project) (id : Text) (w : World)
    → IsWell w.table
    → IsWell ((delete_found r id w).1).table
unfolding delete_found
delete_found-IsWell (ok p) id w h = delete_project-IsWell (next_fate w.fates) id (after_call w) h
delete_found-IsWell (err e) id w h = h

delete-IsWell : (id : Text) (w : World) → IsWell w.table → IsWell ((delete id w).1).table
unfolding delete
delete-IsWell id w h =
    delete_found-IsWell ((get id w).0) id ((get id w).1) (subst IsWell (sym (get-table id w)) h)

run_call-table :
    (f : Fate) (changed w : World)
    → changed.table ≡ w.table
    → w.table ≡ ((run_call f changed w).1).table
unfolding run_call
run_call-table done changed w e = sym e
run_call-table failed_before changed w e = refl
run_call-table failed_after changed w e = sym e

push_run-table :
    (id : Text) (run : RunSummary) (w : World) → w.table ≡ ((push_run id run w).1).table
unfolding push_run
push_run-table id run w = run_call-table (next_fate w.fates) _ (after_call w) refl

trim_runs-table : (id : Text) (w : World) → w.table ≡ ((trim_runs id w).1).table
unfolding trim_runs
trim_runs-table id w = run_call-table (next_fate w.fates) _ (after_call w) refl

record_run-IsWell :
    (id : Text) (run : RunSummary) (failure : Option Failure) (r : Result Project) (w : World)
    → Read IsSound r
    → IsWell w.table
    → IsWell ((record_run id run failure r w).1).table
unfolding record_run
record_run-IsWell id run failure (err e) w s h = h
record_run-IsWell id run failure (ok p) w s h =
    let w1 = (push_run id run w).1 in
    let w2 = (trim_runs id w1).1 in
    save-IsWell (record p { last_run_ts = run.ts }) w2
      (record {
        trim = record {
          named = s.trim.named;
          name_short = s.trim.name_short;
          task_short = s.trim.task_short;
        };
        tasked = s.tasked;
      })
      (subst IsWell (push_run-table id run w ∙ trim_runs-table id w1) h)

end_execute-IsWell :
    (id : Text) (run : RunSummary) (reply : Text) (run_error : Option Text) (w : World)
    → IsWell w.table
    → IsWell ((end_execute id run reply run_error w).1).table
unfolding end_execute
end_execute-IsWell id run reply run_error w h =
    record_run-IsWell id run (failure_of run_error) ((get id w).0) ((get id w).1)
      (get-Read IsSound id w (h.1)) (subst IsWell (sym (get-table id w)) h)

-- What changes the hash: the three requests of a console, the scheduler, and the end of a run.
pub data Step : Type 0 where
  creating : Text → ℕ → Text → Step
  updating : UpdateRequest → Step
  deleting : Text → Step
  scheduling : Time → Step
  ran : Text → RunSummary → Text → Option Text → Step

module _ (format_day : Time → Text) (new_id : Text → Text) (body : Project → Text)
    (lower : Text → Text) where
  enqueued-table :
      (p : Project) (x : Result Unit × World)
      → (x.1).table ≡ ((enqueued format_day new_id body p x).1).table
  unfolding enqueued
  enqueued-table p (ok u, w) = refl
  enqueued-table p (err e, w) = refl

  visit-IsWell :
      (o : Option Text) (p : Project) (w : World)
      → IsSound p
      → IsWell w.table
      → IsWell ((visit format_day new_id body o p w).1).table
  unfolding visit
  visit-IsWell none p w s h = h
  visit-IsWell (some token) p w s h =
      let q = record p { last_enqueued_bucket = token } in
      subst IsWell (enqueued-table p (save q w)) (
        save-IsWell q w
          (record {
            trim = record {
              named = s.trim.named;
              name_short = s.trim.name_short;
              task_short = s.trim.task_short;
            };
            tasked = s.tasked;
          })
          h)

  visit_all-IsWell :
      (now : Time) (ps : List Project) (w : World)
      → All IsSound ps
      → IsWell w.table
      → IsWell ((visit_all format_day new_id body now ps w).1).table
  unfolding visit_all
  visit_all-IsWell now [] w s h = h
  visit_all-IsWell now (p ∷ ps) w (s, ss) h =
      visit_all-IsWell now ps ((visit format_day new_id body (due format_day now p) p w).1) ss
        (visit-IsWell (due format_day now p) p w s h)

  source_of-IsWell :
      (now : Time) (x : Result (List Project) × World)
      → Listed IsSound (x.0)
      → IsWell (x.1).table
      → IsWell ((source_of format_day new_id body now x).1).table
  unfolding source_of
  source_of-IsWell now (ok ps, w) s h = visit_all-IsWell now ps w s h
  source_of-IsWell now (err e, w) s h = h

  source-IsWell :
      (now : Time) (w : World)
      → IsWell w.table
      → IsWell ((source format_day new_id body lower now w).1).table
  unfolding source list
  source-IsWell now w h = source_of-IsWell now (list lower w) (list-every IsSound lower w (h.1)) h

  unfoldable pub step : Step → World → World
  step (creating id now name) w = (create id now name w).1
  step (updating request) w = (update request w).1
  step (deleting id) w = (delete id w).1
  step (scheduling now) w = (source format_day new_id body lower now w).1
  step (ran id run reply run_error) w = (end_execute id run reply run_error w).1

  unfoldable pub run_steps : List Step → World → World
  unfolding step
  run_steps [] w = w
  run_steps (s ∷ ss) w = run_steps ss (step s w)

  step-IsWell : (s : Step) (w : World) → IsWell w.table → IsWell (step s w).table
  unfolding step
  step-IsWell (creating id now name) w h = create-IsWell id now name w h
  step-IsWell (updating request) w h = update-IsWell request w h
  step-IsWell (deleting id) w h = delete-IsWell id w h
  step-IsWell (scheduling now) w h = source-IsWell now w h
  step-IsWell (ran id run reply run_error) w h = end_execute-IsWell id run reply run_error w h

  -- From a hash that has each project once, under its id, and in which every project has a name of 1 to
  -- 80 characters, a task of at most 4096, and one that is not blank if it is enabled, any creations,
  -- updates, deletions, visits of the scheduler and ends of runs lead to such a hash, whatever calls of
  -- Valkey fail.
  pub run_steps-IsWell :
      (ss : List Step) (w : World) → IsWell w.table → IsWell (run_steps ss w).table
  unfolding run_steps
  run_steps-IsWell [] w h = h
  run_steps-IsWell (s ∷ ss) w h = run_steps-IsWell ss (step s w) (step-IsWell s w h)
