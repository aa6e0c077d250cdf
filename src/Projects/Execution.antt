-- ===== src/Projects/Execution.antt =====
-- projects.go's Execute, before and after the runner, whose reply and error are arguments: other
-- methods run in between. Making the scratch directory is an argument too, and the prompt is left out.
pub mod Recorded
use virtualme.Prelude.{
  ℕ, ◌-◌, ◌/◌, Bool, true, false, ◌||◌, not, Option, none, some, List, [], ◌∷◌, ltb, if◌then◌else◌,
  length, take,
}
use virtualme.Text.{Text, text_eq}
use virtualme.Projects.Records.{
  Project, RunSummary, Fate, done, failed_before, failed_after, World, Error, unavailable,
  not_found, undecodable, bad_payload, bad_name, bad_task, bad_selector, no_task, no_directory,
  Result, ok, err, ◌>>=◌, ◌>>◌, next_fate, after_call, find, put, get, save,
}
use virtualme.Clock.{Time, unix_milli, milli_ns}
use virtualme.Decimal.{ℤ, pos, negated}
use virtualme.Projects.Edit.{is_blank}

unfoldable pub truncate : Text → ℕ → Text
truncate value limit = if ltb limit (length value) then take limit value else value

refuse_if : Bool → Error → Result Unit
refuse_if true e = err e
refuse_if false e = ok tt

-- The payload's id and whether the run is manual, if it decodes.
payload_id : Option (Text × Bool) → Result Text
unfolding refuse_if
payload_id none = err bad_payload
payload_id (some (id, manual)) = do refuse_if (text_eq id []) bad_payload; ok id

ready : Bool → Result Project → Result Project
unfolding refuse_if
ready made r = do
  p ← r
  refuse_if (is_blank p.task) no_task
  refuse_if (not made) no_directory
  ok p

looked_up : Bool → Result Text → World → Result Project × World
unfolding get ready
looked_up made (err e) w = (err e, w)
looked_up made (ok id) w = let (r, w') = get id w in (ready made r, w')

-- Up to the runner.
unfoldable pub begin_execute : Option (Text × Bool) → Bool → World → Result Project × World
unfolding payload_id looked_up
begin_execute payload made w = looked_up made (payload_id payload) w

-- What Execute may return: the runner's error or one of the calls after it.
pub data Failure : Type 0 where
  of_runner : Text → Failure
  of_call : Error → Failure

-- `if err != nil && runErr == nil { runErr = err }`
unfoldable pub keep_first : Option Failure → Result Unit → Option Failure
keep_first (some f) r = some f
keep_first none (ok u) = none
keep_first none (err e) = some (of_call e)

abbrev pub runs_of : Text → List (Text × List RunSummary) → List RunSummary
runs_of id runs = elim (find id runs) [ none ↦ [] | some rs ↦ rs ]

abbrev pub set_runs : Text → List RunSummary → World → World
set_runs id rs w = record w { runs = put id rs w.runs }

unfoldable pub run_call : Fate → World → World → Result Unit × World
run_call done changed w = (ok tt, changed)
run_call failed_before changed w = (err unavailable, w)
run_call failed_after changed w = (err unavailable, changed)

-- LPUSH to the project's runs.
unfoldable pub push_run : Text → RunSummary → World → Result Unit × World
unfolding run_call
push_run id run w =
    let w' = after_call w in
    run_call (next_fate w.fates) (set_runs id (run ∷ runs_of id w.runs) w') w'

-- LTRIM 0 49 of them.
unfoldable pub trim_runs : Text → World → Result Unit × World
unfolding run_call
trim_runs id w =
    let w' = after_call w in
    run_call (next_fate w.fates) (set_runs id (take 50 (runs_of id w.runs)) w') w'

-- `!errors.Is(currentErr, errProjectNotFound)`
unfoldable pub unless_missing : Error → Result Unit
unless_missing e = elim e [ not_found ↦ ok tt | other ↦ err other ]

unfoldable pub record_run :
    Text → RunSummary → Option Failure → Result Project → World → Option Failure × World
unfolding keep_first push_run trim_runs save unless_missing
record_run id run failure (ok current) w =
    let (pushed, w1) = push_run id run w in
    let (trimmed, w2) = trim_runs id w1 in
    let (written, w3) = save (record current { last_run_ts = run.ts }) w2 in
    (keep_first (keep_first (keep_first failure pushed) trimmed) written, w3)
record_run id run failure (err e) w = (keep_first failure (unless_missing e), w)

unfoldable pub failure_of : Option Text → Option Failure
failure_of none = none
failure_of (some e) = some (of_runner e)

-- finished.Sub(started).Milliseconds(), which rounds toward zero.
unfoldable pub milliseconds_between : Time → Time → ℤ
milliseconds_between started finished =
    if ltb finished started
    then negated ((started - finished) / milli_ns)
    else pos ((finished - started) / milli_ns)

-- The record of a run, by the runner's reply and error and the times before and after.
unfoldable pub run_summary : Text → Bool → Time → Time → Text → Option Text → RunSummary
unfolding truncate milliseconds_between
run_summary job_id manual started finished reply run_error = record {
  ts = unix_milli finished;
  job_id = job_id;
  ok = elim run_error [ none ↦ true | some e ↦ false ];
  summary = truncate (elim run_error [ none ↦ reply | some e ↦ e ]) 300;
  duration_ms = milliseconds_between started finished;
  manual = manual;
}

-- After the runner: the record is kept if the project is still there.
unfoldable pub end_execute :
    Text → RunSummary → Text → Option Text → World → (Text × Option Failure) × World
unfolding record_run failure_of get truncate
end_execute id run reply run_error w =
    let (current, w1) = get id w in
    let (failure, w2) = record_run id run (failure_of run_error) current w1 in
    ((truncate reply 300, failure), w2)
