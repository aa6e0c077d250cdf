-- ===== src/Projects/Tests.antt =====
-- Concrete projects.
use virtualme.Prelude.{
  ◌+◌, ◌*◌, ◌/◌, ◌≡◌, refl, true, false, none, some, List, [], ◌∷◌, ◌++◌, ◌≢◌, length, All, arith,
}
use virtualme.Text.{Text, codes, close_commas, join, fields, to_lower, trim_space, split, text_eq}
use virtualme.Clock.{Time, day_ns, hour_ns}
use virtualme.Decimal.{decimal}
use virtualme.Jobs.Envelope.{Envelope}
use virtualme.Jobs.Selector.{
  parse, normalize_text, select_parts, bucket_hours, select, parse_days, matches, has_day,
}
use virtualme.Projects.Records.{save, Project, RunSummary, project, junk, World, get}
use virtualme.Projects.Records.Tables.{apart}
use virtualme.Projects.Edit.Sound.{IsSound}
use virtualme.Projects.Schedule.{source}
use virtualme.Projects.Schedule.Once.{NotOf, source-once}
use virtualme.Decimal.{pos, negsuc, negated}
use virtualme.Projects.Execution.{end_execute, run_summary, milliseconds_between}
use virtualme.Projects.Execution.Recorded.{Recorded, end_execute-Recorded}
use virtualme.Projects.Invariant.{
  IsWell, Step, creating, updating, deleting, scheduling, run_steps, run_steps-IsWell,
}

abbrev day_text : Time → Text
day_text t = decimal (t / day_ns)

abbrev job_id : Text → Text
job_id id = codes "job-" ++ id

abbrev job_body : Project → Text
job_body p = p.name

abbrev report : Project
report = record {
  id = codes "p1";
  name = codes "Report";
  task = codes "write it";
  selector = codes "weekday morning";
  enabled = true;
  created_ts = 1;
  last_run_ts = 0;
  last_enqueued_bucket = [];
}

abbrev world : World
world = record {
  table = (codes "p1", project report) ∷ (codes "p2", junk []) ∷ [];
  runs = [];
  fates = [];
}

-- Monday 1970-01-05 at eight and at nine.
abbrev eight : Time
eight = 4 * day_ns + 8 * hour_ns

abbrev nine : Time
nine = 4 * day_ns + 9 * hour_ns

enqueued_once : length ((source day_text job_id job_body to_lower eight world).0) ≡ 1
unfolding source decimal parse normalize_text close_commas join fields to_lower trim_space
    select_parts split bucket_hours text_eq select parse_days matches has_day save
enqueued_once = refl

abbrev first : List Envelope × World
first = source day_text job_id job_body to_lower eight world

same_day : day_text nine ≡ day_text eight
same_day = refl

other_id : codes "p2" ≢ codes "p1"
unfolding text_eq
other_id = apart (codes "p2") (codes "p1") refl

report-IsSound : IsSound report
unfolding trim_space text_eq
report-IsSound = record {
  trim = record { named = omega arith; name_short = omega arith; task_short = omega arith };
  tasked = λ h. refl;
}

world-IsWell : IsWell world.table
world-IsWell = ((refl, (other_id, tt), (tt, tt, tt)), (report-IsSound, (tt, tt)))

source-once_example :
    All
      (λ (e : Envelope).
        All (NotOf e.project_id) ((source day_text job_id job_body to_lower nine (first.1)).0))
      (first.0)
source-once_example =
    source-once day_text eight nine same_day job_id job_body to_lower world
      (refl, (other_id, tt), (tt, tt, tt))

abbrev steps : List Step
steps =
    creating (codes "p3") 5 (codes " New ")
    ∷ updating (record {
      id = codes "p3";
      name = none;
      task = some (codes "t");
      selector = none;
      enabled = some true;
    })
    ∷ scheduling eight
    ∷ deleting (codes "p1")
    ∷ []

run_steps-IsWell_example : IsWell (run_steps day_text job_id job_body to_lower steps world).table
run_steps-IsWell_example =
    run_steps-IsWell day_text job_id job_body to_lower steps world world-IsWell

abbrev run : RunSummary
run = run_summary (codes "j1") false 10000000 25999999 (codes "reply") none

end_execute-Recorded_example :
    Recorded
      (codes "p1")
      run
      report
      world
      ((end_execute (codes "p1") run (codes "reply") none world).1)
unfolding end_execute get text_eq
end_execute-Recorded_example =
    end_execute-Recorded (codes "p1") run (codes "reply") none report world refl refl

durations :
    (milliseconds_between 10000000 25999999 ≡ pos 15)
    × (milliseconds_between 25999999 10000000 ≡ negsuc 14)
unfolding milliseconds_between negated
durations = (refl, refl)
