-- ===== src/Projects/Edit.antt =====
-- projects.go's create, update and delete.
pub mod Sound
use virtualme.Prelude.{
  ℕ, zero, suc, ◌+◌, Bool, true, false, ◌&&◌, ◌||◌, Option, none, some, List, [], ◌∷◌, ltb, ◌==◌,
  if◌then◌else◌, length,
}
use virtualme.Text.{Text, codes, text_eq, to_lower, trim_space, fields, join, close_commas}
use virtualme.Jobs.Selector.{parse}
use virtualme.Jobs.Selector
use virtualme.Projects.Records.{
  Project, Stored, Fate, done, failed_before, failed_after, World, Error, unavailable, bad_name,
  bad_task, bad_selector, no_task, Result, ok, err, ◌>>=◌, ◌>>◌, next_fate, after_call, without,
  get, save,
}

abbrev pub is_blank : Text → Bool
is_blank t = text_eq (trim_space t) []

unfoldable pub validate_name : Text → Result Text
validate_name value =
    let name = trim_space value in
    if ltb (length name) 1 || ltb 80 (length name) then err bad_name else ok name

unfoldable pub validate_task : Text → Result Unit
validate_task value = if ltb 4096 (length value) then err bad_task else ok tt

-- The new record of create, by the identifier that NewID draws and the time.
unfoldable pub new_project : Text → Text → ℕ → Project
new_project id name now = record {
  id = id;
  name = name;
  task = [];
  selector = codes "weekday morning";
  enabled = false;
  created_ts = now;
  last_run_ts = 0;
  last_enqueued_bucket = [];
}

-- `return project, s.save(project)`
unfoldable pub saved : Result Project → World → Result Project × World
unfolding save
saved (err e) w = (err e, w)
saved (ok p) w = let (r, w') = save p w in (do r; ok p, w')

unfoldable pub create : Text → ℕ → Text → World → Result Project × World
unfolding validate_name new_project saved
create new_id now name w = saved (do name ← validate_name name; ok (new_project new_id name now)) w

pub record UpdateRequest : Type 0 where
  pub id : Text
  pub name : Option Text
  pub task : Option Text
  pub selector : Option Text
  pub enabled : Option Bool

unfoldable pub renamed : Option Text → Project → Result Project
unfolding validate_name
renamed none p = ok p
renamed (some name) p = do name ← validate_name name; ok (record p { name = name })

unfoldable pub retasked : Option Text → Project → Result Project
unfolding validate_task
retasked none p = ok p
retasked (some task) p = do validate_task task; ok (record p { task = task })

parsed : Selector.Result Selector.Selector → Result Unit
parsed (Selector.ok s) = ok tt
parsed (Selector.err e) = err bad_selector

unfoldable pub reselected : Option Text → Project → Result Project
unfolding parsed
reselected none p = ok p
reselected (some selector) p = do
  parsed (parse (to_lower (join (fields (trim_space selector)) 32)))
  ok (record p { selector = close_commas (to_lower (join (fields (trim_space selector)) 32)) })

unfoldable pub switched : Option Bool → Project → Result Project
switched none p = ok p
switched (some enabled) p = ok (record p { enabled = enabled })

unfoldable pub schedulable : Project → Result Project
schedulable p = if p.enabled && is_blank p.task then err no_task else ok p

-- The changes of update, in its order.
unfoldable pub updated : UpdateRequest → Project → Result Project
unfolding renamed retasked reselected switched schedulable
updated request p = do
  p ← renamed request.name p
  p ← retasked request.task p
  p ← reselected request.selector p
  p ← switched request.enabled p
  schedulable p

unfoldable pub update : UpdateRequest → World → Result Project × World
unfolding updated saved get
update request w = let (r, w') = get request.id w in saved (do p ← r; updated request p) w'

unfoldable pub delete_runs : Fate → Text → World → Result Unit × World
delete_runs done id w = (ok tt, record w { runs = without id w.runs })
delete_runs failed_before id w = (err unavailable, w)
delete_runs failed_after id w = (err unavailable, record w { runs = without id w.runs })

unfoldable pub delete_project : Fate → Text → World → Result Unit × World
unfolding delete_runs
delete_project done id w =
    delete_runs (next_fate w.fates) id (after_call (record w { table = without id w.table }))
delete_project failed_before id w = (err unavailable, w)
delete_project failed_after id w = (err unavailable, record w { table = without id w.table })

unfoldable pub delete_found : Result Project → Text → World → Result Unit × World
unfolding delete_project
delete_found (err e) id w = (err e, w)
delete_found (ok p) id w = delete_project (next_fate w.fates) id (after_call w)

unfoldable pub delete : Text → World → Result Unit × World
unfolding delete_found get
delete id w = let (r, w') = get id w in delete_found r id w'
