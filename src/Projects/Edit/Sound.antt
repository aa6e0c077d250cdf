-- ===== src/Projects/Edit/Sound.antt =====
-- The rules for projects, through every method that writes one.
use virtualme.Prelude.{
  ℕ, ◌≤◌, ◌≡◌, Bool, true, false, ◌&&◌, ◌||◌, Option, none, some, ltb, length, arith, by_test,
}
use virtualme.Text.{Text, to_lower, trim_space, fields, join}
use virtualme.Jobs.Selector.{parse}
use virtualme.Projects.Records.{Project, Result, ok, err, ◌>>=◌}
use virtualme.Projects.Edit.{
  is_blank, validate_name, validate_task, new_project, UpdateRequest, renamed, retasked, parsed,
  reselected, switched, schedulable, updated,
}

-- A name of 1 to 80 characters and a task of at most 4096.
pub record IsTrim (p : Project) : Type 0 where
  pub named : 1 ≤ length p.name
  pub name_short : length p.name ≤ 80
  pub task_short : length p.task ≤ 4096

-- And a task that is not blank where the scheduling is enabled.
pub record IsSound (p : Project) : Type 0 where
  pub trim : IsTrim p
  pub tasked : p.enabled ≡ true → is_blank p.task ≡ false

abbrev pub Holds : {A : Type 0} → (A → Type 0) → Result A → Type 0
Holds Q (ok a) = Q a
Holds Q (err e) = Unit

Holds-bind :
    {A B : Type 0} (P : A → Type 0) (Q : B → Type 0) (r : Result A) (f : A → Result B)
    → Holds P r
    → ((a : A) → P a → Holds Q (f a))
    → Holds Q (r >>= f)
Holds-bind P Q (ok a) f h k = k a h
Holds-bind P Q (err e) f h k = tt

known : {A : Type 0} (r : Result A) → Holds (λ _. Unit) r
known (ok a) = tt
known (err e) = tt

abbrev FitsName : Text → Type 0
FitsName t = (1 ≤ length t) × (length t ≤ 80)

validate_name-FitsName : (t : Text) → Holds FitsName (validate_name t)
unfolding validate_name
validate_name-FitsName t =
    by_test (Holds FitsName) (ltb (length (trim_space t)) 1 || ltb 80 (length (trim_space t)))
      (λ e. tt) (λ e. (ground arith, ground arith))

validate_task-le : (t : Text) → Holds (λ u. length t ≤ 4096) (validate_task t)
unfolding validate_task
validate_task-le t =
    by_test (Holds (λ u. length t ≤ 4096)) (ltb 4096 (length t)) (λ e. tt) (λ e. ground arith)

renamed-IsTrim : (o : Option Text) (p : Project) → IsTrim p → Holds IsTrim (renamed o p)
unfolding renamed
renamed-IsTrim none p h = h
renamed-IsTrim (some name) p h =
    Holds-bind FitsName IsTrim (validate_name name) _ (validate_name-FitsName name)
      (λ n f. record { named = f.0; name_short = f.1; task_short = h.task_short })

retasked-IsTrim : (o : Option Text) (p : Project) → IsTrim p → Holds IsTrim (retasked o p)
unfolding retasked
retasked-IsTrim none p h = h
retasked-IsTrim (some task) p h =
    Holds-bind (λ u. length task ≤ 4096) IsTrim (validate_task task) _ (validate_task-le task)
      (λ u f. record { named = h.named; name_short = h.name_short; task_short = f })

reselected-IsTrim : (o : Option Text) (p : Project) → IsTrim p → Holds IsTrim (reselected o p)
unfolding reselected
reselected-IsTrim none p h = h
reselected-IsTrim (some t) p h =
    Holds-bind (λ u. Unit) IsTrim (parsed (parse (to_lower (join (fields (trim_space t)) 32)))) _
      (known _)
      (λ u f. record { named = h.named; name_short = h.name_short; task_short = h.task_short })

switched-IsTrim : (o : Option Bool) (p : Project) → IsTrim p → Holds IsTrim (switched o p)
unfolding switched
switched-IsTrim none p h = h
switched-IsTrim (some b) p h = record {
  named = h.named;
  name_short = h.name_short;
  task_short = h.task_short;
}

schedulable-IsSound : (p : Project) → IsTrim p → Holds IsSound (schedulable p)
unfolding schedulable
schedulable-IsSound p h =
    by_test (Holds IsSound) (p.enabled && is_blank p.task) (λ e. tt)
      (λ e. record { trim = h; tasked = λ on. ground arith })

pub updated-IsSound :
    (request : UpdateRequest) (p : Project) → IsTrim p → Holds IsSound (updated request p)
unfolding updated
updated-IsSound request p h =
    Holds-bind IsTrim IsSound (renamed request.name p) _ (renamed-IsTrim request.name p h) (λ p h.
      Holds-bind IsTrim IsSound (retasked request.task p) _ (retasked-IsTrim request.task p h)
        (λ p h.
          Holds-bind IsTrim IsSound (reselected request.selector p) _
            (reselected-IsTrim request.selector p h)
            (λ p h.
              Holds-bind IsTrim IsSound (switched request.enabled p) _
                (switched-IsTrim request.enabled p h) schedulable-IsSound)))

pub new_project-IsSound :
    (id name : Text) (now : ℕ) → FitsName name → IsSound (new_project id name now)
unfolding new_project
new_project-IsSound id name now f = record {
  trim = record { named = f.0; name_short = f.1; task_short = omega arith };
  tasked = λ h. cc;
}

pub created-IsSound :
    (id name : Text) (now : ℕ)
    → Holds IsSound (do name ← validate_name name; ok (new_project id name now))
created-IsSound id name now =
    Holds-bind FitsName IsSound (validate_name name) _ (validate_name-FitsName name)
      (λ n f. new_project-IsSound id n now f)
