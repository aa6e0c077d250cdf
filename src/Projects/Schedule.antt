-- ===== src/Projects/Schedule.antt =====
-- projects.go's Source: the jobs of the projects whose time has come. How time.Format writes a day is a
-- parameter, and so are the identifier that NewID draws for a project's job and the job's JSON body.
pub mod Once
use virtualme.Prelude.{
  ℕ, zero, suc, ◌+◌, Bool, true, false, ◌&&◌, ◌||◌, not, Option, none, some, List, [], ◌∷◌, ◌++◌,
  ltb, ◌==◌, if◌then◌else◌, length,
}
use virtualme.Text.{Text, codes, text_eq}
use virtualme.Clock.{Time}
use virtualme.Jobs.Envelope.{Envelope, scheduled}
use virtualme.Jobs.Selector.{parse, matches}
use virtualme.Jobs.Selector
use virtualme.Projects.Records.{
  Project, Stored, Fate, World, Error, Result, ok, err, ◌>>=◌, save, list,
}
use virtualme.Projects.Edit.{is_blank}

module _ (format_day : Time → Text) where
  unfoldable pub bucket_token : Time → Text → Text
  bucket_token now bucket = format_day now ++ b'/' ∷ bucket

  due_for : Time → Project → Selector.Result Selector.Selector → Option Text
  unfolding bucket_token
  due_for now p (Selector.err e) = none
  due_for now p (Selector.ok s) =
      if not p.enabled || is_blank p.task || not (matches s now)
      then none
      else if text_eq p.last_enqueued_bucket (bucket_token now s.bucket)
      then none
      else some (bucket_token now s.bucket)

  -- The token of a project that is due, by the conditions of the loop.
  unfoldable pub due : Time → Project → Option Text
  unfolding due_for
  due now p = due_for now p (parse p.selector)

  module _ (new_id : Text → Text) (body : Project → Text) where
    unfoldable pub envelope_for : Project → Envelope
    envelope_for p = record {
      id = new_id p.id;
      type = codes "project-run";
      payload = body p;
      priority = scheduled;
      enqueued_ts = 0;
      not_before_ts = 0;
      started_ts = 0;
      attempts = 0;
      max_retries = 1;
      visibility_timeout_sec = 1800;
      initiator = record {
        id = codes "system:projects";
        kind = codes "system";
        connection_id = [];
        cancel_on_disconnect = false;
      };
      correlation_id = [];
      source = none;
      initiator_conn = [];
      project_id = p.id;
      selector = p.selector;
      last_error = [];
      result = none;
    }

    -- The job, if the project was saved with its token.
    unfoldable pub enqueued : Project → Result Unit × World → List Envelope × World
    enqueued p (err e, w) = ([], w)
    enqueued p (ok u, w) = (envelope_for p ∷ [], w)

    unfoldable pub visit : Option Text → Project → World → List Envelope × World
    unfolding enqueued
    visit none p w = ([], w)
    visit (some token) p w = enqueued p (save (record p { last_enqueued_bucket = token }) w)

    unfoldable pub visit_all : Time → List Project → World → List Envelope × World
    unfolding visit due
    visit_all now [] w = ([], w)
    visit_all now (p ∷ ps) w =
        let (es, w') = visit (due now p) p w in
        let (later, w'') = visit_all now ps w' in (es ++ later, w'')

    unfoldable pub source_of : Time → Result (List Project) × World → List Envelope × World
    unfolding visit_all
    source_of now (err e, w) = ([], w)
    source_of now (ok ps, w) = visit_all now ps w

    unfoldable pub source : (Text → Text) → Time → World → List Envelope × World
    unfolding source_of list
    source lower now w = source_of now (list lower w)
