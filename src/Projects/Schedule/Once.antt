-- ===== src/Projects/Schedule/Once.antt =====
-- A project is not enqueued twice on one day for one bucket.
use virtualme.Prelude.{
  ◌≡◌, ◌≢◌, refl, sym, ap, ◌∙◌, subst, Bool, true, false, not, ◌||◌, Option, none, some, List, [],
  ◌∷◌, ◌++◌, if◌then◌else◌, All, by_test,
}
use virtualme.Text.{Text, text_eq}
use virtualme.Clock.{Time}
use virtualme.Jobs.Envelope.{Envelope}
use virtualme.Jobs.Selector.{parse, matches}
use virtualme.Jobs.Selector
use virtualme.Projects.Records.{
  Project, project, Fate, done, failed_before, failed_after, World, Result, ok, err, next_fate,
  after_call, put, write_project, save, list,
}
use virtualme.Projects.Records.Tables.{
  IsHash, OfId, Listed, save-All, save-IsHash, put-own, list-Listed, list-IsHash, apart,
}
use virtualme.Projects.Edit.{is_blank}
use virtualme.Projects.Schedule.{
  bucket_token, due_for, due, envelope_for, enqueued, visit, visit_all, source_of, source,
}

All-append : {A : Type 0} (P : A → Type 0) (xs ys : List A) → All P xs → All P ys → All P (xs ++ ys)
All-append P [] ys h k = k
All-append P (x ∷ xs) ys (g, h) k = (g, All-append P xs ys h k)

All-map :
    {A : Type 0} (P Q : A → Type 0) (xs : List A) → ((x : A) → P x → Q x) → All P xs → All Q xs
All-map P Q [] f h = tt
All-map P Q (x ∷ xs) f (g, h) = (f x g, All-map P Q xs f h)

some_token :
    (b c : Bool) (x token : Text)
    → (if b then none else if c then none else some x) ≡ some token
    → x ≡ token
some_token true c x token h = cc
some_token false true x token h = cc
some_token false false x token h = cc

abbrev pub NotOf : Text → Envelope → Type 0
NotOf id e = e.project_id ≢ id

some_ne_none : (t : Text) → some t ≢ none
some_ne_none t = λ h. cc

module _ (format_day : Time → Text) (now next : Time)
    (same_day : format_day next ≡ format_day now) where
  abbrev IsQuiet : Project → Type 0
  IsQuiet p = due format_day next p ≡ none

  due_for-token :
      (p : Project) (token : Text) (r : Selector.Result Selector.Selector)
      → due_for format_day now p r ≡ some token
      → due_for format_day next (record p { last_enqueued_bucket = token }) r ≡ none
  unfolding due_for bucket_token
  due_for-token p token (Selector.err x) e = refl
  due_for-token p token (Selector.ok s) e =
      let here =
        some_token (not p.enabled || is_blank p.task || not (matches s now))
          (text_eq p.last_enqueued_bucket (format_day now ++ b'/' ∷ s.bucket))
          (format_day now ++ b'/' ∷ s.bucket) token e in
      let there : token ≡ format_day next ++ b'/' ∷ s.bucket =
        sym here ∙ ap (λ d. d ++ b'/' ∷ s.bucket) (sym same_day) in
      by_test (λ (o : Option Text). o ≡ none)
        (not p.enabled || is_blank p.task || not (matches s next)) (λ _. refl)
        (λ _.
          by_test (λ (o : Option Text). o ≡ none)
            (text_eq token (format_day next ++ b'/' ∷ s.bucket)) (λ _. refl)
            (λ f. absurd (apart token (format_day next ++ b'/' ∷ s.bucket) f there)))

  due-token :
      (p : Project) (token : Text)
      → due format_day now p ≡ some token
      → IsQuiet (record p { last_enqueued_bucket = token })
  unfolding due
  due-token p token e = due_for-token p token (parse p.selector) e

  -- No project of this id is due at the next visit.
  abbrev Settled : Text → World → Type 0
  Settled id w = All (OfId IsQuiet id) w.table

  module _ (new_id : Text → Text) (body : Project → Text) where
    -- What a part of the first visit leaves.
    record Visited (before : World) (r : List Envelope × World) : Type 0 where
      hash : IsHash (r.1).table
      still : (id : Text) → Settled id before → Settled id (r.1)
      settled : All (λ e. Settled e.project_id (r.1)) (r.0)

    write_project-Settled :
        (p q : Project) (w : World) (f : Fate)
        → q.id ≡ p.id
        → IsQuiet q
        → IsHash w.table
        → All
            (λ e.
              Settled e.project_id ((enqueued format_day new_id body p (write_project f q w)).1))
            ((enqueued format_day new_id body p (write_project f q w)).0)
    unfolding enqueued write_project envelope_for
    write_project-Settled p q w done same quiet h = (
      subst (λ i. Settled i (record w { table = put q.id (project q) w.table })) same
          (put-own IsQuiet q w.table quiet h),
      tt,
    )
    write_project-Settled p q w failed_before same quiet h = tt
    write_project-Settled p q w failed_after same quiet h = tt

    enqueued-world :
        (p : Project) (x : Result Unit × World) → x.1 ≡ (enqueued format_day new_id body p x).1
    unfolding enqueued
    enqueued-world p (ok u, w) = refl
    enqueued-world p (err e, w) = refl

    visit-Visited :
        (o : Option Text) (p : Project) (w : World)
        → due format_day now p ≡ o
        → IsHash w.table
        → Visited w (visit format_day new_id body o p w)
    unfolding visit save
    visit-Visited none p w e h = record { hash = h; still = λ id s. s; settled = tt }
    visit-Visited (some token) p w e h =
        let q = record p { last_enqueued_bucket = token } in
        let quiet = due-token p token e in
        let same = enqueued-world p (save q w) in
        record {
          hash = subst (λ (v : World). IsHash v.table) same (save-IsHash q w h);
          still = λ id s. subst (Settled id) same (save-All (OfId IsQuiet id) q w (λ _. quiet) s);
          settled = write_project-Settled p q (after_call w) (next_fate w.fates) refl quiet h;
        }

    visit_all-Visited :
        (ps : List Project) (w : World)
        → IsHash w.table
        → Visited w (visit_all format_day new_id body now ps w)
    unfolding visit_all
    visit_all-Visited [] w h = record { hash = h; still = λ id s. s; settled = tt }
    visit_all-Visited (p ∷ ps) w h =
        let first = visit-Visited (due format_day now p) p w refl h in
        let r = visit format_day new_id body (due format_day now p) p w in
        let later = visit_all-Visited ps (r.1) first.hash in
        let r' = visit_all format_day new_id body now ps (r.1) in
        record {
          hash = later.hash;
          still = λ id s. later.still id (first.still id s);
          settled =
              All-append (λ (e : Envelope). Settled e.project_id (r'.1)) (r.0) (r'.0)
                (All-map (λ (e : Envelope). Settled e.project_id (r.1))
                  (λ (e : Envelope). Settled e.project_id (r'.1)) (r.0)
                  (λ e s. later.still e.project_id s) first.settled)
                later.settled;
        }

    source_of-Visited :
        (x : Result (List Project) × World)
        → IsHash (x.1).table
        → Visited (x.1) (source_of format_day new_id body now x)
    unfolding source_of
    source_of-Visited (err e, w) h = record { hash = h; still = λ id s. s; settled = tt }
    source_of-Visited (ok ps, w) h = visit_all-Visited ps w h

    enqueued-NotOf :
        (id : Text) (p : Project) (x : Result Unit × World)
        → p.id ≢ id
        → All (NotOf id) ((enqueued format_day new_id body p x).0)
    unfolding enqueued envelope_for
    enqueued-NotOf id p (ok u, w) ne = (ne, tt)
    enqueued-NotOf id p (err e, w) ne = tt

    visit-NotOf :
        (id : Text) (o : Option Text) (p : Project) (w : World)
        → (p.id ≡ id → o ≡ none)
        → All (NotOf id) ((visit format_day new_id body o p w).0)
    unfolding visit
    visit-NotOf id none p w h = tt
    visit-NotOf id (some token) p w h = enqueued-NotOf id p _ (λ same. some_ne_none token (h same))

    visit_all-NotOf :
        (id : Text) (ps : List Project) (w : World)
        → All (λ p. p.id ≡ id → IsQuiet p) ps
        → All (NotOf id) ((visit_all format_day new_id body next ps w).0)
    unfolding visit_all
    visit_all-NotOf id [] w h = tt
    visit_all-NotOf id (p ∷ ps) w (g, h) =
        let r = visit format_day new_id body (due format_day next p) p w in
        let r' = visit_all format_day new_id body next ps (r.1) in
        All-append (NotOf id) (r.0) (r'.0) (visit-NotOf id (due format_day next p) p w g)
          (visit_all-NotOf id ps (r.1) h)

    source_of-NotOf :
        (id : Text) (x : Result (List Project) × World)
        → Listed (λ p. p.id ≡ id → IsQuiet p) (x.0)
        → All (NotOf id) ((source_of format_day new_id body next x).0)
    unfolding source_of
    source_of-NotOf id (err e, w) h = tt
    source_of-NotOf id (ok ps, w) h = visit_all-NotOf id ps w h

    -- Source runs twice, at times that time.Format writes with the same day; the hash has each project
    -- once, under its id. Then no project that the first run enqueues is enqueued by the second,
    -- whatever calls of Valkey fail.
    pub source-once :
        (lower : Text → Text) (w : World)
        → IsHash w.table
        → (let first = source format_day new_id body lower now w in
            All
              (λ (e : Envelope).
                All (NotOf e.project_id) ((source format_day new_id body lower next (first.1)).0))
              (first.0))
    unfolding source
    source-once lower w h =
        let first = source_of-Visited (list lower w) (list-IsHash lower w h) in
        let r = source_of format_day new_id body now (list lower w) in
        All-map (λ (e : Envelope). Settled e.project_id (r.1))
          (λ (e : Envelope).
            All (NotOf e.project_id) ((source format_day new_id body lower next (r.1)).0))
          (r.0)
          (λ e s.
            source_of-NotOf e.project_id (list lower (r.1))
              (list-Listed lower IsQuiet e.project_id (r.1) s))
          first.settled
