-- ===== src/Notifications/Lifecycle/Stop/Quiet.antt =====
-- Shutdown, and the next start.
use virtualme.Prelude.{ℕ, ◌≡◌, ◌⊎◌, refl, sym, subst, Option, none, some, true, false}
use virtualme.Notifications.Detail.{Json}
use virtualme.Notifications.Lifecycle.Evidence.{Marker, valid_marker, running, container_stop}
use virtualme.Notifications.Lifecycle.{World, contents, write_marker, announce}
use virtualme.Notifications.Lifecycle.Start.{startup}
use virtualme.Notifications.Lifecycle.Start.Quiet.{IsStopped, stopped_quiet}
use virtualme.Notifications.Lifecycle.Stop.{
  shutdown, shutdown_from, stop, is_planned, stopped, keep_marker, shutdown_request,
}
use virtualme.Notifications.Lifecycle.Start.Run.{read_valid}
use virtualme.Notifications.Lifecycle.Runs.{
  Post, Runs, Runs-bind, weaken-Post, Wrote, Same, write_marker-Post,
}

abbrev Anything : World → Type 0
Anything w = Unit {0}

any-Post : {A : Type 0} (r : Option A) (w : World) → Post (λ _. Anything) Anything (r, w)
any-Post (some a) w = tt
any-Post none w = tt

abbrev Stopped : (Json → ℕ) → World → Type 0
Stopped size_of w = IsStopped size_of w.file

stop-Stopped :
    (size_of : Json → ℕ) (m : Marker) (now : ℕ)
    → Runs Anything (stop size_of m false now) (λ _. Stopped size_of) Anything
unfolding stop stopped keep_marker
stop-Stopped size_of m now =
    Runs-bind (λ _. Anything) _ _
      (record {
        at = λ w h.
            let r =
              announce size_of m (λ n. now) container_stop (shutdown_request size_of m false now)
                w in
            any-Post r.0 r.1;
      })
      (λ n.
        let x = stopped m now container_stop n in
        Runs-bind (λ _. Stopped size_of) _ _
          (record {
            at = λ w h.
                weaken-Post (λ _. Wrote size_of x w) (λ v. Same w v ⊎ Wrote size_of x w v)
                  (λ _. Stopped size_of) Anything (write_marker size_of x w)
                  (write_marker-Post size_of x w)
                  (λ _ v s.
                    let (sound, f, d) = s in
                    record { marker = x; found = f; checks = sound; ended = refl; why = refl })
                  (λ v o. tt);
          })
          (λ _. record { at = λ w h. h }))

after_success :
    {A : Type 0} (Q : World → Type 0) (a : A) (r : Option A) (w : World)
    → Post (λ _. Q) Anything (r, w)
    → r ≡ some a
    → Q w
after_success Q a (some b) w h e = h
after_success Q a none w h e = absurd (cc)

shutdown-Stopped :
    (size_of : Json → ℕ) (w : World) (m : Marker)
    → w.file ≡ contents m
    → valid_marker size_of m ≡ true
    → m.state ≡ running
    → Post (λ _. Stopped size_of) Anything (shutdown size_of w)
unfolding shutdown shutdown_from is_planned
shutdown-Stopped size_of w m f v s =
    subst (λ r. Post (λ _. Stopped size_of) Anything (shutdown_from size_of r w))
      (sym (read_valid size_of w.file m f v))
      (subst
        (λ z.
          Post (λ _. Stopped size_of) Anything (stop size_of m (is_planned z m w.clock) w.clock w))
        (sym s) ((stop-Stopped size_of m w.clock).at w tt))

-- After a successful shutdown from the marker of a running controller, the next start leaves the
-- database as it is, whatever writes or calls fail in it.
pub shutdown_quiet :
    (size_of : Json → ℕ) (w next : World) (m : Marker)
    → w.file ≡ contents m
    → valid_marker size_of m ≡ true
    → m.state ≡ running
    → (shutdown size_of w).0 ≡ some tt
    → next.file ≡ (shutdown size_of w).1.file
    → (startup size_of next).1.db ≡ next.db
shutdown_quiet size_of w next m f v s succeeded same =
    let r = shutdown size_of w in
    let s' =
      after_success (Stopped size_of) tt r.0 r.1 (shutdown-Stopped size_of w m f v s) succeeded in
    stopped_quiet size_of next (subst (IsStopped size_of) (sym same) s')
