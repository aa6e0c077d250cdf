-- ===== src/Notifications/Lifecycle/Start/Quiet.antt =====
-- Startup after a clean stop.
use virtualme.Prelude.{ℕ, ◌≡◌, refl, sym, ◌⊎◌, inl, inr, subst, Option, none, some, true}
use virtualme.Notifications.Detail.{Json}
use virtualme.Notifications.Store.{Db}
use virtualme.Notifications.Lifecycle.Evidence.{Marker, valid_marker, clean, container_stop}
use virtualme.Notifications.Lifecycle.{World, File, contents}
use virtualme.Notifications.Lifecycle.Start.{startup, recover_state, complete_if_restart}
use virtualme.Notifications.Lifecycle.Start.Run.{startup-Runs}
use virtualme.Notifications.Lifecycle.Runs.{Post, Runs}

-- A valid marker of a stop that no restart follows.
pub record IsStopped (size_of : Json → ℕ) (f : File) : Type 0 where
  pub marker : Marker
  pub found : f ≡ contents marker
  pub checks : valid_marker size_of marker ≡ true
  pub ended : marker.state ≡ clean
  pub why : marker.reason ≡ container_stop

same_either_way :
    {A : Type 0} (db : Db) (r : Option A) (w : World)
    → Post (λ _ v. v.db ≡ db) (λ v. (v.db ≡ db) ⊎ (v.db ≡ db)) (r, w)
    → w.db ≡ db
same_either_way db (some a) w h = h
same_either_way db none w h = elim h [ inl k ↦ k | inr k ↦ k ]

pub stopped_quiet :
    (size_of : Json → ℕ) (w : World) → IsStopped size_of w.file → (startup size_of w).1.db ≡ w.db
unfolding recover_state complete_if_restart
stopped_quiet size_of w s =
    let m = s.marker in
    let P = λ (db : Db). db ≡ w.db in
    let step : Runs (λ v. v.db ≡ w.db) (recover_state size_of m m.state) (λ _ v. v.db ≡ w.db)
        (λ v. v.db ≡ w.db) =
      subst
        (λ z.
          Runs (λ v. v.db ≡ w.db) (recover_state size_of m z) (λ _ v. v.db ≡ w.db)
            (λ v. v.db ≡ w.db))
        (sym s.ended)
        (subst
          (λ z.
            Runs (λ v. v.db ≡ w.db) (complete_if_restart size_of m z) (λ _ v. v.db ≡ w.db)
              (λ v. v.db ≡ w.db))
          (sym s.why) (record { at = λ v h. h })) in
    let r = startup size_of w in
    same_either_way w.db r.0 r.1
      (startup-Runs size_of P (λ v. v.db ≡ w.db) w m s.found s.checks step refl)
