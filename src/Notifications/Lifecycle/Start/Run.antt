-- ===== src/Notifications/Lifecycle/Start/Run.antt =====
-- Startup behind its recovery: what the recovery ensures of the database holds at the end.
use virtualme.Prelude.{ℕ, ◌≡◌, sym, ap, ◌∙◌, subst, ◌⊎◌, inl, inr, true, if◌then◌else◌}
use virtualme.Text.{Text}
use virtualme.Notifications.Detail.{Json}
use virtualme.Notifications.Store.{Db}
use virtualme.Notifications.Lifecycle.Evidence.{Marker, valid_marker}
use virtualme.Notifications.Lifecycle.{
  World, M, File, contents, write_marker, valid, malformed, read_marker, ◌>>=◌, ◌>>◌, next_id,
}
use virtualme.Notifications.Lifecycle.Start.{
  startup, recover_previous, recover_state, begin_running, running_marker,
}
use virtualme.Notifications.Lifecycle.Runs.{
  Post, Runs, Runs-bind, Runs-weaken, weaken-Post, Wrote, Same, write_marker-Post, next_id-Runs,
}

pub read_valid :
    (size_of : Json → ℕ) (f : File) (m : Marker)
    → f ≡ contents m
    → valid_marker size_of m ≡ true
    → read_marker size_of f ≡ valid m
unfolding read_marker
read_valid size_of f m e v =
    ap (read_marker size_of) e ∙ ap (λ b. if b then valid m else malformed) v

-- After the recovery only the file is written.
module _ (size_of : Json → ℕ) (P : Db → Type 0) where
  abbrev pub Holds : World → Type 0
  Holds w = P w.db

  begin_running-Runs :
      (run_id : Text) → Runs Holds (begin_running size_of run_id) (λ _. Holds) Holds
  unfolding begin_running
  begin_running-Runs run_id = record {
    at = λ w h.
        let m = running_marker run_id w.clock in
        let w' = record w { marker = m } in
        weaken-Post (λ _. Wrote size_of m w') (λ v. Same w' v ⊎ Wrote size_of m w' v) (λ _. Holds)
          Holds (write_marker size_of m w') (write_marker-Post size_of m w')
          (λ _ v s. let (sound, f, d) = s in subst P (sym d) h)
          (λ v o. elim o [
            | inl same ↦ subst P (sym same.1) h
            | inr s ↦ (let (sound, f, d) = s in subst P (sym d) h)
          ]);
  }

  -- A start whose recovery ends in `P`.
  started :
      {B : World → Type 0} (E : World → Type 0) (m : M (Unit {0}))
      → Runs B m (λ _. Holds) E
      → Runs B
          (do m; run_id ← next_id; begin_running size_of run_id)
          (λ _. Holds)
          (λ v. E v ⊎ Holds v)
  started E m h =
      let Last = λ (v : World). E v ⊎ Holds v in
      Runs-bind (λ _. Holds) _ _
        (Runs-weaken (λ _. Holds) E (λ _. Holds) Last h (λ _ v k. k) (λ v k. inl k))
        (λ _.
          Runs-bind (λ _. Holds) _ _
            (Runs-weaken (λ _. Holds) Holds (λ _. Holds) Last (next_id-Runs (λ f db. P db))
              (λ _ v k. k) (λ v k. inr k))
            (λ id.
              Runs-weaken (λ _. Holds) Holds (λ _. Holds) Last (begin_running-Runs id) (λ _ v k. k)
                (λ v k. inr k)))

  pub startup-Runs :
      {B : World → Type 0} (E : World → Type 0) (w : World) (m : Marker)
      → w.file ≡ contents m
      → valid_marker size_of m ≡ true
      → Runs B (recover_state size_of m m.state) (λ _. Holds) E
      → B w
      → Post (λ _. Holds) (λ v. E v ⊎ Holds v) (startup size_of w)
  unfolding startup recover_previous
  startup-Runs E w m f v h b =
      let e = read_valid size_of w.file m f v in
      subst
        (λ r.
          Post (λ _. Holds) (λ v. E v ⊎ Holds v)
            ((do recover_previous size_of r; run_id ← next_id; begin_running size_of run_id) w))
        (sym e) ((started E (recover_state size_of m m.state) h).at w b)
