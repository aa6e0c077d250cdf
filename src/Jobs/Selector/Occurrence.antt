-- ===== src/Jobs/Selector/Occurrence.antt =====
-- Parse, Matches and BucketWindow of selector.go together.
use virtualme.Prelude.{◌≤◌, ◌<◌, ◌≡◌, ◌↔◌, some, arith}
use mathlib.Core.Bool.{true}
use virtualme.Text.{Text}
use virtualme.Clock.{Time}
use virtualme.Jobs.Selector.{Selector, ok, parse, matches, bucket_window}
use virtualme.Jobs.Selector.Window.{bucket_window-NextWindow}
use virtualme.Jobs.Selector.Parse.{parse-IsUsable}

-- For a selector that Parse accepted, BucketWindow finds a window at every time: it is not empty
-- and ends later than that time.
pub parse-bucket_window :
    (input : Text) (s : Selector) (t : Time)
    → parse input ≡ ok s
    → (start : Time) × (end : Time) × (bucket_window s t ≡ some (start, end))
      × (start < end)
      × (t < end)
parse-bucket_window input s t h =
    let u = parse-IsUsable input s h in
    let (start, end, w) = bucket_window-NextWindow s u t in
    let size = w.size in let ordered = u.ordered in (start, end, w.found, omega arith, w.ends_later)

-- For a selector that Parse accepted, and a time between `t` and the end of the window that
-- BucketWindow returns for `t`: Matches accepts it exactly when the window has begun. So that window
-- is the current or the next occurrence, and none lies before it.
pub matches_iff_begun :
    (input : Text) (s : Selector) (t start end t' : Time)
    → parse input ≡ ok s
    → bucket_window s t ≡ some (start, end)
    → t ≤ t'
    → t' < end
    → (matches s t' ≡ true) ↔ (start ≤ t')
matches_iff_begun input s t start end t' h found le lt =
    let u = parse-IsUsable input s h in
    let (a, b, w) = bucket_window-NextWindow s u t in
    let same = w.found in
    let e1 : a ≡ start = ground arith in
    let e2 : b ≡ end = ground arith in
    (λ m. let r = w.earliest t' le m in omega arith, λ p. w.inside t' (omega arith) (omega arith))
