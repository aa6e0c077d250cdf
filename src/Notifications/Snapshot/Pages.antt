-- ===== src/Notifications/Snapshot/Pages.antt =====
-- The pages of handlePage of service.go, followed by their cursors.
use native.Mathlib.Nat.{suc-add, zero-add}
use virtualme.Prelude.{
  ℕ, zero, suc, ◌+◌, ◌-◌, ◌*◌, ◌≤◌, ◌<◌, min, ◌≡◌, refl, sym, ap, ◌∙◌, inl, inr, true, false, ◌&&◌,
  Option, none, some, List, [], ◌∷◌, ◌++◌, map, arith, ltb, ==_iff, if◌then◌else◌, Bool-cases,
  length, take, drop, length-take, length-drop, append-nil,
}
use virtualme.Text.{Text, text_eq, text_eq_iff}
use virtualme.Notifications.Validate.{Notification, member}
use virtualme.Notifications.Store.Consistent.{IsDistinct}
use virtualme.Notifications.Snapshot.{
  Summary, summarize, Page, start_after, last_id, drop_last, shorten, page_from,
}

abbrev pub ids_of : List Notification → List Text
ids_of = map (λ n. n.id)

id_at : List Notification → ℕ → Text
id_at [] k = []
id_at (n ∷ ns) zero = n.id
id_at (n ∷ ns) (suc k) = id_at ns k

member-id_at :
    (ns : List Notification) (k : ℕ) → k < length ns → member (id_at ns k) (ids_of ns) ≡ true
unfolding id_at member
member-id_at [] k h = absurd (omega arith)
member-id_at (n ∷ ns) zero h = rw ((text_eq_iff n.id n.id).1 refl)
member-id_at (n ∷ ns) (suc k) h = let e = member-id_at ns k (omega arith) in ground arith

-- The cursor of a notification is the place behind it.
start_after-id_at :
    (ns : List Notification) (k : ℕ)
    → IsDistinct (ids_of ns)
    → k < length ns
    → start_after (id_at ns k) ns ≡ some (suc k)
unfolding start_after id_at
start_after-id_at [] k d h = absurd (omega arith)
start_after-id_at (n ∷ ns) zero d h = rw ((text_eq_iff n.id n.id).1 refl)
start_after-id_at (n ∷ ns) (suc k) d h = elim (Bool-cases (text_eq n.id (id_at ns k))) [
  | inl e ↦
      let same = (text_eq_iff n.id (id_at ns k)).0 e in
      let there = member-id_at ns k (omega arith) in
      let absent = ap (λ (w : Text). member w (ids_of ns)) (sym same) ∙ d.0 in absurd (cc)
  | inr e ↦ rw (e, start_after-id_at ns k d.1 (omega arith))
]

id_at-drop :
    (k m : ℕ) (ns : List Notification) → k ≤ length ns → id_at (drop k ns) m ≡ id_at ns (k + m)
unfolding id_at
id_at-drop zero m ns h = rw (zero-add m)
id_at-drop (suc k) m [] h = absurd (omega arith)
id_at-drop (suc k) m (n ∷ ns) h = rw (suc-add k m) (id_at-drop k m ns (omega arith))

last_id-take :
    (m : ℕ) (ns : List Notification)
    → m < length ns
    → last_id (map summarize (take (suc m) ns)) ≡ id_at ns m
unfolding last_id id_at summarize
last_id-take zero [] h = absurd (omega arith)
last_id-take zero (n ∷ ns) h = refl
last_id-take (suc m) [] h = absurd (omega arith)
last_id-take (suc m) (n ∷ []) h = absurd (omega arith)
last_id-take (suc m) (n ∷ n' ∷ ns) h = last_id-take m (n' ∷ ns) (omega arith)

drop_last-take :
    (m : ℕ) (ns : List Notification)
    → m < length ns
    → drop_last (map summarize (take (suc m) ns)) ≡ map summarize (take m ns)
unfolding drop_last summarize
drop_last-take zero [] h = absurd (omega arith)
drop_last-take zero (n ∷ ns) h = refl
drop_last-take (suc m) [] h = absurd (omega arith)
drop_last-take (suc m) (n ∷ []) h = absurd (omega arith)
drop_last-take (suc m) (n ∷ n' ∷ ns) h =
    ap (λ (l : List Summary). summarize n ∷ l) (drop_last-take m (n' ∷ ns) (omega arith))

length-map : (ns : List Notification) → length (map summarize ns) ≡ length ns
length-map [] = refl
length-map (n ∷ ns) = ap suc (length-map ns)

-- A page from `start` on: some of the notifications there, its cursor their last, and finished only
-- if they are all that is left.
pub record IsPage (all : List Notification) (start : ℕ) (p : Page) : Type 0 where
  pub size : ℕ
  pub fits : start + size ≤ length all
  pub holds : p.notifications ≡ map summarize (take size (drop start all))
  pub ends : p.finished ≡ true → start + size ≡ length all
  pub goes_on : p.finished ≡ false → (0 < size) × (p.next_before ≡ last_id p.notifications)
  pub advances : start < length all → 0 < size

module _ (all : List Notification) (start : ℕ) where
  size_of_page : (p : Page) (s : IsPage all start p) → length p.notifications ≡ s.size
  size_of_page p s =
      ap length s.holds
      ∙ length-map (take s.size (drop start all))
      ∙ omega (arith, length-take s.size (drop start all), length-drop start all, s.fits)

  shorten_step :
      (p : Page) (s : IsPage all start p)
      → 1 < s.size
      → IsPage all start (record p {
        notifications = drop_last p.notifications;
        finished = false;
        next_before = last_id (drop_last p.notifications);
      })
  shorten_step p s h =
      let fits = s.fits in
      let e : s.size ≡ suc (s.size - 1) = omega arith in
      record {
        size = s.size - 1;
        fits = omega arith;
        holds =
            ap drop_last s.holds
            ∙ ap (λ (k : ℕ). drop_last (map summarize (take k (drop start all)))) e
            ∙ drop_last-take (s.size - 1) (drop start all) (omega (arith, length-drop start all));
        ends = λ f. absurd (cc);
        goes_on = λ f. (omega arith, refl);
        advances = λ lt. omega arith;
      }

  shorten-IsPage :
      (page_size : Page → ℕ) (rounds : ℕ) (p : Page)
      → IsPage all start p
      → IsPage all start (shorten page_size rounds p)
  unfolding shorten
  shorten-IsPage page_size zero p s = s
  shorten-IsPage page_size (suc rounds) p s =
      let test = ltb (48 * 1024) (page_size p) && ltb 1 (length p.notifications) in
      elim (Bool-cases test) [
        | inl e ↦
            let long : 1 < length p.notifications = ground arith in
            rw e (
              shorten-IsPage page_size rounds _
                (shorten_step p s (omega (arith, size_of_page p s))))
        | inr e ↦ rw e s
      ]

  page_from-IsPage :
      (page_size : Page → ℕ) (limit : ℕ)
      → start ≤ length all
      → 0 < limit
      → IsPage all start (page_from page_size all start limit)
  unfolding page_from
  page_from-IsPage page_size limit le pos =
      let end = min (start + limit) (length all) in
      let summaries = map summarize (take (end - start) (drop start all)) in
      let size_eq : length summaries ≡ end - start =
        length-map (take (end - start) (drop start all))
        ∙ omega (arith, length-take (end - start) (drop start all), length-drop start all) in
      shorten-IsPage page_size _ _ (record {
        size = end - start;
        fits = omega arith;
        holds = refl;
        ends = λ f. let e = (==_iff end (length all)).0 f in omega arith;
        goes_on = λ f.
            let ne : ¬ (end ≡ length all) = λ e. cc ((==_iff end (length all)).1 e) in
            let some_left : 0 < length summaries = omega arith in (omega arith, ground arith);
        advances = λ lt. omega arith;
      })

take_all {ℓ} : {A : Type ℓ} (n : ℕ) (xs : List A) → length xs ≤ n → take n xs ≡ xs
take_all zero [] h = refl
take_all zero (x ∷ xs) h = absurd (omega arith)
take_all (suc n) [] h = refl
take_all (suc n) (x ∷ xs) h = ap (λ l. x ∷ l) (take_all n xs (omega arith))

map-take-drop :
    (size : ℕ) (ns : List Notification)
    → map summarize (take size ns) ++ map summarize (drop size ns) ≡ map summarize ns
map-take-drop zero ns = refl
map-take-drop (suc size) [] = refl
map-take-drop (suc size) (n ∷ ns) =
    ap (λ (l : List Summary). summarize n ∷ l) (map-take-drop size ns)

drop-drop :
    (start size : ℕ) (ns : List Notification) → drop (start + size) ns ≡ drop size (drop start ns)
drop-drop zero size ns = rw (zero-add size)
drop-drop (suc start) zero [] = rw (suc-add start 0)
drop-drop (suc start) (suc size) [] = rw (suc-add start (suc size))
drop-drop (suc start) size (n ∷ ns) = rw (suc-add start size) (drop-drop start size ns)

take-drop-append :
    (start size : ℕ) (ns : List Notification)
    → map summarize (take size (drop start ns)) ++ map summarize (drop (start + size) ns)
      ≡ map summarize (drop start ns)
take-drop-append start size ns = rw (drop-drop start size ns) (map-take-drop size (drop start ns))

-- A client that asks for the pages behind one another, by the cursor of each, until one is finished.
pub follow : (Page → ℕ) → List Notification → ℕ → ℕ → Option ℕ → List Summary
follow page_size all limit zero start = []
follow page_size all limit (suc rounds) none = []
follow page_size all limit (suc rounds) (some start) =
    let p = page_from page_size all start limit in
    let rest = follow page_size all limit rounds (start_after p.next_before all) in
    p.notifications ++ (if p.finished then [] else rest)

cursor_next :
    (all : List Notification) (start : ℕ) (p : Page) (s : IsPage all start p)
    → IsDistinct (ids_of all)
    → start ≤ length all
    → 0 < s.size
    → p.next_before ≡ last_id p.notifications
    → start_after p.next_before all ≡ some (start + s.size)
cursor_next all start p s d le pos e =
    let m = s.size - 1 in
    let fits = s.fits in
    let size_eq : s.size ≡ suc m = omega arith in
    let here : p.next_before ≡ id_at all (start + m) =
      e
      ∙ ap last_id s.holds
      ∙ ap (λ (k : ℕ). last_id (map summarize (take k (drop start all)))) size_eq
      ∙ last_id-take m (drop start all) (omega (arith, length-drop start all))
      ∙ id_at-drop start m all le in
    ap (λ (id : Text). start_after id all) here
    ∙ start_after-id_at all (start + m) d (omega arith)
    ∙ ap {B = Option ℕ} some (omega arith)

follow-drop :
    (page_size : Page → ℕ) (all : List Notification) (limit rounds start : ℕ)
    → IsDistinct (ids_of all)
    → 0 < limit
    → start ≤ length all
    → length all - start < rounds
    → follow page_size all limit rounds (some start) ≡ map summarize (drop start all)
unfolding follow
follow-drop page_size all limit zero start d pos le enough = absurd (omega arith)
follow-drop page_size all limit (suc rounds) start d pos le enough =
    let p = page_from page_size all start limit in
    let s = page_from-IsPage all start page_size limit le pos in
    elim (Bool-cases p.finished) [
      | inl e ↦
          let whole =
            take_all s.size (drop start all) (omega (arith, s.ends e, length-drop start all)) in
          rw e (append-nil p.notifications ∙ s.holds ∙ ap (map summarize) whole)
      | inr e ↦
          let (some_left, cursor) = s.goes_on e in
          let fits = s.fits in
          let next : start_after p.next_before all ≡ some (start + s.size) =
            cursor_next all start p s d le some_left cursor in
          rw (e, next)
            (ap
                (λ (l : List Summary).
                  l ++ follow page_size all limit rounds (some (start + s.size)))
                s.holds
              ∙ ap (λ (l : List Summary). map summarize (take s.size (drop start all)) ++ l)
                  (follow-drop page_size all limit rounds (start + s.size) d pos fits (omega arith))
              ∙ take-drop-append start s.size all)
    ]

-- A client that asks for pages of any allowed size and follows the cursor of each sees every retained
-- notification exactly once and in order, also where pages are shortened to fit a frame: one request
-- for each notification and one more are enough. The identifiers are distinct.
pub follow-all :
    (page_size : Page → ℕ) (all : List Notification) (limit : ℕ)
    → IsDistinct (ids_of all)
    → 0 < limit
    → follow page_size all limit (length all + 1) (some 0) ≡ map summarize all
follow-all page_size all limit d pos =
    follow-drop page_size all limit (length all + 1) 0 d pos (omega arith) (omega arith)
