-- ===== src/Notifications/Snapshot.antt =====
-- snapshotLocked, marshalState, handlePage and handleDetail of service.go, over the rows that the
-- snapshot script returns. `size_of` is the length of the JSON of a detail and `page_size` that of the
-- frame of a page: encoding is the library's.
pub mod Pages
use virtualme.Prelude.{
  ℕ, zero, suc, ◌+◌, ◌-◌, ◌*◌, min, Bool, true, false, ◌&&◌, ◌||◌, not, Option, none, some, List,
  [], ◌∷◌, map, leb, ltb, ◌==◌, if◌then◌else◌, length, take, drop,
}
use virtualme.Text.{Text, codes, text_eq}
use virtualme.Notifications.Ulid.{valid_ulid}
use virtualme.Notifications.Detail.{Json}
use virtualme.Notifications.Result.{Result, ok, err}
use virtualme.Notifications.Validate.{Notification, is_empty, validate_exact}
use virtualme.Notifications.Store.{Row, row, junk, Mark, at, garbled, Db, snapshot_script}

pub record Snapshot : Type 0 where
  pub notifications : List Notification
  pub unread : ℕ

-- A row in front of the snapshot of the later ones; without a mark, or with an empty one, it is unread.
unfoldable pub add_row : Notification → Option Mark → Snapshot → Snapshot
add_row n none s = record { notifications = n ∷ s.notifications; unread = s.unread + 1 }
add_row n (some (at zero)) s = s
add_row n (some (at (suc ms))) s = record s {
  notifications = record n { read_at_ms = suc ms } ∷ s.notifications;
}
add_row n (some (garbled [])) s = record {
  notifications = n ∷ s.notifications;
  unread = s.unread + 1;
}
add_row n (some (garbled (c ∷ t))) s = s

add_valid : Result (Unit {0}) → Notification → Option Mark → Snapshot → Snapshot
unfolding add_row
add_valid (ok u) n mark s = add_row n mark s
add_valid (err e) n mark s = s

-- The loop of snapshotLocked: rows that are malformed are left out.
unfoldable pub read_rows : (Json → ℕ) → List (Row × Option Mark) → Snapshot
unfolding add_valid
read_rows size_of [] = record { notifications = []; unread = 0 }
read_rows size_of ((junk t, mark) ∷ rows) = read_rows size_of rows
read_rows size_of ((row n, mark) ∷ rows) =
    add_valid (validate_exact size_of n) n mark (read_rows size_of rows)

-- snapshotLocked
unfoldable pub snapshot_locked : (Json → ℕ) → Db → Snapshot
snapshot_locked size_of db = read_rows size_of (snapshot_script db)

pub record Summary : Type 0 where
  pub id : Text
  pub type : Text
  pub subtype : Text
  pub sender : Text
  pub title : Text
  pub summary : Text
  pub occurred_at_ms : ℕ
  pub created_at_ms : ℕ
  pub read_at_ms : ℕ
  pub renderer : Text

-- summarize
unfoldable pub summarize : Notification → Summary
summarize n = record {
  id = n.id;
  type = n.type;
  subtype = n.subtype;
  sender = n.sender;
  title = n.title;
  summary = n.summary;
  occurred_at_ms = n.occurred_at_ms;
  created_at_ms = n.created_at_ms;
  read_at_ms = n.read_at_ms;
  renderer = n.detail.renderer;
}

unfoldable pub first_id : List Notification → Text
first_id [] = []
first_id (n ∷ ns) = n.id

pub record StateFrame : Type 0 where
  pub notifications : List Summary
  pub unread : ℕ
  pub retained_count : ℕ
  pub revision : Text

-- marshalState, but for the constant types and the change.
unfoldable pub state_frame : Snapshot → StateFrame
unfolding first_id
state_frame s = record {
  notifications = map summarize (take 20 s.notifications);
  unread = s.unread;
  retained_count = length s.notifications;
  revision = first_id s.notifications;
}

pub record Page : Type 0 where
  pub notifications : List Summary
  pub next_before : Text
  pub finished : Bool
  pub retained_count : ℕ
  pub revision : Text

pub data PageReply : Type 0 where
  invalid_request : PageReply
  not_found : PageReply
  page : Page → PageReply

-- [A-Za-z0-9._:-]
unfoldable pub is_request_rune : ℕ → Bool
is_request_rune c =
    (leb b'A' c && leb c b'Z')
    || (leb b'a' c && leb c b'z')
    || (leb b'0' c && leb c b'9')
    || c == b'.'
    || c == b'_'
    || c == b':'
    || c == b'-'

all_request_runes : Text → Bool
unfolding is_request_rune
all_request_runes [] = true
all_request_runes (c ∷ t) = is_request_rune c && all_request_runes t

-- validRequestID
unfoldable pub valid_request_id : Text → Bool
unfolding all_request_runes
valid_request_id t = leb 1 (length t) && leb (length t) 64 && all_request_runes t

-- The place behind the notification with the identifier.
unfoldable pub start_after : Text → List Notification → Option ℕ
start_after id [] = none
start_after id (n ∷ ns) =
    let later = start_after id ns in
    if text_eq n.id id then some 1 else elim later [ none ↦ none | some k ↦ some (suc k) ]

unfoldable pub last_id : List Summary → Text
last_id [] = []
last_id (s ∷ []) = s.id
last_id (s ∷ t ∷ ss) = last_id (t ∷ ss)

unfoldable pub drop_last : List Summary → List Summary
drop_last [] = []
drop_last (s ∷ []) = []
drop_last (s ∷ t ∷ ss) = s ∷ drop_last (t ∷ ss)

-- The loop that shortens a frame of more than 48 KiB; `rounds` is the number of summaries, and each
-- round takes one away.
unfoldable pub shorten : (Page → ℕ) → ℕ → Page → Page
unfolding drop_last last_id
shorten page_size zero p = p
shorten page_size (suc rounds) p =
    let fewer = drop_last p.notifications in
    let q = record p { notifications = fewer; finished = false; next_before = last_id fewer } in
    let rest = shorten page_size rounds q in
    if ltb (48 * 1024) (page_size p) && ltb 1 (length p.notifications) then rest else p

-- The page from the place `start` on.
unfoldable pub page_from : (Page → ℕ) → List Notification → ℕ → ℕ → Page
unfolding first_id
page_from page_size all start limit =
    let end = min (start + limit) (length all) in
    let summaries = map summarize (take (end - start) (drop start all)) in
    shorten page_size (length summaries) (record {
      notifications = summaries;
      next_before =
          if not (end == length all) && ltb 0 (length summaries) then last_id summaries else [];
      finished = end == length all;
      retained_count = length all;
      revision = first_id all;
    })

page_at : (Page → ℕ) → List Notification → Option ℕ → ℕ → PageReply
unfolding page_from
page_at page_size all none limit = not_found
page_at page_size all (some start) limit = page (page_from page_size all start limit)

-- handlePage, behind the decoding of the request and the reading of the snapshot.
unfoldable pub handle_page : (Page → ℕ) → Snapshot → Text → Text → ℕ → PageReply
unfolding page_at start_after
handle_page page_size s request_id before limit =
    if not (valid_request_id request_id)
      || ((not (is_empty before) && not (valid_ulid before)) || (limit == 0 || ltb 50 limit))
    then invalid_request
    else page_at page_size s.notifications
        (if is_empty before then some 0 else start_after before s.notifications) limit

unfoldable pub find_notification : Text → List Notification → Option Notification
find_notification id [] = none
find_notification id (n ∷ ns) = if text_eq n.id id then some n else find_notification id ns

pub data DetailReply : Type 0 where
  invalid_request : DetailReply
  not_found : DetailReply
  found : Notification → DetailReply

found_or_not : Option Notification → DetailReply
found_or_not none = not_found
found_or_not (some n) = found n

-- handleDetail, behind the decoding of the request and the reading of the snapshot.
unfoldable pub handle_detail : Snapshot → Text → Text → DetailReply
unfolding found_or_not find_notification
handle_detail s request_id id =
    if not (valid_request_id request_id) || not (valid_ulid id)
    then invalid_request
    else found_or_not (find_notification id s.notifications)
