-- ===== src/Notifications/Tests.antt =====
-- Runs of the notifications: identifiers, pages, the scripts and the marker file.
use virtualme.Prelude.{◌<◌, ◌≡◌, refl, ◌⊎◌, true, none, some, List, [], ◌∷◌, map, arith, All}
use native.Mathlib.Decide.{ℕ_discrete}
use virtualme.Text.{
  Text, codes, text_eq, trim_space, is_space, keep_unless_space, lower_rune, trim_left, trim_right,
  to_lower,
}
use virtualme.Notifications.Ulid.{
  contains_rune, encode_ulid, valid_ulid, Bytes, Generator, full, next, increment_entropy,
}
use virtualme.Notifications.Ulid.Number.{number_from, bytes_from, encode_ulid_number}
use virtualme.Notifications.Ulid.Order.{Advances, next-Advances}
use virtualme.Notifications.Ulid.Valid.{valid_ulid-encode_ulid}
use virtualme.Notifications.Sanitize.{sanitize_text, is_removed_rune, squeeze}
use virtualme.Notifications.Detail.{
  object, end, sanitize_detail, sanitize_value, Json-discrete, check_key, has_key, is_forbidden,
  put, text_lt,
}
use virtualme.Notifications.Validate.{
  Notification, CreateRequest, validate_exact, is_empty, validate_create, is_slug, member,
  want_text, Notification-discrete, raw_detail, find_definition, is_slug_rune, or_created,
  renderer_of, request_of,
}
use virtualme.Notifications.Store.{
  Db, row, at, set_new, mark_all_script, create_script, push_new, mark_one_script,
}
use virtualme.Notifications.Store.Consistent.{
  IsConsistent, creation, mark_one, mark_all, run_scripts, empty_db, run_scripts-IsConsistent,
}
use virtualme.Notifications.Store.Marks.{unread_of, or_mark, mark_all_script_lem}
use virtualme.Notifications.Snapshot.{summarize, valid_request_id, is_request_rune}
use virtualme.Notifications.Snapshot.Pages.{follow, follow-all}
use virtualme.Notifications.Lifecycle.Evidence.{
  Marker, running, no_reason, unclean_recovery, valid_marker, expected,
}
use virtualme.Notifications.Lifecycle.{
  next_fate, later_fates, World, pending, ◌>>=◌, reserve, announce, create_exact, decimal, next_id,
  persist_exact, read_marker, request_for, write_marker, contents, done, failed_after,
}
use virtualme.Notifications.Lifecycle.Start.{startup}
use virtualme.Notifications.Lifecycle.Start.Crash.{
  IsReported, IsEvident, startup-IsReported, IsStored, IsAnnounced, startup-IsAnnounced,
}
use virtualme.Notifications.Lifecycle.Stop.{shutdown}
use virtualme.Notifications.Lifecycle.Stop.Quiet.{shutdown_quiet}
use virtualme.Notifications.Lifecycle.Evidence.Texts.{IsUnclean}
use virtualme.Notifications.Service.{
  handle_read, handle_read_all, create, message, broadcast_change,
}
use virtualme.Notifications.Service.All.{IsReplyToAll, handle_read_all-IsReplyToAll}
use virtualme.Notifications.Service.Replies.{IsReply, handle_read-IsReply}
use virtualme.Notifications.Sanitize.Words.{shown, sanitize_text-words}
use virtualme.Text.{fields, join}
use virtualme.Notifications.Service.Creation.{IsCreated, create-IsCreated}
use virtualme.Notifications.Lifecycle.Runs.{Post}

abbrev some_bytes : Bytes
some_bytes = 255 ∷ 0 ∷ 17 ∷ 3 ∷ 200 ∷ 99 ∷ 1 ∷ 2 ∷ 255 ∷ 255 ∷ []

abbrev started : Generator
started = record { last_ms = 1700000000000; random = some_bytes; seeded = true }

bytes_fit : All (λ b. b < 256) some_bytes
bytes_fit = (
  omega arith,
  (
    omega arith,
    (
      omega arith,
      (
        omega arith,
        (
          omega arith,
          (omega arith, (omega arith, (omega arith, (omega arith, (omega arith, tt))))),
        ),
      ),
    ),
  ),
)

same_time_counts :
    (next (1700000000000 ∷ []) (full some_bytes) started).1.random
    ≡ 255 ∷ 0 ∷ 17 ∷ 3 ∷ 200 ∷ 99 ∷ 1 ∷ 3 ∷ 0 ∷ 0 ∷ []
unfolding next increment_entropy
same_time_counts = refl

next-Advances_example : Advances started (next (1700000000000 ∷ []) (full some_bytes) started)
next-Advances_example =
    next-Advances (1700000000000 ∷ []) (full some_bytes) started
      (record { started = refl; fits = omega arith; size = refl; bytes = bytes_fit })
      (omega arith, tt) (refl, bytes_fit)

encode_ulid_number_example :
    number_from 0 (encode_ulid 1700000000000 some_bytes) ≡ bytes_from 1700000000000 some_bytes
encode_ulid_number_example =
    encode_ulid_number 1700000000000 some_bytes (omega arith) refl bytes_fit

valid_ulid-encode_ulid_example : valid_ulid (encode_ulid 1700000000000 some_bytes) ≡ true
valid_ulid-encode_ulid_example = valid_ulid-encode_ulid 1700000000000 some_bytes

abbrev untidy : Text
untidy = 32 ∷ 97 ∷ 9 ∷ 32 ∷ 98 ∷ 8238 ∷ 10 ∷ []

tidied : sanitize_text untidy ≡ codes "a b"
unfolding sanitize_text trim_space is_removed_rune
tidied = refl

sanitize_text-words_example :
    (sanitize_text untidy ≡ join (fields (shown untidy)) 32)
    × (sanitize_text (sanitize_text untidy) ≡ sanitize_text untidy)
sanitize_text-words_example = sanitize_text-words untidy

abbrev notice : Text → Notification
notice id = record {
  id = id;
  type = codes "info";
  subtype = [];
  sender = codes "controller";
  title = codes "t";
  summary = codes "s";
  occurred_at_ms = 5;
  created_at_ms = 5;
  read_at_ms = 0;
  detail = record { version = 1; renderer = codes "generic"; content = object end };
}

abbrev first : Text
first = codes "01HF7YAT000000000000000001"

abbrev second : Text
second = codes "01HF7YAT000000000000000002"

run_scripts-IsConsistent_example : IsConsistent (
    run_scripts
      (creation first (row (notice first))
        ∷ mark_one first (at 7)
        ∷ creation second (row (notice second))
        ∷ mark_all (at 9)
        ∷ [])
      empty_db)
run_scripts-IsConsistent_example = run_scripts-IsConsistent (
    creation first (row (notice first))
    ∷ mark_one first (at 7)
    ∷ creation second (row (notice second))
    ∷ mark_all (at 9)
    ∷ [])

abbrev two_of_them : Db
two_of_them =
    run_scripts
      (creation first (row (notice first))
        ∷ mark_one first (at 7)
        ∷ creation second (row (notice second))
        ∷ [])
      empty_db

two_of_them-IsConsistent : IsConsistent two_of_them
two_of_them-IsConsistent = run_scripts-IsConsistent (
    creation first (row (notice first))
    ∷ mark_one first (at 7)
    ∷ creation second (row (notice second))
    ∷ [])

mark_all_script_lem_example :
    ((mark_all_script (at 9) two_of_them).0 ≡ unread_of two_of_them.order two_of_them.read)
    × ((j : Text)
        → (mark_all_script (at 9) two_of_them).1.read j
          ≡ or_mark two_of_them.order (at 9) two_of_them.read j)
mark_all_script_lem_example = mark_all_script_lem two_of_them (at 9) two_of_them-IsConsistent

abbrev three : List Notification
three = notice (codes "c") ∷ notice (codes "b") ∷ notice (codes "a") ∷ []

-- Pages of two, each shortened to one.
follow-all_example : follow (λ p. 60000) three 2 4 (some 0) ≡ map summarize three
unfolding member text_eq
follow-all_example = follow-all (λ p. 60000) three 2 (refl, (refl, (refl, tt))) (omega arith)

abbrev running_before : Marker
running_before = record {
  version = 1;
  state = running;
  run_id = first;
  started_at_ms = 5;
  updated_at_ms = 5;
  reason = no_reason;
  deadline_ms = 0;
  notification_id = [];
  pending_notification = none;
}

-- The marker's directory is not synced, and the reply of Valkey is lost.
abbrev crashed : World
crashed = record {
  clock = 400000;
  file = contents running_before;
  db = two_of_them;
  marker = running_before;
  ids = some (codes "01HF7YAT000000000000000003") ∷ some (codes "01HF7YAT000000000000000004") ∷ [];
  fates = done ∷ failed_after ∷ [];
}

running_before_is_valid : valid_marker (λ d. 10) running_before ≡ true
unfolding valid_marker valid_ulid text_eq is_empty
running_before_is_valid = refl

startup-IsReported_example :
    Post
      (λ _. IsReported)
      (λ v. IsEvident (λ d. 10) running_before v ⊎ IsReported v)
      (startup (λ d. 10) crashed)
startup-IsReported_example =
    startup-IsReported (λ d. 10) crashed running_before refl running_before_is_valid refl
      two_of_them-IsConsistent

abbrev unclean_notice : Notification
unclean_notice = record {
  id = codes "01HF7YAT000000000000000003";
  type = codes "error";
  subtype = codes "unclean-startup";
  sender = codes "controller";
  title = codes "Controller restarted unexpectedly";
  summary = codes "The previous controller run did not shut down cleanly.";
  occurred_at_ms = 400000;
  created_at_ms = 400000;
  read_at_ms = 0;
  detail = record { version = 1; renderer = codes "lifecycle"; content = object end };
}

abbrev interrupted_marker : Marker
interrupted_marker = pending running_before 400000 unclean_recovery unclean_notice

interrupted_is_valid : valid_marker (λ d. 10) interrupted_marker ≡ true
unfolding valid_marker valid_ulid text_eq validate_exact pending is_empty validate_create is_slug
    member want_text sanitize_text trim_space is_removed_rune sanitize_detail sanitize_value
    Notification-discrete Json-discrete expected ℕ_discrete
interrupted_is_valid = refl

abbrev interrupted : World
interrupted = record crashed { file = contents interrupted_marker }

startup-IsAnnounced_example :
    Post
      (λ _ v. IsStored unclean_notice v.db × IsUnclean unclean_notice)
      (λ v.
        IsAnnounced (λ d. 10) unclean_notice v.file
        ⊎ (IsStored unclean_notice v.db × IsUnclean unclean_notice))
      (startup (λ d. 10) interrupted)
unfolding pending
startup-IsAnnounced_example =
    startup-IsAnnounced (λ d. 10) interrupted unclean_notice
      (
        interrupted_marker,
        refl,
        record { checks = interrupted_is_valid; waits = refl; why = refl; holds = refl },
      )
      two_of_them-IsConsistent

abbrev stopped_world : World
stopped_world = (shutdown (λ d. 10) (record crashed { fates = [] })).1

shutdown_succeeds : (shutdown (λ d. 10) (record crashed { fates = [] })).0 ≡ some tt
unfolding shutdown valid_marker valid_ulid is_empty ◌>>=◌ reserve validate_create text_eq is_slug
    member want_text sanitize_text trim_space is_removed_rune sanitize_detail raw_detail
    sanitize_value to_lower ℕ_discrete Json-discrete check_key has_key is_forbidden put text_lt
    expected announce create_exact decimal next_id pending persist_exact read_marker request_for
    write_marker squeeze create_script push_new contains_rune Notification-discrete find_definition
    is_slug_rune or_created renderer_of request_of validate_exact is_space keep_unless_space
    lower_rune trim_left trim_right mark_one_script
shutdown_succeeds = refl

shutdown_quiet_example :
    (startup (λ d. 10) (record stopped_world { clock = 500000 })).1.db ≡ stopped_world.db
shutdown_quiet_example =
    shutdown_quiet (λ d. 10) (record crashed { fates = [] })
      (record stopped_world { clock = 500000 }) running_before refl running_before_is_valid refl
      shutdown_succeeds refl

-- The first mark of a notification, after which its reader's console asks again.
handle_read-IsReply_example :
    IsReply (λ d. 10) second crashed (handle_read (λ d. 10) (codes "r1") second crashed)
handle_read-IsReply_example = handle_read-IsReply (λ d. 10) (codes "r1") second crashed

first_mark_is_set :
    (handle_read (λ d. 10) (codes "r1") second crashed).1.db.read second ≡ some (at 400000)
unfolding handle_read valid_request_id is_request_rune valid_ulid contains_rune mark_one_script
    set_new create_script push_new text_eq message broadcast_change next_fate later_fates member
first_mark_is_set = refl

abbrev wanted : CreateRequest
wanted = record {
  id = [];
  type = codes "info";
  subtype = [];
  sender = codes "agent";
  title = untidy;
  summary = codes "done";
  occurred_at_ms = 0;
  renderer = [];
  detail = raw_detail (λ d. 10) (object end);
}

create-IsCreated_example :
    Post
      (IsCreated (λ d. 10) crashed.db)
      (λ v. IsConsistent v.db)
      (create (λ d. 10) wanted (record crashed { fates = [] }))
create-IsCreated_example =
    create-IsCreated (λ d. 10) wanted (record crashed { fates = [] }) two_of_them-IsConsistent

handle_read_all-IsReplyToAll_example :
    IsReplyToAll (λ d. 10) crashed (handle_read_all (λ d. 10) (codes "r2") crashed)
handle_read_all-IsReplyToAll_example =
    handle_read_all-IsReplyToAll (λ d. 10) (codes "r2") crashed two_of_them-IsConsistent
