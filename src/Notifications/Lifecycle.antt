-- ===== src/Notifications/Lifecycle.antt =====
-- lifecycle.go: the marker file that tells a clean stop from a crash. An action runs on a `World`;
-- each write of the file and each call of Valkey takes its fate from a list there, and ids.next its
-- result. An error is `none`; the clock stands still during an action.
pub mod Evidence
pub mod Start
pub mod Stop
pub mod Runs
pub mod Persist
use virtualme.Prelude.{
  ℕ, zero, suc, ◌+◌, ◌-◌, ◌/◌, ◌%◌, Bool, true, false, ◌&&◌, ◌||◌, not, Option, none, some, List,
  [], ◌∷◌, leb, ltb, ◌==◌, if◌then◌else◌,
}
use virtualme.Text.{Text, codes, text_eq}
use virtualme.Decimal
use virtualme.Notifications.Ulid.{valid_ulid}
use virtualme.Notifications.Detail.{Json, string, number, object, Fields, end, field}
use virtualme.Notifications.Result.{Result, ok, err}
use virtualme.Notifications.Validate.{
  Notification, CreateRequest, validate_create, validate_exact, raw_detail,
}
use virtualme.Notifications.Store.{Db, row, Created, created, present, id_conflict, create_script}
use virtualme.Notifications.Lifecycle.Evidence.{
  Reason, no_reason, config_restart, container_stop, unclean_recovery, config_restart_startup,
  State, running, planned_restart, clean, clean_pending, Marker, valid_marker, zero_marker,
  uncleanly, stopping, restarting, restarted,
}

-- What os.ReadFile and json.Unmarshal make of the marker file.
pub data File : Type 0 where
  absent : File
  unreadable : File
  garbage : File
  contents : Marker → File

pub data Fate : Type 0 where
  done : Fate
  failed_before : Fate
  -- An error behind the effect: the directory is not synced, or the reply is lost.
  failed_after : Fate

pub record World : Type 0 where
  pub clock : ℕ
  pub file : File
  pub db : Db
  pub marker : Marker
  pub ids : List (Option Text)
  pub fates : List Fate

abbrev pub M : Type 0 → Type 0
M A = World → Option A × World

abbrev continue : {A B : Type 0} → Option A → (A → M B) → M B
continue none f w = (none, w)
continue (some a) f w = f a w

infixl 5 ◌>>=◌ ◌>>◌
unfoldable pub ◌>>=◌ : {A B : Type 0} → M A → (A → M B) → M B
◌>>=◌ m f w = let (r, w') = m w in continue r f w'

abbrev pub ◌>>◌ : {A B : Type 0} → M A → M B → M B
m >> n = m >>= λ _. n

abbrev pub pure : {A : Type 0} → A → M A
pure a w = (some a, w)

abbrev pub fail : {A : Type 0} → M A
fail w = (none, w)

unfoldable pub next_fate : List Fate → Fate
next_fate [] = done
next_fate (f ∷ fs) = f

unfoldable pub later_fates : List Fate → List Fate
later_fates [] = []
later_fates (f ∷ fs) = fs

rename : Fate → Marker → File → Option (Unit {0}) × File
rename done m file = (some tt, contents m)
rename failed_before m file = (none, file)
rename failed_after m file = (none, contents m)

-- writeMarker: a new file takes the marker's place at once, or not at all.
unfoldable pub write_marker : (Json → ℕ) → Marker → M (Unit {0})
unfolding rename next_fate later_fates
write_marker size_of m w =
    if valid_marker size_of m
    then (let (r, file) = rename (next_fate w.fates) m w.file in
        (r, record w { file = file; fates = later_fates w.fates }))
    else (none, w)

pub data ReadMarker : Type 0 where
  not_exist : ReadMarker
  read_error : ReadMarker
  malformed : ReadMarker
  valid : Marker → ReadMarker

-- readMarker
unfoldable pub read_marker : (Json → ℕ) → File → ReadMarker
read_marker size_of absent = not_exist
read_marker size_of unreadable = read_error
read_marker size_of garbage = malformed
read_marker size_of (contents m) = if valid_marker size_of m then valid m else malformed

draw : List (Option Text) → M Text
draw [] w = (none, w)
draw (id ∷ rest) w = (id, record w { ids = rest })

-- ids.next
unfoldable pub next_id : M Text
unfolding draw
next_id w = draw w.ids w

persisted : Fate → Created × Db → Db → Option Bool × Db
persisted done (id_conflict, db') db = (none, db')
persisted done (created, db') db = (some true, db')
persisted done (present, db') db = (some false, db')
persisted failed_before r db = (none, db)
persisted failed_after (c, db') db = (none, db')

-- persistExact: whether the notification is a new one.
unfoldable pub persist_exact : Notification → M Bool
unfolding persisted next_fate later_fates
persist_exact n w =
    let (r, db) =
      persisted (next_fate w.fates) (create_script n.id (row (record n { read_at_ms = 0 })) w.db)
        w.db in
    (r, record w { db = db; fates = later_fates w.fates })

after_check : Result (Unit {0}) → Notification → M (Unit {0})
after_check (ok u) n = do persist_exact n; pure tt
after_check (err e) n = fail

-- createExact, without its hook, which only tests set, and without the broadcast.
unfoldable pub create_exact : (Json → ℕ) → Notification → M (Unit {0})
unfolding after_check
create_exact size_of n = after_check (validate_exact size_of n) n

checked : Result Notification → M Notification
checked (ok n) = do id ← next_id; pure (record n { id = id })
checked (err e) = fail

-- reserve
unfoldable pub reserve : (Json → ℕ) → CreateRequest → M Notification
unfolding checked
reserve size_of request w = checked (validate_create size_of request w.clock) w

-- A number of a detail.
unfoldable pub decimal : ℕ → Json
unfolding Decimal.decimal
decimal n = number (Decimal.decimal n)

-- A field of a detail that is there if the test passes.
abbrev field_if : Bool → Text → Json → Fields → Fields
field_if b k v fs = if b then field k v fs else fs

-- A lifecycle notification by the controller.
unfoldable pub request_for : (Json → ℕ) → Text → Text → Text → Text → ℕ → Fields → CreateRequest
request_for size_of type subtype title summary occurred detail = record {
  id = [];
  type = type;
  subtype = subtype;
  sender = codes "controller";
  title = title;
  summary = summary;
  occurred_at_ms = occurred;
  renderer = codes "lifecycle";
  detail = raw_detail size_of (object detail);
}

unfoldable pub pending : Marker → ℕ → Reason → Notification → Marker
pending m now reason n = record {
  version = 1;
  state = clean_pending;
  run_id = m.run_id;
  started_at_ms = m.started_at_ms;
  updated_at_ms = now;
  reason = reason;
  deadline_ms = 0;
  notification_id = n.id;
  pending_notification = some n;
}

-- Reserve a notification, write the marker that is to bring it about, and create it.
unfoldable pub announce :
    (Json → ℕ) → Marker → (Notification → ℕ) → Reason → CreateRequest → M Notification
unfolding pending
announce size_of m updated reason request = do
  n ← reserve size_of request
  write_marker size_of (pending m (updated n) reason n)
  create_exact size_of n
  pure n
