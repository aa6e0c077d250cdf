-- ===== src/Jobs/Envelope.antt =====
-- The envelope of manager.go, its defaults, and what a list of the queue holds.
use native.Mathlib.Decide.{ℕ_discrete}
use virtualme.Prelude.{
  ℕ, Bool, true, false, ◌&&◌, not, Option, none, some, [], ◌∷◌, ◌++◌, ◌==◌, if◌then◌else◌,
}
use virtualme.Text.{Text, codes, text_eq}

-- The result of a job that is over.
pub record Outcome : Type 0 where
  pub ok : Bool
  pub summary : Text
  pub finished_ts : ℕ

pub record Initiator : Type 0 where
  pub id : Text
  pub kind : Text
  pub connection_id : Text
  pub cancel_on_disconnect : Bool

-- origin.Source
pub record Source : Type 0 where
  pub channel : Text
  pub chat_id : Text
  pub user_id : Text
  pub update_id : ℕ

-- Timestamps are milliseconds, and 0 is an absent one.
pub record Envelope : Type 0 where
  pub id : Text
  pub type : Text
  pub payload : Text
  pub priority : Text
  pub enqueued_ts : ℕ
  pub not_before_ts : ℕ
  pub started_ts : ℕ
  pub attempts : ℕ
  pub max_retries : ℕ
  pub visibility_timeout_sec : ℕ
  pub initiator : Initiator
  pub correlation_id : Text
  pub source : Option Source
  pub initiator_conn : Text
  pub project_id : Text
  pub selector : Text
  pub last_error : Text
  pub result : Option Outcome

-- An element of a queue list: the JSON of an envelope, or a text that does not decode to one.
pub data Item : Type 0 where
  job : Envelope → Item
  junk : Text → Item

pub Item-discrete : Discrete Item
Item-discrete = hlevel ℕ_discrete

-- json.Unmarshal
unfoldable pub decode : Item → Option Envelope
decode (job env) = some env
decode (junk t) = none

unfoldable pub is_empty : Text → Bool
is_empty [] = true
is_empty (c ∷ s) = false

-- Envelope.NormalizeLegacy
unfoldable pub normalize_legacy : Envelope → Envelope
unfolding is_empty
normalize_legacy env =
    if is_empty env.initiator.id && not (is_empty env.initiator_conn)
    then record env {
      initiator = record {
        id = codes "ws:" ++ env.initiator_conn;
        kind = codes "web";
        connection_id = env.initiator_conn;
        cancel_on_disconnect = true;
      };
      initiator_conn = [];
    }
    else env

abbrev pub interactive : Text
interactive = codes "interactive"

abbrev pub scheduled : Text
scheduled = codes "scheduled"

or_text : Text → Text → Text
or_text s d = if is_empty s then d else s

or_number : ℕ → ℕ → ℕ
or_number n d = if n == 0 then d else n

-- normalize, with the identifier that NewID would draw and the current time in milliseconds.
unfoldable pub normalize : Text → ℕ → Envelope → Envelope
unfolding or_text or_number normalize_legacy
normalize new_id now raw =
    let env = normalize_legacy raw in
    record env {
      id = or_text env.id new_id;
      priority = if text_eq env.priority scheduled then env.priority else interactive;
      enqueued_ts = or_number env.enqueued_ts now;
      max_retries = or_number env.max_retries 2;
      visibility_timeout_sec = or_number env.visibility_timeout_sec 600;
      payload = or_text env.payload (codes "{}");
    }
