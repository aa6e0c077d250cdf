-- ===== src/Notifications/Validate.antt =====
-- validateCreate of notifications.go and validateExact of service.go. Times are milliseconds.
use native.Mathlib.Decide.{ℕ_discrete}
use virtualme.Prelude.{
  ℕ, ◌+◌, Bool, true, false, ◌&&◌, ◌||◌, not, Option, none, some, List, [], ◌∷◌, leb, ltb, ◌==◌,
  if◌then◌else◌, length,
}
use virtualme.Text.{Text, codes, text_eq}
use virtualme.Notifications.Sanitize.{sanitize_text}
use virtualme.Notifications.Ulid.{valid_ulid}
use virtualme.Notifications.Detail.{Json, Json-discrete, RawDetail, sanitize_detail}
use virtualme.Notifications.Result.{
  Error, invalid_id, unknown_type, invalid_sender, invalid_subtype, renderer_refused,
  title_required, title_too_long, summary_required, summary_too_long, too_far_in_the_future,
  invalid_exact, not_canonical, Result, ok, err, ◌>>=◌, ◌>>◌, refuse_if,
}

pub record Detail : Type 0 where
  pub version : ℕ
  pub renderer : Text
  pub content : Json

pub record Notification : Type 0 where
  pub id : Text
  pub type : Text
  pub subtype : Text
  pub sender : Text
  pub title : Text
  pub summary : Text
  pub occurred_at_ms : ℕ
  pub created_at_ms : ℕ
  pub read_at_ms : ℕ
  pub detail : Detail

unfoldable pub Notification-discrete : Discrete Notification
Notification-discrete = hlevel (ℕ_discrete, Json-discrete)

pub record CreateRequest : Type 0 where
  pub id : Text
  pub type : Text
  pub subtype : Text
  pub sender : Text
  pub title : Text
  pub summary : Text
  pub occurred_at_ms : ℕ
  pub renderer : Text
  pub detail : RawDetail

pub record TypeDefinition : Type 0 where
  pub name : Text
  pub icon : Text
  pub default_renderer : Text
  pub allowed_renderers : List Text

-- typeRegistry
abbrev pub type_registry : List TypeDefinition
type_registry =
    record {
      name = codes "info";
      icon = codes "i-circle-info";
      default_renderer = codes "generic";
      allowed_renderers =
          codes "generic" ∷ codes "lifecycle" ∷ codes "configuration" ∷ codes "agent" ∷ [];
    }
    ∷ record {
      name = codes "success";
      icon = codes "i-circle-check";
      default_renderer = codes "generic";
      allowed_renderers =
          codes "generic" ∷ codes "lifecycle" ∷ codes "configuration" ∷ codes "agent" ∷ [];
    }
    ∷ record {
      name = codes "warning";
      icon = codes "i-triangle-alert";
      default_renderer = codes "generic";
      allowed_renderers = codes "generic" ∷ codes "lifecycle" ∷ codes "agent" ∷ [];
    }
    ∷ record {
      name = codes "error";
      icon = codes "i-circle-x";
      default_renderer = codes "generic";
      allowed_renderers = codes "generic" ∷ codes "lifecycle" ∷ codes "agent" ∷ [];
    }
    ∷ []

-- [a-z0-9._-]
unfoldable pub is_slug_rune : ℕ → Bool
is_slug_rune c =
    (leb b'a' c && leb c b'z') || (leb b'0' c && leb c b'9') || c == b'.' || c == b'_' || c == b'-'

all_slug : Text → Bool
unfolding is_slug_rune
all_slug [] = true
all_slug (c ∷ t) = is_slug_rune c && all_slug t

-- ^[a-z][a-z0-9._-]{0,most}$
unfoldable pub is_slug : ℕ → Text → Bool
unfolding all_slug
is_slug most [] = false
is_slug most (c ∷ t) = (leb b'a' c && leb c b'z') && leb (length t) most && all_slug t

unfoldable pub find_definition : Text → List TypeDefinition → Option TypeDefinition
find_definition name [] = none
find_definition name (d ∷ ds) = if text_eq d.name name then some d else find_definition name ds

unfoldable pub member : Text → List Text → Bool
member w [] = false
member w (v ∷ vs) = text_eq v w || member w vs

unfoldable pub is_empty : Text → Bool
is_empty [] = true
is_empty (c ∷ s) = false

want_definition : Option TypeDefinition → Result TypeDefinition
want_definition none = err unknown_type
want_definition (some d) = ok d

-- A sanitized text of 1 to `most` code points.
unfoldable pub want_text : ℕ → Error → Error → Text → Result Text
want_text most required too_long t =
    if length t == 0 then err required else if ltb most (length t) then err too_long else ok t

-- The renderer of a request, or the default one.
unfoldable pub renderer_of : TypeDefinition → Text → Text
unfolding is_empty
renderer_of d renderer = if is_empty renderer then d.default_renderer else renderer

unfoldable pub or_created : ℕ → ℕ → ℕ
or_created occurred created = if occurred == 0 then created else occurred

-- validateCreate at the time `created`; `size_of` is the length of what json.Marshal writes.
unfoldable pub validate_create : (Json → ℕ) → CreateRequest → ℕ → Result Notification
unfolding is_empty want_definition find_definition renderer_of or_created
validate_create size_of request created = do
  refuse_if (not (is_empty request.id) && not (valid_ulid request.id)) invalid_id
  definition ← want_definition (find_definition request.type type_registry)
  refuse_if (not (is_slug 31 request.sender)) invalid_sender
  refuse_if (not (is_empty request.subtype) && not (is_slug 47 request.subtype)) invalid_subtype
  refuse_if (not (member (renderer_of definition request.renderer) definition.allowed_renderers))
      renderer_refused
  title ← want_text 120 title_required title_too_long (sanitize_text request.title)
  summary ← want_text 240 summary_required summary_too_long (sanitize_text request.summary)
  content ← sanitize_detail size_of request.detail
  refuse_if (ltb (created + 300000) (or_created request.occurred_at_ms created))
      too_far_in_the_future
  ok (record {
    id = request.id;
    type = request.type;
    subtype = request.subtype;
    sender = request.sender;
    title = title;
    summary = summary;
    occurred_at_ms = or_created request.occurred_at_ms created;
    created_at_ms = created;
    read_at_ms = 0;
    detail = record {
      version = 1;
      renderer = renderer_of definition request.renderer;
      content = content;
    };
  })

-- The bytes of a value that json.Marshal wrote.
unfoldable pub raw_detail : (Json → ℕ) → Json → RawDetail
raw_detail size_of content = record {
  size = size_of content;
  content = some content;
  trailing = false;
}

-- The request that validateExact checks a notification by.
unfoldable pub request_of : (Json → ℕ) → Notification → CreateRequest
unfolding raw_detail
request_of size_of n = record {
  id = n.id;
  type = n.type;
  subtype = n.subtype;
  sender = n.sender;
  title = n.title;
  summary = n.summary;
  occurred_at_ms = n.occurred_at_ms;
  renderer = n.detail.renderer;
  detail = raw_detail size_of n.detail.content;
}

want_same : Notification → Notification → Result (Unit {0})
want_same validated n = elim (Notification-discrete validated n) [
  | yes e ↦ ok tt
  | no e ↦ err not_canonical
]

-- validateExact
unfoldable pub validate_exact : (Json → ℕ) → Notification → Result (Unit {0})
unfolding want_same request_of
validate_exact size_of n = do
  refuse_if (not (valid_ulid n.id) || (not (n.read_at_ms == 0) || n.created_at_ms == 0))
      invalid_exact
  validated ← validate_create size_of (request_of size_of n) n.created_at_ms
  want_same validated n
