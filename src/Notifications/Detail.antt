-- ===== src/Notifications/Detail.antt =====
-- sanitizeDetail and decodeSanitized of notifications.go. The tokens of the JSON decoder are those of
-- a value, and an object that is written by json.Marshal lists its keys in order.
use virtualme.Prelude.{
  ℕ, ◌+◌, Bool, true, false, ◌||◌, Option, none, some, [], ◌∷◌, ltb, ◌==◌, if◌then◌else◌, length,
}
use native.Mathlib.Decide.{ℕ_discrete}
use virtualme.Text.{Text, codes, text_eq, to_lower}
use virtualme.Notifications.Sanitize.{sanitize_text}
use virtualme.Notifications.Result.{
  detail_too_large, detail_too_deep, invalid_detail, bad_key, forbidden_key, duplicate_key,
  too_many_elements, string_too_long, not_an_object, trailing_json, Result, ok, err, ◌>>=◌, ◌>>◌,
  refuse_if,
}

mutual
  pub data Json : Type 0 where
    null : Json
    bool : Bool → Json
    -- json.Number
    number : Text → Json
    string : Text → Json
    array : Items → Json
    object : Fields → Json

  pub data Items : Type 0 where
    nil : Items
    cons : Json → Items → Items

  pub data Fields : Type 0 where
    end : Fields
    field : Text → Json → Fields → Fields

unfoldable pub Json-discrete : Discrete Json
Json-discrete = hlevel ℕ_discrete

-- The order of Go's strings, over code points.
unfoldable pub text_lt : Text → Text → Bool
text_lt s [] = false
text_lt [] (d ∷ t) = true
text_lt (c ∷ s) (d ∷ t) = if c == d then text_lt s t else ltb c d

unfoldable pub has_key : Text → Fields → Bool
has_key k end = false
has_key k (field j v fs) = text_eq j k || has_key k fs

-- A new key, in its place in the order of json.Marshal.
unfoldable pub put : Text → Json → Fields → Fields
put k v end = field k v end
put k v (field j w fs) = if text_lt k j then field k v (field j w fs) else field j w (put k v fs)

-- forbiddenKeys
unfoldable pub is_forbidden : Text → Bool
is_forbidden k =
    text_eq k (codes "html")
    || text_eq k (codes "svg")
    || text_eq k (codes "innerhtml")
    || text_eq k (codes "script")
    || text_eq k (codes "style")
    || text_eq k (codes "renderer")
    || text_eq k (codes "component")

-- The tests of a sanitized key, before the value is read.
unfoldable pub check_key : Text → Fields → ℕ → Result (Unit {0})
unfolding is_forbidden has_key
check_key key seen nodes = do
  refuse_if (length key == 0 || ltb 64 (length key)) bad_key
  refuse_if (is_forbidden (to_lower key)) forbidden_key
  refuse_if (has_key key seen) duplicate_key
  refuse_if (ltb 256 (nodes + 1)) too_many_elements

-- decodeSanitized: the value and the number of elements so far. `seen` is the map of the loop over
-- an object.
unfoldable mutual
  unfolding check_key put

  pub sanitize_value : Json → ℕ → ℕ → Result (Json × ℕ)
  sanitize_value null nodes depth = do refuse_if (ltb 8 depth) detail_too_deep; ok (null, nodes)
  sanitize_value (bool b) nodes depth = do
    refuse_if (ltb 8 depth) detail_too_deep
    ok (bool b, nodes)
  sanitize_value (number t) nodes depth = do
    refuse_if (ltb 8 depth) detail_too_deep
    ok (number t, nodes)
  sanitize_value (string t) nodes depth = do
    refuse_if (ltb 8 depth) detail_too_deep
    refuse_if (ltb 2048 (length (sanitize_text t))) string_too_long
    ok (string (sanitize_text t), nodes)
  sanitize_value (array xs) nodes depth = do
    refuse_if (ltb 8 depth) detail_too_deep
    r ← sanitize_items xs nodes (depth + 1)
    ok (array r.0, r.1)
  sanitize_value (object fs) nodes depth = do
    refuse_if (ltb 8 depth) detail_too_deep
    r ← sanitize_fields fs end nodes (depth + 1)
    ok (object r.0, r.1)

  pub sanitize_items : Items → ℕ → ℕ → Result (Items × ℕ)
  sanitize_items nil nodes depth = ok (nil, nodes)
  sanitize_items (cons x xs) nodes depth = do
    refuse_if (ltb 256 (nodes + 1)) too_many_elements
    r ← sanitize_value x (nodes + 1) depth
    s ← sanitize_items xs r.1 depth
    ok (cons r.0 s.0, s.1)

  pub sanitize_fields : Fields → Fields → ℕ → ℕ → Result (Fields × ℕ)
  sanitize_fields end seen nodes depth = ok (seen, nodes)
  sanitize_fields (field k v fs) seen nodes depth = do
    check_key (sanitize_text k) seen nodes
    r ← sanitize_value v (nodes + 1) depth
    sanitize_fields fs (put (sanitize_text k) r.0 seen) r.1 depth

-- The bytes of a detail: how many, the value that they begin with, if they do, and whether there is
-- more behind it.
pub record RawDetail : Type 0 where
  pub size : ℕ
  pub content : Option Json
  pub trailing : Bool

want_object : Json → Result (Unit {0})
want_object (object fs) = ok tt
want_object _ = err not_an_object

-- Behind the decoding; `size_of` is the length of what json.Marshal writes.
check_value : (Json → ℕ) → Bool → Json → Result Json
unfolding want_object
check_value size_of trailing value = do
  want_object value
  refuse_if trailing trailing_json
  refuse_if (ltb 8192 (size_of value)) detail_too_large
  ok value

decode_detail : (Json → ℕ) → Bool → Option Json → Result Json
unfolding check_value
decode_detail size_of trailing none = err invalid_detail
decode_detail size_of trailing (some content) = do
  r ← sanitize_value content 0 1
  check_value size_of trailing r.0

-- sanitizeDetail
unfoldable pub sanitize_detail : (Json → ℕ) → RawDetail → Result Json
unfolding decode_detail
sanitize_detail size_of raw = if raw.size == 0 then ok (object end) else (do
  refuse_if (ltb 8192 raw.size) detail_too_large
  decode_detail size_of raw.trailing raw.content)
