-- ===== src/Valkey/Client.antt =====
-- The commands of valkey.Client. The connection is a parameter: what the server's end has sent, for
-- the bytes of a request, by the time that the client stops reading, or `none` where dialling or
-- writing fails.
pub mod Answers
use virtualme.Prelude.{
  ℕ, zero, suc, Bool, true, false, Option, none, some, List, [], ◌∷◌, ◌++◌, length, String,
}
use virtualme.Text.{Text, codes}
use virtualme.Decimal.{ℤ, decimal, decimal_ℤ}
use virtualme.Valkey.Reply.{
  Memory, panicked, Value, nil, text, integer, array, Values, end, item, Error, no_connection,
  odd_pairs, wrong_type, Result, ok, err, stuck, ◌>>=◌, request, reply,
}

value_in : Result (Value × Text) → Result Value
value_in r = r >>= λ p. ok (p.0)

unfoldable pub expect_int : Value → Result ℤ
expect_int nil = err wrong_type
expect_int (text t) = err wrong_type
expect_int (integer k) = ok k
expect_int (array vs) = err wrong_type

strings_of : Values → Result (List Text)
strings_of end = ok []
strings_of (item nil vs) = err wrong_type
strings_of (item (integer k) vs) = err wrong_type
strings_of (item (array ws) vs) = err wrong_type
strings_of (item (text t) vs) = do ts ← strings_of vs; ok (t ∷ ts)

unfoldable pub expect_strings : Value → Result (List Text)
unfolding strings_of
expect_strings nil = err wrong_type
expect_strings (text t) = err wrong_type
expect_strings (integer k) = err wrong_type
expect_strings (array vs) = strings_of vs

-- A bulk string or nil, as LMOVE, HGET and GET have it.
unfoldable pub optional_string : Value → Result (Option Text)
optional_string nil = ok none
optional_string (text t) = ok (some t)
optional_string (integer k) = err wrong_type
optional_string (array vs) = err wrong_type

pair_before : Text → Text → Option (List (Text × Text)) → Option (List (Text × Text))
pair_before k v none = none
pair_before k v (some ps) = some ((k, v) ∷ ps)

-- The strings two by two; none where one is left over.
unfoldable pub pairs : List Text → Option (List (Text × Text))
unfolding pair_before
pairs [] = some []
pairs (k ∷ []) = none
pairs (k ∷ v ∷ ts) = pair_before k v (pairs ts)

-- A map, as the list of the assignments to it; the last one to a key counts.
map_of : Result (List Text) → Result (List (Text × Text))
unfolding pairs
map_of (err e) = err odd_pairs
map_of panicked = panicked
map_of stuck = stuck
map_of (ok ts) = elim (pairs ts) [ none ↦ err odd_pairs | some ps ↦ ok ps ]

-- Client.HSet refuses these before it sends anything.
unfoldable pub is_odd : List Text → Bool
is_odd [] = false
is_odd (t ∷ []) = true
is_odd (t ∷ u ∷ ts) = is_odd ts

module _ (memory : Memory) (exchange : Text → Option Text) where
  unfoldable pub do_request : List Text → Result Value
  unfolding value_in
  do_request args = elim (exchange (request args)) [
    | none ↦ err no_connection
    | some input ↦ value_in (reply memory input)
  ]

  unfoldable pub eval : Text → List Text → List Text → Result Value
  unfolding do_request
  eval script keys args = do
    answer ← do_request (codes "EVAL" ∷ script ∷ decimal (length keys) ∷ (keys ++ args))
    ok answer

  unfoldable pub rpush : Text → List Text → Result ℤ
  unfolding do_request expect_int
  rpush key values = do answer ← do_request (codes "RPUSH" ∷ key ∷ values); expect_int answer

  unfoldable pub lpush : Text → List Text → Result ℤ
  unfolding do_request expect_int
  lpush key values = do answer ← do_request (codes "LPUSH" ∷ key ∷ values); expect_int answer

  unfoldable pub ltrim : Text → ℤ → ℤ → Result Unit
  unfolding do_request
  ltrim key start stop = do
    answer ← do_request (codes "LTRIM" ∷ key ∷ decimal_ℤ start ∷ decimal_ℤ stop ∷ [])
    ok tt

  unfoldable pub lrange : Text → ℤ → ℤ → Result (List Text)
  unfolding do_request expect_strings
  lrange key start stop = do
    answer ← do_request (codes "LRANGE" ∷ key ∷ decimal_ℤ start ∷ decimal_ℤ stop ∷ [])
    expect_strings answer

  unfoldable pub llen : Text → Result ℤ
  unfolding do_request expect_int
  llen key = do answer ← do_request (codes "LLEN" ∷ key ∷ []); expect_int answer

  unfoldable pub lrem : Text → ℤ → Text → Result ℤ
  unfolding do_request expect_int
  lrem key many value = do
    answer ← do_request (codes "LREM" ∷ key ∷ decimal_ℤ many ∷ value ∷ [])
    expect_int answer

  unfoldable pub lmove : Text → Text → Text → Text → Result (Option Text)
  unfolding do_request optional_string
  lmove src dst from to = do
    answer ← do_request (codes "LMOVE" ∷ src ∷ dst ∷ from ∷ to ∷ [])
    optional_string answer

  unfoldable pub del : List Text → Result ℤ
  unfolding do_request expect_int
  del keys = do answer ← do_request (codes "DEL" ∷ keys); expect_int answer

  unfoldable pub hincrby : Text → Text → ℤ → Result ℤ
  unfolding do_request expect_int
  hincrby key field value = do
    answer ← do_request (codes "HINCRBY" ∷ key ∷ field ∷ decimal_ℤ value ∷ [])
    expect_int answer

  unfoldable pub hgetall : Text → Result (List (Text × Text))
  unfolding do_request expect_strings map_of
  hgetall key = do answer ← do_request (codes "HGETALL" ∷ key ∷ []); map_of (expect_strings answer)

  unfoldable pub hset : Text → List Text → Result ℤ
  unfolding do_request expect_int is_odd
  hset key field_values = elim (is_odd field_values) [
    | true ↦ err odd_pairs
    | false ↦ do answer ← do_request (codes "HSET" ∷ key ∷ field_values); expect_int answer
  ]

  unfoldable pub hget : Text → Text → Result (Option Text)
  unfolding do_request optional_string
  hget key field = do answer ← do_request (codes "HGET" ∷ key ∷ field ∷ []); optional_string answer

  unfoldable pub hdel : Text → List Text → Result ℤ
  unfolding do_request expect_int
  hdel key names = do answer ← do_request (codes "HDEL" ∷ key ∷ names); expect_int answer

  unfoldable pub set : Text → Text → Result Unit
  unfolding do_request
  set key value = do answer ← do_request (codes "SET" ∷ key ∷ value ∷ []); ok tt

  unfoldable pub setex : Text → Text → ℤ → Result Unit
  unfolding do_request
  setex key value seconds = do
    answer ← do_request (codes "SET" ∷ key ∷ value ∷ codes "EX" ∷ decimal_ℤ seconds ∷ [])
    ok tt

  unfoldable pub get : Text → Result (Option Text)
  unfolding do_request optional_string
  get key = do answer ← do_request (codes "GET" ∷ key ∷ []); optional_string answer
