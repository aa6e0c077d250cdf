-- ===== src/Valkey/Client/Answers.antt =====
-- The client with a server that keeps the protocol.
use virtualme.Prelude.{
  true, ap, ◌∙◌, ◌<◌, ◌^◌, ◌≡◌, refl, Option, some, List, [], ◌∷◌, ◌++◌, All, length,
}
use virtualme.Text.{Text, codes}
use virtualme.Decimal.{negsuc, decimal_ℤ}
use virtualme.Decimal.RoundTrip.{Above}
use virtualme.Valkey.Reply.{
  Memory, Value, nil, text, array, refused, Result, ok, err, request, reply,
}
use virtualme.Valkey.Reply.Wire.{
  header, encode, IsSized, Fits, texts, reply-encode, reply-refused, reply-status, reply-no_array,
  texts-IsSized, request-encode,
}
use virtualme.Valkey.Client.{
  value_in, expect_strings, strings_of, pairs, map_of, do_request, hgetall,
}

-- What a server answers: a value of RESP, a simple string, the null array or an error.
pub data Answer : Type 0 where
  value : Value → Answer
  status : Text → Answer
  null_array : Answer
  failure : Text → Answer

abbrev pub encode_answer : Answer → Text
encode_answer (value v) = encode v
encode_answer (status t) = header b'+' t
encode_answer null_array = header b'*' (decimal_ℤ (negsuc 0))
encode_answer (failure t) = header b'-' t

abbrev pub outcome : Answer → Result Value
outcome (value v) = ok v
outcome (status t) = ok (text t)
outcome null_array = ok nil
outcome (failure t) = err (refused t)

abbrev pub flat : List (Text × Text) → List Text
flat [] = []
flat ((k, v) ∷ ps) = k ∷ v ∷ flat ps

strings_of-texts : (ts : List Text) → strings_of (texts ts) ≡ ok ts
unfolding strings_of
strings_of-texts [] = refl
strings_of-texts (t ∷ ts) = rw (strings_of-texts ts) refl

pairs-flat : (ps : List (Text × Text)) → pairs (flat ps) ≡ some ps
unfolding pairs
pairs-flat [] = refl
pairs-flat ((k, v) ∷ ps) = rw (pairs-flat ps) refl

module _ (memory : Memory) (exchange : Text → Option Text) where
  -- A value is as in IsSized; the text of a line has no control character up to the carriage return.
  abbrev pub IsPlain : Answer → Type 0
  IsPlain (value v) = IsSized memory v
  IsPlain (status t) = Above 13 t
  IsPlain null_array = Unit
  IsPlain (failure t) = Above 13 t

  value_in-reply :
      (a : Answer) (rest : Text)
      → IsPlain a
      → value_in (reply memory (encode_answer a ++ rest)) ≡ outcome a
  unfolding value_in
  value_in-reply (value v) rest h = rw (reply-encode memory v rest h) refl
  value_in-reply (status t) rest h = rw (reply-status memory t rest h) refl
  value_in-reply null_array rest h = rw (reply-no_array memory rest) refl
  value_in-reply (failure t) rest h = rw (reply-refused memory t rest h) refl

  -- For the bytes of a request to come back from a server is its answer, and whatever follows.
  abbrev pub KeepsProtocol : (List Text → Answer) → Type 0
  KeepsProtocol serve =
      (args : List Text)
      → (later : Text) × (exchange (encode (array (texts args)))
          ≡ some (encode_answer (serve args) ++ later))

  do_request-outcome :
      (args : List Text) (a : Answer) (later : Text)
      → IsPlain a
      → exchange (request args) ≡ some (encode_answer a ++ later)
      → do_request memory exchange args ≡ outcome a
  unfolding do_request
  do_request-outcome args a later h e = rw (e, do_request) (value_in-reply a later h)

  -- With a server that answers the array of the arguments, as the protocol writes it, by a value, a
  -- simple string, the null array or an error, also as the protocol writes them, `do` returns for any
  -- arguments what the server answers to them: the value, the string, nil or the error's text. The
  -- texts and arrays of the answer fit the memory; its simple strings and errors are of one line.
  pub do_request-answer :
      (serve : List Text → Answer)
      → KeepsProtocol serve
      → (args : List Text) → IsPlain (serve args)
      → do_request memory exchange args ≡ outcome (serve args)
  do_request-answer serve keeps args h =
      let (later, e) = keeps args in
      do_request-outcome args (serve args) later h (ap exchange (request-encode args) ∙ e)

  -- Where a server answers HGETALL with the fields and values of a hash, fewer than 2 ^ 63 texts of
  -- fewer than 2 ^ 63 bytes each that fit the memory, HGetAll returns the pairs of the hash, in that
  -- order.
  pub hgetall-flat :
      (key : Text) (ps : List (Text × Text)) (later : Text)
      → length (flat ps) < 2 ^ 63
      → memory.items_fit (length (flat ps)) ≡ true
      → All (Fits memory) (flat ps)
      → exchange (request (codes "HGETALL" ∷ key ∷ []))
        ≡ some (encode (array (texts (flat ps))) ++ later)
      → hgetall memory exchange key ≡ ok ps
  unfolding hgetall expect_strings map_of
  hgetall-flat key ps later few fits short e =
      let sized : IsSized memory (array (texts (flat ps))) =
        texts-IsSized memory (flat ps) few fits short in
      rw
        (
          do_request-outcome (codes "HGETALL" ∷ key ∷ []) (value (array (texts (flat ps)))) later
              sized e,
          strings_of-texts (flat ps),
          pairs-flat ps,
          map_of,
        )
        refl
