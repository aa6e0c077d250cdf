-- ===== src/Valkey/Tests.antt =====
-- Concrete replies and requests.
use virtualme.Prelude.{true, leb, ◌≡◌, refl, some, List, [], ◌∷◌, ◌++◌, arith}
use virtualme.Text.{Text, codes}
use virtualme.Decimal.{decimal, negsuc, parse_int}
use virtualme.Valkey.Reply.{
  Memory, panicked, Value, nil, text, integer, array, end, item, refused, ok, err, crlf, request,
  reply,
}
use virtualme.Valkey.Reply.Total.{Within, reply-Within}
use virtualme.Valkey.Reply.Wire.{encode, texts, reply-encode, reply-request}
use virtualme.Valkey.Client.{do_request, hgetall}
use virtualme.Valkey.Client.Answers.{
  Answer, status, failure, encode_answer, do_request-answer, hgetall-flat, flat,
}

abbrev answer : Value
answer =
    array
      (item (text (13 ∷ 10 ∷ [])) (item (integer (negsuc 41)) (item nil (item (array end) end))))

abbrev command : List Text
command = codes "RPUSH" ∷ codes "k" ∷ [] ∷ (13 ∷ 10 ∷ []) ∷ []

abbrev hash : List (Text × Text)
hash = (codes "a", codes "1") ∷ (codes "b", []) ∷ []

-- Every size fits, and none of more than a hundred.
abbrev roomy : Memory
roomy = record { bytes_fit = λ n. true; items_fit = λ n. true }

abbrev small : Memory
small = record { bytes_fit = λ n. leb n 100; items_fit = λ n. leb n 100 }

too_large : reply small (codes "$9223372036854775807" ++ crlf) ≡ panicked
unfolding reply parse_int
too_large = refl

pinged : reply roomy (codes "+PONG" ++ crlf) ≡ ok (text (codes "PONG"), [])
unfolding reply
pinged = refl

written :
    request (codes "GET" ∷ codes "k" ∷ [])
    ≡ codes "*2"
      ++ crlf
      ++ codes "$3"
      ++ crlf
      ++ codes "GET"
      ++ crlf
      ++ codes "$1"
      ++ crlf
      ++ codes "k"
      ++ crlf
unfolding request decimal
written = refl

reply-encode_example : reply roomy (encode answer ++ b'+' ∷ []) ≡ ok (answer, b'+' ∷ [])
reply-encode_example =
    reply-encode roomy answer (b'+' ∷ [])
      (omega arith, refl, ((omega arith, refl), (omega arith, (tt, ((omega arith, refl, tt), tt)))))

reply-request_example : reply roomy (request command) ≡ ok (array (texts command), [])
reply-request_example =
    reply-request roomy command (omega arith) refl
      ((omega arith, refl), ((omega arith, refl), ((omega arith, refl), ((omega arith, refl), tt))))

reply-Within_example :
    Within small 3
      (codes "*2" ++ crlf ++ codes ":1" ++ crlf ++ codes "$-1")
      (reply small (codes "*2" ++ crlf ++ codes ":1" ++ crlf ++ codes "$-1"))
reply-Within_example = reply-Within small (codes "*2" ++ crlf ++ codes ":1" ++ crlf ++ codes "$-1")

-- A server that says OK to everything.
abbrev agreeing : List Text → Answer
agreeing args = status (codes "OK")

do_request-answer_example :
    do_request roomy (λ req. some (encode_answer (status (codes "OK")) ++ [])) command
    ≡ ok (text (codes "OK"))
do_request-answer_example =
    do_request-answer roomy (λ req. some (encode_answer (status (codes "OK")) ++ [])) agreeing
      (λ args. ([], refl)) command (omega arith, (omega arith, tt))

refused_example :
    do_request roomy (λ req. some (encode_answer (failure (codes "ERR no")))) command
    ≡ err (refused (codes "ERR no"))
unfolding do_request reply
refused_example = refl

hgetall-flat_example :
    hgetall roomy (λ req. some (encode (array (texts (flat hash))) ++ [])) (codes "h") ≡ ok hash
hgetall-flat_example =
    hgetall-flat roomy (λ req. some (encode (array (texts (flat hash))) ++ [])) (codes "h") hash []
      (omega arith) refl
      ((omega arith, refl), ((omega arith, refl), ((omega arith, refl), ((omega arith, refl), tt))))
      refl
