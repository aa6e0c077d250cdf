-- ===== src/Valkey/Reply/Wire.antt =====
-- The replies as a server writes them, and parse_reply on them.
use virtualme.Prelude.{
  ℕ, zero, suc, ◌+◌, ◌-◌, ◌≤◌, ◌<◌, ◌^◌, ◌≡◌, refl, sym, ap, ◌∙◌, true, false, if◌then◌else◌, some,
  List, [], ◌∷◌, ◌++◌, append_assoc, append-nil, length-append, take-append, drop-append, All, ltb,
  ◌==◌, length, take, arith,
}
use virtualme.Text.{Text}
use virtualme.Decimal.{ℤ, negsuc, decimal, decimal_ℤ}
use virtualme.Decimal.RoundTrip.{
  Above, IsInt64, decimal-Above, decimal_ℤ-Above, parse_int-decimal, parse_int-decimal_ℤ,
}
use virtualme.Valkey.Reply.{
  Memory, Value, nil, text, integer, array, Values, end, item, refused, Result, ok, err, crlf, bulk,
  bulks, request, line_before, read_line, body_of, read_bulk, bulk_reply, integer_reply, count_of,
  Head, panicked, whole, array_of, array_head, head_for, head_of_line, head_of_read, array_result,
  parse_reply, parse_items, reply,
}

abbrev pub count : Values → ℕ
count end = 0
count (item v vs) = suc (count vs)

-- A line of a type byte and a body.
abbrev pub header : ℕ → Text → Text
header c body = (c ∷ body) ++ crlf

abbrev mutual
  pub encode : Value → Text
  encode nil = header b'$' (decimal_ℤ (negsuc 0))
  encode (text t) = header b'$' (decimal (length t)) ++ (t ++ crlf)
  encode (integer k) = header b':' (decimal_ℤ k)
  encode (array vs) = header b'*' (decimal (count vs)) ++ encode_items vs

  pub encode_items : Values → Text
  encode_items end = []
  encode_items (item v vs) = encode v ++ encode_items vs

mutual
  rounds_of : Value → ℕ
  rounds_of nil = 1
  rounds_of (text t) = 1
  rounds_of (integer k) = 1
  rounds_of (array vs) = suc (rounds_for vs)

  rounds_for : Values → ℕ
  rounds_for end = 0
  rounds_for (item v vs) = suc (rounds_of v + rounds_for vs)

read_line-Above :
    (s rest : Text) → Above 13 s → read_line (s ++ 13 ∷ 10 ∷ rest) ≡ some (s ++ crlf, rest)
unfolding read_line line_before
read_line-Above [] rest h = refl
read_line-Above (c ∷ s) rest (h, hs) =
    let e : (c == 10) ≡ false = ground arith in
    rw e (ap (line_before c) (read_line-Above s rest hs))

body_of-header : (c : ℕ) (body : Text) → body_of (header c body) ≡ body
unfolding body_of
body_of-header c body =
    let e : length (header c body) - 3 ≡ length body = omega (arith, length-append body crlf) in
    ap (λ n. take n (body ++ crlf)) e ∙ take-append body crlf

rounds_of-ne-zero : (v : Value) → 0 < rounds_of v
unfolding rounds_of
rounds_of-ne-zero nil = omega arith
rounds_of-ne-zero (text t) = omega arith
rounds_of-ne-zero (integer k) = omega arith
rounds_of-ne-zero (array vs) = omega arith

mutual
  unfolding rounds_of

  rounds_of-le : (v : Value) → rounds_of v + 1 ≤ length (encode v)
  rounds_of-le nil = omega (arith, length-append (decimal_ℤ (negsuc 0)) crlf)
  rounds_of-le (text t) = omega (
    arith,
    length-append (header b'$' (decimal (length t))) (t ++ crlf),
    length-append (decimal (length t)) crlf,
  )
  rounds_of-le (integer k) = omega (arith, length-append (decimal_ℤ k) crlf)
  rounds_of-le (array vs) = omega (
    arith,
    length-append (header b'*' (decimal (count vs))) (encode_items vs),
    length-append (decimal (count vs)) crlf,
    rounds_for-le vs,
  )

  rounds_for-le : (vs : Values) → rounds_for vs ≤ length (encode_items vs)
  rounds_for-le end = omega arith
  rounds_for-le (item v vs) =
      omega (arith, length-append (encode v) (encode_items vs), rounds_of-le v, rounds_for-le vs)

-- The arguments of a request as an array of texts.
abbrev pub texts : List Text → Values
texts [] = end
texts (t ∷ ts) = item (text t) (texts ts)

count-texts : (ts : List Text) → count (texts ts) ≡ length ts
count-texts [] = refl
count-texts (t ∷ ts) = ap suc (count-texts ts)

bulk-encode : (t : Text) → bulk t ≡ encode (text t)
unfolding bulk
bulk-encode t = sym (append_assoc (b'$' ∷ decimal (length t)) crlf (t ++ crlf))

bulks-encode : (ts : List Text) → bulks ts ≡ encode_items (texts ts)
unfolding bulks
bulks-encode [] = refl
bulks-encode (t ∷ ts) =
    ap (λ s. bulk t ++ s) (bulks-encode ts) ∙ ap (λ s. s ++ encode_items (texts ts)) (bulk-encode t)

pub request-encode : (ts : List Text) → request ts ≡ encode (array (texts ts))
unfolding request
request-encode ts =
    let counted = b'*' ∷ decimal (length ts) in
    ap (λ s. counted ++ (crlf ++ s)) (bulks-encode ts)
    ∙ sym (append_assoc counted crlf (encode_items (texts ts)))
    ∙ ap (λ n. header b'*' (decimal n) ++ encode_items (texts ts)) (sym (count-texts ts))

module _ (memory : Memory) where
  -- A text of a length of 64 bits that fits the memory with its line end.
  abbrev pub Fits : Text → Type 0
  Fits t = (length t < 2 ^ 63) × (memory.bytes_fit (length t + 2) ≡ true)

  -- The lengths, counts and integers have 64 bits, and the texts and arrays fit the memory.
  abbrev mutual
    pub IsSized : Value → Type 0
    IsSized nil = Unit
    IsSized (text t) = Fits t
    IsSized (integer k) = IsInt64 k
    IsSized (array vs) = (count vs < 2 ^ 63) × (memory.items_fit (count vs) ≡ true) × AreSized vs

    pub AreSized : Values → Type 0
    AreSized end = Unit
    AreSized (item v vs) = IsSized v × AreSized vs

  head_of_line-header :
      (c : ℕ) (body rest : Text)
      → head_of_line memory (header c body) rest ≡ head_for memory c body rest
  unfolding head_of_line
  head_of_line-header c body rest =
      let long : ltb (length (header c body)) 3 ≡ false = ground (arith, length-append body crlf) in
      rw long (ap (λ b. head_for memory c b rest) (body_of-header c body))

  head_of_read-header :
      (c : ℕ) (body rest : Text)
      → Above 13 (c ∷ body)
      → head_of_read memory (read_line (header c body ++ rest)) ≡ head_for memory c body rest
  head_of_read-header c body rest h =
      ap (λ t. head_of_read memory (read_line t)) (append_assoc (c ∷ body) crlf rest)
      ∙ ap (head_of_read memory) (read_line-Above (c ∷ body) rest h)
      ∙ unfold head_of_read in head_of_line-header c body rest

  read_bulk-payload :
      (t rest : Text)
      → memory.bytes_fit (length t + 2) ≡ true
      → read_bulk memory (length t) (t ++ (crlf ++ rest)) ≡ ok (text t, rest)
  unfolding read_bulk
  read_bulk-payload t rest fits =
      let long : ltb (length (t ++ (crlf ++ rest))) (length t + 2) ≡ false =
        ground (arith, length-append t (crlf ++ rest)) in
      rw
        (
          fits,
          long,
          take-append t (crlf ++ rest),
          drop-append t (crlf ++ rest) (length t + 2) 2 refl,
        )
        refl

  -- A number in the header of a bulk string, an integer or an array.
  numeral :
      (c n : ℕ) (rest : Text)
      → 13 < c
      → head_of_read memory (read_line (header c (decimal n) ++ rest))
        ≡ head_for memory c (decimal n) rest
  numeral c n rest h = head_of_read-header c (decimal n) rest (h, decimal-Above n)

  bulk_header :
      (n : ℕ) (rest : Text)
      → n < 2 ^ 63
      → head_of_read memory (read_line (header b'$' (decimal n) ++ rest))
        ≡ whole (read_bulk memory n rest)
  bulk_header n rest h =
      numeral b'$' n rest (omega arith)
      ∙ unfold head_for in
        ap (λ o. whole (bulk_reply memory o rest)) (parse_int-decimal n h)
        ∙ unfold bulk_reply in refl

  array_header :
      (n : ℕ) (rest : Text)
      → n < 2 ^ 63
      → memory.items_fit n ≡ true
      → head_of_read memory (read_line (header b'*' (decimal n) ++ rest)) ≡ array_of n rest
  array_header n rest h fits =
      numeral b'*' n rest (omega arith)
      ∙ unfold head_for in
        ap (λ o. array_head memory (count_of o) rest) (parse_int-decimal n h)
        ∙ unfold array_head count_of in ap (λ b. if b then array_of n rest else whole panicked) fits

  integer_header :
      (k : ℤ) (rest : Text)
      → IsInt64 k
      → head_of_read memory (read_line (header b':' (decimal_ℤ k) ++ rest))
        ≡ whole (ok (integer k, rest))
  integer_header k rest h =
      head_of_read-header b':' (decimal_ℤ k) rest (omega arith, decimal_ℤ-Above k)
      ∙ unfold head_for in
        ap (λ o. whole (integer_reply o rest)) (parse_int-decimal_ℤ k h)
        ∙ unfold integer_reply in refl

  nil_header :
      (rest : Text) → head_of_read memory (read_line (encode nil ++ rest)) ≡ whole (ok (nil, rest))
  nil_header rest =
      head_of_read-header b'$' (decimal_ℤ (negsuc 0)) rest (omega arith, decimal_ℤ-Above (negsuc 0))
      ∙ unfold head_for in
        ap (λ o. whole (bulk_reply memory o rest)) (parse_int-decimal_ℤ (negsuc 0) (omega arith))
        ∙ unfold bulk_reply in refl

  result_of : ℕ → Head → Result (Value × Text)
  result_of rounds h = elim h as (λ x. Result (Value × Text)) [
    | whole r ↦ r
    | array_of n rest ↦ array_result (parse_items memory rounds n rest)
  ]

  by_head :
      (rounds : ℕ) (input : Text) (h : Head)
      → head_of_read memory (read_line input) ≡ h
      → parse_reply memory (suc rounds) input ≡ result_of rounds h
  unfolding parse_reply result_of
  by_head rounds input h e = ap (result_of rounds) e

  mutual
    unfolding rounds_of parse_reply result_of array_result

    parse_reply-encode :
        (rounds : ℕ) (v : Value) (rest : Text)
        → rounds_of v ≤ rounds
        → IsSized v
        → parse_reply memory rounds (encode v ++ rest) ≡ ok (v, rest)
    parse_reply-encode zero v rest h s = absurd (omega (arith, rounds_of-ne-zero v))
    parse_reply-encode (suc rounds) nil rest h s =
        by_head rounds (encode nil ++ rest) _ (nil_header rest)
    parse_reply-encode (suc rounds) (text t) rest h s =
        let payload : (t ++ crlf) ++ rest ≡ t ++ (crlf ++ rest) = append_assoc t crlf rest in
        by_head rounds (encode (text t) ++ rest) _ (
          ap (λ t. head_of_read memory (read_line t))
            (append_assoc (header b'$' (decimal (length t))) (t ++ crlf) rest)
          ∙ bulk_header (length t) ((t ++ crlf) ++ rest) (s.0))
        ∙ ap (read_bulk memory (length t)) payload
        ∙ read_bulk-payload t rest (s.1)
    parse_reply-encode (suc rounds) (integer k) rest h s =
        by_head rounds (encode (integer k) ++ rest) _ (integer_header k rest s)
    parse_reply-encode (suc rounds) (array vs) rest h (few, fits, s) =
        by_head rounds (encode (array vs) ++ rest) _ (
          ap (λ t. head_of_read memory (read_line t))
            (append_assoc (header b'*' (decimal (count vs))) (encode_items vs) rest)
          ∙ array_header (count vs) (encode_items vs ++ rest) few fits)
        ∙ ap array_result (parse_items-encode rounds vs rest (omega arith) s)

    parse_items-encode :
        (rounds : ℕ) (vs : Values) (rest : Text)
        → rounds_for vs ≤ rounds
        → AreSized vs
        → parse_items memory rounds (count vs) (encode_items vs ++ rest) ≡ ok (vs, rest)
    parse_items-encode zero end rest h s = refl
    parse_items-encode (suc rounds) end rest h s = refl
    parse_items-encode zero (item v vs) rest h s = absurd (omega arith)
    parse_items-encode (suc rounds) (item v vs) rest h (s, ss) =
        rw
          (
            append_assoc (encode v) (encode_items vs) rest,
            parse_reply-encode rounds v (encode_items vs ++ rest) (omega arith) s,
            parse_items-encode rounds vs rest (omega arith) ss,
          )
          refl

  -- What a server writes for a value, of lengths, counts and integers of 64 bits, whose texts and arrays
  -- fit the memory, is read as that value, and what follows on the connection is left.
  pub reply-encode :
      (v : Value) (rest : Text) → IsSized v → reply memory (encode v ++ rest) ≡ ok (v, rest)
  unfolding reply
  reply-encode v rest s =
      parse_reply-encode (length (encode v ++ rest) + 1) v rest
        (omega (arith, length-append (encode v) rest, rounds_of-le v)) s

  texts-AreSized : (ts : List Text) → All Fits ts → AreSized (texts ts)
  texts-AreSized [] h = tt
  texts-AreSized (t ∷ ts) (h, hs) = (h, texts-AreSized ts hs)

  -- An array of such texts.
  pub texts-IsSized :
      (ts : List Text)
      → length ts < 2 ^ 63
      → memory.items_fit (length ts) ≡ true
      → All Fits ts
      → IsSized (array (texts ts))
  texts-IsSized ts few fits short = (
    omega (arith, count-texts ts),
    ap memory.items_fit (count-texts ts) ∙ fits,
    texts-AreSized ts short,
  )

  -- The request that `do` writes for some arguments, fewer than 2 ^ 63 and each of fewer bytes, is read
  -- by the same protocol as the array of these arguments, whatever bytes they have, with nothing left,
  -- where the reader's memory fits them.
  pub reply-request :
      (ts : List Text)
      → length ts < 2 ^ 63
      → memory.items_fit (length ts) ≡ true
      → All Fits ts
      → reply memory (request ts) ≡ ok (array (texts ts), [])
  reply-request ts few fits short =
      ap (reply memory) (request-encode ts ∙ sym (append-nil (encode (array (texts ts)))))
      ∙ reply-encode (array (texts ts)) [] (texts-IsSized ts few fits short)

  reply-whole :
      (input : Text) (r : Result (Value × Text))
      → head_of_read memory (read_line input) ≡ whole r
      → reply memory input ≡ r
  unfolding reply result_of
  reply-whole input r e =
      let rounds : length input + 1 ≡ suc (length input) = omega arith in
      ap (λ n. parse_reply memory n input) rounds ∙ by_head (length input) input (whole r) e

  -- An error line.
  pub reply-refused :
      (t rest : Text) → Above 13 t → reply memory (header b'-' t ++ rest) ≡ err (refused t)
  reply-refused t rest h =
      reply-whole (header b'-' t ++ rest) (err (refused t))
        (head_of_read-header b'-' t rest (omega arith, h) ∙ unfold head_for in refl)

  -- A simple string.
  pub reply-status :
      (t rest : Text) → Above 13 t → reply memory (header b'+' t ++ rest) ≡ ok (text t, rest)
  reply-status t rest h =
      reply-whole (header b'+' t ++ rest) (ok (text t, rest))
        (head_of_read-header b'+' t rest (omega arith, h) ∙ unfold head_for in refl)

  -- The null array.
  pub reply-no_array :
      (rest : Text) → reply memory (header b'*' (decimal_ℤ (negsuc 0)) ++ rest) ≡ ok (nil, rest)
  reply-no_array rest = reply-whole (header b'*' (decimal_ℤ (negsuc 0)) ++ rest) (ok (nil, rest)) (
      head_of_read-header b'*' (decimal_ℤ (negsuc 0)) rest (omega arith, decimal_ℤ-Above (negsuc 0))
      ∙ unfold head_for in
        ap (λ o. array_head memory (count_of o) rest) (parse_int-decimal_ℤ (negsuc 0) (omega arith))
        ∙ unfold array_head count_of in refl)
