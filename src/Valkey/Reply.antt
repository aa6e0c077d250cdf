-- ===== src/Valkey/Reply.antt =====
-- The request that Client.do writes and parseReply, over the bytes that the connection delivers.
pub mod Total
pub mod Wire
use virtualme.Prelude.{
  ℕ, zero, suc, ◌+◌, ◌-◌, Bool, true, false, not, Option, none, some, List, [], ◌∷◌, ◌++◌, ltb, leb,
  ◌==◌, if◌then◌else◌, length, take, drop,
}
use virtualme.Text.{Text}
use virtualme.Decimal.{ℤ, pos, negsuc, decimal, parse_int}

-- What parseReply returns where Go has `any`.
mutual
  pub data Value : Type 0 where
    nil : Value
    text : Text → Value
    integer : ℤ → Value
    array : Values → Value

  pub data Values : Type 0 where
    end : Values
    item : Value → Values → Values

pub data Error : Type 0 where
  no_connection odd_pairs : Error
  end_of_input short_reply bad_number unknown_reply : Error
  -- an error reply of the server, or a reply of another type than the command's
  refused : Text → Error
  wrong_type : Error

pub data Result (A : Type 0) : Type 0 where
  ok : A → Result A
  err : Error → Result A
  -- no Go value: a `make` has panicked
  panicked : Result A
  -- no Go value: the rounds have run out
  stuck : Result A

-- Whether `make` returns a slice of so many bytes, or of so many values, or panics. It panics for a
-- number that is no int, where `length+2` has wrapped around.
pub record Memory : Type 0 where
  pub bytes_fit : ℕ → Bool
  pub items_fit : ℕ → Bool

infixl 5 ◌>>=◌ ◌>>◌
abbrev pub ◌>>=◌ : {A B : Type 0} → Result A → (A → Result B) → Result B
ok a >>= f = f a
err e >>= f = err e
panicked >>= f = panicked
stuck >>= f = stuck

abbrev pub ◌>>◌ : {A B : Type 0} → Result A → Result B → Result B
m >> k = m >>= λ _. k

abbrev pub crlf : Text
crlf = 13 ∷ 10 ∷ []

bulk : Text → Text
bulk arg = (b'$' ∷ decimal (length arg)) ++ (crlf ++ (arg ++ crlf))

bulks : List Text → Text
bulks [] = []
bulks (arg ∷ args) = bulk arg ++ bulks args

-- The request of Client.do.
unfoldable pub request : List Text → Text
unfolding bulks bulk
request args = (b'*' ∷ decimal (length args)) ++ (crlf ++ bulks args)

line_before : ℕ → Option (Text × Text) → Option (Text × Text)
line_before c none = none
line_before c (some (line, rest)) = some (c ∷ line, rest)

-- ReadString('\n'): the line with its end, and the rest.
unfoldable pub read_line : Text → Option (Text × Text)
unfolding line_before
read_line [] = none
read_line (c ∷ t) =
    let longer = line_before c (read_line t) in if c == 10 then some (10 ∷ [], t) else longer

-- The bytes between the first of the line and its last two.
unfoldable pub body_of : Text → Text
body_of line = take (length line - 3) (drop 1 line)

integer_reply : Option ℤ → Text → Result (Value × Text)
integer_reply none rest = err bad_number
integer_reply (some k) rest = ok (integer k, rest)

-- The count of an array's items; a negative one is for nil.
pub data Count : Type 0 where
  no_count : Count
  nil_count : Count
  items : ℕ → Count

count_of : Option ℤ → Count
count_of none = no_count
count_of (some (negsuc n)) = nil_count
count_of (some (pos n)) = items n

-- What the first line of a reply asks for.
pub data Head : Type 0 where
  whole : Result (Value × Text) → Head
  array_of : ℕ → Text → Head

pub array_result : Result (Values × Text) → Result (Value × Text)
array_result (ok (vs, rest)) = ok (array vs, rest)
array_result (err e) = err e
array_result panicked = panicked
array_result stuck = stuck

module _ (memory : Memory) where
  -- make and io.ReadFull of the payload with its end.
  read_bulk : ℕ → Text → Result (Value × Text)
  read_bulk n input =
      if not (memory.bytes_fit (n + 2))
      then panicked
      else if ltb (length input) (n + 2)
      then err end_of_input
      else ok (text (take n input), drop (n + 2) input)

  bulk_reply : Option ℤ → Text → Result (Value × Text)
  unfolding read_bulk
  bulk_reply none rest = err bad_number
  bulk_reply (some (negsuc n)) rest = ok (nil, rest)
  bulk_reply (some (pos n)) rest = read_bulk n rest

  array_head : Count → Text → Head
  array_head no_count rest = whole (err bad_number)
  array_head nil_count rest = whole (ok (nil, rest))
  array_head (items n) rest = if memory.items_fit n then array_of n rest else whole panicked

  -- By the type byte of the reply.
  head_for : ℕ → Text → Text → Head
  unfolding bulk_reply integer_reply count_of array_head
  head_for c body rest =
      if c == b'+'
      then whole (ok (text body, rest))
      else if c == b'-'
      then whole (err (refused body))
      else if c == b':'
      then whole (integer_reply (parse_int body) rest)
      else if c == b'$'
      then whole (bulk_reply (parse_int body) rest)
      else if c == b'*'
      then array_head (count_of (parse_int body)) rest
      else whole (err unknown_reply)

  head_of_line : Text → Text → Head
  unfolding head_for body_of
  head_of_line [] rest = whole (err short_reply)
  head_of_line (c ∷ t) rest =
      if ltb (length (c ∷ t)) 3 then whole (err short_reply) else head_for c (body_of (c ∷ t)) rest

  pub head_of_read : Option (Text × Text) → Head
  unfolding head_of_line
  head_of_read none = whole (err end_of_input)
  head_of_read (some (line, rest)) = head_of_line line rest

  -- parseReply, and the loop over the items of an array; each call takes a round.
  unfoldable mutual
    unfolding head_of_read read_line array_result

    pub parse_reply : ℕ → Text → Result (Value × Text)
    parse_reply zero input = stuck
    parse_reply (suc rounds) input = elim (head_of_read (read_line input)) [
      | whole r ↦ r
      | array_of n rest ↦ array_result (parse_items rounds n rest)
    ]

    pub parse_items : ℕ → ℕ → Text → Result (Values × Text)
    parse_items zero zero input = ok (end, input)
    parse_items zero (suc n) input = stuck
    parse_items (suc rounds) zero input = ok (end, input)
    parse_items (suc rounds) (suc n) input = do
      (v, rest) ← parse_reply rounds input
      (vs, rest') ← parse_items rounds n rest
      ok (item v vs, rest')

  -- Every reply takes three bytes at least, so these rounds are enough.
  unfoldable pub reply : Text → Result (Value × Text)
  unfolding parse_reply
  reply input = parse_reply (length input + 1) input
