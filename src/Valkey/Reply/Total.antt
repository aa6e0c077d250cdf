-- ===== src/Valkey/Reply/Total.antt =====
-- The rounds of parse_reply never run out, and what its results have to do with the input.
use virtualme.Prelude.{
  ℕ, zero, suc, ◌+◌, ◌≤◌, ◌<◌, ◌≡◌, refl, sym, ap, ◌∙◌, Option, none, some, [], ◌∷◌, ◌++◌,
  append_assoc, length-append, take-append-drop, take, drop, ltb, false, not, ◌⊎◌, inl, inr, ◌==◌,
  ==_iff, true, length, length-drop, arith, by_test,
}
use virtualme.Text.{Text}
use virtualme.Decimal.{ℤ, pos, negsuc, parse_int}
use virtualme.Valkey.Reply.{
  Value, Values, Memory, panicked, stuck, Result, ok, err, ◌>>=◌, line_before, read_line, body_of,
  read_bulk, bulk_reply, integer_reply, count_of, Head, whole, array_of, array_head, head_for,
  head_of_line, head_of_read, array_result, parse_reply, parse_items, reply,
}

abbrev IsTail : Text → Text → Type 0
IsTail rest input = (before : Text) × (input ≡ before ++ rest)

IsTail-append : (a b c : Text) → IsTail a b → IsTail b c → IsTail a c
IsTail-append a b c (x, e) (y, f) = (y ++ x, f ∙ ap (λ t. y ++ t) e ∙ sym (append_assoc y x a))

abbrev IsCut : Text → Option (Text × Text) → Type 0
IsCut input none = Unit
IsCut input (some (line, rest)) = input ≡ line ++ rest

line_before-IsCut :
    (c : ℕ) (t : Text) (o : Option (Text × Text)) → IsCut t o → IsCut (c ∷ t) (line_before c o)
unfolding line_before
line_before-IsCut c t none h = tt
line_before-IsCut c t (some (line, rest)) h = ap (λ (u : Text). c ∷ u) h

is_ten : (c : ℕ) (t : Text) → c == 10 ≡ true → IsCut (c ∷ t) (some (10 ∷ [], t))
is_ten c t e = ap (λ (d : ℕ). d ∷ t) ((==_iff c 10).0 e)

read_line-IsCut : (input : Text) → IsCut input (read_line input)
unfolding read_line
read_line-IsCut [] = tt
read_line-IsCut (c ∷ t) =
    by_test (IsCut (c ∷ t)) (c == 10) (λ e. is_ten c t e)
      (λ e. line_before-IsCut c t (read_line t) (read_line-IsCut t))

module _ (memory : Memory) where
  -- A number of bytes with their line end, or of items, that does not fit.
  abbrev IsTooLarge : ℕ → Type 0
  IsTooLarge n = (memory.bytes_fit (n + 2) ≡ false) ⊎ (memory.items_fit n ≡ false)

  -- From some place on, the input has a line whose body is such a number.
  abbrev AsksTooMuch : Text → Type 0
  AsksTooMuch input =
      (tail line rest : Text) × (n : ℕ) × IsTail tail input
      × (read_line tail ≡ some (line, rest))
      × (parse_int (body_of line) ≡ some (pos n))
      × IsTooLarge n

  AsksTooMuch-IsTail :
      (rest input : Text) → IsTail rest input → AsksTooMuch rest → AsksTooMuch input
  AsksTooMuch-IsTail rest input t (tail, line, later, n, u, e, f, g) =
      (tail, line, later, n, IsTail-append tail rest input u t, e, f, g)

  abbrev Left : ℕ → Text → Text → Type 0
  Left k input rest = IsTail rest input × (length rest + k ≤ length input)

  -- No lack of rounds: a value, which leaves a rest of the input that is shorter by `k` bytes at least,
  -- an error of the source, or the panic of a `make` for a number in the input that does not fit.
  abbrev pub Within : {A : Type 0} → ℕ → Text → Result (A × Text) → Type 0
  Within k input (ok (v, rest)) = Left k input rest
  Within k input (err e) = Unit
  Within k input panicked = AsksTooMuch input
  Within k input stuck = ⊥

  abbrev HeadWithin : Text → Head → Type 0
  HeadWithin input (whole r) = Within 3 input r
  HeadWithin input (array_of n rest) = Left 3 input rest

  Left-drop : (n : ℕ) (rest input : Text) → Left 3 input rest → Left 3 input (drop n rest)
  Left-drop n rest input (t, h) = (
    IsTail-append (drop n rest) rest input (take n rest, sym (take-append-drop n rest)) t,
    omega (arith, length-drop n rest),
  )

  -- What the number in the first line asks for.
  abbrev Asked : Option ℤ → Text → Type 0
  Asked o input = (n : ℕ) → o ≡ some (pos n) → IsTooLarge n → AsksTooMuch input

  bulk_reply-Within :
      (o : Option ℤ) (rest input : Text)
      → Asked o input
      → Left 3 input rest
      → Within 3 input (bulk_reply memory o rest)
  unfolding bulk_reply read_bulk
  bulk_reply-Within none rest input a h = tt
  bulk_reply-Within (some (negsuc n)) rest input a h = h
  bulk_reply-Within (some (pos n)) rest input a h =
      by_test (Within 3 input) (not (memory.bytes_fit (n + 2))) (λ e. a n refl (inl (ground arith)))
        (λ f.
          by_test (Within 3 input) (ltb (length rest) (n + 2)) (λ e. tt)
            (λ e. Left-drop (n + 2) rest input h))

  integer_reply-Within :
      (o : Option ℤ) (rest input : Text) → Left 3 input rest → Within 3 input (integer_reply o rest)
  unfolding integer_reply
  integer_reply-Within none rest input h = tt
  integer_reply-Within (some k) rest input h = h

  array_head-HeadWithin :
      (o : Option ℤ) (rest input : Text)
      → Asked o input
      → Left 3 input rest
      → HeadWithin input (array_head memory (count_of o) rest)
  unfolding array_head count_of
  array_head-HeadWithin none rest input a h = tt
  array_head-HeadWithin (some (negsuc n)) rest input a h = h
  array_head-HeadWithin (some (pos n)) rest input a h =
      by_test (HeadWithin input) (memory.items_fit n) (λ e. h) (λ e. a n refl (inr e))

  head_for-HeadWithin :
      (c : ℕ) (body rest input : Text)
      → Asked (parse_int body) input
      → Left 3 input rest
      → HeadWithin input (head_for memory c body rest)
  unfolding head_for
  head_for-HeadWithin c body rest input a h =
      by_test (HeadWithin input) (c == b'+') (λ e. h)
        (λ e.
          by_test (HeadWithin input) (c == b'-') (λ e. tt)
            (λ e.
              by_test (HeadWithin input) (c == b':')
                (λ e. integer_reply-Within (parse_int body) rest input h)
                (λ e.
                  by_test (HeadWithin input) (c == b'$')
                    (λ e. bulk_reply-Within (parse_int body) rest input a h)
                    (λ e.
                      by_test (HeadWithin input) (c == b'*')
                        (λ e. array_head-HeadWithin (parse_int body) rest input a h) (λ e. tt)))))

  head_of_line-HeadWithin :
      (line rest input : Text)
      → Asked (parse_int (body_of line)) input
      → input ≡ line ++ rest
      → HeadWithin input (head_of_line memory line rest)
  unfolding head_of_line
  head_of_line-HeadWithin [] rest input a h = tt
  head_of_line-HeadWithin (c ∷ t) rest input a h =
      let size : length input ≡ length (c ∷ t) + length rest =
        ap length h ∙ length-append (c ∷ t) rest in
      by_test (HeadWithin input) (ltb (length (c ∷ t)) 3) (λ e. tt)
        (λ e. head_for-HeadWithin c (body_of (c ∷ t)) rest input a ((c ∷ t, h), ground arith))

  head_of_read-HeadWithin :
      (input : Text) (o : Option (Text × Text))
      → read_line input ≡ o
      → IsCut input o
      → HeadWithin input (head_of_read memory o)
  unfolding head_of_read
  head_of_read-HeadWithin input none e h = tt
  head_of_read-HeadWithin input (some (line, rest)) e h =
      head_of_line-HeadWithin line rest input (λ n f g. (input, line, rest, n, ([], refl), e, f, g))
        h

  head-HeadWithin : (input : Text) → HeadWithin input (head_of_read memory (read_line input))
  head-HeadWithin input =
      head_of_read-HeadWithin input (read_line input) refl (read_line-IsCut input)

  array_result-Within :
      (k : ℕ) (input : Text) (r : Result (Values × Text))
      → Within k input r
      → Within k input (array_result r)
  unfolding array_result
  array_result-Within k input (ok (vs, rest)) h = h
  array_result-Within k input (err e) h = h
  array_result-Within k input panicked h = h
  array_result-Within k input stuck h = h

  after-Within :
      {A B : Type 0} (k : ℕ) (input : Text) (r : Result (A × Text))
      (f : (A × Text) → Result (B × Text))
      → Within k input r
      → ((a : A) (rest : Text) → Left k input rest → Within 0 input (f (a, rest)))
      → Within 0 input (r >>= f)
  after-Within k input (ok (a, rest)) f h g = g a rest h
  after-Within k input (err e) f h g = tt
  after-Within k input panicked f h g = h
  after-Within k input stuck f h g = h

  -- What holds of a rest of the input holds of the input.
  Within-Left :
      {A : Type 0} (k : ℕ) (rest input : Text) (r : Result (A × Text))
      → Left k input rest
      → Within 0 rest r
      → Within k input r
  Within-Left k rest input (ok (v, later)) (t, h) (u, g) =
      (IsTail-append later rest input u t, omega arith)
  Within-Left k rest input (err e) t h = tt
  Within-Left k rest input panicked t h = AsksTooMuch-IsTail rest input (t.0) h
  Within-Left k rest input stuck t h = h

  Left-zero : (k : ℕ) (rest input : Text) → Left k input rest → Left 0 input rest
  Left-zero k rest input (t, h) = (t, omega arith)

  mutual
    unfolding parse_reply

    parse_reply-Within :
        (rounds : ℕ) (input : Text)
        → length input < rounds
        → Within 3 input (parse_reply memory rounds input)
    parse_reply-Within zero input h = absurd (omega arith)
    parse_reply-Within (suc rounds) input h =
        elim (head_of_read memory (read_line input))
            as (λ head.
              HeadWithin input head
              → Within 3 input (elim head as (λ x. Result (Value × Text)) [
                | whole r ↦ r
                | array_of n rest ↦ array_result (parse_items memory rounds n rest)
              ])) [
                | whole r ↦ λ w. w
                | array_of n rest ↦ λ w.
                    array_result-Within 3 input (parse_items memory rounds n rest) (
                      Within-Left 3 rest input (parse_items memory rounds n rest) w
                        (parse_items-Within rounds n rest (let (t, le) = w in omega arith)))
              ]
          (head-HeadWithin input)

    parse_items-Within :
        (rounds n : ℕ) (input : Text)
        → length input + 2 ≤ rounds
        → Within 0 input (parse_items memory rounds n input)
    parse_items-Within zero n input h = absurd (omega arith)
    parse_items-Within (suc rounds) zero input h = (([], refl), omega arith)
    parse_items-Within (suc rounds) (suc n) input h =
        after-Within 3 input (parse_reply memory rounds input) _
          (parse_reply-Within rounds input (omega arith))
          (λ v rest w.
            after-Within 0 input (parse_items memory rounds n rest) _
              (Within-Left 0 rest input (parse_items memory rounds n rest)
                (Left-zero 3 rest input w)
                (parse_items-Within rounds n rest (let (t, le) = w in omega arith)))
              (λ vs rest' w'. w'))

  -- For every input, reply reads it in the rounds it is given: its result is a value, which leaves an
  -- end of the input that is at least three bytes shorter, an error of the source, or the panic of a
  -- `make`, and then some line of the input has a number of bytes or items that does not fit the
  -- memory.
  pub reply-Within : (input : Text) → Within 3 input (reply memory input)
  unfolding reply
  reply-Within input = parse_reply-Within (length input + 1) input (omega arith)
