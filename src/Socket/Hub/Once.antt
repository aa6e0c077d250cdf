-- ===== src/Socket/Hub/Once.antt =====
-- Every connection is in the hub or has been reported as gone, once.
use virtualme.Prelude.{
  ℕ, ◌+◌, ◌≤◌, ◌≡◌, Bool, true, false, ◌&&◌, List, [], ◌∷◌, ltb, leb, ◌==◌, if◌then◌else◌, arith,
  by_test, ◌⊎◌, inl, inr, ap,
}
use virtualme.Text.{Text}
use virtualme.Socket.Hub.{
  Hub, new_hub, one_if, count, delete, register, remove, close, write_text, drop_conn, send_all,
  broadcast, send_to, Step, upgraded, refused_frame, loop_ended, broadcasting, sending, step, run,
}

pub count-delete :
    (n c : ℕ) (cs : List ℕ) → count n (delete c cs) ≡ (if c == n then 0 else count n cs)
unfolding count delete
count-delete n c [] = ground arith
count-delete n c (d ∷ cs) = ground (arith, count-delete n c cs)

-- For each number up to the last one given, the connection is in the hub or the hook was called for
-- it, once in all; those of the hook are closed, and none is closed twice.
pub record IsCounted (h : Hub) (n : ℕ) : Type 0 where
  pub once : count n h.conns + count n h.disconnected ≡ one_if (ltb 0 n && leb n h.next_id)
  pub gone_closed : count n h.disconnected ≤ count n h.closed
  pub closed_once : count n h.closed ≤ 1

register-IsCounted : (h : Hub) (n : ℕ) → IsCounted h n → IsCounted (register h) n
unfolding register count
register-IsCounted h n i = record {
  once = ground (arith, i.once);
  gone_closed = i.gone_closed;
  closed_once = i.closed_once;
}

new_hub-IsCounted : (n : ℕ) → IsCounted new_hub n
unfolding count
new_hub-IsCounted n = record {
  once = ground arith;
  gone_closed = omega arith;
  closed_once = omega arith;
}

-- Between the removal of a connection and its close.
record IsLeaving (c : ℕ) (h : Hub) (n : ℕ) : Type 0 where
  once : count n h.conns + count n h.disconnected ≡ one_if (ltb 0 n && leb n h.next_id)
  gone_closed : count n h.disconnected ≤ count n h.closed + one_if (c == n)
  closed_once : count n h.closed ≤ 1

at_most_one : (b : Bool) → one_if b ≤ 1
at_most_one true = omega arith
at_most_one false = omega arith

-- A number is the connection in question, and then has its counts, or is another one.
pub this_or_other : (c n : ℕ) → (c ≡ n) ⊎ ((c == n) ≡ false)
this_or_other c n = ground arith

close-IsCounted : (c : ℕ) (h : Hub) (n : ℕ) → IsLeaving c h n → IsCounted (close c h) n
unfolding close count
close-IsCounted c h n i =
    let few = at_most_one (ltb 0 n && leb n h.next_id) in
    by_test (λ g. IsCounted g n) (ltb 0 (count c h.closed))
      (λ e. record {
        once = i.once;
        closed_once = i.closed_once;
        gone_closed = elim (this_or_other c n) [
          | inl same ↦ ground (arith, ap (λ m. count m h.closed) same, i.once)
          | inr other ↦ ground (arith, i.gone_closed)
        ];
      })
      (λ e. record {
        once = i.once;
        gone_closed = ground (arith, i.gone_closed);
        closed_once = elim (this_or_other c n) [
          | inl same ↦ ground (arith, ap (λ m. count m h.closed) same)
          | inr other ↦ ground (arith, i.closed_once)
        ];
      })

IsCounted-IsLeaving : (c : ℕ) (h : Hub) (n : ℕ) → IsCounted h n → IsLeaving c h n
IsCounted-IsLeaving c h n i = record {
  once = i.once;
  gone_closed = omega (arith, i.gone_closed);
  closed_once = i.closed_once;
}

remove-IsLeaving : (c : ℕ) (h : Hub) (n : ℕ) → IsCounted h n → IsLeaving c (remove c h) n
unfolding remove count
remove-IsLeaving c h n i =
    let few = at_most_one (ltb 0 n && leb n h.next_id) in
    by_test (λ g. IsLeaving c g n) (ltb 0 (count c h.conns))
      (λ e. record {
        once = elim (this_or_other c n) [
          | inl same ↦
              ground (arith, count-delete n c h.conns, ap (λ m. count m h.conns) same, i.once)
          | inr other ↦ ground (arith, count-delete n c h.conns, i.once)
        ];
        gone_closed = ground (arith, i.gone_closed);
        closed_once = i.closed_once;
      })
      (λ e. IsCounted-IsLeaving c h n i)

drop_conn-IsCounted : (c : ℕ) (h : Hub) (n : ℕ) → IsCounted h n → IsCounted (drop_conn c h) n
unfolding drop_conn
drop_conn-IsCounted c h n i = close-IsCounted c (remove c h) n (remove-IsLeaving c h n i)

write_text-IsCounted :
    (c : ℕ) (payload : Text) (h : Hub) (n : ℕ)
    → IsCounted h n
    → IsCounted (write_text c payload h) n
unfolding write_text
write_text-IsCounted c payload h n i = record {
  once = i.once;
  gone_closed = i.gone_closed;
  closed_once = i.closed_once;
}

pub send_all-IsCounted :
    (written : ℕ → Bool) (payload : Text) (cs : List ℕ) (h : Hub) (n : ℕ)
    → IsCounted h n
    → IsCounted (send_all written payload cs h) n
unfolding send_all
send_all-IsCounted written payload [] h n i = i
send_all-IsCounted written payload (c ∷ cs) h n i = send_all-IsCounted written payload cs _ n (
    by_test (λ g. IsCounted g n) (written c) (λ e. write_text-IsCounted c payload h n i)
      (λ e. drop_conn-IsCounted c h n i))

send_to-IsCounted :
    (written : Bool) (c : ℕ) (payload : Text) (h : Hub) (n : ℕ)
    → IsCounted h n
    → IsCounted ((send_to written c payload h).1) n
unfolding send_to
send_to-IsCounted written c payload h n i =
    by_test (λ (r : Bool × Hub). IsCounted (r.1) n) (ltb 0 (count c h.conns))
      (λ e.
        by_test (λ (r : Bool × Hub). IsCounted (r.1) n) written
          (λ f. write_text-IsCounted c payload h n i) (λ f. drop_conn-IsCounted c h n i))
      (λ e. i)

step-IsCounted : (s : Step) (h : Hub) (n : ℕ) → IsCounted h n → IsCounted (step s h) n
unfolding step broadcast
step-IsCounted upgraded h n i = register-IsCounted h n i
step-IsCounted (refused_frame c) h n i = close-IsCounted c h n (IsCounted-IsLeaving c h n i)
step-IsCounted (loop_ended c) h n i = drop_conn-IsCounted c h n i
step-IsCounted (broadcasting written payload) h n i =
    send_all-IsCounted written payload h.conns h n i
step-IsCounted (sending written c payload) h n i = send_to-IsCounted written c payload h n i

pub run-IsCounted : (ss : List Step) (h : Hub) (n : ℕ) → IsCounted h n → IsCounted (run ss h) n
unfolding run
run-IsCounted [] h n i = i
run-IsCounted (s ∷ ss) h n i = run-IsCounted ss (step s h) n (step-IsCounted s h n i)

-- After any steps of a new hub, every connection that was given a number is in the hub or was reported
-- to onDisconnect, once in all; those reported are closed, and no connection is closed twice.
pub run-new_hub-IsCounted : (ss : List Step) (n : ℕ) → IsCounted (run ss new_hub) n
run-new_hub-IsCounted ss n = run-IsCounted ss new_hub n (new_hub-IsCounted n)
