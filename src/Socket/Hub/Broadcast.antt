-- ===== src/Socket/Hub/Broadcast.antt =====
-- What Broadcast does to each connection.
use virtualme.Prelude.{
  ℕ, zero, suc, ◌+◌, ◌<◌, ◌≡◌, refl, sym, ap, ◌∙◌, Bool, true, false, not, ◌&&◌, List, [], ◌∷◌,
  ◌++◌, append_assoc, append-nil, ltb, leb, ◌==◌, if◌then◌else◌, arith, by_test, Bool-cases, inl,
  inr, ◌⊎◌,
}
use virtualme.Text.{Text}
use virtualme.Socket.Hub.{
  Hub, one_if, count, remove, close, write_text, drop_conn, send_all, broadcast,
}
use virtualme.Socket.Hub.Once.{count-delete, this_or_other, IsCounted, send_all-IsCounted}

-- The frames to a connection, in order.
abbrev pub texts_to : ℕ → List (ℕ × Text) → List Text
texts_to n [] = []
texts_to n ((c, t) ∷ sent) = (if c == n then t ∷ [] else []) ++ texts_to n sent

abbrev pub copies : ℕ → Text → List Text
copies zero t = []
copies (suc k) t = t ∷ copies k t

remove-conns :
    (n c : ℕ) (h : Hub) → count n (remove c h).conns ≡ (if c == n then 0 else count n h.conns)
unfolding remove
remove-conns n c h =
    by_test (λ (g : Hub). count n g.conns ≡ (if c == n then 0 else count n h.conns))
      (ltb 0 (count c h.conns)) (λ e. count-delete n c h.conns)
      (λ e. elim (this_or_other c n) [
        | inl same ↦ ground (arith, ap (λ m. count m h.conns) same)
        | inr other ↦ ground arith
      ])

-- What a change leaves alone.
record Keeps (h g : Hub) : Type 0 where
  conns : g.conns ≡ h.conns
  next_id : g.next_id ≡ h.next_id
  sent : g.sent ≡ h.sent

close-Keeps : (c : ℕ) (h : Hub) → Keeps h (close c h)
unfolding close
close-Keeps c h =
    by_test (Keeps h) (ltb 0 (count c h.closed))
      (λ e. record { conns = refl; next_id = refl; sent = refl })
      (λ e. record { conns = refl; next_id = refl; sent = refl })

remove-sent : (c : ℕ) (h : Hub) → ((remove c h).sent ≡ h.sent) × ((remove c h).next_id ≡ h.next_id)
unfolding remove
remove-sent c h =
    by_test (λ (g : Hub). (g.sent ≡ h.sent) × (g.next_id ≡ h.next_id)) (ltb 0 (count c h.conns))
      (λ e. (refl, refl)) (λ e. (refl, refl))

drop_conn-conns :
    (n c : ℕ) (h : Hub) → count n (drop_conn c h).conns ≡ (if c == n then 0 else count n h.conns)
unfolding drop_conn
drop_conn-conns n c h =
    let k = close-Keeps c (remove c h) in ap (count n) k.conns ∙ remove-conns n c h

drop_conn-sent :
    (c : ℕ) (h : Hub) → ((drop_conn c h).sent ≡ h.sent) × ((drop_conn c h).next_id ≡ h.next_id)
unfolding drop_conn
drop_conn-sent c h =
    let k = close-Keeps c (remove c h) in
    (k.sent ∙ (remove-sent c h).0, k.next_id ∙ (remove-sent c h).1)

texts_to-append :
    (n : ℕ) (a b : List (ℕ × Text)) → texts_to n (a ++ b) ≡ texts_to n a ++ texts_to n b
texts_to-append n [] b = refl
texts_to-append n ((c, t) ∷ a) b =
    ap (λ r. (if c == n then t ∷ [] else []) ++ r) (texts_to-append n a b)
    ∙ sym (append_assoc (if c == n then t ∷ [] else []) (texts_to n a) (texts_to n b))

clash : (b : Bool) → b ≡ not b → ⊥
clash true h = cc
clash false h = cc

-- One round, for a connection whose write succeeds, or for one whose write fails.
abbrev after_one : (ℕ → Bool) → Text → ℕ → Hub → Hub
after_one written payload c h = if written c then write_text c payload h else drop_conn c h

record Delivered (n k : ℕ) (payload : Text) (h g : Hub) : Type 0 where
  kept : count n g.conns ≡ count n h.conns
  got : texts_to n g.sent ≡ texts_to n h.sent ++ copies k payload

record Dropped (n k : ℕ) (h g : Hub) : Type 0 where
  gone : 0 < k → count n g.conns ≡ 0
  still_gone : count n h.conns ≡ 0 → count n g.conns ≡ 0
  nothing : texts_to n g.sent ≡ texts_to n h.sent

one_copy : (b : Bool) (t : Text) → (if b then t ∷ [] else []) ++ [] ≡ copies (one_if b) t
one_copy true t = refl
one_copy false t = refl

copies-one_if :
    (b : Bool) (k : ℕ) (t : Text) → copies (one_if b + k) t ≡ copies (one_if b) t ++ copies k t
copies-one_if true k t = ap (λ m. copies m t) {y = suc k} (omega arith)
copies-one_if false k t = ap (λ m. copies m t) {y = k} (omega arith)

-- Connections whose writes have different results are not the same.
other :
    (written : ℕ → Bool) (c n : ℕ) (b : Bool) → written c ≡ b → written n ≡ not b → (c == n) ≡ false
other written c n b hc hn = elim (this_or_other c n) [
  | inl same ↦ absurd (clash b (sym hc ∙ ap written same ∙ hn))
  | inr e ↦ e
]

after_one-Delivered :
    (written : ℕ → Bool) (payload : Text) (n c : ℕ) (h : Hub)
    → written n ≡ true
    → Delivered n (one_if (c == n)) payload h (after_one written payload c h)
unfolding write_text
after_one-Delivered written payload n c h w =
    by_test (Delivered n (one_if (c == n)) payload h) (written c)
      (λ e. record {
        kept = refl;
        got =
            texts_to-append n h.sent ((c, payload) ∷ [])
            ∙ ap (λ r. texts_to n h.sent ++ r) (one_copy (c == n) payload);
      })
      (λ e.
        let o = other written c n false e w in
        record {
          kept = drop_conn-conns n c h ∙ rw o refl;
          got =
              ap (texts_to n) ((drop_conn-sent c h).0)
              ∙ rw o (sym (append-nil (texts_to n h.sent)));
        })

after_one-Dropped :
    (written : ℕ → Bool) (payload : Text) (n c : ℕ) (h : Hub)
    → written n ≡ false
    → Dropped n (one_if (c == n)) h (after_one written payload c h)
unfolding write_text
after_one-Dropped written payload n c h w =
    by_test (Dropped n (one_if (c == n)) h) (written c)
      (λ e.
        let o = other written c n true e w in
        record {
          gone = λ k. absurd (ground arith);
          still_gone = λ k. k;
          nothing =
              texts_to-append n h.sent ((c, payload) ∷ []) ∙ rw o (append-nil (texts_to n h.sent));
        })
      (λ e. record {
        gone = λ k. ground (arith, drop_conn-conns n c h);
        still_gone = λ k. ground (arith, drop_conn-conns n c h);
        nothing = ap (texts_to n) ((drop_conn-sent c h).0);
      })

send_all-Delivered :
    (written : ℕ → Bool) (payload : Text) (n : ℕ) (cs : List ℕ) (h : Hub)
    → written n ≡ true
    → Delivered n (count n cs) payload h (send_all written payload cs h)
unfolding send_all count
send_all-Delivered written payload n [] h w = record {
  kept = refl;
  got = sym (append-nil (texts_to n h.sent));
}
send_all-Delivered written payload n (c ∷ cs) h w =
    let first = after_one-Delivered written payload n c h w in
    let later = send_all-Delivered written payload n cs (after_one written payload c h) w in
    record {
      kept = later.kept ∙ first.kept;
      got =
          later.got
          ∙ ap (λ r. r ++ copies (count n cs) payload) first.got
          ∙ append_assoc (texts_to n h.sent) (copies (one_if (c == n)) payload)
              (copies (count n cs) payload)
          ∙ ap (λ r. texts_to n h.sent ++ r) (sym (copies-one_if (c == n) (count n cs) payload));
    }

send_all-Dropped :
    (written : ℕ → Bool) (payload : Text) (n : ℕ) (cs : List ℕ) (h : Hub)
    → written n ≡ false
    → Dropped n (count n cs) h (send_all written payload cs h)
unfolding send_all count
send_all-Dropped written payload n [] h w = record {
  gone = λ k. absurd (omega arith);
  still_gone = λ k. k;
  nothing = refl;
}
send_all-Dropped written payload n (c ∷ cs) h w =
    let first = after_one-Dropped written payload n c h w in
    let later = send_all-Dropped written payload n cs (after_one written payload c h) w in
    record {
      gone = λ k. elim (Bool-cases (c == n)) [
        | inl same ↦ later.still_gone (first.gone (rw same (omega arith)))
        | inr o ↦ later.gone (ground arith)
      ];
      still_gone = λ k. later.still_gone (first.still_gone k);
      nothing = later.nothing ∙ first.nothing;
    }

after_one-next_id :
    (written : ℕ → Bool) (payload : Text) (c : ℕ) (h : Hub)
    → (after_one written payload c h).next_id ≡ h.next_id
unfolding write_text
after_one-next_id written payload c h =
    by_test (λ (g : Hub). g.next_id ≡ h.next_id) (written c) (λ e. refl)
      (λ e. (drop_conn-sent c h).1)

send_all-next_id :
    (written : ℕ → Bool) (payload : Text) (cs : List ℕ) (h : Hub)
    → (send_all written payload cs h).next_id ≡ h.next_id
unfolding send_all
send_all-next_id written payload [] h = refl
send_all-next_id written payload (c ∷ cs) h =
    send_all-next_id written payload cs (after_one written payload c h)
    ∙ after_one-next_id written payload c h

zero_or_more : (k : ℕ) → (k ≡ 0) ⊎ (0 < k)
zero_or_more k = ground arith

-- A connection whose write succeeds stays, and gets the frame as often as it is in the hub.
abbrev pub IsReached : ℕ → Text → Hub → Hub → Type 0
IsReached n payload h g =
    (count n g.conns ≡ count n h.conns)
    × (texts_to n g.sent ≡ texts_to n h.sent ++ copies (count n h.conns) payload)

-- One whose write fails is no longer in the hub, gets nothing, and is reported if it was there.
abbrev pub IsLost : ℕ → Hub → Hub → Type 0
IsLost n h g =
    (count n g.conns ≡ 0)
    × (texts_to n g.sent ≡ texts_to n h.sent)
    × (count n g.disconnected ≡ count n h.disconnected + count n h.conns)

broadcast-IsReached :
    (written : ℕ → Bool) (payload : Text) (h : Hub) (n : ℕ)
    → written n ≡ true
    → IsReached n payload h (broadcast written payload h)
unfolding broadcast
broadcast-IsReached written payload h n w =
    let d = send_all-Delivered written payload n h.conns h w in (d.kept, d.got)

broadcast-IsLost :
    (written : ℕ → Bool) (payload : Text) (h : Hub) (n : ℕ)
    → IsCounted h n
    → written n ≡ false
    → IsLost n h (broadcast written payload h)
unfolding broadcast
broadcast-IsLost written payload h n i w =
    let d = send_all-Dropped written payload n h.conns h w in
    let after = send_all-IsCounted written payload h.conns h n i in
    let known =
      ap (λ m. one_if (ltb 0 n && leb n m)) (send_all-next_id written payload h.conns h) in
    let gone : count n (send_all written payload h.conns h).conns ≡ 0 =
      elim (zero_or_more (count n h.conns)) [ inl z ↦ d.still_gone z | inr m ↦ d.gone m ] in
    (gone, d.nothing, omega (arith, gone, after.once, i.once, known))

-- In a hub of which IsCounted holds, Broadcast writes the frame to every registered connection whose
-- write succeeds, once for each time it is registered, and keeps it; a connection whose write fails is
-- removed and reported to onDisconnect as often as it was registered, and gets nothing.
pub broadcast-outcomes :
    (written : ℕ → Bool) (payload : Text) (h : Hub) (n : ℕ)
    → IsCounted h n
    → (written n ≡ true → IsReached n payload h (broadcast written payload h))
      × (written n ≡ false → IsLost n h (broadcast written payload h))
broadcast-outcomes written payload h n i =
    (broadcast-IsReached written payload h n, broadcast-IsLost written payload h n i)
