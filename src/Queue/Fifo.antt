-- ===== src/Queue/Fifo.antt =====
-- The double buffer queue of pkg/structs/queue/buffered.go as a queue: what is written is read once
-- and in order, whichever buffer it passes through.
use framingo.Prelude.{
  ℕ, zero, suc, ◌≡◌, refl, sym, ap, subst, ◌∙◌, inl, inr, List, [], ◌∷◌, ◌++◌, Bool, true, false,
  ltb, ◌==◌, ◌&&◌, if◌then◌else◌, length, take, Outcome, ok, err, panics, arith, Bool-cases,
  if_cases, All, drop-length, length-drop, append-nil, append_assoc, ◌≢◌,
}
use framingo.Buffer.Pooled
use framingo.Buffer.Pooled.{Pooled, available, len}
use framingo.Buffer.Stream.{IsValid, unread, read-unread}
use framingo.Queue.{
  Buffered, Error, queue_closed, eof, Event, writes, reads, ticks, context_ends, loop_exits,
  closing, closed, can_swap, do_swap, write, read_swapped, read, swap_buffers, loop_exit,
  close_begin, close_end, after_write, after_read, step,
}
use framingo.Queue.Swap.{
  Inv, content, Holds, Splits, do_swap-Holds, swap_if-Holds, write-Holds, read_swapped-Splits,
  read-got, unread-empty, accepted,
}

module _ {T : Type 0} where
  read-positive :
      (q : Buffered T) (n : ℕ)
      → let q' = if can_swap q then do_swap q else q in
        read q (suc n) ≡ (q', read_swapped q' (suc n))
  unfolding read
  read-positive q n = ground arith

  read-Splits :
      (q : Buffered T) (n : ℕ) → Inv q → Splits (content q) (after_read (read q n).0 (read q n).1)
  read-Splits q zero i = unfold read in (i, refl)
  read-Splits q (suc n) i =
      let (i', c) = swap_if-Holds q i in
      let (k, d) = read_swapped-Splits (if can_swap q then do_swap q else q) n i' in
      rw (read-positive q n) (k, d ∙ c)

  write-silent : (q : Buffered T) (r : Outcome Error (ℕ × Buffered T)) → (after_write q r).1 ≡ []
  write-silent q (ok r) = refl
  write-silent q (err e) = refl
  write-silent q panics = refl

  -- A part of the state that does not matter here may change.
  abbrev SameBuffers : Buffered T → Buffered T → Type 0
  SameBuffers q q' = (q'.write_buffer ≡ q.write_buffer) × (q'.read_buffer ≡ q.read_buffer)

  SameBuffers-Splits :
      (q q' : Buffered T) → SameBuffers q q' → Inv q → Splits (content q ++ []) (q', [])
  SameBuffers-Splits q q' (w, r) i = (
    record {
      write_valid = subst IsValid (sym w) i.write_valid;
      read_valid = subst IsValid (sym r) i.read_valid;
      write_open = ap (λ b. b.closed) w ∙ i.write_open;
      read_open = ap (λ b. b.closed) r ∙ i.read_open;
      write_start = ap (λ b. b.position) w ∙ i.write_start;
    },
    ap (λ b. unread b ++ unread q'.write_buffer) r
        ∙ ap (λ b. unread q.read_buffer ++ unread b) w
        ∙ sym (append-nil (content q)),
  )

  Holds-Splits : (q q' : Buffered T) → Holds (content q) q' → Splits (content q ++ []) (q', [])
  Holds-Splits q q' (i, c) = (i, c ∙ sym (append-nil (content q)))

  -- What an event adds to the queue.
  abbrev pub added : Buffered T → Event T → List T
  added q (writes p reuse) = accepted q p
  added q _ = []

  Holds-loop_exit : (q : Buffered T) → Inv q → Holds (content q) (loop_exit q)
  unfolding loop_exit swap_buffers
  Holds-loop_exit q i =
      let (k, c) = do_swap-Holds q i in
      (
        record {
          write_valid = k.write_valid;
          read_valid = k.read_valid;
          write_open = k.write_open;
          read_open = k.read_open;
          write_start = k.write_start;
        },
        c,
      )

  step-Splits :
      (q : Buffered T) (e : Event T)
      → Inv q
      → e ≢ closed
      → Splits (content q ++ added q e) (step q e)
  unfolding step close_begin close_end
  step-Splits q (writes p reuse) i s =
      let (k, c) = write-Holds q p reuse i in (k, rw (write-silent q (write q p reuse)) c)
  step-Splits q (reads n) i s =
      let (k, c) = read-Splits q n i in (k, c ∙ sym (append-nil (content q)))
  step-Splits q ticks i s =
      if_cases (λ q'. Splits (content q ++ []) (q', [])) q.looping
        (λ _. unfold swap_buffers in Holds-Splits q (do_swap q) (do_swap-Holds q i))
        (λ _. SameBuffers-Splits q q (refl, refl) i)
  step-Splits q context_ends i s = SameBuffers-Splits q _ (refl, refl) i
  step-Splits q loop_exits i s =
      if_cases (λ q'. Splits (content q ++ []) (q', [])) (q.looping && q.context_done)
        (λ _. unfold loop_exit swap_buffers in (Holds-Splits q _ (Holds-loop_exit q i)))
        (λ _. SameBuffers-Splits q q (refl, refl) i)
  step-Splits q closing i s =
      if_cases (λ q'. Splits (content q ++ []) (q', [])) q.cancelled
        (λ _. SameBuffers-Splits q q (refl, refl) i) (λ _. SameBuffers-Splits q _ (refl, refl) i)
  step-Splits q closed i s = absurd (s refl)

  -- The outputs of a run, and what its writes added.
  unfoldable pub run : Buffered T → List (Event T) → Buffered T × List T × List T
  run q [] = (q, [], [])
  run q (e ∷ es) =
      let (q', out) = step q e in
      let (q'', outs, ins) = run q' es in (q'', out ++ outs, added q e ++ ins)

  -- From a queue that satisfies the invariant, whatever happens in whatever order until Close
  -- gives the buffers back: what was read and then what the queue holds is what it held at first
  -- and then what writes it accepted, in order.
  pub run-fifo :
      (q : Buffered T) (es : List (Event T))
      → Inv q
      → All (λ e. e ≢ closed) es
      → let (q', outs, ins) = run q es in outs ++ content q' ≡ content q ++ ins
  unfolding run
  run-fifo q [] i h = sym (append-nil (content q))
  run-fifo q (e ∷ es) i h =
      let (k, c) = step-Splits q e i h.0 in
      let rest = run-fifo (step q e).0 es k h.1 in
      let ins = (run (step q e).0 es).2 in
      append_assoc (step q e).1 _ _
      ∙ ap (λ l. (step q e).1 ++ l) rest
      ∙ sym (append_assoc (step q e).1 (content (step q e).0) _)
      ∙ ap (λ l. l ++ ins) c
      ∙ append_assoc (content q) (added q e) ins

  take-ne-nil : (n : ℕ) (xs : List T) → xs ≢ [] → take (suc n) xs ≢ []
  take-ne-nil n [] h e = h refl
  take-ne-nil n (x ∷ xs) h e = cc

  written-available :
      (b : Pooled T)
      → b.closed ≡ false
      → b.position ≡ 0
      → ltb 0 (len b) ≡ true
      → (available b == 0) ≡ false
  unfolding available len
  written-available b o p h = ground arith

  nothing_written : (b : Pooled T) → ltb 0 (len b) ≡ false → unread b ≡ []
  unfolding len
  nothing_written b h = drop-length b.position b.elements (ground arith)

  read_buffer-do_swap :
      (q : Buffered T) → can_swap q ≡ true → (do_swap q).read_buffer ≡ q.write_buffer
  unfolding do_swap
  read_buffer-do_swap q swaps = ground (arith, swaps)

  swapped-available :
      (q : Buffered T)
      → Inv q
      → content q ≢ []
      → (available (if can_swap q then do_swap q else q).read_buffer == 0) ≡ false
  swapped-available q i some_left =
      if_cases (λ q'. (available q'.read_buffer == 0) ≡ false) (can_swap q) {x = do_swap q} {y = q}
        (λ swaps.
          ap (λ b. available b == 0) (read_buffer-do_swap q swaps)
          ∙ written-available q.write_buffer i.write_open i.write_start (ground (arith, swaps)))
        (λ stays. elim (Bool-cases (available q.read_buffer == 0)) [
          | inl drained ↦ absurd (
              some_left (
                ap (λ l. l ++ unread q.write_buffer)
                  (unread-empty q.read_buffer i.read_open drained)
                ∙ nothing_written q.write_buffer (ground (arith, stays, drained))))
          | inr more ↦ more
        ])

  read_swapped-progress :
      (q : Buffered T) (n : ℕ)
      → Inv q
      → (available q.read_buffer == 0) ≡ false
      → (after_read q (read_swapped q (suc n))).1 ≢ []
  read_swapped-progress q n i more e = elim (read-unread q.read_buffer n i.read_valid i.read_open) [
    | inl (none_left, _) ↦
        unfold available in
        ground (
          arith,
          more,
          ap length none_left,
          length-drop q.read_buffer.position q.read_buffer.elements,
          i.read_open,
        )
    | inr (some_left, b, r, _, _, _) ↦
        take-ne-nil n (unread q.read_buffer) some_left
          (subst (λ r'. r'.1 ≡ []) (read-got q (suc n) _ b more r) e)
  ]

  -- On a queue that satisfies the invariant and holds something, a read into a slice of positive
  -- length gets something.
  pub read-progress :
      (q : Buffered T) (n : ℕ)
      → Inv q
      → content q ≢ []
      → (after_read (read q (suc n)).0 (read q (suc n)).1).1 ≢ []
  read-progress q n i some_left e =
      read_swapped-progress (if can_swap q then do_swap q else q) n (swap_if-Holds q i).0
        (swapped-available q i some_left)
        (subst (λ r. (after_read r.0 r.1).1 ≡ []) (read-positive q n) e)

  -- Once Close, on a queue that satisfies the invariant, has given the buffers back, a read into a
  -- slice of positive length reports the end of the data, also where the queue still held some,
  -- and a write of something is refused.
  pub close_end-refuses :
      (q : Buffered T) (n : ℕ) (x : T) (xs : List T) (reuse : Bool)
      → Inv q
      → q.cancelled ≡ true
      → (read (close_end q) (suc n) ≡ (close_end q, err eof))
        × (write (close_end q) (x ∷ xs) reuse ≡ err queue_closed)
  unfolding read read_swapped write close_end available len Pooled.close
  close_end-refuses q n x xs reuse i off = (ground (arith, i.read_open, i.write_open), ground arith)
