-- ===== src/Queue/Swap.antt =====
-- What a swap, a write and a read do to the two buffers of pkg/structs/queue/buffered.go.
use framingo.Prelude.{
  ℕ, suc, ◌≡◌, refl, sym, ap, ◌∙◌, inl, inr, List, [], ◌∷◌, ◌++◌, Bool, true, false, ◌==◌,
  if◌then◌else◌, take, drop, ok, err, arith, Bool-cases, drop-length, append-nil, append_assoc,
  take-append-drop,
}
use framingo.Buffer.Pooled
use framingo.Buffer.Pooled.{Pooled, available, len}
use framingo.Buffer.Pool.{new_pool}
use framingo.Buffer.Pooled.{new_pooled}
use framingo.Buffer.Stream.{new_pooled-IsValid, IsValid, unread, write-unread, read-unread}
use framingo.Queue.{
  new_buffered, Buffered, queue_closed, can_swap, do_swap, lift, write, reset_if_empty,
  read_swapped, after_write, after_read,
}

module _ {T : Type 0} where
  -- Until `Close` is through, both buffers are open and valid, and nothing was read from the one
  -- that is written.
  pub record Inv (q : Buffered T) : Type 0 where
    pub write_valid : IsValid q.write_buffer
    pub read_valid : IsValid q.read_buffer
    pub write_open : q.write_buffer.closed ≡ false
    pub read_open : q.read_buffer.closed ≡ false
    pub write_start : q.write_buffer.position ≡ 0

  -- What is in the queue, the oldest first.
  abbrev pub content : Buffered T → List T
  content q = unread q.read_buffer ++ unread q.write_buffer

  pub unread-empty : (b : Pooled T) → b.closed ≡ false → (available b == 0) ≡ true → unread b ≡ []
  unfolding available
  unread-empty b o e = drop-length b.position b.elements (ground arith)

  reset-open :
      (b : Pooled T) → b.closed ≡ false → Pooled.reset b ≡ record b { elements = []; position = 0 }
  unfolding Pooled.reset
  reset-open b o = ground arith

  reset-IsValid :
      (b : Pooled T)
      → b.closed ≡ false
      → IsValid (Pooled.reset b)
        × ((Pooled.reset b).closed ≡ false)
        × ((Pooled.reset b).position ≡ 0)
        × (unread (Pooled.reset b) ≡ [])
  unfolding Pooled.reset
  reset-IsValid b o = ground arith

  -- The queue satisfies the invariant and holds `c`.
  abbrev pub Holds : List T → Buffered T → Type 0
  Holds c q = Inv q × (content q ≡ c)

  pub do_swap-Holds : (q : Buffered T) → Inv q → Holds (content q) (do_swap q)
  unfolding do_swap
  do_swap-Holds q i = elim (Bool-cases (can_swap q)) [
    | inr stays ↦ rw (stays, do_swap) (i, refl)
    | inl swaps ↦
        let (v, o, p, e) = reset-IsValid q.read_buffer i.read_open in
        let none_left : unread q.read_buffer ≡ [] =
          unread-empty q.read_buffer i.read_open (ground arith) in
        rw (swaps, do_swap)
          (
            record {
              write_valid = v;
              read_valid = i.write_valid;
              write_open = o;
              read_open = i.write_open;
              write_start = p;
            },
            rw (e, none_left) (append-nil (unread q.write_buffer)),
          )
  ]

  pub swap_if-Holds :
      (q : Buffered T) → Inv q → Holds (content q) (if can_swap q then do_swap q else q)
  swap_if-Holds q i = elim (Bool-cases (can_swap q)) [
    | inr stays ↦ rw stays (i, refl)
    | inl swaps ↦ rw swaps (do_swap-Holds q i)
  ]

  -- What a write to the queue adds.
  abbrev pub accepted : Buffered T → List T → List T
  accepted q p = if q.cancelled then [] else p

  write-off :
      (q : Buffered T) (x : T) (xs : List T) (reuse : Bool)
      → q.cancelled ≡ true
      → write q (x ∷ xs) reuse ≡ err queue_closed
  unfolding write
  write-off q x xs reuse off = ground arith

  write-on :
      (q : Buffered T) (x : T) (xs : List T) (reuse : Bool) (n : ℕ) (b : Pooled T)
      → q.cancelled ≡ false
      → Pooled.write q.write_buffer (x ∷ xs) reuse ≡ ok (n, b)
      → let q' = record q { write_buffer = b } in
        write q (x ∷ xs) reuse ≡ ok (n, if can_swap q' then do_swap q' else q')
  unfolding write lift
  write-on q x xs reuse n b on e = ground arith

  pub write-Holds :
      (q : Buffered T) (p : List T) (reuse : Bool)
      → Inv q
      → Holds (content q ++ accepted q p) (after_write q (write q p reuse)).0
  write-Holds q [] reuse i = unfold write in (i, ground (arith, append-nil (content q)))
  write-Holds q (x ∷ xs) reuse i = elim (Bool-cases q.cancelled) [
    | inl off ↦ rw (write-off q x xs reuse off) (i, ground (arith, append-nil (content q)))
    | inr on ↦
        let (b, e, v, o, u, p) =
          write-unread q.write_buffer (x ∷ xs) reuse i.write_valid i.write_open in
        let q' : Buffered T = record q { write_buffer = b } in
        let i' : Inv q' = record {
          write_valid = v;
          read_valid = i.read_valid;
          write_open = o;
          read_open = i.read_open;
          write_start = p ∙ i.write_start;
        } in
        let (k, c) = swap_if-Holds q' i' in
        rw (write-on q x xs reuse _ b on e) (
          k,
          c
              ∙ ap (λ l. unread q.read_buffer ++ l) u
              ∙ sym (append_assoc (unread q.read_buffer) (unread q.write_buffer) (x ∷ xs))
              ∙ ap (λ l. content q ++ l) (ground arith),
        )
  ]

  reset_if_empty-keeps :
      (b : Pooled T)
      → IsValid b
      → b.closed ≡ false
      → IsValid (reset_if_empty b)
        × ((reset_if_empty b).closed ≡ false)
        × (unread (reset_if_empty b) ≡ unread b)
  reset_if_empty-keeps b v o = elim (Bool-cases (available b == 0)) [
    | inl drained ↦
        let (v', o', _, e) = reset-IsValid b o in
        rw drained (v', o', e ∙ sym (unread-empty b o drained))
    | inr more ↦ rw more (v, o, refl)
  ]

  read-drained :
      (q : Buffered T) (n : ℕ)
      → (available q.read_buffer == 0) ≡ true
      → after_read q (read_swapped q n) ≡ (q, [])
  unfolding read_swapped
  read-drained q n e = ground arith

  read-failed :
      (q : Buffered T) (n : ℕ) {x : Pooled.Error}
      → (available q.read_buffer == 0) ≡ false
      → Pooled.read q.read_buffer n ≡ err x
      → after_read q (read_swapped q n) ≡ (q, [])
  unfolding read_swapped lift
  read-failed q n e r = ground arith

  pub read-got :
      (q : Buffered T) (n : ℕ) (got : List T) (b : Pooled T)
      → (available q.read_buffer == 0) ≡ false
      → Pooled.read q.read_buffer n ≡ ok (got, b)
      → after_read q (read_swapped q n) ≡ (record q { read_buffer = reset_if_empty b }, got)
  unfolding read_swapped lift
  read-got q n got b e r = rw (e, read_swapped) (rw (r, lift))

  -- What was read and what is left make up what there was.
  abbrev pub Splits : List T → Buffered T × List T → Type 0
  Splits c r = Inv r.0 × (r.1 ++ content r.0 ≡ c)

  pub read_swapped-Splits :
      (q : Buffered T) (n : ℕ) → Inv q → Splits (content q) (after_read q (read_swapped q (suc n)))
  read_swapped-Splits q n i = elim (Bool-cases (available q.read_buffer == 0)) [
    | inl drained ↦ rw (read-drained q (suc n) drained) (i, refl)
    | inr more ↦ elim (read-unread q.read_buffer n i.read_valid i.read_open) [
      | inl (_, r) ↦ rw (read-failed q (suc n) more r) (i, refl)
      | inr (_, b, r, v, o, u) ↦
          let (v', o', u') = reset_if_empty-keeps b v o in
          let front = unread q.read_buffer in
          let back = unread q.write_buffer in
          rw (read-got q (suc n) _ b more r) (
            record {
              write_valid = i.write_valid;
              read_valid = v';
              write_open = i.write_open;
              read_open = o';
              write_start = i.write_start;
            },
            ap (λ l. take (suc n) front ++ (l ++ back)) (u' ∙ u)
                ∙ sym (append_assoc (take (suc n) front) (drop (suc n) front) back)
                ∙ ap (λ l. l ++ back) (take-append-drop (suc n) front),
          )
    ]
  ]

  pub new_buffered-Inv :
      (size : ℕ) (reuse reuse' : Bool) → Inv (new_buffered {T = T} size reuse reuse')
  unfolding new_buffered
  new_buffered-Inv size reuse reuse' = record {
    write_valid = new_pooled-IsValid size (new_pool []) reuse;
    read_valid = new_pooled-IsValid size (new_pool []) reuse';
    write_open = unfold new_pooled in refl;
    read_open = unfold new_pooled in refl;
    write_start = unfold new_pooled in refl;
  }
