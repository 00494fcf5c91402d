-- ===== src/Buffer/Calls.antt =====
-- The calls of the pooled buffer of pkg/structs/buffer/pooled.go in any order.
use framingo.Prelude.{
  ℕ, ◌≡◌, inl, inr, List, [], ◌∷◌, Bool, true, false, length, Outcome, ok, err, panics, arith,
  Bool-cases,
}
use framingo.Prelude.Int.{ℤ, pos, negsuc, ◌+ℤ◌}
use framingo.Buffer.Pool.{put}
use framingo.Buffer.Pooled.{
  Pooled, Error, is_closed, invalid_whence, Whence, seek_start, seek_current, seek_end, seek_other,
  write, read, close, reset, reset_read, seek, seek_to, available,
}
use framingo.Buffer.Stream.{IsValid, write-unread}

pub data BufferCall (T : Type 0) : Type 0 where
  writes : List T → Bool → BufferCall T
  reads : ℕ → BufferCall T
  closes : BufferCall T
  resets : BufferCall T
  resets_read : BufferCall T
  seeks : ℤ → Whence → BufferCall T

module _ {T : Type 0} where
  -- A call that fails leaves the buffer as it was.
  abbrev pub after : {R : Type 0} → Pooled T → Outcome Error (R × Pooled T) → Pooled T
  after b (ok r) = r.1
  after b (err e) = b
  after b panics = b

  unfoldable pub call : Pooled T → BufferCall T → Pooled T
  call b (writes p reuse) = after b (write b p reuse)
  call b (reads n) = after b (read b n)
  call b closes = close b
  call b resets = reset b
  call b resets_read = reset_read b
  call b (seeks offset whence) = after b (seek b offset whence)

  -- A closed buffer refuses all three.
  closed_refuses :
      (b : Pooled T)
      → b.closed ≡ true
      → ((p : List T) (reuse : Bool) → write b p reuse ≡ err is_closed)
        × ((n : ℕ) → read b n ≡ err is_closed)
        × ((z : ℤ) (w : Whence) → seek b z w ≡ err is_closed)
  unfolding write read seek
  closed_refuses b shut = (λ p reuse. ground arith, λ n. ground arith, λ z w. ground arith)

  write-IsValid :
      (b : Pooled T) (p : List T) (reuse : Bool) → IsValid b → IsValid (after b (write b p reuse))
  write-IsValid b p reuse v = elim (Bool-cases b.closed) [
    | inl shut ↦ rw ((closed_refuses b shut).0 p reuse) v
    | inr works ↦ let (b', e, v', _, _, _) = write-unread b p reuse v works in rw e v'
  ]

  read-IsValid : (b : Pooled T) (n : ℕ) → IsValid b → IsValid (after b (read b n))
  unfolding read
  read-IsValid b n v = ground arith

  seek_to-IsValid : (b : Pooled T) (z : ℤ) → IsValid b → IsValid (after b (seek_to b z))
  seek_to-IsValid b (negsuc n) v = v
  seek_to-IsValid b (pos n) v = ground arith

  seek-seek_to :
      (b : Pooled T) (z : ℤ)
      → b.closed ≡ false
      → (seek b z seek_start ≡ seek_to b z)
        × (seek b z seek_current ≡ seek_to b (pos b.position +ℤ z))
        × (seek b z seek_end ≡ seek_to b (pos (length b.elements) +ℤ z))
        × ((other : ℤ) → seek b z (seek_other other) ≡ err invalid_whence)
  unfolding seek
  seek-seek_to b z works =
      (rw (works, seek), rw (works, seek), rw (works, seek), λ other. rw (works, seek))

  seek-IsValid : (b : Pooled T) (z : ℤ) (w : Whence) → IsValid b → IsValid (after b (seek b z w))
  seek-IsValid b z w v = elim (Bool-cases b.closed) [
    | inl shut ↦ rw ((closed_refuses b shut).2 z w) v
    | inr works ↦ by_whence works w
  ]
    where
      by_whence : b.closed ≡ false → (w' : Whence) → IsValid (after b (seek b z w'))
      by_whence works seek_start = rw ((seek-seek_to b z works).0) (seek_to-IsValid b z v)
      by_whence works seek_current =
          rw ((seek-seek_to b z works).1) (seek_to-IsValid b (pos b.position +ℤ z) v)
      by_whence works seek_end =
          rw ((seek-seek_to b z works).2) (seek_to-IsValid b (pos (length b.elements) +ℤ z) v)
      by_whence works (seek_other other) = rw ((seek-seek_to b z works).3 other) v

  pub call-IsValid : (b : Pooled T) (c : BufferCall T) → IsValid b → IsValid (call b c)
  unfolding call close reset reset_read
  call-IsValid b (writes p reuse) v = write-IsValid b p reuse v
  call-IsValid b (reads n) v = read-IsValid b n v
  call-IsValid b closes v = ground arith
  call-IsValid b resets v = ground arith
  call-IsValid b resets_read v = ground arith
  call-IsValid b (seeks z w) v = seek-IsValid b z w v

  unfoldable pub calls : Pooled T → List (BufferCall T) → Pooled T
  calls b [] = b
  calls b (c ∷ cs) = calls (call b c) cs

  -- Whatever calls follow on a valid buffer, seeks and failing calls included, its slice stays
  -- within its capacity and, until it is closed, its read position within the slice.
  pub calls-IsValid : (b : Pooled T) (cs : List (BufferCall T)) → IsValid b → IsValid (calls b cs)
  unfolding calls
  calls-IsValid b [] v = v
  calls-IsValid b (c ∷ cs) v = calls-IsValid (call b c) cs (call-IsValid b c v)

  -- `Close` gives the slice back to the pool, once: closing again changes nothing.
  pub close-close :
      (b : Pooled T)
      → b.closed ≡ false
      → (close (close b) ≡ close b)
        × ((close b).pool ≡ put b.pool b.capacity)
        × (available (close b) ≡ 0)
  unfolding close available
  close-close b works = ground arith
