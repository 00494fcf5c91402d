-- ===== src/Buffer/Stream.antt =====
-- The pooled buffer of pkg/structs/buffer/pooled.go as a stream: what is written is read once, in
-- order.
use framingo.Prelude.{
  ℕ, suc, ◌+◌, ◌-◌, ◌*◌, ◌≤◌, ◌≡◌, refl, sym, ap, ◌∙◌, ◌⊎◌, inl, inr, List, [], ◌∷◌, ◌++◌, Bool,
  false, ltb, leb, if◌then◌else◌, length, take, drop, ok, err, arith, min, Bool-cases,
  length-append, drop-append_left, drop-drop, drop-length, take-min, drop-min, leb→le, length-drop,
  ◌≢◌, append-nil,
}
use framingo.Buffer.Pool.{Pool, get-room}
use framingo.Buffer.Pooled.{Pooled, eof, new_pooled, grow, write, read}

module _ {T : Type 0} where
  -- The slice is within its capacity and, until the buffer is closed, the read position within the
  -- slice.
  pub record IsValid (b : Pooled T) : Type 0 where
    pub positioned : b.closed ≡ false → b.position ≤ length b.elements
    pub fits : length b.elements ≤ b.capacity

  -- What is still to be read.
  abbrev pub unread : Pooled T → List T
  unread b = drop b.position b.elements

  pub new_pooled-IsValid :
      (size : ℕ) (pool : Pool) (reuse : Bool) → IsValid (new_pooled {T = T} size pool reuse)
  unfolding new_pooled
  new_pooled-IsValid size pool reuse = record { positioned = λ o. omega arith; fits = omega arith }

  -- The buffer after a write, if it is open.
  after_write : Pooled T → List T → Bool → Pooled T
  after_write b p reuse =
      let required = length b.elements + length p in
      record (if ltb b.capacity required then grow b required reuse else b) {
        elements = b.elements ++ p;
      }

  write-after_write :
      (b : Pooled T) (x : T) (xs : List T) (reuse : Bool)
      → b.closed ≡ false
      → write b (x ∷ xs) reuse ≡ ok (length (x ∷ xs), after_write b (x ∷ xs) reuse)
  unfolding write after_write grow
  write-after_write b x xs reuse o = ground arith

  after_write-kept :
      (b : Pooled T) (p : List T) (reuse : Bool)
      → ((after_write b p reuse).position ≡ b.position)
        × ((after_write b p reuse).closed ≡ b.closed)
  unfolding after_write grow
  after_write-kept b p reuse = ground arith

  after_write-IsValid :
      (b : Pooled T) (p : List T) (reuse : Bool) → IsValid b → IsValid (after_write b p reuse)
  unfolding after_write grow
  after_write-IsValid b p reuse v = record {
    positioned = λ o. ground (arith, v.positioned, o, length-append b.elements p);
    fits = ground (
      arith,
      v.fits,
      length-append b.elements p,
      get-room b.pool ((length b.elements + length p) * 2) reuse,
    );
  }

  -- A write to an open, valid buffer takes everything and puts it behind what is unread; the
  -- buffer grows as needed and stays open and valid, with its read position.
  pub write-unread :
      (b : Pooled T) (p : List T) (reuse : Bool)
      → IsValid b
      → b.closed ≡ false
      → (b' : Pooled T) × (write b p reuse ≡ ok (length p, b'))
        × IsValid b'
        × (b'.closed ≡ false)
        × (unread b' ≡ unread b ++ p)
        × (b'.position ≡ b.position)
  unfolding after_write
  write-unread b [] reuse v o =
      (b, unfold write in ground arith, v, o, sym (append-nil (unread b)), refl)
  write-unread b (x ∷ xs) reuse v o =
      let kept = after_write-kept b (x ∷ xs) reuse in
      (
        after_write b (x ∷ xs) reuse,
        write-after_write b x xs reuse o,
        after_write-IsValid b (x ∷ xs) reuse v,
        kept.1 ∙ o,
        ap (λ (k : ℕ). drop k (b.elements ++ x ∷ xs)) kept.0
            ∙ drop-append_left b.position b.elements (x ∷ xs) (v.positioned o),
        kept.0,
      )

  -- The buffer after a read, if something is unread.
  after_read : Pooled T → ℕ → Pooled T
  after_read b n = record b { position = b.position + min n (length b.elements - b.position) }

  after_read-IsValid : (b : Pooled T) (n : ℕ) → IsValid b → IsValid (after_read b n)
  unfolding after_read
  after_read-IsValid b n v = record {
    positioned = λ o. omega (arith, v.positioned o);
    fits = v.fits;
  }

  unread-after_read : (b : Pooled T) (n : ℕ) → unread (after_read b n) ≡ drop n (unread b)
  unfolding after_read
  unread-after_read b n =
      rw (← length-drop b.position b.elements)
        (sym (drop-drop (min n (length (unread b))) b.position b.elements) ∙ drop-min n (unread b))

  read-after_read :
      (b : Pooled T) (n : ℕ)
      → b.closed ≡ false
      → leb (length b.elements) b.position ≡ false
      → read b (suc n) ≡ ok (take (suc n) (unread b), after_read b (suc n))
  unfolding read after_read
  read-after_read b n o more =
      ground (arith, take-min (suc n) (unread b), length-drop b.position b.elements)

  -- A read from an open, valid buffer into a slice of positive length takes that many elements off
  -- the front of what is unread, or all of it; it reports the end of the data only if nothing is
  -- unread.
  pub read-unread :
      (b : Pooled T) (n : ℕ)
      → IsValid b
      → b.closed ≡ false
      → ((unread b ≡ []) × (read b (suc n) ≡ err eof))
        ⊎ ((unread b ≢ [])
            × (b' : Pooled T) × (read b (suc n) ≡ ok (take (suc n) (unread b), b'))
            × IsValid b'
            × (b'.closed ≡ false)
            × (unread b' ≡ drop (suc n) (unread b)))
  unfolding after_read
  read-unread b n v o = elim (Bool-cases (leb (length b.elements) b.position)) [
    | inl past ↦
        inl (drop-length b.position b.elements (leb→le _ _ past), unfold read in ground arith)
    | inr more ↦ inr (
      λ e. ground (arith, more, ap length e, length-drop b.position b.elements),
      after_read b (suc n),
      read-after_read b n o more,
      after_read-IsValid b (suc n) v,
      o,
      unread-after_read b (suc n),
    )
  ]
