-- ===== src/Buffer/Pooled.antt =====
-- pkg/structs/buffer/pooled.go: the pooled buffer. `elements` is its slice and `capacity` that
-- slice's; a closed buffer has the nil slice, of capacity 0. The pool that it was made with is a
-- field. Lengths and offsets do not wrap.
use framingo.Prelude.{
  ℕ, ◌+◌, ◌-◌, ◌*◌, List, [], ◌++◌, Bool, true, false, ltb, leb, ◌==◌, ◌||◌, if◌then◌else◌, length,
  take, drop, Outcome, ok, err, ◌>>=◌, min,
}
use framingo.Prelude.Int.{ℤ, pos, negsuc, ◌+ℤ◌}
use framingo.Buffer.Pool.{Pool, get, put}

pub record Pooled (T : Type 0) : Type 0 where
  pub elements : List T
  pub capacity : ℕ
  pub pool : Pool
  pub position : ℕ
  pub closed : Bool

pub data Error : Type 0 where
  is_closed eof invalid_whence negative_position : Error

-- `io.SeekStart`, `io.SeekCurrent`, `io.SeekEnd` and any other number.
pub data Whence : Type 0 where
  seek_start seek_current seek_end : Whence
  seek_other : ℤ → Whence

module _ {T : Type 0} where
  unfoldable pub new_pooled : ℕ → Pool → Bool → Pooled T
  new_pooled size pool reuse =
      let (capacity, pool') = get pool size reuse in
      record { elements = []; capacity = capacity; pool = pool'; position = 0; closed = false }

  -- The slice that `expand` copies to.
  unfoldable pub grow : Pooled T → ℕ → Bool → Pooled T
  grow b required reuse =
      let (got, pool') = get b.pool (required * 2) reuse in
      record b {
        capacity = if ltb got required then required * 2 else got;
        pool = put pool' b.capacity;
      }

  unfoldable pub expand : Pooled T → ℕ → Bool → Outcome Error (Pooled T)
  expand b required reuse = if b.closed then err is_closed else ok (grow b required reuse)

  -- How many elements were written; all or none. `append` stays within the capacity.
  unfoldable pub write : Pooled T → List T → Bool → Outcome Error (ℕ × Pooled T)
  unfolding expand
  write b p reuse =
      if b.closed
      then err is_closed
      else (if length p == 0
          then ok (0, b)
          else (let required = length b.elements + length p in
              if ltb b.capacity required
              then (do
                b' ← expand b required reuse
                ok (length p, record b' { elements = b'.elements ++ p }))
              else ok (length p, record b { elements = b.elements ++ p })))

  -- Into a slice of length `n`: the elements that were copied.
  unfoldable pub read : Pooled T → ℕ → Outcome Error (List T × Pooled T)
  read b n =
      if b.closed
      then err is_closed
      else (if n == 0
          then ok ([], b)
          else (if leb (length b.elements) b.position
              then err eof
              else (let to_read = min n (length b.elements - b.position) in
                  ok (
                    take to_read (drop b.position b.elements),
                    record b { position = b.position + to_read },
                  ))))

  unfoldable pub close : Pooled T → Pooled T
  close b =
      if b.closed
      then b
      else record b { closed = true; pool = put b.pool b.capacity; elements = []; capacity = 0 }

  unfoldable pub reset : Pooled T → Pooled T
  reset b = if b.closed then b else record b { elements = []; position = 0 }

  unfoldable pub reset_read : Pooled T → Pooled T
  reset_read b = if b.closed then b else record b { position = 0 }

  abbrev pub seek_to : Pooled T → ℤ → Outcome Error (ℕ × Pooled T)
  seek_to b (negsuc n) = err negative_position
  seek_to b (pos n) =
      let to = if ltb (length b.elements) n then length b.elements else n in
      ok (to, record b { position = to })

  unfoldable pub seek : Pooled T → ℤ → Whence → Outcome Error (ℕ × Pooled T)
  seek b offset whence = if b.closed then err is_closed else (elim whence [
    | seek_start ↦ seek_to b offset
    | seek_current ↦ seek_to b (pos b.position +ℤ offset)
    | seek_end ↦ seek_to b (pos (length b.elements) +ℤ offset)
    | seek_other _ ↦ err invalid_whence
  ])

  unfoldable pub available : Pooled T → ℕ
  available b = if b.closed then 0 else length b.elements - b.position

  unfoldable pub len : Pooled T → ℕ
  len b = length b.elements

  -- `Data`: the empty list stands for nil.
  unfoldable pub contents : Pooled T → List T
  contents b = if b.closed || length b.elements == 0 then [] else b.elements
