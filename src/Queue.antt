-- ===== src/Queue.antt =====
-- pkg/structs/queue/buffered.go: the double buffer queue. Its lock makes each call of `Write`, `Read`
-- and `swapBuffers` one step; `Close` has two, before and after it waits for the background loop.
-- `cancelled` is `q.cancel == nil`, and `looping` says that the loop runs. Nothing waits on `written`.
pub mod Swap
pub mod Fifo
use framingo.Prelude.{
  ℕ, ◌<◌, List, [], ◌∷◌, ◌++◌, Bool, true, false, not, ltb, ◌==◌, ◌&&◌, ◌||◌, if◌then◌else◌, length,
  Outcome, ok, err, panics, ◌>>=◌,
}
use framingo.Buffer.Pool.{new_pool}
use framingo.Buffer.Pooled
use framingo.Buffer.Pooled.{Pooled, new_pooled, available, len}

pub record Buffered (T : Type 0) : Type 0 where
  pub write_buffer : Pooled T
  pub read_buffer : Pooled T
  pub cancelled : Bool
  pub context_done : Bool
  pub looping : Bool
  pub shut : Bool

pub data Error : Type 0 where
  queue_closed eof : Error
  buffer_error : Pooled.Error → Error

unfoldable pub lift {ℓ} : {R : Type ℓ} → Outcome Pooled.Error R → Outcome Error R
lift (ok r) = ok r
lift (err e) = err (buffer_error e)
lift panics = panics

module _ {T : Type 0} where
  unfoldable pub new_buffered : ℕ → Bool → Bool → Buffered T
  new_buffered size reuse reuse' = record {
    write_buffer = new_pooled size (new_pool []) reuse;
    read_buffer = new_pooled size (new_pool []) reuse';
    cancelled = false;
    context_done = false;
    looping = true;
    shut = false;
  }

  abbrev pub can_swap : Buffered T → Bool
  can_swap q = ltb 0 (len q.write_buffer) && available q.read_buffer == 0

  -- Only if there is something to read and the reader has nothing left.
  unfoldable pub do_swap : Buffered T → Buffered T
  do_swap q =
      if can_swap q
      then record q { write_buffer = Pooled.reset q.read_buffer; read_buffer = q.write_buffer }
      else q

  unfoldable pub write : Buffered T → List T → Bool → Outcome Error (ℕ × Buffered T)
  unfolding lift
  write q p reuse =
      if length p == 0
      then ok (0, q)
      else (if q.cancelled then err queue_closed else (do
        (n, b) ← lift (Pooled.write q.write_buffer p reuse)
        let q' = record q { write_buffer = b }
        ok (n, if can_swap q' then do_swap q' else q')))

  abbrev pub reset_if_empty : Pooled T → Pooled T
  reset_if_empty b = if available b == 0 then Pooled.reset b else b

  -- The read itself, once the buffers have been swapped if they had to be.
  unfoldable pub read_swapped : Buffered T → ℕ → Outcome Error (List T × Buffered T)
  unfolding lift
  read_swapped q n =
      if available q.read_buffer == 0 then (if q.cancelled then err eof else ok ([], q)) else (do
        (got, b) ← lift (Pooled.read q.read_buffer n)
        ok (got, record q { read_buffer = reset_if_empty b }))

  -- An error comes with the queue as the swap has left it.
  unfoldable pub read : Buffered T → ℕ → Buffered T × Outcome Error (List T × Buffered T)
  unfolding read_swapped
  read q n =
      if n == 0
      then (q, ok ([], q))
      else (let q' = if can_swap q then do_swap q else q in (q', read_swapped q' n))

  -- A tick of the background loop.
  unfoldable pub swap_buffers : Buffered T → Buffered T
  swap_buffers q = do_swap q

  -- `ctx.Done()` ends the loop after a final swap.
  unfoldable pub loop_exit : Buffered T → Buffered T
  unfolding swap_buffers
  loop_exit q = record (swap_buffers q) { looping = false }

  -- `Close` up to `wg.Wait()`. The second of two calls ends here.
  unfoldable pub close_begin : Buffered T → Buffered T
  close_begin q = if q.cancelled then q else record q { cancelled = true; context_done = true }

  -- `Close` from there on.
  unfoldable pub close_end : Buffered T → Buffered T
  close_end q = record q {
    write_buffer = Pooled.close q.write_buffer;
    read_buffer = Pooled.close q.read_buffer;
    shut = true;
  }

-- What can happen to a queue; `context_ends` stands for the context that it was given.
pub data Event (T : Type 0) : Type 0 where
  writes : List T → Bool → Event T
  reads : ℕ → Event T
  ticks : Event T
  context_ends : Event T
  loop_exits : Event T
  closing : Event T
  closed : Event T

module _ {T : Type 0} where
  abbrev pub after_write : Buffered T → Outcome Error (ℕ × Buffered T) → Buffered T × List T
  after_write q (ok r) = (r.1, [])
  after_write q (err e) = (q, [])
  after_write q panics = (q, [])

  abbrev pub after_read : Buffered T → Outcome Error (List T × Buffered T) → Buffered T × List T
  after_read q (ok r) = (r.1, r.0)
  after_read q (err e) = (q, [])
  after_read q panics = (q, [])

  -- The queue after an event, and what was read. An event whose guard fails does not happen.
  unfoldable pub step : Buffered T → Event T → Buffered T × List T
  step q (writes p reuse) = after_write q (write q p reuse)
  step q (reads n) = let (q', r) = read q n in after_read q' r
  step q ticks = (if q.looping then swap_buffers q else q, [])
  step q context_ends = (record q { context_done = true }, [])
  step q loop_exits = (if q.looping && q.context_done then loop_exit q else q, [])
  step q closing = (close_begin q, [])
  step q closed = (if q.cancelled && not q.looping && not q.shut then close_end q else q, [])
