-- ===== src/Tests/Buffers.antt =====
-- pkg/structs/buffer and pkg/structs/queue at concrete inputs.
use framingo.Prelude.{ℕ, ◌≡◌, refl, ◌≢◌, ◌⊎◌, List, [], ◌∷◌, ◌++◌, true, false, arith, ok, err}
use framingo.Prelude.Int.{negsuc}
use framingo.Buffer.Pool.{new_pool, find_best_size, get, put, PoolCall, gets_one, puts_back}
use framingo.Buffer.Pooled
use framingo.Buffer.Pooled.{Pooled, new_pooled, seek_end, grow, available}
use framingo.Buffer.Stream.{IsValid, unread, write-unread, read-unread}
use framingo.Buffer.Calls
use framingo.Buffer.Calls.{BufferCall, calls, calls-IsValid, close-close}
use framingo.Queue
use framingo.Queue.{Buffered, Event, new_buffered, close_begin, close_end}
use framingo.Queue.Swap.{Inv, content, new_buffered-Inv}
use framingo.Queue.Fifo.{run, run-fifo, read-progress}

-- Out of order, the first size that is enough is taken, not the smallest.
find_first_size : find_best_size (64 ∷ 16 ∷ []) 9 ≡ 64
unfolding find_best_size
find_first_size = refl

abbrev pool_calls : List PoolCall
pool_calls = gets_one 5 true ∷ puts_back 8 ∷ gets_one 7 true ∷ gets_one 100 false ∷ []

-- A buffer of capacity 4 that holds 1, 2, 3, of which 1 has been read.
abbrev begun : Pooled ℕ
begun = record {
  elements = 1 ∷ 2 ∷ 3 ∷ [];
  capacity = 4;
  pool = new_pool (4 ∷ 16 ∷ []);
  position = 1;
  closed = false;
}

begun-IsValid : IsValid begun
begun-IsValid = record { positioned = λ _. omega arith; fits = omega arith }

write-unread_example :
    (b' : Pooled ℕ) × (Pooled.write begun (4 ∷ 5 ∷ []) true ≡ ok (2, b'))
    × IsValid b'
    × (b'.closed ≡ false)
    × (unread b' ≡ 2 ∷ 3 ∷ 4 ∷ 5 ∷ [])
    × (b'.position ≡ 1)
write-unread_example = write-unread begun (4 ∷ 5 ∷ []) true begun-IsValid refl

read-unread_example :
    ((unread begun ≡ []) × (Pooled.read begun 5 ≡ err Pooled.eof))
    ⊎ ((unread begun ≢ [])
        × (b' : Pooled ℕ) × (Pooled.read begun 5 ≡ ok (2 ∷ 3 ∷ [], b'))
        × IsValid b'
        × (b'.closed ≡ false)
        × (unread b' ≡ []))
read-unread_example = read-unread begun 4 begun-IsValid refl

abbrev buffer_calls : List (BufferCall ℕ)
buffer_calls =
    Calls.writes (4 ∷ []) true
    ∷ Calls.seeks (negsuc 0) seek_end
    ∷ Calls.reads 1
    ∷ Calls.closes
    ∷ Calls.reads 1
    ∷ []

calls-IsValid_example : IsValid (calls begun buffer_calls)
calls-IsValid_example = calls-IsValid begun buffer_calls begun-IsValid

close-close_example :
    (Pooled.close (Pooled.close begun) ≡ Pooled.close begun)
    × ((Pooled.close begun).pool ≡ put begun.pool 4)
    × (available (Pooled.close begun) ≡ 0)
close-close_example = close-close begun refl

abbrev fresh : Buffered ℕ
fresh = new_buffered 4 true true

abbrev events : List (Event ℕ)
events =
    Queue.writes (1 ∷ 2 ∷ []) true
    ∷ Queue.writes (3 ∷ []) true
    ∷ Queue.reads 1
    ∷ Queue.ticks
    ∷ Queue.reads 5
    ∷ Queue.closing
    ∷ Queue.writes (4 ∷ []) true
    ∷ []

run-fifo_example :
    (run fresh events).1 ++ content (run fresh events).0 ≡ content fresh ++ (run fresh events).2
run-fifo_example =
    run-fifo fresh events (new_buffered-Inv 4 true true)
      ((λ e. cc), ((λ e. cc), ((λ e. cc), ((λ e. cc), ((λ e. cc), ((λ e. cc), ((λ e. cc), tt)))))))

abbrev filled : Buffered ℕ
filled = record {
  write_buffer = record begun { position = 0 };
  read_buffer = record begun { elements = []; position = 0 };
  cancelled = true;
  context_done = true;
  looping = false;
  shut = false;
}

filled-Inv : Inv filled
filled-Inv = record {
  write_valid = record { positioned = λ _. omega arith; fits = omega arith };
  read_valid = record { positioned = λ _. omega arith; fits = omega arith };
  write_open = refl;
  read_open = refl;
  write_start = refl;
}

read-progress_example : (Queue.after_read (Queue.read filled 2).0 (Queue.read filled 2).1).1 ≢ []
read-progress_example = read-progress filled 1 filled-Inv (λ e. cc)

run_outputs : (run fresh events).1 ≡ 1 ∷ 2 ∷ []
unfolding run Queue.step Queue.write Queue.read Queue.read_swapped Queue.do_swap Queue.swap_buffers
    close_begin new_buffered new_pooled get put new_pool find_best_size Pooled.write Pooled.read
    Pooled.reset available grow Pooled.expand Queue.lift Pooled.len
run_outputs = refl
