-- ===== src/Buffer/Pool/Ledger.antt =====
-- The accounts of the pool of pkg/structs/buffer/pool.go over a history of calls.
use framingo.Prelude.{
  ℕ, ◌+◌, ◌-◌, ◌≤◌, ◌≡◌, List, [], ◌∷◌, Bool, true, false, ltb, leb, ◌==◌, ◌&&◌, ◌||◌, not,
  if◌then◌else◌, min, Option, none, some,
}
use framingo.Prelude.Counts.{one_if}
use framingo.Buffer.Pool.{Pool, set_idle, PoolCall, gets_one, puts_back, pool_step}

-- The smallest size of a list, in any order, that is enough.
abbrev pub lesser : ℕ → Option ℕ → Option ℕ
lesser size none = some size
lesser size (some best) = some (min size best)

abbrev pub least_enough : List ℕ → ℕ → Option ℕ
least_enough [] required = none
least_enough (size ∷ sizes) required =
    let rest = least_enough sizes required in if leb required size then lesser size rest else rest

abbrev pub is_among : List ℕ → ℕ → Bool
is_among [] c = false
is_among (size ∷ sizes) c = (size == c) || is_among sizes c

abbrev is_given : Option ℕ → ℕ → Bool
is_given none c = false
is_given (some n) c = n == c

abbrev is_some : Option ℕ → Bool
is_some none = false
is_some (some n) = true

-- Whether a call takes an idle buffer of a capacity out of the pool: a request that is let have one,
-- for which that is the least size, and of which one lies in the pool.
abbrev pub takes : Pool → PoolCall → ℕ → Bool
takes p (gets_one required reuse) c =
    reuse && (is_given (least_enough p.sizes required) c && ltb 0 (p.idle c))
takes p (puts_back capacity) c = false

abbrev pub is_served : Pool → PoolCall → Bool
is_served p (gets_one required reuse) = elim (least_enough p.sizes required) [
  | none ↦ false
  | some n ↦ reuse && ltb 0 (p.idle n)
]
is_served p (puts_back capacity) = false

abbrev pub is_request : PoolCall → Bool
is_request (gets_one required reuse) = true
is_request (puts_back capacity) = false

abbrev pub is_fitting : List ℕ → PoolCall → Bool
is_fitting sizes (gets_one required reuse) = is_some (least_enough sizes required)
is_fitting sizes (puts_back capacity) = false

abbrev pub is_kept : List ℕ → ℕ → PoolCall → Bool
is_kept sizes c (gets_one required reuse) = false
is_kept sizes c (puts_back capacity) = (capacity == c) && is_among sizes c

abbrev IsFloor : ℕ → Option ℕ → Type 0
IsFloor m none = Unit {0}
IsFloor m (some n) = m ≤ n

abbrev or_zero : Option ℕ → ℕ
or_zero none = 0
or_zero (some n) = n

-- What one call changes.
record Moves (p : Pool) (x : PoolCall) (q : Pool) : Type 0 where
  same_sizes : q.sizes ≡ p.sizes
  idle : (c : ℕ) → q.idle c + one_if (takes p x c) ≡ p.idle c + one_if (is_kept p.sizes c x)
  gets : q.gets ≡ p.gets + one_if (is_request x)
  puts : q.puts ≡ p.puts + one_if (not (is_request x))
  hits : q.hits ≡ p.hits + one_if (is_fitting p.sizes x)
  creates : q.creates + one_if (is_served p x) ≡ p.creates + one_if (is_request x)

-- `get` with the size that it has found.
abbrev get_at : Pool → ℕ → Bool → ℕ → Pool
get_at p required reuse target =
    if target == 0
    then record p { gets = p.gets + 1; creates = p.creates + 1 }
    else (if reuse && ltb 0 (p.idle target)
        then record p {
          gets = p.gets + 1;
          hits = p.hits + 1;
          idle = set_idle p.idle target (p.idle target - 1);
        }
        else record p { gets = p.gets + 1; hits = p.hits + 1; creates = p.creates + 1 })

-- How often something holds over a history: of the call, or of the pool before it too.
abbrev pub times : (PoolCall → Bool) → List PoolCall → ℕ
times q [] = 0
times q (x ∷ xs) = one_if (q x) + times q xs

abbrev pub times_before : (Pool → PoolCall → Bool) → Pool → List PoolCall → ℕ
times_before q p [] = 0
times_before q p (x ∷ xs) = one_if (q p x) + times_before q (pool_step p x) xs

-- A pool before and after some calls.
pub record IsBalanced (p : Pool) (xs : List PoolCall) (q : Pool) : Type 0 where
  pub idle :
      (c : ℕ)
      → q.idle c + times_before (λ r x. takes r x c) p xs ≡ p.idle c + times (is_kept p.sizes c) xs
  pub gets : q.gets ≡ p.gets + times is_request xs
  pub puts : q.puts ≡ p.puts + times (λ x. not (is_request x)) xs
  pub hits : q.hits ≡ p.hits + times (is_fitting p.sizes) xs
  pub creates : q.creates + times_before is_served p xs ≡ p.creates + times is_request xs
