-- ===== src/Buffer/Pool.antt =====
-- pkg/structs/buffer/pool.go: the pool of buffers of fixed sizes. A buffer that lies in the pool is
-- empty, so the pool keeps their number for each capacity. Whether a `sync.Pool` hands out a buffer
-- that it holds, or has `New` make one, is the argument `reuse`. Sizes and requests are not negative.
pub mod Ledger
use framingo.Prelude.{
  ℕ, ◌+◌, ◌-◌, ◌≤◌, ◌<◌, ◌≡◌, refl, ◌⊎◌, inl, inr, List, [], ◌∷◌, Bool, true, false, ltb, leb, ◌==◌,
  ◌&&◌, if◌then◌else◌, arith, All, Bool-cases, leb→le,
}

pub record Pool : Type 0 where
  pub sizes : List ℕ
  pub idle : ℕ → ℕ
  pub gets : ℕ
  pub puts : ℕ
  pub hits : ℕ
  pub creates : ℕ

abbrev pub default_sizes : List ℕ
default_sizes = 1024 ∷ 4096 ∷ 16384 ∷ 65536 ∷ 262144 ∷ 1048576 ∷ []

unfoldable pub new_pool : List ℕ → Pool
new_pool sizes = record {
  sizes = elim sizes [ [] ↦ default_sizes | size ∷ rest ↦ size ∷ rest ];
  idle = λ capacity. 0;
  gets = 0;
  puts = 0;
  hits = 0;
  creates = 0;
}

-- 0 if no size is enough.
unfoldable pub find_best_size : List ℕ → ℕ → ℕ
find_best_size [] required = 0
find_best_size (size ∷ sizes) required =
    if leb required size then size else find_best_size sizes required

abbrev pub set_idle : (ℕ → ℕ) → ℕ → ℕ → ℕ → ℕ
set_idle idle capacity n c = if c == capacity then n else idle c

-- The capacity of the buffer that is handed out, which is empty.
unfoldable pub get : Pool → ℕ → Bool → ℕ × Pool
get p required reuse =
    let target = find_best_size p.sizes required in
    if target == 0
    then (required, record p { gets = p.gets + 1; creates = p.creates + 1 })
    else (if reuse && ltb 0 (p.idle target)
        then (
          target,
          record p {
            gets = p.gets + 1;
            hits = p.hits + 1;
            idle = set_idle p.idle target (p.idle target - 1);
          },
        )
        else (target, record p { gets = p.gets + 1; hits = p.hits + 1; creates = p.creates + 1 }))

abbrev pub is_size : List ℕ → ℕ → Bool
is_size [] capacity = false
is_size (size ∷ sizes) capacity = if size == capacity then true else is_size sizes capacity

-- Only a buffer of one of the sizes is kept.
unfoldable pub put : Pool → ℕ → Pool
put p capacity =
    let p' = record p { puts = p.puts + 1 } in
    if is_size p.sizes capacity
    then record p' { idle = set_idle p.idle capacity (p.idle capacity + 1) }
    else p'

-- Each size is at least the one before it.
abbrev pub IsAscending : List ℕ → Type 0
IsAscending [] = Unit {0}
IsAscending (size ∷ sizes) = All (λ s. size ≤ s) sizes × IsAscending sizes

abbrev pub IsSize : List ℕ → ℕ → Type 0
IsSize [] n = ⊥
IsSize (size ∷ sizes) n = (size ≡ n) ⊎ IsSize sizes n

least_in : (sizes : List ℕ) (n : ℕ) → IsSize sizes n → (m : ℕ) → All (λ s. m ≤ s) sizes → m ≤ n
least_in [] n i m h = absurd i
least_in (size ∷ sizes) n (inl e) m h = omega arith
least_in (size ∷ sizes) n (inr i) m h = least_in sizes n i m h.1

leb-false : (a b n : ℕ) → leb a b ≡ false → b ≡ n → a ≤ n → ⊥
leb-false a b n h e r = ground arith

find_best_size-ge :
    (sizes : List ℕ) (required : ℕ)
    → (find_best_size sizes required ≡ 0) ⊎ (required ≤ find_best_size sizes required)
unfolding find_best_size
find_best_size-ge [] required = inl refl
find_best_size-ge (size ∷ sizes) required = ground (arith, find_best_size-ge sizes required)

-- Where the sizes ascend from a positive one, a request that some size can hold is given the
-- smallest such size, and another request gets 0.
pub find_best_size-least :
    (sizes : List ℕ) (required : ℕ)
    → IsAscending sizes
    → All (λ s. 0 < s) sizes
    → let best = find_best_size sizes required in
      ((0 < best)
        × (required ≤ best)
        × IsSize sizes best
        × ((n : ℕ) → IsSize sizes n → required ≤ n → best ≤ n))
      ⊎ ((best ≡ 0) × ((n : ℕ) → IsSize sizes n → n < required))
unfolding find_best_size
find_best_size-least [] required a h = inr (refl, λ n i. absurd i)
find_best_size-least (size ∷ sizes) required a h = elim (Bool-cases (leb required size)) [
  | inl fits ↦
      rw (fits, find_best_size)
        (inl (
          h.0,
          leb→le required size fits,
          inl refl,
          λ n i _. least_in (size ∷ sizes) n i size (omega arith, a.0),
        ))
  | inr small ↦
      rw (small, find_best_size)
        (elim (find_best_size-least sizes required a.1 h.1) [
          | inl (pos, room, i, least) ↦ inl (
            pos,
            room,
            inr i,
            λ n j r. elim j [
              | inl e ↦ absurd (leb-false required size n small e r)
              | inr k ↦ least n k r
            ],
          )
          | inr (z, all) ↦
              inr (z, λ n j. elim j [ inl e ↦ ground (arith, small, e) | inr k ↦ all n k ])
        ])
]

-- The buffer has room for what was asked for.
pub get-room : (p : Pool) (required : ℕ) (reuse : Bool) → required ≤ (get p required reuse).0
unfolding get
get-room p required reuse = ground (arith, find_best_size-ge p.sizes required)

-- The calls that a pool counts.
pub data PoolCall : Type 0 where
  gets_one : ℕ → Bool → PoolCall
  puts_back : ℕ → PoolCall

unfoldable pub pool_step : Pool → PoolCall → Pool
pool_step p (gets_one required reuse) = (get p required reuse).1
pool_step p (puts_back capacity) = put p capacity

unfoldable pub pool_run : Pool → List PoolCall → Pool
pool_run p [] = p
pool_run p (c ∷ cs) = pool_run (pool_step p c) cs
