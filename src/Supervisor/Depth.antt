-- ===== src/Supervisor/Depth.antt =====
-- How deep the dependencies of sorted services of pkg/services/supervisor go, which bounds the calls
-- of `healthcheck` in monitor.go.
use framingo.Prelude.{
  ℕ, zero, suc, ◌+◌, ◌≡◌, refl, subst, ◌⊎◌, inl, inr, List, [], ◌∷◌, ◌++◌, Option, none, some,
  length, arith,
}
use framingo.Graph.Reach.{Among}
use framingo.Supervisor.{Env, Controller, itself}
use framingo.Supervisor.Order.{Holds, Before}
use framingo.Supervisor.Starting.{AllDistinct}
use framingo.Supervisor.Monitor.{check_deps, check_self, healthcheck}

Before-second : {N : Type 0} (xs : List N) (d n : N) → Before xs d n → Among itself xs n
Before-second [] d n b = b
Before-second (x ∷ xs) d n (inl (e, m)) = inr m
Before-second (x ∷ xs) d n (inr b) = inr (Before-second xs d n b)

module _ {N E : Type 0} (env : Env N E) where
  -- Chains of dependencies from the service have fewer than so many links.
  abbrev pub IsShallow : ℕ → N → Type 0
  IsShallow zero n = ⊥
  IsShallow (suc k) n = (d : N) → Holds (env.service n).dependencies d → IsShallow k d

  IsShallow-suc : (k : ℕ) (n : N) → IsShallow k n → IsShallow (suc k) n
  IsShallow-suc zero n s = absurd s
  IsShallow-suc (suc k) n s = λ d h. IsShallow-suc k d (s d h)

  -- Each dependency of a service of the list stands before it, or is shallow already.
  abbrev pub Preceded : ℕ → List N → Type 0
  Preceded k xs =
      (n d : N)
      → Among itself xs n
      → Holds (env.service n).dependencies d
      → IsShallow k d ⊎ Before xs d n

  head-IsShallow :
      (k : ℕ) (x : N) (xs : List N)
      → ¬ Among itself xs x
      → Preceded k (x ∷ xs)
      → IsShallow (suc k) x
  head-IsShallow k x xs new p = λ d h. elim (p x d (inl refl) h) [
    | inl s ↦ s
    | inr (inl (e, m)) ↦ absurd (new m)
    | inr (inr b) ↦ absurd (new (Before-second xs d x b))
  ]

  tail-Preceded :
      (k : ℕ) (x : N) (xs : List N)
      → IsShallow (suc k) x
      → Preceded k (x ∷ xs)
      → Preceded (suc k) xs
  tail-Preceded k x xs here p = λ n d m h. elim (p n d (inr m) h) [
    | inl s ↦ inl (IsShallow-suc k d s)
    | inr (inl (e, m')) ↦ inl (subst (IsShallow (suc k)) e here)
    | inr (inr b) ↦ inr b
  ]

  IsShallow-add : (k j : ℕ) (n : N) → IsShallow k n → IsShallow (k + j) n
  IsShallow-add k zero n s = subst (λ i. IsShallow i n) (omega arith) s
  IsShallow-add k (suc j) n s =
      subst (λ i. IsShallow i n) {x = suc (k + j)} (omega arith)
        (IsShallow-suc (k + j) n (IsShallow-add k j n s))

  Preceded-IsShallow :
      (k : ℕ) (xs : List N) (n : N)
      → AllDistinct env xs
      → Preceded k xs
      → Among itself xs n
      → IsShallow (k + length xs) n
  Preceded-IsShallow k [] n distinct p m = absurd m
  Preceded-IsShallow k (x ∷ xs) n distinct p m =
      let here = head-IsShallow k x xs distinct.0 p in
      subst (λ i. IsShallow i n) (omega arith)
        (elim m [
          | inl same ↦
              subst (IsShallow (suc k + length xs)) same (IsShallow-add (suc k) (length xs) x here)
          | inr rest ↦ Preceded-IsShallow (suc k) xs n distinct.1 (tail-Preceded k x xs here p) rest
        ])

  check_deps-ends :
      (check : Controller N E → N → Option (Controller N E × Option E)) (c : Controller N E)
      (deps : List (Option N)) (errs : List (Option E))
      → ((d : N)
          → Holds deps d
          → (a : Controller N E) → (r : Controller N E × Option E) × (check a d ≡ some r))
      → (r : Controller N E × List (Option E)) × (check_deps env check c deps errs ≡ some r)
  unfolding check_deps
  check_deps-ends check c [] errs h = ((c, errs), refl)
  check_deps-ends check c (none ∷ deps) errs h =
      check_deps-ends check c deps (errs ++ (none ∷ [])) h
  check_deps-ends check c (some d ∷ deps) errs h =
      let ((a, e), eq) = h d (inl refl) c in
      let (r, eq') = check_deps-ends check a deps (errs ++ (e ∷ [])) (λ x m. h x (inr m)) in
      (r, rw (eq, check_deps) eq')

  -- A health check ends if the fuel covers the depth of the service's dependencies.
  pub healthcheck-ends :
      (fuel : ℕ) (c : Controller N E) (n : N)
      → IsShallow fuel n
      → (r : Controller N E × Option E) × (healthcheck env fuel c n ≡ some r)
  unfolding healthcheck
  healthcheck-ends zero c n s = absurd s
  healthcheck-ends (suc fuel) c n s =
      let ((a, errs), eq) =
        check_deps-ends (healthcheck env fuel) c (env.service n).dependencies []
          (λ d h x. healthcheck-ends fuel x d (s d h)) in
      (check_self env a n errs, rw (eq, healthcheck) refl)

  -- On a list in which every service stands behind its dependencies, as TopoSort makes it, and no
  -- name stands twice, the health check of each service ends, and its calls are nested no deeper
  -- than the list is long.
  pub healthcheck-sorted :
      (c : Controller N E) (services : List N) (n : N)
      → AllDistinct env services
      → ((m d : N)
          → Among itself services m
          → Holds (env.service m).dependencies d
          → Before services d m)
      → Among itself services n
      → (r : Controller N E × Option E) × (healthcheck env (length services) c n ≡ some r)
  healthcheck-sorted c services n distinct sorted m = healthcheck-ends (length services) c n (
      subst (λ i. IsShallow i n) (omega arith)
        (Preceded-IsShallow 0 services n distinct (λ k d a h. inr (sorted k d a h)) m))
