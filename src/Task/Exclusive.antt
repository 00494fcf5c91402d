-- ===== src/Task/Exclusive.antt =====
-- Exclusive tasks in pkg/utils/task/manager.go: the wait group counts those that execute.
use framingo.Prelude.{
  ℕ, zero, suc, ◌+◌, ◌≤◌, ◌<◌, ◌≡◌, refl, sym, ap, subst, ◌∙◌, List, [], ◌∷◌, Bool, true, false,
  ◌&&◌, ltb, ◌==◌, if_cases, Option, none, some, arith, ltb→lt, All, All-append, not-both,
  get_elem?, Bool-cases, inl, inr,
}
use framingo.Task.{
  Task, is_valid, Fetcher, popping, clearing, offering, handed, draining, gone, Manager, Event,
  pops, pops_exiting, clears, sends, counts, drains, quits, dispatches, ends, cancels, finishes,
  wakes, leaves, start, without, count, pop, hand, add_one, finish, close, fetch_pops,
  fetch_exiting, fetch_clears, fetch_sends, fetch_counts, fetch_drains, fetch_quits, dispatch, step,
  run,
}
use framingo.Task.Places.{After, run-After, count-snoc, count-without}

abbrev NoneExclusive : List Task → Type 0
NoneExclusive ts = All (λ t. t.exclusive ≡ false) ts

abbrev one_if : Bool → ℕ
one_if true = 1
one_if false = 0

-- A task that has been handed over and not been counted yet.
abbrev pending : Fetcher → ℕ
pending (handed t) = one_if (is_valid t)
pending _ = 0

-- What executes, by where the loop that fetches is.
abbrev Room : Fetcher → List Task → Type 0
Room (offering t) ts = (t.exclusive ≡ true → count ts ≤ 0) × NoneExclusive ts
Room (handed t) ts = (t.exclusive ≡ true → count ts ≤ 1) × (t.exclusive ≡ false → NoneExclusive ts)
Room draining ts = count ts ≤ 1
Room _ ts = NoneExclusive ts

some_eq : {a b : Task} → some a ≡ some b → a ≡ b
some_eq {a} {b} h = ap (λ (o : Option Task). elim o [ none ↦ a | some x ↦ x ]) h

NoneExclusive-none : (ts : List Task) → count ts ≤ 0 → NoneExclusive ts
NoneExclusive-none [] h = tt
NoneExclusive-none (t ∷ ts) h = absurd (omega arith)

without-NoneExclusive : (i : ℕ) (ts : List Task) → NoneExclusive ts → NoneExclusive (without i ts)
without-NoneExclusive i [] h = tt
without-NoneExclusive zero (t ∷ ts) h = h.1
without-NoneExclusive (suc i) (t ∷ ts) h = (h.0, without-NoneExclusive i ts h.1)

count-without_le : (i : ℕ) (ts : List Task) (n : ℕ) → count ts ≤ n → count (without i ts) ≤ n
count-without_le i [] n h = omega arith
count-without_le zero (t ∷ ts) n h = omega arith
count-without_le (suc i) (t ∷ ts) zero h = absurd (omega arith)
count-without_le (suc i) (t ∷ ts) (suc n) h = omega (arith, count-without_le i ts n (omega arith))

Room-without : (f : Fetcher) (i : ℕ) (ts : List Task) → Room f ts → Room f (without i ts)
Room-without popping i ts r = without-NoneExclusive i ts r
Room-without (clearing t) i ts r = without-NoneExclusive i ts r
Room-without (offering t) i ts r =
    (λ x. count-without_le i ts 0 (r.0 x), without-NoneExclusive i ts r.1)
Room-without (handed t) i ts r =
    (λ x. count-without_le i ts 1 (r.0 x), λ x. without-NoneExclusive i ts (r.1 x))
Room-without draining i ts r = count-without_le i ts 1 r
Room-without gone i ts r = without-NoneExclusive i ts r

-- `lost` counts the tasks without a job that were counted and never end.
pub record IsCounted (m : Manager) : Type 0 where
  pub lost : ℕ
  pub balance : m.counter + pending m.fetcher ≡ count m.executing + lost
  pub room : Room m.fetcher m.executing

abbrev At : Fetcher → Manager → Type 0
At f m = (lost : ℕ) × (m.counter + pending f ≡ count m.executing + lost) × Room f m.executing

eq→0 : (n : ℕ) → (n == 0) ≡ true → n ≡ 0
eq→0 n h = ground arith

At-IsCounted : (m : Manager) (f : Fetcher) → m.fetcher ≡ f → At f m → IsCounted m
At-IsCounted m f e a = record {
  lost = a.0;
  balance = ap (λ g. m.counter + pending g) e ∙ a.1;
  room = subst (λ g. Room g m.executing) (sym e) a.2;
}

IsCounted-At : (m : Manager) → IsCounted m → At m.fetcher m
IsCounted-At m c = (c.lost, c.balance, c.room)

fetch_pops-IsCounted :
    (m : Manager) (u : Task) (f : Fetcher) → m.fetcher ≡ f → At f m → IsCounted (fetch_pops m u f)
unfolding pop
fetch_pops-IsCounted m u popping e a =
    if_cases IsCounted (is_valid u)
      (λ v.
        if_cases (λ g. IsCounted (record m { fetcher = g })) u.exclusive
          (λ x. record { lost = a.0; balance = a.1; room = a.2 })
          (λ x. record {
            lost = a.0;
            balance = a.1;
            room = (λ y. absurd (not-both u.exclusive x y), a.2);
          }))
      (λ v. At-IsCounted m popping e a)
fetch_pops-IsCounted m u (clearing t) e a = At-IsCounted m (clearing t) e a
fetch_pops-IsCounted m u (offering t) e a = At-IsCounted m (offering t) e a
fetch_pops-IsCounted m u (handed t) e a = At-IsCounted m (handed t) e a
fetch_pops-IsCounted m u draining e a = At-IsCounted m draining e a
fetch_pops-IsCounted m u gone e a = At-IsCounted m gone e a

fetch_exiting-IsCounted :
    (m : Manager) (f : Fetcher) → m.fetcher ≡ f → At f m → IsCounted (fetch_exiting m f)
fetch_exiting-IsCounted m popping e a = record {
  lost = a.0;
  balance = a.1;
  room = (λ x. absurd (ground (arith, x)), a.2);
}
fetch_exiting-IsCounted m (clearing t) e a = At-IsCounted m (clearing t) e a
fetch_exiting-IsCounted m (offering t) e a = At-IsCounted m (offering t) e a
fetch_exiting-IsCounted m (handed t) e a = At-IsCounted m (handed t) e a
fetch_exiting-IsCounted m draining e a = At-IsCounted m draining e a
fetch_exiting-IsCounted m gone e a = At-IsCounted m gone e a

fetch_clears-IsCounted :
    (m : Manager) (f : Fetcher) → m.fetcher ≡ f → At f m → IsCounted (fetch_clears m f)
fetch_clears-IsCounted m popping e a = At-IsCounted m popping e a
fetch_clears-IsCounted m (clearing t) e a =
    if_cases IsCounted (m.counter == 0)
      (λ z. record {
        lost = a.0;
        balance = a.1;
        room = (λ x. omega (arith, a.1, eq→0 m.counter z), a.2);
      })
      (λ z. At-IsCounted m (clearing t) e a)
fetch_clears-IsCounted m (offering t) e a = At-IsCounted m (offering t) e a
fetch_clears-IsCounted m (handed t) e a = At-IsCounted m (handed t) e a
fetch_clears-IsCounted m draining e a = At-IsCounted m draining e a
fetch_clears-IsCounted m gone e a = At-IsCounted m gone e a

fetch_sends-IsCounted :
    (m : Manager) (f : Fetcher) → m.fetcher ≡ f → At f m → IsCounted (fetch_sends m f)
unfolding hand
fetch_sends-IsCounted m popping e a = At-IsCounted m popping e a
fetch_sends-IsCounted m (clearing t) e a = At-IsCounted m (clearing t) e a
fetch_sends-IsCounted m (offering t) e a =
    if_cases IsCounted (ltb 0 m.waiting)
      (λ w.
        if_cases IsCounted (is_valid t)
          (λ v. record {
            lost = a.0;
            balance = omega (arith, a.1, count-snoc m.executing t, ap one_if v);
            room = (
              λ x. omega (arith, count-snoc m.executing t, a.2.0 x),
              λ x. All-append (λ u. u.exclusive ≡ false) m.executing (t ∷ []) a.2.1 (x, tt),
            );
          })
          (λ v. record {
            lost = a.0;
            balance = omega (arith, a.1, ap one_if v);
            room = (λ x. omega (arith, a.2.0 x), λ x. a.2.1);
          }))
      (λ w. At-IsCounted m (offering t) e a)
fetch_sends-IsCounted m (handed t) e a = At-IsCounted m (handed t) e a
fetch_sends-IsCounted m draining e a = At-IsCounted m draining e a
fetch_sends-IsCounted m gone e a = At-IsCounted m gone e a

add_one-IsCounted :
    (m : Manager) (t : Task) (g : Fetcher)
    → At (handed t) m
    → Room g m.executing
    → pending g ≡ 0
    → IsCounted (record m { counter = m.counter + 1; fetcher = g })
add_one-IsCounted m t g a r z = elim (Bool-cases (is_valid t)) [
  | inl v ↦ record { lost = a.0; balance = omega (arith, a.1, ap one_if v, z); room = r }
  | inr v ↦ record { lost = a.0 + 1; balance = omega (arith, a.1, ap one_if v, z); room = r }
]

fetch_counts-IsCounted :
    (m : Manager) (f : Fetcher) → m.fetcher ≡ f → At f m → IsCounted (fetch_counts m f)
unfolding add_one
fetch_counts-IsCounted m popping e a = At-IsCounted m popping e a
fetch_counts-IsCounted m (clearing t) e a = At-IsCounted m (clearing t) e a
fetch_counts-IsCounted m (offering t) e a = At-IsCounted m (offering t) e a
fetch_counts-IsCounted m (handed t) e a =
    if_cases (λ g. IsCounted (record m { counter = m.counter + 1; fetcher = g })) t.exclusive
      (λ x. add_one-IsCounted m t draining a (a.2.0 x) refl)
      (λ x. add_one-IsCounted m t popping a (a.2.1 x) refl)
fetch_counts-IsCounted m draining e a = At-IsCounted m draining e a
fetch_counts-IsCounted m gone e a = At-IsCounted m gone e a

fetch_drains-IsCounted :
    (m : Manager) (f : Fetcher) → m.fetcher ≡ f → At f m → IsCounted (fetch_drains m f)
fetch_drains-IsCounted m popping e a = At-IsCounted m popping e a
fetch_drains-IsCounted m (clearing t) e a = At-IsCounted m (clearing t) e a
fetch_drains-IsCounted m (offering t) e a = At-IsCounted m (offering t) e a
fetch_drains-IsCounted m (handed t) e a = At-IsCounted m (handed t) e a
fetch_drains-IsCounted m draining e a =
    if_cases IsCounted (m.counter == 0)
      (λ z. record {
        lost = a.0;
        balance = a.1;
        room = NoneExclusive-none m.executing (omega (arith, a.1, eq→0 m.counter z));
      })
      (λ z. At-IsCounted m draining e a)
fetch_drains-IsCounted m gone e a = At-IsCounted m gone e a

fetch_quits-IsCounted :
    (m : Manager) (f : Fetcher) → m.fetcher ≡ f → At f m → IsCounted (fetch_quits m f)
unfolding close
fetch_quits-IsCounted m popping e a = At-IsCounted m popping e a
fetch_quits-IsCounted m (clearing t) e a = At-IsCounted m (clearing t) e a
fetch_quits-IsCounted m (offering t) e a =
    if_cases IsCounted m.canceled (λ z. record { lost = a.0; balance = a.1; room = a.2.1 })
      (λ z. At-IsCounted m (offering t) e a)
fetch_quits-IsCounted m (handed t) e a = At-IsCounted m (handed t) e a
fetch_quits-IsCounted m draining e a = At-IsCounted m draining e a
fetch_quits-IsCounted m gone e a = At-IsCounted m gone e a

dispatch-IsCounted : (m : Manager) → IsCounted m → After IsCounted (dispatch m)
unfolding dispatch
dispatch-IsCounted m c =
    if_cases (After IsCounted) m.dispatching
      (λ d.
        if_cases (After IsCounted) m.closed (λ x. tt)
          (λ x.
            if_cases IsCounted (ltb m.places m.concurrent)
              (λ l. record { lost = c.lost; balance = c.balance; room = c.room }) (λ l. c)))
      (λ d. c)

ne→pos : (n : ℕ) → (n == 0) ≡ false → 0 < n
ne→pos n h = ground arith

step-IsCounted : (m : Manager) (e : Event) → IsCounted m → After IsCounted (step m e)
unfolding step finish
step-IsCounted m (pops t) c = fetch_pops-IsCounted m t m.fetcher refl (IsCounted-At m c)
step-IsCounted m pops_exiting c = fetch_exiting-IsCounted m m.fetcher refl (IsCounted-At m c)
step-IsCounted m clears c = fetch_clears-IsCounted m m.fetcher refl (IsCounted-At m c)
step-IsCounted m sends c = fetch_sends-IsCounted m m.fetcher refl (IsCounted-At m c)
step-IsCounted m counts c = fetch_counts-IsCounted m m.fetcher refl (IsCounted-At m c)
step-IsCounted m drains c = fetch_drains-IsCounted m m.fetcher refl (IsCounted-At m c)
step-IsCounted m quits c = fetch_quits-IsCounted m m.fetcher refl (IsCounted-At m c)
step-IsCounted m dispatches c = dispatch-IsCounted m c
step-IsCounted m ends c =
    if_cases IsCounted (m.dispatching && m.canceled)
      (λ h. record { lost = c.lost; balance = c.balance; room = c.room }) (λ h. c)
step-IsCounted m cancels c = record { lost = c.lost; balance = c.balance; room = c.room }
step-IsCounted m (finishes i) c =
    if_cases (After IsCounted) (ltb i (count m.executing))
      (λ l.
        if_cases (After IsCounted) (m.counter == 0) (λ z. tt)
          (λ z. record {
            lost = c.lost;
            balance = omega (
              arith,
              c.balance,
              ne→pos m.counter z,
              count-without i m.executing (ltb→lt i (count m.executing) l),
            );
            room = Room-without m.fetcher i m.executing c.room;
          }))
      (λ l. c)
step-IsCounted m wakes c =
    if_cases IsCounted (ltb 0 m.waiting && m.closed)
      (λ h. record { lost = c.lost; balance = c.balance; room = c.room }) (λ h. c)
step-IsCounted m leaves c =
    if_cases IsCounted (ltb 0 m.leaving)
      (λ h. record { lost = c.lost; balance = c.balance; room = c.room }) (λ h. c)

get-NoneExclusive :
    (ts : List Task) (i : ℕ) (t : Task)
    → NoneExclusive ts
    → get_elem? ts i ≡ some t
    → t.exclusive ≡ false
get-NoneExclusive [] i t h e = absurd (ground (arith, e))
get-NoneExclusive (u ∷ ts) zero t h e = ap (λ (x : Task). x.exclusive) (sym (some_eq e)) ∙ h.0
get-NoneExclusive (u ∷ ts) (suc i) t h e = get-NoneExclusive ts i t h.1 e

get-alone :
    (ts : List Task) (i : ℕ) (t : Task) → count ts ≤ 1 → get_elem? ts i ≡ some t → ts ≡ t ∷ []
get-alone [] i t h e = absurd (ground (arith, e))
get-alone (u ∷ v ∷ ts) i t h e = absurd (omega arith)
get-alone (u ∷ []) zero t h e = ap (λ (x : Task). x ∷ []) (some_eq e)
get-alone (u ∷ []) (suc i) t h e = absurd (ground (arith, e))

Room-alone :
    (f : Fetcher) (ts : List Task) (i : ℕ) (t : Task)
    → Room f ts
    → get_elem? ts i ≡ some t
    → t.exclusive ≡ true
    → ts ≡ t ∷ []
Room-alone popping ts i t r e x = absurd (not-both t.exclusive (get-NoneExclusive ts i t r e) x)
Room-alone (clearing u) ts i t r e x =
    absurd (not-both t.exclusive (get-NoneExclusive ts i t r e) x)
Room-alone (offering u) ts i t r e x =
    absurd (not-both t.exclusive (get-NoneExclusive ts i t r.1 e) x)
Room-alone (handed u) ts i t r e x = elim (Bool-cases u.exclusive) [
  | inl y ↦ get-alone ts i t (r.0 y) e
  | inr y ↦ absurd (not-both t.exclusive (get-NoneExclusive ts i t (r.1 y) e) x)
]
Room-alone draining ts i t r e x = get-alone ts i t r e
Room-alone gone ts i t r e x = absurd (not-both t.exclusive (get-NoneExclusive ts i t r e) x)

-- However the two loops and the workers take turns after a first start: as long as nothing panics,
-- an exclusive task that executes is the only one.
pub run-exclusive :
    (concurrent : ℕ) (es : List Event) (n : Manager) (i : ℕ) (t : Task)
    → run (start concurrent 0) es ≡ some n
    → get_elem? n.executing i ≡ some t
    → t.exclusive ≡ true
    → n.executing ≡ t ∷ []
unfolding start
run-exclusive concurrent es n i t ran at x =
    let counted : IsCounted n = subst (After IsCounted) ran (
      run-After IsCounted step-IsCounted (start concurrent 0) es
        record { lost = 0; balance = omega arith; room = tt }) in
    Room-alone n.fetcher n.executing i t counted.room at x
