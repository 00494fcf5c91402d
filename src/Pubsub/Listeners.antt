-- ===== src/Pubsub/Listeners.antt =====
-- The local subscribers of redis.go in pkg/services/pubsub/driver, and the patterns that it keeps.
use framingo.Prelude.{
  ℕ, ◌≡◌, refl, sym, ap, ◌∙◌, List, [], ◌∷◌, ◌++◌, Bool, true, false, not, if◌then◌else◌, if_cases,
  ite, if_pos, if_neg, not-both, arith,
}
use framingo.Prelude.Sets.{has, has-add, has-remove}
use framingo.Pubsub.Topics.{
  Listener, Entries, Topics, lookup, delete, store, subscribe, filter, unsubscribe_pattern,
  keep_filtered, has_topic, unsubscribe, remove_listener,
}

abbrev pub non_empty : {A : Type 0} → List A → Bool
non_empty [] = false
non_empty (x ∷ xs) = true

non_empty-snoc : {A : Type 0} (xs : List A) (x : A) → non_empty (xs ++ (x ∷ [])) ≡ true
non_empty-snoc [] x = refl
non_empty-snoc (y ∷ ys) x = refl

-- A call of the driver.
pub data Call (K N : Type 0) : Type 0 where
  subscribes : K → Listener N → Call K N
  unsubscribes : (N → Bool) → K → Call K N
  removes : (ℕ → Bool) → K → Call K N

module _ {K N : Type 0} (dec : Discrete K) where
  lookup-delete :
      (es : Entries K N) (k j : K)
      → lookup dec (delete dec es k) j ≡ ite (dec k j) [] (lookup dec es j)
  lookup-delete [] k j = ground arith
  lookup-delete ((i, v) ∷ es) k j = elim (dec i k) [
    | yes same ↦ rw (if_pos _ same) (lookup-delete es k j ∙ ground arith)
    | no other ↦ rw (if_neg _ other) (ground (arith, lookup-delete es k j))
  ]

  lookup-store :
      (es : Entries K N) (k j : K) (v : List (Listener N))
      → lookup dec (store dec es k v) j ≡ ite (dec k j) v (lookup dec es j)
  lookup-store es k j v = elim (dec k j) [
    | yes s ↦
        if_pos (dec k j) s v (lookup dec (delete dec es k) j)
        ∙ sym (if_pos (dec k j) s v (lookup dec es j))
    | no o ↦
        if_neg (dec k j) o v (lookup dec (delete dec es k) j)
        ∙ lookup-delete es k j
        ∙ if_neg (dec k j) o [] (lookup dec es j)
        ∙ sym (if_neg (dec k j) o v (lookup dec es j))
  ]

  lookup-keep_filtered :
      (b : Topics K N) (k j : K) (v : List (Listener N))
      → lookup dec (keep_filtered dec b k v).topics j ≡ ite (dec k j) v (lookup dec b.topics j)
  unfolding keep_filtered unsubscribe_pattern
  lookup-keep_filtered b k j [] = lookup-delete b.topics k j
  lookup-keep_filtered b k j (s ∷ ss) = lookup-store b.topics k j (s ∷ ss)

  lookup-has_topic : (es : Entries K N) (k : K) → has_topic dec es k ≡ false → lookup dec es k ≡ []
  lookup-has_topic [] k h = refl
  lookup-has_topic ((i, v) ∷ es) k h = elim (dec i k) [
    | yes s ↦
        absurd (
          not-both (has_topic dec ((i, v) ∷ es) k) h (if_pos (dec i k) s true (has_topic dec es k)))
    | no o ↦
        if_neg (dec i k) o v (lookup dec es k)
        ∙ lookup-has_topic es k (sym (if_neg (dec i k) o true (has_topic dec es k)) ∙ h)
  ]

  unchanged :
      (es : Entries K N) (keep : Listener N → Bool) (k j : K)
      → has_topic dec es k ≡ false
      → lookup dec es j ≡ ite (dec k j) (filter dec keep (lookup dec es k)) (lookup dec es j)
  unchanged es keep k j h = elim (dec k j) [
    | yes s ↦
        ap (lookup dec es) (sym s)
        ∙ lookup-has_topic es k h
        ∙ sym (ap (filter dec keep) (lookup-has_topic es k h))
        ∙ sym (if_pos (dec k j) s (filter dec keep (lookup dec es k)) (lookup dec es j))
    | no o ↦ sym (if_neg (dec k j) o (filter dec keep (lookup dec es k)) (lookup dec es j))
  ]

  -- Unsubscribe takes the listeners of the name from the topic, and leaves those of other names
  -- and of other topics, in their order.
  pub lookup-unsubscribe :
      (b : Topics K N) (is_name : N → Bool) (k j : K)
      → lookup dec (unsubscribe dec b is_name k).topics j
        ≡ ite
            (dec k j)
            (filter dec (λ s. not (is_name s.name)) (lookup dec b.topics k))
            (lookup dec b.topics j)
  unfolding unsubscribe
  lookup-unsubscribe b is_name k j =
      if_cases
        (λ (t : Topics K N).
          lookup dec t.topics j
          ≡ ite (dec k j) (filter dec (λ s. not (is_name s.name)) (lookup dec b.topics k))
              (lookup dec b.topics j))
        (has_topic dec b.topics k)
        (λ h.
          lookup-keep_filtered b k j
            (filter dec (λ s. not (is_name s.name)) (lookup dec b.topics k)))
        (λ h. unchanged b.topics (λ s. not (is_name s.name)) k j h)

  -- The driver keeps the pattern of exactly those topics that have a listener.
  abbrev pub IsTracked : Topics K N → Type 0
  IsTracked b = (k : K) → has dec b.patterns k ≡ non_empty (lookup dec b.topics k)

  subscribe-IsTracked :
      (b : Topics K N) (k : K) (s : Listener N) → IsTracked b → IsTracked (subscribe dec b k s)
  unfolding subscribe
  subscribe-IsTracked b k s t j = has-add dec b.patterns k j ∙ elim (dec k j) [
    | yes e ↦
        if_pos (dec k j) e true (has dec b.patterns j)
        ∙ sym (
            ap non_empty
              (lookup-store b.topics k j _ ∙ if_pos (dec k j) e _ (lookup dec b.topics j))
            ∙ non_empty-snoc (lookup dec b.topics k) s)
    | no o ↦
        if_neg (dec k j) o true (has dec b.patterns j)
        ∙ t j
        ∙ sym (
            ap non_empty
              (lookup-store b.topics k j _ ∙ if_neg (dec k j) o _ (lookup dec b.topics j)))
  ]

  filter-non_empty :
      (keep : Listener N → Bool) (l : List (Listener N))
      → non_empty (filter dec keep l) ≡ true
      → non_empty l ≡ true
  filter-non_empty keep [] h = h
  filter-non_empty keep (s ∷ ss) h = refl

  keep_filtered-IsTracked :
      (b : Topics K N) (k : K) (v : List (Listener N))
      → (non_empty v ≡ true → non_empty (lookup dec b.topics k) ≡ true)
      → IsTracked b
      → IsTracked (keep_filtered dec b k v)
  unfolding keep_filtered unsubscribe_pattern
  keep_filtered-IsTracked b k [] f t j = has-remove dec b.patterns k j ∙ elim (dec k j) [
    | yes e ↦
        if_pos (dec k j) e false (has dec b.patterns j)
        ∙ sym (
            ap non_empty
              (lookup-delete b.topics k j ∙ if_pos (dec k j) e [] (lookup dec b.topics j)))
    | no o ↦
        if_neg (dec k j) o false (has dec b.patterns j)
        ∙ t j
        ∙ sym (
            ap non_empty
              (lookup-delete b.topics k j ∙ if_neg (dec k j) o [] (lookup dec b.topics j)))
  ]
  keep_filtered-IsTracked b k (s ∷ ss) f t j = elim (dec k j) [
    | yes e ↦
        t j
        ∙ ap (λ x. non_empty (lookup dec b.topics x)) (sym e)
        ∙ f refl
        ∙ sym (
            ap non_empty (
              lookup-store b.topics k j (s ∷ ss)
              ∙ if_pos (dec k j) e (s ∷ ss) (lookup dec b.topics j)))
    | no o ↦
        t j
        ∙ sym (
            ap non_empty (
              lookup-store b.topics k j (s ∷ ss)
              ∙ if_neg (dec k j) o (s ∷ ss) (lookup dec b.topics j)))
  ]

  unfoldable pub call : Topics K N → Call K N → Topics K N
  call b (subscribes k s) = subscribe dec b k s
  call b (unsubscribes f k) = unsubscribe dec b f k
  call b (removes f k) = remove_listener dec b f k

  unfoldable pub calls : Topics K N → List (Call K N) → Topics K N
  unfolding call
  calls b [] = b
  calls b (c ∷ cs) = calls (call b c) cs

  filtered-IsTracked :
      (b : Topics K N) (keep : Listener N → Bool) (k : K)
      → IsTracked b
      → IsTracked (
          if has_topic dec b.topics k
          then keep_filtered dec b k (filter dec keep (lookup dec b.topics k))
          else b)
  filtered-IsTracked b keep k t =
      if_cases (λ (x : Topics K N). IsTracked x) (has_topic dec b.topics k)
        (λ h.
          keep_filtered-IsTracked b k (filter dec keep (lookup dec b.topics k))
            (filter-non_empty keep (lookup dec b.topics k)) t)
        (λ h. t)

  call-IsTracked : (b : Topics K N) (c : Call K N) → IsTracked b → IsTracked (call b c)
  unfolding call unsubscribe remove_listener
  call-IsTracked b (subscribes k s) t = subscribe-IsTracked b k s t
  call-IsTracked b (unsubscribes f k) t = filtered-IsTracked b (λ s. not (f s.name)) k t
  call-IsTracked b (removes f k) t = filtered-IsTracked b (λ s. not (f s.id)) k t

  -- Whatever calls of Subscribe, Unsubscribe and remove are made, the Redis driver keeps a pattern
  -- for exactly those topics that have a local listener, if it did so before.
  pub calls-IsTracked :
      (b : Topics K N) (cs : List (Call K N)) → IsTracked b → IsTracked (calls b cs)
  unfolding calls
  calls-IsTracked b [] t = t
  calls-IsTracked b (c ∷ cs) t = calls-IsTracked (call b c) cs (call-IsTracked b c t)
