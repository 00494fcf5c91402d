-- ===== src/Pubsub/Conserves.antt =====
-- Where the messages of a subscriber of pkg/services/pubsub/driver/util.go are, and what `offer` and
-- `next` make of them.
use framingo.Prelude.{
  ℕ, ◌≤◌, ◌≡◌, refl, sym, ap, subst, ◌∙◌, inl, inr, List, [], ◌∷◌, ◌++◌, append_assoc, append-nil,
  Bool, true, false, not, Option, none, some, leb, if◌then◌else◌, length, length-append, not-both,
  Bool-cases, arith,
}
use framingo.Pubsub.{
  Delivery, delivered, OnFull, drop_message, drop_subscriber, Subscriber, refuse, is_full, offer,
  take_next, History, queues,
}

abbrev pub held_list : {M : Type 0} → Option M → List M
held_list none = []
held_list (some m) = m ∷ []

push_end :
    {M : Type 0} (a b c d x : List M) → (a ++ (b ++ (c ++ d))) ++ x ≡ a ++ (b ++ (c ++ (d ++ x)))
push_end a b c d x =
    append_assoc a (b ++ (c ++ d)) x
    ∙ ap (λ l. a ++ l) (append_assoc b (c ++ d) x ∙ ap (λ l. b ++ l) (append_assoc c d x))

module _ {M : Type 0} where
  -- Every message queued has been received or is on its way, in the order in which they were queued,
  -- except for the last ones, which a stop has thrown away; the queue is not over its bound.
  pub record Conserves (queued received channel : List M) (held : Option M) (pending : List M)
      (stopped : Bool) (cap : ℕ) : Type 0 where
    pub lost : List M
    pub conserved : queued ≡ received ++ (channel ++ (held_list held ++ (pending ++ lost)))
    pub none_lost : stopped ≡ false → lost ≡ []
    pub none_pending : stopped ≡ true → pending ≡ []
    pub bounded : length pending ≤ cap

  abbrev pub Keeps : List M → List M → Subscriber M → Type 0
  Keeps queued received s =
      Conserves queued received s.channel s.held s.pending s.stopped s.options.queue_cap

  abbrev pub IsFaithful : History M → Type 0
  IsFaithful h = Keeps h.queued h.received h.now

  offer-stopped : (s : Subscriber M) (m : M) → s.stopped ≡ true → offer s m ≡ (s, delivered, 0)
  unfolding offer
  offer-stopped s m h = simp (h) refl

  offer-full :
      (s : Subscriber M) (m : M)
      → s.stopped ≡ false
      → is_full s ≡ true
      → offer s m ≡ refuse s s.options.on_full
  unfolding offer
  offer-full s m h f = simp (h, f) refl

  offer-room :
      (s : Subscriber M) (m : M)
      → s.stopped ≡ false
      → is_full s ≡ false
      → offer s m ≡ (record s { pending = s.pending ++ (m ∷ []) }, delivered, 0)
  unfolding offer
  offer-room s m h f = simp (h, f) refl

  refuse-Keeps :
      (q r : List M) (s : Subscriber M) (o : OnFull) → Keeps q r s → Keeps q r (refuse s o).0
  refuse-Keeps q r s drop_message k = k
  refuse-Keeps q r s drop_subscriber k = k

  queue-Conserves :
      (q r c : List M) (o : Option M) (p : List M) (cap : ℕ) (m : M)
      → Conserves q r c o p false cap
      → leb cap (length p) ≡ false
      → Conserves (q ++ (m ∷ [])) r c o (p ++ (m ∷ [])) false cap
  queue-Conserves q r c o p cap m k room = record {
    lost = [];
    conserved =
        ap (λ z. z ++ (m ∷ []))
          (k.conserved
            ∙ ap (λ l. r ++ (c ++ (held_list o ++ l)))
                (ap (λ l. p ++ l) (k.none_lost refl) ∙ append-nil p))
        ∙ push_end r c (held_list o) p (m ∷ [])
        ∙ ap (λ l. r ++ (c ++ (held_list o ++ l))) (sym (append-nil (p ++ (m ∷ []))));
    none_lost = λ x. refl;
    none_pending = λ x. ground arith;
    bounded = ground (arith, length-append p (m ∷ []));
  }

  moved :
      (q r : List M) (s : Subscriber M) (m : M) (b : Bool) (w : Subscriber M × Delivery × ℕ)
      → queues s ≡ b
      → offer s m ≡ w
      → Keeps (if b then q ++ (m ∷ []) else q) r w.0
      → Keeps (if queues s then q ++ (m ∷ []) else q) r (offer s m).0
  moved q r s m b w e f k =
      subst
        (λ (x : Subscriber M × Delivery × ℕ). Keeps (if queues s then q ++ (m ∷ []) else q) r x.0)
        (sym f) (subst (λ x. Keeps (if x then q ++ (m ∷ []) else q) r w.0) (sym e) k)

  pub take_next-Keeps :
      (q r : List M) (s : Subscriber M) (p : List M)
      → s.pending ≡ p
      → s.stopped ≡ false
      → s.held ≡ none
      → Keeps q r s
      → Keeps q r (take_next s p)
  take_next-Keeps q r s [] e h n k = k
  take_next-Keeps q r s (m ∷ rest) e h n k = record {
    lost = k.lost;
    conserved =
        k.conserved
        ∙ ap (λ o. r ++ (s.channel ++ (held_list o ++ (s.pending ++ k.lost)))) n
        ∙ ap (λ p. r ++ (s.channel ++ (p ++ k.lost))) e;
    none_lost = k.none_lost;
    none_pending = λ x. absurd (not-both s.stopped h x);
    bounded = ground (arith, k.bounded, ap length e);
  }

  queues-stopped : (s : Subscriber M) → s.stopped ≡ true → queues s ≡ false
  queues-stopped s h = simp (h) refl

  queues-running : (s : Subscriber M) → s.stopped ≡ false → queues s ≡ not (is_full s)
  queues-running s h = simp (h) refl

  pub offer-Keeps :
      (q r : List M) (s : Subscriber M) (m : M)
      → Keeps q r s
      → Keeps (if queues s then q ++ (m ∷ []) else q) r (offer s m).0
  offer-Keeps q r s m k = elim (Bool-cases s.stopped) [
    | inl h ↦ moved q r s m false (s, delivered, 0) (queues-stopped s h) (offer-stopped s m h) k
    | inr h ↦ elim (Bool-cases (is_full s)) [
      | inl f ↦
          moved q r s m false (refuse s s.options.on_full) (queues-running s h ∙ ap not f)
            (offer-full s m h f) (refuse-Keeps q r s s.options.on_full k)
      | inr f ↦
          moved q r s m true (record s { pending = s.pending ++ (m ∷ []) }, delivered, 0)
            (queues-running s h ∙ ap not f) (offer-room s m h f)
            (subst
              (λ b.
                Conserves (q ++ (m ∷ [])) r s.channel s.held (s.pending ++ (m ∷ [])) b
                  s.options.queue_cap)
              (sym h)
              (queue-Conserves q r s.channel s.held s.pending s.options.queue_cap m
                (subst (λ b. Conserves q r s.channel s.held s.pending b s.options.queue_cap) h k)
                f))
    ]
  ]
