-- ===== src/Pubsub/Faithful.antt =====
-- What a subscriber of pkg/services/pubsub/driver/util.go delivers, and in what order.
use framingo.Prelude.{
  ℕ, ◌≡◌, refl, sym, ap, subst, ◌∙◌, List, [], ◌∷◌, ◌++◌, append_assoc, Bool, true, Option, none,
  some, ltb, if_cases, length, not-both, arith,
}
use framingo.Pubsub.{
  Subscriber, Event, offers, nexts, sends, quits, receives, stops, claims, claim_eviction, next,
  stop, send, quit, is_idle, History, receive, step, run,
}
use framingo.Pubsub.Conserves.{
  held_list, Conserves, Keeps, IsFaithful, offer-Keeps, take_next-Keeps,
}

module _ {M : Type 0} where
  next-Keeps : (q r : List M) (s : Subscriber M) → s.held ≡ none → Keeps q r s → Keeps q r (next s)
  unfolding next
  next-Keeps q r s e k =
      if_cases (λ (t : Subscriber M). Keeps q r t) s.stopped (λ h. k)
        (λ h. take_next-Keeps q r s s.pending refl h e k)

  send-Conserves :
      (q r c p : List M) (m : M) (b : Bool) (cap : ℕ)
      → Conserves q r c (some m) p b cap
      → Conserves q r (c ++ (m ∷ [])) none p b cap
  send-Conserves q r c p m b cap k = record {
    lost = k.lost;
    conserved = k.conserved ∙ ap (λ l. r ++ l) (sym (append_assoc c (m ∷ []) (p ++ k.lost)));
    none_lost = k.none_lost;
    none_pending = k.none_pending;
    bounded = k.bounded;
  }

  send-Keeps :
      (q r : List M) (s : Subscriber M) (o : Option M)
      → s.held ≡ o
      → Keeps q r s
      → Keeps q r (send s o)
  send-Keeps q r s none e k = k
  send-Keeps q r s (some m) e k =
      if_cases (λ (t : Subscriber M). Keeps q r t) (ltb (length s.channel) s.options.chan_buf)
        (λ h.
          send-Conserves q r s.channel s.pending m s.stopped s.options.queue_cap
            (subst (λ x. Conserves q r s.channel x s.pending s.stopped s.options.queue_cap) e k))
        (λ h. k)

  quit-Conserves :
      (q r c p : List M) (m : M) (b : Bool) (cap : ℕ)
      → b ≡ true
      → Conserves q r c (some m) p b cap
      → Conserves q r c none p b cap
  quit-Conserves q r c p m b cap h k = record {
    lost = m ∷ k.lost;
    conserved =
        k.conserved
        ∙ ap (λ x. r ++ (c ++ (m ∷ (x ++ k.lost)))) (k.none_pending h)
        ∙ sym (ap (λ x. r ++ (c ++ (x ++ (m ∷ k.lost)))) (k.none_pending h));
    none_lost = λ x. absurd (not-both b x h);
    none_pending = k.none_pending;
    bounded = k.bounded;
  }

  quit-Keeps :
      (q r : List M) (s : Subscriber M) (o : Option M)
      → s.held ≡ o
      → Keeps q r s
      → Keeps q r (quit s o)
  quit-Keeps q r s none e k = k
  quit-Keeps q r s (some m) e k =
      if_cases (λ (t : Subscriber M). Keeps q r t) s.stopped
        (λ h.
          quit-Conserves q r s.channel s.pending m s.stopped s.options.queue_cap h
            (subst (λ x. Conserves q r s.channel x s.pending s.stopped s.options.queue_cap) e k))
        (λ h. k)

  stop-Conserves :
      (q r c p : List M) (o : Option M) (b : Bool) (cap : ℕ)
      → Conserves q r c o p b cap
      → Conserves q r c o [] true cap
  stop-Conserves q r c p o b cap k = record {
    lost = p ++ k.lost;
    conserved = k.conserved;
    none_lost = λ x. ground arith;
    none_pending = λ x. refl;
    bounded = omega arith;
  }

  stop-Keeps : (q r : List M) (s : Subscriber M) → Keeps q r s → Keeps q r (stop s)
  unfolding stop
  stop-Keeps q r s k =
      if_cases (λ (t : Subscriber M). Keeps q r t) s.stopped (λ h. k)
        (λ h. stop-Conserves q r s.channel s.pending s.held s.stopped s.options.queue_cap k)

  claim-Keeps : (q r : List M) (s : Subscriber M) → Keeps q r s → Keeps q r (claim_eviction s).0
  unfolding claim_eviction
  claim-Keeps q r s k =
      if_cases (λ (t : Subscriber M × Bool). Keeps q r t.0) s.evicting (λ h. k) (λ h. k)

  receive-IsFaithful :
      (h : History M) (c : List M) → h.now.channel ≡ c → IsFaithful h → IsFaithful (receive h c)
  receive-IsFaithful h [] e k = k
  receive-IsFaithful h (m ∷ rest) e k = record {
    lost = k.lost;
    conserved =
        k.conserved
        ∙ ap (λ c. h.received ++ (c ++ (held_list h.now.held ++ (h.now.pending ++ k.lost)))) e
        ∙ sym (
            append_assoc h.received (m ∷ [])
              (rest ++ (held_list h.now.held ++ (h.now.pending ++ k.lost))));
    none_lost = k.none_lost;
    none_pending = k.none_pending;
    bounded = k.bounded;
  }

  idle-none : (s : Subscriber M) (o : Option M) → is_idle s o ≡ true → o ≡ none
  idle-none s none h = refl
  idle-none s (some m) h = ground arith

  step-IsFaithful : (h : History M) (e : Event M) → IsFaithful h → IsFaithful (step h e)
  unfolding step
  step-IsFaithful h (offers m) k = offer-Keeps h.queued h.received h.now m k
  step-IsFaithful h nexts k =
      if_cases (λ (t : History M). IsFaithful t) (is_idle h.now h.now.held)
        (λ i. next-Keeps h.queued h.received h.now (idle-none h.now h.now.held i) k) (λ i. k)
  step-IsFaithful h sends k = send-Keeps h.queued h.received h.now h.now.held refl k
  step-IsFaithful h quits k = quit-Keeps h.queued h.received h.now h.now.held refl k
  step-IsFaithful h receives k = receive-IsFaithful h h.now.channel refl k
  step-IsFaithful h stops k = stop-Keeps h.queued h.received h.now k
  step-IsFaithful h claims k = claim-Keeps h.queued h.received h.now k

  -- Whatever happens to a subscriber, in whatever order, these hold if they held before: the
  -- messages that were queued are those that its reader has received, followed by those on their
  -- way in the channel, with the pump and in the queue, followed by those that a stop has thrown
  -- away; without a stop none is lost. So none comes twice or out of order. And the queue keeps
  -- its bound.
  pub run-IsFaithful : (h : History M) (es : List (Event M)) → IsFaithful h → IsFaithful (run h es)
  unfolding run
  run-IsFaithful h [] k = k
  run-IsFaithful h (e ∷ es) k = run-IsFaithful (step h e) es (step-IsFaithful h e k)
