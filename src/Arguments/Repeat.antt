-- ===== src/Arguments/Repeat.antt =====
-- `MergeArgs` of pkg/utils/cmdutil/args.go on its own result.
use framingo.Prelude.{
  ◌≡◌, refl, sym, subst, ap, ◌∙◌, List, [], ◌∷◌, ◌++◌, append_assoc, append-nil, Bool, true, false,
  Option, none, some, All,
}
use framingo.Prelude.Dicts.{Dict, text_key, lookup}
use framingo.Arguments.{
  Token, Slot, keyed, raw, Flag, Merged, take_flag, take_token, take_tokens, take_sets, emit_flag,
  emit_found, both, emit, no_tokens, merge_args,
}
use framingo.Arguments.Parsed.{HasForm, HasSlot, IsOther, IsApart, glue, take_sets-IsParsed}
use framingo.Arguments.Reads.{
  Reads, plain_token-Reads, plain_tokens-Reads, flag_token, take_flag-Reads,
}
use framingo.Arguments.Again.{IsPrinted, IsFresh}

abbrev flag_tokens : Token → Bool → List Token → List Token
flag_tokens k true [] = []
flag_tokens k true (v ∷ vs) = glue k (some v) ∷ []
flag_tokens k false vs = k ∷ vs

abbrev found_tokens : Token → Option Flag → List Token
found_tokens k none = []
found_tokens k (some f) = flag_tokens k f.inline f.values

abbrev slot_tokens : Dict Token Flag → Slot → List Token
slot_tokens flags (raw t) = t ∷ []
slot_tokens flags (keyed k) = found_tokens k (lookup text_key flags k)

abbrev all_tokens : Dict Token Flag → List Slot → List Token
all_tokens flags [] = []
all_tokens flags (s ∷ ss) = slot_tokens flags s ++ all_tokens flags ss

emit_flag-tokens :
    (k : Token) (b : Bool) (vs : List Token)
    → HasForm k b vs
    → emit_flag k b vs ≡ some (flag_tokens k b vs)
emit_flag-tokens k true [] h = absurd h
emit_flag-tokens k true (v ∷ []) h = refl
emit_flag-tokens k true (v ∷ w ∷ vs) h = absurd h
emit_flag-tokens k false vs h = refl

emit-tokens :
    (flags : Dict Token Flag) (ss : List Slot)
    → All (HasSlot flags) ss
    → emit flags ss ≡ some (all_tokens flags ss)
emit-tokens flags [] h = refl
emit-tokens flags (raw t ∷ ss) h = ap (both (some (t ∷ []))) (emit-tokens flags ss h.1)
emit-tokens flags (keyed k ∷ ss) ((f, l, form), h) =
    ap (λ a. both (emit_found k (lookup text_key flags k)) a) (emit-tokens flags ss h)
    ∙ ap (λ a. both a (some (all_tokens flags ss)))
        (ap (emit_found k) l
          ∙ emit_flag-tokens k f.inline f.values form
          ∙ ap (λ o. some (found_tokens k o)) (sym l))

flag_tokens-Reads :
    (m : Merged) (k : Token) (b : Bool) (vs ts : List Token)
    → HasForm k b vs
    → IsFresh m k
    → IsPrinted m ts
    → Reads (λ j. ¬ (j ≡ k)) m (take_tokens m (flag_tokens k b vs)) (ts ++ flag_tokens k b vs)
flag_tokens-Reads m k true [] ts h n p = absurd h
flag_tokens-Reads m k true (v ∷ []) ts h n p =
    subst (λ m'. Reads (λ j. ¬ (j ≡ k)) m m' (ts ++ (glue k (some v) ∷ [])))
      (sym (flag_token m (glue k (some v)) k (some v) h.0 h.1))
      (take_flag-Reads m k (some v) ts n p)
flag_tokens-Reads m k true (v ∷ w ∷ vs) ts h n p = absurd h
flag_tokens-Reads m k false vs ts h n p =
    let m' = take_flag m k none in
    let r = take_flag-Reads m k none ts n p in
    let q = plain_tokens-Reads m' vs (ts ++ (k ∷ [])) h.2 r.prints in
    subst (λ m''. Reads (λ j. ¬ (j ≡ k)) m (take_tokens m'' vs) (ts ++ (k ∷ vs)))
      (sym (flag_token m k k none h.0 h.1))
      record {
        prints = subst (IsPrinted (take_tokens m' vs)) (append_assoc ts (k ∷ []) vs) q.prints;
        keeps = λ j ne f. q.keeps j tt (r.keeps j ne f);
      }

abbrev IsLater : Slot → Token → Type 0
IsLater (raw t) j = Unit {0}
IsLater (keyed k) j = ¬ (j ≡ k)

abbrev AtKey : (Token → Type 0) → Slot → Type 0
AtKey P (raw t) = Unit {0}
AtKey P (keyed j) = P j

slot_tokens-Reads :
    (flags : Dict Token Flag) (m : Merged) (s : Slot) (ts : List Token)
    → HasSlot flags s
    → AtKey (IsFresh m) s
    → IsPrinted m ts
    → Reads (IsLater s) m (take_tokens m (slot_tokens flags s)) (ts ++ slot_tokens flags s)
slot_tokens-Reads flags m (raw t) ts h n p = plain_token-Reads m t ts h p
slot_tokens-Reads flags m (keyed k) ts (f, l, form) n p =
    subst
      (λ o. Reads (λ j. ¬ (j ≡ k)) m (take_tokens m (found_tokens k o)) (ts ++ found_tokens k o))
      (sym l) (flag_tokens-Reads m k f.inline f.values ts form n p)

rest_slots :
    (s : Slot) (ss : List Slot) → IsApart (s ∷ ss) → All (AtKey (IsLater s)) ss × IsApart ss
rest_slots (raw t) ss h = (all ss, h)
  where
    all : (ss : List Slot) → All (AtKey (λ j. Unit {0})) ss
    all [] = tt
    all (raw u ∷ ss) = (tt, all ss)
    all (keyed j ∷ ss) = (tt, all ss)
rest_slots (keyed k) ss h = (all ss h.0, h.1)
  where
    all : (ss : List Slot) → All (IsOther k) ss → All (AtKey (λ j. ¬ (j ≡ k))) ss
    all [] o = tt
    all (raw u ∷ ss) o = (tt, all ss o.1)
    all (keyed j ∷ ss) o = (o.0, all ss o.1)

kept-IsFresh :
    (P : Token → Type 0) (m m' : Merged) (ss : List Slot)
    → ((j : Token) → P j → IsFresh m j → IsFresh m' j)
    → All (AtKey P) ss
    → All (AtKey (IsFresh m)) ss
    → All (AtKey (IsFresh m')) ss
kept-IsFresh P m m' [] keep p h = tt
kept-IsFresh P m m' (raw t ∷ ss) keep p h = (tt, kept-IsFresh P m m' ss keep p.1 h.1)
kept-IsFresh P m m' (keyed j ∷ ss) keep p h = (keep j p.0 h.0, kept-IsFresh P m m' ss keep p.1 h.1)

take_tokens-append :
    (m : Merged) (ts us : List Token) → take_tokens m (ts ++ us) ≡ take_tokens (take_tokens m ts) us
take_tokens-append m [] us = refl
take_tokens-append m (t ∷ ts) us = take_tokens-append (take_token m t) ts us

all_tokens-IsPrinted :
    (flags : Dict Token Flag) (ss : List Slot) (m : Merged) (ts : List Token)
    → All (HasSlot flags) ss
    → IsApart ss
    → All (AtKey (IsFresh m)) ss
    → IsPrinted m ts
    → IsPrinted (take_tokens m (all_tokens flags ss)) (ts ++ all_tokens flags ss)
all_tokens-IsPrinted flags [] m ts h a n p = subst (IsPrinted m) (sym (append-nil ts)) p
all_tokens-IsPrinted flags (s ∷ ss) m ts h a n p =
    let us = slot_tokens flags s in
    let rest = all_tokens flags ss in
    let r = slot_tokens-Reads flags m s ts h.0 n.0 p in
    let (later, apart) = rest_slots s ss a in
    subst (λ m'. IsPrinted m' (ts ++ (us ++ rest))) (sym (take_tokens-append m us rest))
      (subst (IsPrinted (take_tokens (take_tokens m us) rest)) (append_assoc ts us rest) (
        all_tokens-IsPrinted flags ss (take_tokens m us) (ts ++ us) h.1 apart
          (kept-IsFresh (IsLater s) m (take_tokens m us) ss r.keeps later n.1) r.prints))

start-IsFresh : (ss : List Slot) → All (AtKey (IsFresh no_tokens)) ss
start-IsFresh [] = tt
start-IsFresh (raw t ∷ ss) = (tt, start-IsFresh ss)
start-IsFresh (keyed k ∷ ss) = (record { other = tt; absent = refl }, start-IsFresh ss)

-- MergeArgs does not panic, and merging its result again changes nothing.
pub merge_args-again :
    (sets : List (List Token))
    → (args : List Token) × (merge_args sets ≡ some args) × (merge_args (args ∷ []) ≡ some args)
unfolding merge_args take_sets
merge_args-again sets =
    let m = take_sets no_tokens sets in
    let h = take_sets-IsParsed no_tokens sets record { apart = tt; slotted = tt; opened = tt } in
    let p =
      all_tokens-IsPrinted m.flags m.slots no_tokens [] h.slotted h.apart (start-IsFresh m.slots)
        record { printed = refl; last = tt } in
    (all_tokens m.flags m.slots, emit-tokens m.flags m.slots h.slotted, p.printed)
