-- ===== src/Arguments/Reads.antt =====
-- What reading a token of its result changes for `MergeArgs` of pkg/utils/cmdutil/args.go.
use framingo.Prelude.{
  ◌≡◌, refl, sym, subst, ap, ◌∙◌, List, [], ◌∷◌, ◌++◌, append_assoc, append-nil, Bool, true, false,
  Option, none, some, if◌then◌else◌, All, arith,
}
use framingo.Prelude.Dicts.{Dict, text_key, lookup, insert}
use framingo.Prelude.Dicts.Entries.{lookup-insert_self, lookup-insert_ne}
use framingo.Arguments.{
  Token, Slot, keyed, raw, Flag, Merged, is_flag, split_token, take_value, note_slot, take_flag,
  take_token, take_tokens, both,
}
use framingo.Arguments.Parsed.{IsOther, glue, All-snoc, more_values-insert}
use framingo.Arguments.Again.{HasLast, IsPrinted, IsFresh, emit-last, take_value-IsPrinted}

take_value-IsFresh :
    (ss : List Slot) (flags : Dict Token Flag) (o : Option Token) (t j : Token)
    → HasLast flags ss o
    → IsFresh record { slots = ss; flags = flags; open_key = o } j
    → IsFresh (take_value record { slots = ss; flags = flags; open_key = o } t o) j
take_value-IsFresh ss flags none t j h n = record {
  other = All-snoc (IsOther j) ss (raw t) n.other tt;
  absent = n.absent;
}
take_value-IsFresh ss flags (some k) t j h n =
    let (init, f, e, others, l, i) = h in
    let apart : ¬ (j ≡ k) =
      λ q. some_none f (sym l ∙ ap (lookup text_key flags) (sym q) ∙ n.absent) in
    record {
      other = n.other;
      absent =
          ap (λ d. lookup text_key d j) (more_values-insert flags k t f l)
          ∙ lookup-insert_ne text_key flags k j record f { values = f.values ++ (t ∷ []) } apart
          ∙ n.absent;
    }
  where
    some_none : (f : Flag) → some f ≡ none → ⊥
    some_none f q = ground arith

-- What reading has kept, with the keys that are still fresh.
pub record Reads (Later : Token → Type 0) (m m' : Merged) (ts : List Token) : Type 0 where
  pub prints : IsPrinted m' ts
  pub keeps : (j : Token) → Later j → IsFresh m j → IsFresh m' j

plain_token :
    (m : Merged) (t : Token) → is_flag t ≡ false → take_token m t ≡ take_value m t m.open_key
plain_token m t n =
    ap
      (λ (b : Bool).
        if b then take_flag m (split_token t).0 (split_token t).1 else take_value m t m.open_key)
      n

pub flag_token :
    (m : Merged) (t k : Token) (o : Option Token)
    → is_flag t ≡ true
    → split_token t ≡ (k, o)
    → take_token m t ≡ take_flag m k o
flag_token m t k o p e =
    ap
      (λ (b : Bool).
        if b then take_flag m (split_token t).0 (split_token t).1 else take_value m t m.open_key)
      p
    ∙ ap (λ (s : Token × Option Token). take_flag m s.0 s.1) e

pub plain_token-Reads :
    (m : Merged) (t : Token) (ts : List Token)
    → is_flag t ≡ false
    → IsPrinted m ts
    → Reads (λ j. Unit {0}) m (take_token m t) (ts ++ (t ∷ []))
plain_token-Reads m t ts n h =
    subst (λ m'. Reads (λ j. Unit {0}) m m' (ts ++ (t ∷ []))) (sym (plain_token m t n))
      record {
        prints = take_value-IsPrinted m.slots m.flags m.open_key t ts h;
        keeps = λ j u f. take_value-IsFresh m.slots m.flags m.open_key t j h.last f;
      }

pub plain_tokens-Reads :
    (m : Merged) (vs ts : List Token)
    → All (λ t. is_flag t ≡ false) vs
    → IsPrinted m ts
    → Reads (λ j. Unit {0}) m (take_tokens m vs) (ts ++ vs)
plain_tokens-Reads m [] ts n h = record {
  prints = subst (IsPrinted m) (sym (append-nil ts)) h;
  keeps = λ j u f. f;
}
plain_tokens-Reads m (t ∷ vs) ts n h =
    let r = plain_token-Reads m t ts n.0 h in
    let q = plain_tokens-Reads (take_token m t) vs (ts ++ (t ∷ [])) n.1 r.prints in
    record {
      prints =
          subst (IsPrinted (take_tokens (take_token m t) vs)) (append_assoc ts (t ∷ []) vs)
            q.prints;
      keeps = λ j u f. q.keeps j u (r.keeps j u f);
    }

fresh_slot :
    (m : Merged) (k : Token)
    → IsFresh m k
    → note_slot m.slots k (lookup text_key m.flags k) ≡ m.slots ++ (keyed k ∷ [])
fresh_slot m k n = ap (note_slot m.slots k) n.absent

set_flag-IsFresh :
    (m : Merged) (k j : Token) (f : Flag)
    → ¬ (j ≡ k)
    → IsFresh m j
    → All (IsOther j) (m.slots ++ (keyed k ∷ []))
      × (lookup text_key (insert text_key m.flags k f) j ≡ none)
set_flag-IsFresh m k j f ne n = (
  All-snoc (IsOther j) m.slots (keyed k) n.other (λ e. ne (sym e)),
  lookup-insert_ne text_key m.flags k j f ne ∙ n.absent,
)

pub take_flag-Reads :
    (m : Merged) (k : Token) (o : Option Token) (ts : List Token)
    → IsFresh m k
    → IsPrinted m ts
    → Reads (λ j. ¬ (j ≡ k)) m (take_flag m k o) (ts ++ (glue k o ∷ []))
take_flag-Reads m k none ts n h =
    let f : Flag = record { inline = false; values = [] } in
    subst
      (λ ss.
        Reads (λ j. ¬ (j ≡ k)) m
          record { slots = ss; flags = insert text_key m.flags k f; open_key = some k }
          (ts ++ (k ∷ [])))
      (sym (fresh_slot m k n))
      record {
        prints = record {
          printed =
              emit-last m.flags m.slots k f n.other ∙ ap (λ a. both a (some (k ∷ []))) h.printed;
          last = (m.slots, f, refl, n.other, lookup-insert_self text_key m.flags k f, refl);
        };
        keeps = λ j ne q.
            let (a, b) = set_flag-IsFresh m k j f ne q in record { other = a; absent = b };
      }
take_flag-Reads m k (some v) ts n h =
    let f : Flag = record { inline = true; values = v ∷ [] } in
    subst
      (λ ss.
        Reads (λ j. ¬ (j ≡ k)) m
          record { slots = ss; flags = insert text_key m.flags k f; open_key = none }
          (ts ++ (glue k (some v) ∷ [])))
      (sym (fresh_slot m k n))
      record {
        prints = record {
          printed =
              emit-last m.flags m.slots k f n.other
              ∙ ap (λ a. both a (some (glue k (some v) ∷ []))) h.printed;
          last = tt;
        };
        keeps = λ j ne q.
            let (a, b) = set_flag-IsFresh m k j f ne q in record { other = a; absent = b };
      }
