-- ===== src/Arguments/Again.antt =====
-- Reading again what pkg/utils/cmdutil/args.go has merged.
use framingo.Prelude.{
  ◌≡◌, refl, sym, subst, ap, ◌∙◌, List, [], ◌∷◌, ◌++◌, append_assoc, append-nil, Bool, true, false,
  Option, none, some, All, not-both,
}
use framingo.Prelude.Dicts.{Dict, text_key, lookup, insert}
use framingo.Prelude.Dicts.Entries.{lookup-insert_self, lookup-insert_ne}
use framingo.Arguments.{
  Token, Slot, keyed, raw, Flag, Merged, take_value, emit_flag, emit_found, emit_slot, both, emit,
}
use framingo.Arguments.Parsed.{IsOther, more_values-insert}

both_assoc : (a b c : Option (List Token)) → both (both a b) c ≡ both a (both b c)
both_assoc none b c = refl
both_assoc (some a) none c = refl
both_assoc (some a) (some b) none = refl
both_assoc (some a) (some b) (some c) = ap some (append_assoc a b c)

both-nil : (a : Option (List Token)) → both (some []) a ≡ a
both-nil none = refl
both-nil (some a) = refl

emit-append :
    (flags : Dict Token Flag) (ss ss' : List Slot)
    → emit flags (ss ++ ss') ≡ both (emit flags ss) (emit flags ss')
emit-append flags [] ss' = sym (both-nil (emit flags ss'))
emit-append flags (s ∷ ss) ss' =
    ap (both (emit_slot flags s)) (emit-append flags ss ss')
    ∙ sym (both_assoc (emit_slot flags s) (emit flags ss) (emit flags ss'))

emit-insert :
    (flags : Dict Token Flag) (k : Token) (f : Flag) (ss : List Slot)
    → All (IsOther k) ss
    → emit (insert text_key flags k f) ss ≡ emit flags ss
emit-insert flags k f [] o = refl
emit-insert flags k f (raw t ∷ ss) o = ap (both (some (t ∷ []))) (emit-insert flags k f ss o.1)
emit-insert flags k f (keyed j ∷ ss) o =
    ap (λ found. both (emit_found j found) (emit (insert text_key flags k f) ss))
      (lookup-insert_ne text_key flags k j f o.0)
    ∙ ap (both (emit_found j (lookup text_key flags j))) (emit-insert flags k f ss o.1)

-- The result with a flag in its last slot.
pub emit-last :
    (flags : Dict Token Flag) (ss : List Slot) (k : Token) (f : Flag)
    → All (IsOther k) ss
    → emit (insert text_key flags k f) (ss ++ (keyed k ∷ []))
      ≡ both (emit flags ss) (both (emit_flag k f.inline f.values) (some []))
emit-last flags ss k f o =
    emit-append (insert text_key flags k f) ss (keyed k ∷ [])
    ∙ ap (λ a. both a (emit (insert text_key flags k f) (keyed k ∷ [])))
        (emit-insert flags k f ss o)
    ∙ ap (λ found. both (emit flags ss) (both (emit_found k found) (some [])))
        (lookup-insert_self text_key flags k f)

abbrev add_token : Token → Option (List Token) → Option (List Token)
add_token t none = none
add_token t (some ts) = some (ts ++ (t ∷ []))

both-add_token :
    (a : Option (List Token)) (b : List Token) (t : Token)
    → both a (some (b ++ (t ∷ []))) ≡ add_token t (both a (some b))
both-add_token none b t = refl
both-add_token (some a) b t = ap some (sym (append_assoc a b (t ∷ [])))

spaced_more :
    (k : Token) (b : Bool) (vs : List Token) (t : Token) (a : Option (List Token))
    → b ≡ false
    → both a (both (emit_flag k b (vs ++ (t ∷ []))) (some []))
      ≡ add_token t (both a (both (emit_flag k b vs) (some [])))
spaced_more k true vs t a e = absurd (not-both true e refl)
spaced_more k false vs t a e =
    ap (both a) (ap some (append-nil (k ∷ (vs ++ (t ∷ [])))))
    ∙ both-add_token a (k ∷ vs) t
    ∙ ap (λ b. add_token t (both a b)) (sym (ap some (append-nil (k ∷ vs))))

-- An open flag stands in the last slot, and in no other.
abbrev pub HasLast : Dict Token Flag → List Slot → Option Token → Type 0
HasLast flags ss none = Unit {0}
HasLast flags ss (some k) =
    (init : List Slot) × (f : Flag) × (ss ≡ init ++ (keyed k ∷ []))
    × All (IsOther k) init
    × (lookup text_key flags k ≡ some f)
    × (f.inline ≡ false)

-- The tokens that have been read are those that would be given back.
pub record IsPrinted (m : Merged) (ts : List Token) : Type 0 where
  pub printed : emit m.flags m.slots ≡ some ts
  pub last : HasLast m.flags m.slots m.open_key

-- A key that was not read yet.
pub record IsFresh (m : Merged) (k : Token) : Type 0 where
  pub other : All (IsOther k) m.slots
  pub absent : lookup text_key m.flags k ≡ none

emit-last_again :
    (flags : Dict Token Flag) (ss : List Slot) (k : Token) (f : Flag)
    → lookup text_key flags k ≡ some f
    → emit flags (ss ++ (keyed k ∷ []))
      ≡ both (emit flags ss) (both (emit_flag k f.inline f.values) (some []))
emit-last_again flags ss k f l =
    emit-append flags ss (keyed k ∷ [])
    ∙ ap (λ found. both (emit flags ss) (both (emit_found k found) (some []))) l

pub take_value-IsPrinted :
    (ss : List Slot) (flags : Dict Token Flag) (o : Option Token) (t : Token) (ts : List Token)
    → IsPrinted record { slots = ss; flags = flags; open_key = o } ts
    → IsPrinted (take_value record { slots = ss; flags = flags; open_key = o } t o) (ts ++ (t ∷ []))
take_value-IsPrinted ss flags none t ts h = record {
  printed = emit-append flags ss (raw t ∷ []) ∙ ap (λ a. both a (some (t ∷ []))) h.printed;
  last = tt;
}
take_value-IsPrinted ss flags (some k) t ts h =
    let (init, f, e, others, l, i) = h.last in
    let f' : Flag = record f { values = f.values ++ (t ∷ []) } in
    subst
      (λ (d : Dict Token Flag).
        IsPrinted record { slots = ss; flags = d; open_key = some k } (ts ++ (t ∷ [])))
      (sym (more_values-insert flags k t f l))
      record {
        printed =
            ap (emit (insert text_key flags k f')) e
            ∙ emit-last flags init k f' others
            ∙ spaced_more k f.inline f.values t (emit flags init) i
            ∙ ap (add_token t) (sym (emit-last_again flags init k f l) ∙ ap (emit flags) (sym e))
            ∙ ap (add_token t) h.printed;
        last = (init, f', e, others, lookup-insert_self text_key flags k f', i);
      }
