-- ===== src/Arguments/Parsed.antt =====
-- What pkg/utils/cmdutil/args.go keeps while it reads the tokens.
use framingo.Prelude.{
  ℕ, ◌≡◌, refl, sym, subst, ap, ◌∙◌, List, [], ◌∷◌, ◌++◌, Bool, true, false, Option, none, some,
  ◌==◌, if◌then◌else◌, All, Bool-cases, inl, inr, not-both, arith,
}
use framingo.Prelude.Dicts.{Dict, text_key, lookup, insert, lookup-insert}
use framingo.Prelude.Dicts.Entries.{lookup-insert_self}
use framingo.Arguments.{
  Token, Slot, keyed, raw, Flag, Merged, is_flag, split_token, more_values, take_value, note_slot,
  take_flag, take_token, take_tokens, take_sets,
}

-- What stands in a flag, so that its tokens are read as this flag again.
abbrev pub HasForm : Token → Bool → List Token → Type 0
HasForm key true [] = ⊥
HasForm key true (v ∷ []) =
    (is_flag (key ++ (b'=' ∷ v)) ≡ true) × (split_token (key ++ (b'=' ∷ v)) ≡ (key, some v))
HasForm key true (v ∷ w ∷ vs) = ⊥
HasForm key false vs =
    (is_flag key ≡ true) × (split_token key ≡ (key, none)) × All (λ t. is_flag t ≡ false) vs

abbrev pub HasSlot : Dict Token Flag → Slot → Type 0
HasSlot flags (raw t) = is_flag t ≡ false
HasSlot flags (keyed k) =
    (f : Flag) × (lookup text_key flags k ≡ some f) × HasForm k f.inline f.values

abbrev pub IsOther : Token → Slot → Type 0
IsOther k (raw t) = Unit {0}
IsOther k (keyed j) = ¬ (j ≡ k)

-- No two slots have the same key.
abbrev pub IsApart : List Slot → Type 0
IsApart [] = Unit {0}
IsApart (raw t ∷ ss) = IsApart ss
IsApart (keyed k ∷ ss) = All (IsOther k) ss × IsApart ss

abbrev pub HasOpen : Dict Token Flag → Option Token → Type 0
HasOpen flags none = Unit {0}
HasOpen flags (some k) =
    (f : Flag) × (lookup text_key flags k ≡ some f)
    × (f.inline ≡ false)
    × HasForm k f.inline f.values

pub record IsParsed (m : Merged) : Type 0 where
  pub apart : IsApart m.slots
  pub slotted : All (HasSlot m.flags) m.slots
  pub opened : HasOpen m.flags m.open_key

abbrev pub glue : Token → Option Token → Token
glue k none = k
glue k (some v) = k ++ (b'=' ∷ v)

is-equals : (a b : ℕ) → (a == b) ≡ true → a ≡ b
is-equals a b h = ground arith

glue-cons : (c : ℕ) (k : Token) (o : Option Token) → glue (c ∷ k) o ≡ c ∷ glue k o
glue-cons c k none = refl
glue-cons c k (some v) = refl

glue-split : (t : Token) → glue (split_token t).0 (split_token t).1 ≡ t
glue-split [] = refl
glue-split (c ∷ cs) = elim (Bool-cases (c == b'=')) [
  | inl p ↦
      ap
        (λ (b : Bool).
          let r : Token × Option Token =
            if b then ([], some cs) else (c ∷ (split_token cs).0, (split_token cs).1) in
          glue r.0 r.1)
        p
      ∙ ap (λ d. d ∷ cs) (sym (is-equals c b'=' p))
  | inr p ↦
      ap
        (λ (b : Bool).
          let r : Token × Option Token =
            if b then ([], some cs) else (c ∷ (split_token cs).0, (split_token cs).1) in
          glue r.0 r.1)
        p
      ∙ glue-cons c (split_token cs).0 (split_token cs).1
      ∙ ap (λ d. c ∷ d) (glue-split cs)
]

-- A token is read again as what it was split into.
abbrev IsSplit : Token → Option Token → Type 0
IsSplit k o = (is_flag (glue k o) ≡ true) × (split_token (glue k o) ≡ (k, o))

whole-IsSplit : (t : Token) → is_flag t ≡ true → IsSplit (split_token t).0 (split_token t).1
whole-IsSplit t h = (ap is_flag (glue-split t) ∙ h, ap split_token (glue-split t))

pub All-snoc :
    {A : Type 0} (P : A → Type 0) (xs : List A) (x : A) → All P xs → P x → All P (xs ++ (x ∷ []))
All-snoc P [] x h p = (p, tt)
All-snoc P (y ∷ ys) x h p = (h.0, All-snoc P ys x h.1 p)

snoc_raw-IsApart : (ss : List Slot) (t : Token) → IsApart ss → IsApart (ss ++ (raw t ∷ []))
snoc_raw-IsApart [] t h = tt
snoc_raw-IsApart (raw u ∷ ss) t h = snoc_raw-IsApart ss t h
snoc_raw-IsApart (keyed k ∷ ss) t h =
    (All-snoc (IsOther k) ss (raw t) h.0 tt, snoc_raw-IsApart ss t h.1)

snoc_keyed-IsApart :
    (ss : List Slot) (k : Token) → All (IsOther k) ss → IsApart ss → IsApart (ss ++ (keyed k ∷ []))
snoc_keyed-IsApart [] k o h = (tt, tt)
snoc_keyed-IsApart (raw u ∷ ss) k o h = snoc_keyed-IsApart ss k o.1 h
snoc_keyed-IsApart (keyed j ∷ ss) k o h =
    (All-snoc (IsOther j) ss (keyed k) h.0 (λ e. o.0 (sym e)), snoc_keyed-IsApart ss k o.1 h.1)

-- A key without a flag has no slot.
slots-IsOther :
    (flags : Dict Token Flag) (k : Token) (ss : List Slot)
    → lookup text_key flags k ≡ none
    → All (HasSlot flags) ss
    → All (IsOther k) ss
slots-IsOther flags k [] n h = tt
slots-IsOther flags k (raw t ∷ ss) n h = (tt, slots-IsOther flags k ss n h.1)
slots-IsOther flags k (keyed j ∷ ss) n ((f, e, g), h) = (
  λ (i : j ≡ k). some_none (sym e ∙ ap (lookup text_key flags) i ∙ n),
  slots-IsOther flags k ss n h,
)
  where
    some_none : some f ≡ none → ⊥
    some_none q = ground arith

insert-HasSlot :
    (flags : Dict Token Flag) (k : Token) (f : Flag) (ss : List Slot)
    → HasForm k f.inline f.values
    → All (HasSlot flags) ss
    → All (HasSlot (insert text_key flags k f)) ss
insert-HasSlot flags k f [] g h = tt
insert-HasSlot flags k f (raw t ∷ ss) g h = (h.0, insert-HasSlot flags k f ss g h.1)
insert-HasSlot flags k f (keyed j ∷ ss) g ((e, l, form), h) =
    elim (Bool-cases (text_key.same k j)) [
      | inl p ↦ (
        (
          f,
          lookup-insert text_key flags k j f
              ∙ ap (λ (b : Bool). if b then some f else lookup text_key flags j) p,
          subst (λ (i : Token). HasForm i f.inline f.values) (text_key.same_eq k j p) g,
        ),
        insert-HasSlot flags k f ss g h,
      )
      | inr p ↦ (
        (
          e,
          lookup-insert text_key flags k j f
              ∙ ap (λ (b : Bool). if b then some f else lookup text_key flags j) p
              ∙ l,
          form,
        ),
        insert-HasSlot flags k f ss g h,
      )
    ]

note_slot-IsApart :
    (flags : Dict Token Flag) (ss : List Slot) (k : Token) (found : Option Flag)
    → lookup text_key flags k ≡ found
    → IsApart ss
    → All (HasSlot flags) ss
    → IsApart (note_slot ss k found)
note_slot-IsApart flags ss k none e a h = snoc_keyed-IsApart ss k (slots-IsOther flags k ss e h) a
note_slot-IsApart flags ss k (some f) e a h = a

note_slot-HasSlot :
    (flags : Dict Token Flag) (ss : List Slot) (k : Token) (f : Flag) (found : Option Flag)
    → HasForm k f.inline f.values
    → All (HasSlot flags) ss
    → All (HasSlot (insert text_key flags k f)) (note_slot ss k found)
note_slot-HasSlot flags ss k f none g h =
    All-snoc (HasSlot (insert text_key flags k f)) ss (keyed k) (insert-HasSlot flags k f ss g h)
      (f, lookup-insert_self text_key flags k f, g)
note_slot-HasSlot flags ss k f (some _) g h = insert-HasSlot flags k f ss g h

pub take_flag-IsParsed :
    (m : Merged) (k : Token) (o : Option Token)
    → IsSplit k o
    → IsParsed m
    → IsParsed (take_flag m k o)
take_flag-IsParsed m k none g h =
    let f : Flag = record { inline = false; values = [] } in
    record {
      apart =
          note_slot-IsApart m.flags m.slots k (lookup text_key m.flags k) refl h.apart h.slotted;
      slotted =
          note_slot-HasSlot m.flags m.slots k f (lookup text_key m.flags k) (g.0, g.1, tt)
            h.slotted;
      opened = (f, lookup-insert_self text_key m.flags k f, refl, (g.0, g.1, tt));
    }
take_flag-IsParsed m k (some v) g h =
    let f : Flag = record { inline = true; values = v ∷ [] } in
    record {
      apart =
          note_slot-IsApart m.flags m.slots k (lookup text_key m.flags k) refl h.apart h.slotted;
      slotted = note_slot-HasSlot m.flags m.slots k f (lookup text_key m.flags k) g h.slotted;
      opened = tt;
    }

more-HasForm :
    (k : Token) (b : Bool) (vs : List Token) (t : Token)
    → b ≡ false
    → is_flag t ≡ false
    → HasForm k b vs
    → HasForm k b (vs ++ (t ∷ []))
more-HasForm k true vs t e n h = absurd (not-both true e refl)
more-HasForm k false vs t e n h = (h.0, h.1, All-snoc (λ u. is_flag u ≡ false) vs t h.2 n)

pub more_values-insert :
    (flags : Dict Token Flag) (k t : Token) (f : Flag)
    → lookup text_key flags k ≡ some f
    → more_values flags k t (lookup text_key flags k)
      ≡ insert text_key flags k record f { values = f.values ++ (t ∷ []) }
more_values-insert flags k t f l = ap (more_values flags k t) l

take_value-IsParsed :
    (ss : List Slot) (flags : Dict Token Flag) (o : Option Token) (t : Token)
    → is_flag t ≡ false
    → IsParsed record { slots = ss; flags = flags; open_key = o }
    → IsParsed (take_value record { slots = ss; flags = flags; open_key = o } t o)
take_value-IsParsed ss flags none t n h = record {
  apart = snoc_raw-IsApart ss t h.apart;
  slotted = All-snoc (HasSlot flags) ss (raw t) h.slotted n;
  opened = tt;
}
take_value-IsParsed ss flags (some k) t n h =
    let (f, l, i, form) = h.opened in
    let f' : Flag = record f { values = f.values ++ (t ∷ []) } in
    let form' : HasForm k f'.inline f'.values = more-HasForm k f.inline f.values t i n form in
    subst (λ (d : Dict Token Flag). IsParsed record { slots = ss; flags = d; open_key = some k })
      (sym (more_values-insert flags k t f l))
      record {
        apart = h.apart;
        slotted = insert-HasSlot flags k f' ss form' h.slotted;
        opened = (f', lookup-insert_self text_key flags k f', i, form');
      }

pub take_token-IsParsed : (m : Merged) (t : Token) → IsParsed m → IsParsed (take_token m t)
take_token-IsParsed m t h = elim (Bool-cases (is_flag t)) [
  | inl p ↦
      rw (p, take_token)
        (take_flag-IsParsed m (split_token t).0 (split_token t).1 (whole-IsSplit t p) h)
  | inr p ↦ rw (p, take_token) (take_value-IsParsed m.slots m.flags m.open_key t p h)
]

pub take_tokens-IsParsed : (m : Merged) (ts : List Token) → IsParsed m → IsParsed (take_tokens m ts)
take_tokens-IsParsed m [] h = h
take_tokens-IsParsed m (t ∷ ts) h =
    take_tokens-IsParsed (take_token m t) ts (take_token-IsParsed m t h)

pub take_sets-IsParsed :
    (m : Merged) (sets : List (List Token)) → IsParsed m → IsParsed (take_sets m sets)
unfolding take_sets
take_sets-IsParsed m [] h = h
take_sets-IsParsed m (set ∷ sets) h =
    take_sets-IsParsed (take_tokens (record m { open_key = none }) set) sets (
      take_tokens-IsParsed (record m { open_key = none }) set
        record { apart = h.apart; slotted = h.slotted; opened = tt })
