-- ===== src/Arguments.antt =====
-- pkg/utils/cmdutil/args.go: `MergeArgs`. A token is a text of bytes. The flag that is open is known
-- by its key, since a key keeps its flag. An access to a flag or a value that is not there, which
-- would panic, gives `none`.
pub mod Parsed
pub mod Again
pub mod Reads
pub mod Repeat
use framingo.Prelude.{
  ℕ, List, [], ◌∷◌, ◌++◌, Bool, true, false, Option, none, some, ◌==◌, if◌then◌else◌,
}
use framingo.Prelude.Dicts.{Dict, text_key, lookup, insert}

abbrev pub Token : Type 0
Token = List ℕ

pub data Slot : Type 0 where
  keyed : Token → Slot
  raw : Token → Slot

pub record Flag : Type 0 where
  pub inline : Bool
  pub values : List Token

pub record Merged : Type 0 where
  pub slots : List Slot
  pub flags : Dict Token Flag
  pub open_key : Option Token

-- `isFlag`
abbrev pub is_flag : Token → Bool
is_flag [] = false
is_flag (c ∷ []) = false
is_flag (c ∷ d ∷ cs) = c == b'-'

-- A flag's key, and the value behind its first equals sign.
abbrev pub split_token : Token → Token × Option Token
split_token [] = ([], none)
split_token (c ∷ cs) =
    let rest = split_token cs in if c == b'=' then ([], some cs) else (c ∷ rest.0, rest.1)

abbrev pub more_values : Dict Token Flag → Token → Token → Option Flag → Dict Token Flag
more_values flags key token none = flags
more_values flags key token (some f) =
    insert text_key flags key record f { values = f.values ++ (token ∷ []) }

abbrev pub take_value : Merged → Token → Option Token → Merged
take_value m token none = record m { slots = m.slots ++ (raw token ∷ []) }
take_value m token (some key) = record m {
  flags = more_values m.flags key token (lookup text_key m.flags key);
}

abbrev pub note_slot : List Slot → Token → Option Flag → List Slot
note_slot slots key none = slots ++ (keyed key ∷ [])
note_slot slots key (some f) = slots

abbrev pub take_flag : Merged → Token → Option Token → Merged
take_flag m key none = record {
  slots = note_slot m.slots key (lookup text_key m.flags key);
  flags = insert text_key m.flags key record { inline = false; values = [] };
  open_key = some key;
}
take_flag m key (some value) = record {
  slots = note_slot m.slots key (lookup text_key m.flags key);
  flags = insert text_key m.flags key record { inline = true; values = value ∷ [] };
  open_key = none;
}

abbrev pub take_token : Merged → Token → Merged
take_token m token =
    if is_flag token
    then take_flag m (split_token token).0 (split_token token).1
    else take_value m token m.open_key

abbrev pub take_tokens : Merged → List Token → Merged
take_tokens m [] = m
take_tokens m (t ∷ ts) = take_tokens (take_token m t) ts

unfoldable pub take_sets : Merged → List (List Token) → Merged
take_sets m [] = m
take_sets m (set ∷ sets) = take_sets (take_tokens (record m { open_key = none }) set) sets

abbrev pub emit_flag : Token → Bool → List Token → Option (List Token)
emit_flag key true [] = none
emit_flag key true (v ∷ vs) = some ((key ++ (b'=' ∷ v)) ∷ [])
emit_flag key false vs = some (key ∷ vs)

abbrev pub emit_found : Token → Option Flag → Option (List Token)
emit_found key none = none
emit_found key (some f) = emit_flag key f.inline f.values

abbrev pub emit_slot : Dict Token Flag → Slot → Option (List Token)
emit_slot flags (raw token) = some (token ∷ [])
emit_slot flags (keyed key) = emit_found key (lookup text_key flags key)

abbrev pub both : Option (List Token) → Option (List Token) → Option (List Token)
both none o = none
both (some a) none = none
both (some a) (some b) = some (a ++ b)

-- The loop that makes the result.
abbrev pub emit : Dict Token Flag → List Slot → Option (List Token)
emit flags [] = some []
emit flags (s ∷ ss) = both (emit_slot flags s) (emit flags ss)

abbrev pub no_tokens : Merged
no_tokens = record { slots = []; flags = []; open_key = none }

unfoldable pub merge_args : List (List Token) → Option (List Token)
merge_args sets = let m = take_sets no_tokens sets in emit m.flags m.slots
