-- ===== src/Testnet/Flags.antt =====
-- Command-line flags as the commands of evmd/cmd/evmd/cmd/testnet.go use them: a flag is registered
-- with a default, takes the values of the command line, and is read by its name.
use mathlib.Core.Option.{some-injective}
use zk_cosmos_eth_bridge.Common.{
  ℕ, ◌≡◌, refl, ap, sym, ◌∙◌, Bool, true, false, ◌&&◌, Option, none, some, List, [], ◌∷◌, ◌++◌,
  if◌then◌else◌, arith, Bool-cases, inl, inr, Bytes, codes, text_eq, text_eq_refl, text_eq→eq,
}
use zk_cosmos_eth_bridge.Common.Int.{ℤ, pos}

-- A value of a slice has whether the command line has set it already, as in pflag.
pub data FlagValue : Type 0 where
  int : ℤ → FlagValue
  text : Bytes → FlagValue
  bool : Bool → FlagValue
  duration : ℕ → FlagValue
  ints : Bool → List ℤ → FlagValue
  texts : Bool → List Bytes → FlagValue

abbrev pub same_kind : FlagValue → FlagValue → Bool
same_kind (int a) (int b) = true
same_kind (text a) (text b) = true
same_kind (bool a) (bool b) = true
same_kind (duration a) (duration b) = true
same_kind (ints c a) (ints d b) = true
same_kind (texts c a) (texts d b) = true
same_kind a b = false

-- `Set` of a flag with this value: the first value that is set for a slice takes the place of the
-- default, the later ones are appended.
abbrev pub assigned : FlagValue → FlagValue → FlagValue
assigned (ints false a) (ints c b) = ints true b
assigned (ints true a) (ints c b) = ints true (a ++ b)
assigned (texts false a) (texts c b) = texts true b
assigned (texts true a) (texts c b) = texts true (a ++ b)
assigned a b = b

abbrev pub Flags : Type 0
Flags = List (Bytes × FlagValue)

-- The old name of the flag for the key type.
abbrev pub normalize : Bytes → Bytes
normalize name = if text_eq name (codes "algo") then codes "key-type" else name

unfoldable pub lookup : Bytes → Flags → Option FlagValue
lookup m [] = none
lookup m ((n, v) ∷ flags) = if text_eq n m then some v else lookup m flags

abbrev pub in_front : Bytes × FlagValue → Option Flags → Option Flags
in_front f none = none
in_front f (some flags) = some (f ∷ flags)

-- An unknown flag and a value of another kind are refused.
unfoldable pub set_flag : Bytes → FlagValue → Flags → Option Flags
set_flag name v [] = none
set_flag name v ((n, d) ∷ flags) =
    let rest = in_front (n, d) (set_flag name v flags) in
    if text_eq n name
    then (if same_kind d v then some ((n, assigned d v) ∷ flags) else none)
    else rest

abbrev pub then_parse : Option Flags → (Flags → Option Flags) → Option Flags
then_parse none f = none
then_parse (some flags) f = f flags

-- The values of the command line, one after the other.
unfoldable pub parse_line : Flags → List (Bytes × FlagValue) → Option Flags
parse_line flags [] = some flags
parse_line flags ((name, v) ∷ line) =
    then_parse (set_flag (normalize name) v flags) (λ set. parse_line set line)

-- The values that are read; where there is none of the kind, Go's zero value.
abbrev pub get_text : Bytes → Flags → Bytes
get_text m flags = elim (lookup m flags) [ some (text s) ↦ s | _ ↦ [] ]

abbrev pub get_int : Bytes → Flags → ℤ
get_int m flags = elim (lookup m flags) [ some (int n) ↦ n | _ ↦ pos 0 ]

abbrev pub get_bool : Bytes → Flags → Bool
get_bool m flags = elim (lookup m flags) [ some (bool b) ↦ b | _ ↦ false ]

abbrev pub get_ints : Bytes → Flags → List ℤ
get_ints m flags = elim (lookup m flags) [ some (ints c ns) ↦ ns | _ ↦ [] ]

abbrev pub get_texts : Bytes → Flags → List Bytes
get_texts m flags = elim (lookup m flags) [ some (texts c ts) ↦ ts | _ ↦ [] ]

abbrev pub get_duration : Bytes → Flags → Option ℕ
get_duration m flags = elim (lookup m flags) [ some (duration t) ↦ some t | _ ↦ none ]

-- The value that a command line gives to a flag with this default: the last of its kind, or for a
-- slice, all of them.
unfoldable pub given : Bytes → FlagValue → List (Bytes × FlagValue) → FlagValue
given m d [] = d
given m d ((name, v) ∷ line) =
    given m (if text_eq (normalize name) m && same_kind d v then assigned d v else d) line

text_eq-swap :
    (n name m : Bytes) → text_eq n name ≡ false → text_eq n m ≡ true → text_eq name m ≡ false
text_eq-swap n name m differ same = elim (Bool-cases (text_eq name m)) [
  | inl e ↦
      let one : n ≡ name = text_eq→eq n m same ∙ sym (text_eq→eq name m e) in
      absurd_of (sym (text_eq_refl n) ∙ ap (text_eq n) one ∙ differ)
  | inr e ↦ e
]
  where
    absurd_of : true ≡ false → text_eq name m ≡ false
    absurd_of h = cc

in_front-eq-some :
    (f : Bytes × FlagValue) (o : Option Flags) {flags : Flags}
    → in_front f o ≡ some flags
    → (rest : Flags) × (o ≡ some rest) × (f ∷ rest ≡ flags)
in_front-eq-some f none h = cc
in_front-eq-some f (some rest) h = (rest, refl, cc)

lookup-set_flag :
    (m name : Bytes) (v d : FlagValue) (flags set : Flags)
    → set_flag name v flags ≡ some set
    → lookup m flags ≡ some d
    → lookup m set ≡ some (if text_eq name m && same_kind d v then assigned d v else d)
unfolding set_flag lookup
lookup-set_flag m name v d [] set h at = cc
lookup-set_flag m name v d ((n, e) ∷ flags) set h at = elim (Bool-cases (text_eq n name)) [
  | inl same ↦ ground (arith, same, h, at, text_eq→eq n name same)
  | inr differ ↦
      let (rest, inner, whole) = in_front-eq-some (n, e) (set_flag name v flags) (rw differ at h) in
      elim (Bool-cases (text_eq n m)) [
        | inl here ↦
            let other = text_eq-swap n name m differ here in
            ap (lookup m) (sym whole) ∙ rw (here, other) (rw here at at)
        | inr there ↦
            ap (lookup m) (sym whole)
            ∙ rw there (lookup-set_flag m name v d flags rest inner (rw there at at))
      ]
]

then_parse-eq-some :
    (o : Option Flags) (f : Flags → Option Flags) {parsed : Flags}
    → then_parse o f ≡ some parsed
    → (set : Flags) × (o ≡ some set) × (f set ≡ some parsed)
then_parse-eq-some none f h = cc
then_parse-eq-some (some set) f h = (set, refl, h)

-- A flag that is registered has, behind a command line that is accepted, the value that the line gives
-- to it.
pub lookup-parse_line :
    (m : Bytes) (d : FlagValue) (flags : Flags) (line : List (Bytes × FlagValue)) (parsed : Flags)
    → parse_line flags line ≡ some parsed
    → lookup m flags ≡ some d
    → lookup m parsed ≡ some (given m d line)
unfolding parse_line given
lookup-parse_line m d flags [] parsed h at =
    ap (lookup m) (some-injective parsed flags (sym h)) ∙ at
lookup-parse_line m d flags ((name, v) ∷ line) parsed h at =
    let (set, e, k) =
      then_parse-eq-some (set_flag (normalize name) v flags) (λ set. parse_line set line) h in
    lookup-parse_line m (if text_eq (normalize name) m && same_kind d v then assigned d v else d)
      set line parsed k (lookup-set_flag m (normalize name) v d flags set e at)

pub set_flag-unknown :
    (name : Bytes) (v : FlagValue) (flags : Flags)
    → lookup name flags ≡ none
    → set_flag name v flags ≡ none
unfolding set_flag lookup
set_flag-unknown name v [] h = refl
set_flag-unknown name v ((n, d) ∷ flags) h = elim (Bool-cases (text_eq n name)) [
  | inl e ↦ ground (arith, e, h)
  | inr e ↦ rw e (ap (in_front (n, d)) (set_flag-unknown name v flags (rw e at h)))
]
