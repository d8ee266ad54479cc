-- ===== src/Overrides/Texts.antt =====
-- The functions of `strings` and `strconv` that the overrides use, on ASCII texts.
use zk_cosmos_eth_bridge.Common.{
  ℕ, ◌==◌, Bool, true, false, ◌||◌, ◌&&◌, Option, none, some, List, [], ◌∷◌, if◌then◌else◌, Bytes,
  codes, text_eq, map,
}
use zk_cosmos_eth_bridge.Common.Int.{ℤ}
use zk_cosmos_eth_bridge.Codec.Decimal.{whole_number, to_int64}

-- `strings.Split(s, c)`: the first part and the others.
unfoldable pub split_parts : ℕ → Bytes → Bytes × List Bytes
split_parts c [] = ([], [])
split_parts c (x ∷ s) =
    let later = split_parts c s in
    if x == c then ([], later.0 ∷ later.1) else (x ∷ later.0, later.1)

-- `strings.SplitN(s, c, 2)`: the text before and behind the first byte `c`, where there is one.
unfoldable pub split_at : ℕ → Bytes → Option (Bytes × Bytes)
split_at c [] = none
split_at c (x ∷ s) =
    let later = split_at c s in
    if x == c then some ([], s) else elim later [ none ↦ none | some p ↦ some (x ∷ p.0, p.1) ]

abbrev is_space : ℕ → Bool
is_space c = c == 32 || (c == 9 || (c == 10 || (c == 11 || (c == 12 || c == 13))))

abbrev trim_left : Bytes → Bytes
trim_left [] = []
trim_left (c ∷ s) = let rest = trim_left s in if is_space c then rest else c ∷ s

abbrev trim_right : Bytes → Bytes
trim_right [] = []
trim_right (c ∷ s) =
    let rest = trim_right s in if is_space c && text_eq rest [] then [] else c ∷ rest

-- `strings.TrimSpace`
abbrev pub trim_space : Bytes → Bytes
trim_space s = trim_right (trim_left s)

-- The parts between commas, each trimmed.
abbrev pub comma_parts : Bytes → List Bytes
comma_parts s = let parts = split_parts 44 s in map trim_space (parts.0 ∷ parts.1)

abbrev is_one_of : Bytes → List Bytes → Bool
is_one_of s [] = false
is_one_of s (t ∷ ts) = text_eq s t || is_one_of s ts

-- `strconv.ParseBool`
unfoldable pub parse_bool : Bytes → Option Bool
parse_bool s =
    if is_one_of s
      (codes "1" ∷ codes "t" ∷ codes "T" ∷ codes "TRUE" ∷ codes "true" ∷ codes "True" ∷ [])
    then some true
    else if is_one_of s
        (codes "0" ∷ codes "f" ∷ codes "F" ∷ codes "FALSE" ∷ codes "false" ∷ codes "False" ∷ [])
    then some false
    else none

abbrev bounded : Bool → Option ℕ → Option ℤ
bounded negative none = none
bounded negative (some n) = to_int64 negative n

-- `strconv.ParseInt(s, 10, 64)`, and `strconv.Atoi` where an `int` has 64 bits.
unfoldable pub parse_int64 : Bytes → Option ℤ
unfolding whole_number
parse_int64 [] = none
parse_int64 (c ∷ s) =
    if c == b'-'
    then bounded true (whole_number s)
    else if c == b'+'
    then bounded false (whole_number s)
    else bounded false (whole_number (c ∷ s))
