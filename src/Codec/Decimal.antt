-- ===== src/Codec/Decimal.antt =====
-- Decimal numbers: `fmt`'s verb %d in Sprintf and in Sscanf, and the digits that both use.
use zk_cosmos_eth_bridge.Common.{
  ℕ, zero, suc, ◌+◌, ◌-◌, ◌*◌, ◌/◌, ◌%◌, ◌^◌, ◌<◌, ◌≡◌, refl, ◌∙◌, Bool, true, false, ◌||◌, ◌&&◌,
  Option, none, some, [], ◌∷◌, arith, ltb, leb, ◌==◌, if◌then◌else◌, Bytes, ap, sym, Bool-cases,
  inl, inr, ltb→lt, lt→ltb,
}
use zk_cosmos_eth_bridge.Common.Int.{ℤ, pos, negsuc}
use zk_cosmos_eth_bridge.Codec.Hex.{in_range}

-- The digits of `n` in front of `acc`, on fuel; `n + 1` is enough.
unfoldable pub digits_onto : ℕ → ℕ → Bytes → Bytes
digits_onto zero n acc = acc
digits_onto (suc f) n acc =
    let rest = digits_onto f (n / 10) ((n % 10 + 48) ∷ acc) in
    if ltb n 10 then (n + 48) ∷ acc else rest

-- `fmt.Sprintf("%d", n)` for a number that is not negative.
unfoldable pub decimal : ℕ → Bytes
unfolding digits_onto
decimal n = digits_onto (suc n) n []

abbrev pub is_digit : ℕ → Bool
is_digit = in_range b'0' b'9'

abbrev pub all_digits : Bytes → Bool
all_digits [] = true
all_digits (c ∷ s) = is_digit c && all_digits s

-- The value of the leading digits behind `acc`.
unfoldable pub digits_value : ℕ → Bytes → ℕ
digits_value acc [] = acc
digits_value acc (c ∷ s) =
    let rest = digits_value (acc * 10 + (c - 48)) s in if is_digit c then rest else acc

-- A text of digits, at least one, and nothing else.
unfoldable pub whole_number : Bytes → Option ℕ
unfolding digits_value
whole_number [] = none
whole_number (c ∷ s) = if all_digits (c ∷ s) then some (digits_value 0 (c ∷ s)) else none

-- Blanks that Sscanf skips before a number (ASCII; a line feed is an error).
unfoldable pub skip_blanks : Bytes → Bytes
skip_blanks [] = []
skip_blanks (c ∷ s) =
    let rest = skip_blanks s in
    if c == 32 || (c == 9 || (c == 11 || (c == 12 || c == 13))) then rest else c ∷ s

-- `strconv.ParseInt(tok, 10, 64)` on the sign and the value of the digits.
abbrev pub to_int64 : Bool → ℕ → Option ℤ
to_int64 true n =
    if n == 0 then some (pos 0) else if leb n (2 ^ 63) then some (negsuc (n - 1)) else none
to_int64 false n = if ltb n (2 ^ 63) then some (pos n) else none

unfoldable pub unsigned_int : Bool → Bytes → Option ℤ
unfolding digits_value
unsigned_int negative [] = none
unsigned_int negative (c ∷ s) =
    if is_digit c then to_int64 negative (digits_value 0 (c ∷ s)) else none

unfoldable pub signed_int : Bytes → Option ℤ
unfolding unsigned_int
signed_int [] = none
signed_int (c ∷ s) =
    if c == b'-'
    then unsigned_int true s
    else if c == b'+'
    then unsigned_int false s
    else unsigned_int false (c ∷ s)

-- `fmt.Sscanf(s, "%d", &i)`: the value that is stored, if one is.
unfoldable pub sscanf_int : Bytes → Option ℤ
unfolding signed_int skip_blanks
sscanf_int s = signed_int (skip_blanks s)

digits_value-nil : (n : ℕ) → digits_value n [] ≡ n
unfolding digits_value
digits_value-nil n = refl

digits_value-digit :
    (acc v : ℕ) (s : Bytes)
    → v < 10
    → digits_value acc ((v + 48) ∷ s) ≡ digits_value (acc * 10 + v) s
unfolding digits_value
digits_value-digit acc v s h =
    let one : is_digit (v + 48) ≡ true = ground arith in
    let same : acc * 10 + (v + 48 - 48) ≡ acc * 10 + v = omega arith in rw (one, same)

digits_value-digits_onto :
    (f n : ℕ) (s : Bytes) → n < f → digits_value 0 (digits_onto f n s) ≡ digits_value n s
unfolding digits_onto
digits_value-digits_onto zero n s h = absurd (omega arith)
digits_value-digits_onto (suc f) n s h = elim (Bool-cases (ltb n 10)) [
  | inl e ↦
      let same : 0 * 10 + n ≡ n = omega arith in
      rw e (digits_value-digit 0 n s (ltb→lt n 10 e) ∙ ap (λ v. digits_value v s) same)
  | inr e ↦
      let same : n / 10 * 10 + n % 10 ≡ n = omega arith in
      rw e (
        digits_value-digits_onto f (n / 10) ((n % 10 + 48) ∷ s) (ground (arith, e))
        ∙ digits_value-digit (n / 10) (n % 10) s (omega arith)
        ∙ ap (λ v. digits_value v s) same)
]

-- The digits begin with a digit.
digits_onto-head :
    (f n : ℕ) (s : Bytes)
    → n < f
    → (c : ℕ) × (r : Bytes) × (digits_onto f n s ≡ c ∷ r) × (is_digit c ≡ true)
unfolding digits_onto
digits_onto-head zero n s h = absurd (omega arith)
digits_onto-head (suc f) n s h = elim (Bool-cases (ltb n 10)) [
  | inl e ↦ rw e (n + 48, s, refl, ground arith)
  | inr e ↦ rw e (digits_onto-head f (n / 10) ((n % 10 + 48) ∷ s) (ground (arith, e)))
]

sscanf_int-digit :
    (c : ℕ) (r : Bytes)
    → is_digit c ≡ true
    → sscanf_int (c ∷ r) ≡ to_int64 false (digits_value 0 (c ∷ r))
unfolding sscanf_int skip_blanks signed_int unsigned_int
sscanf_int-digit c r h = ground arith

all_digits-digits_onto :
    (f n : ℕ) (s : Bytes) → n < f → all_digits s ≡ true → all_digits (digits_onto f n s) ≡ true
unfolding digits_onto
all_digits-digits_onto zero n s h hs = absurd (omega arith)
all_digits-digits_onto (suc f) n s h hs = elim (Bool-cases (ltb n 10)) [
  | inl e ↦ let digit : is_digit (n + 48) ≡ true = ground (arith, e) in rw (e, digit) hs
  | inr e ↦
      let digit : is_digit (n % 10 + 48) ≡ true = ground arith in
      rw e (all_digits-digits_onto f (n / 10) ((n % 10 + 48) ∷ s) (ground (arith, e)) (rw digit hs))
]

-- A printed number is digits, at least one, with its value.
pub decimal_shape :
    (n : ℕ)
    → (c : ℕ) × (r : Bytes) × (decimal n ≡ c ∷ r)
      × (is_digit c ≡ true)
      × (all_digits (c ∷ r) ≡ true)
      × (digits_value 0 (c ∷ r) ≡ n)
unfolding decimal
decimal_shape n =
    let (c, r, shape, digit) = digits_onto-head (suc n) n [] (omega arith) in
    let all : all_digits (digits_onto (suc n) n []) ≡ true =
      all_digits-digits_onto (suc n) n [] (omega arith) refl in
    let value : digits_value 0 (digits_onto (suc n) n []) ≡ n =
      digits_value-digits_onto (suc n) n [] (omega arith) ∙ digits_value-nil n in
    (c, r, shape, digit, ap all_digits (sym shape) ∙ all, ap (digits_value 0) (sym shape) ∙ value)

-- A printed number is scanned as itself.
pub sscanf_int-decimal : (n : ℕ) → n < 2 ^ 63 → sscanf_int (decimal n) ≡ some (pos n)
sscanf_int-decimal n h =
    let (c, r, shape, digit, all, value) = decimal_shape n in
    let fits : ltb n (2 ^ 63) ≡ true = lt→ltb n (2 ^ 63) h in
    ap sscanf_int shape ∙ sscanf_int-digit c r digit ∙ ap (to_int64 false) value ∙ rw fits

-- A printed number is read back whole.
pub whole_number-decimal : (n : ℕ) → whole_number (decimal n) ≡ some n
unfolding whole_number
whole_number-decimal n =
    let (c, r, shape, digit, all, value) = decimal_shape n in
    ap whole_number shape ∙ rw all (ap some value)
