-- ===== src/Testnet/Powers.antt =====
-- `parseValidatorPowers` of evmd/cmd/evmd/cmd/testnet.go.
use zk_cosmos_eth_bridge.Common.{
  ℕ, zero, suc, ◌-◌, ◌*◌, ◌==◌, ◌<◌, ◌≡◌, false, Option, none, some, List, [], ◌∷◌, ltb,
  if◌then◌else◌, length, get_or, replicate, Outcome, ok, err, panic, All, get_elem?,
}
use zk_cosmos_eth_bridge.Common.Int.{ℤ, pos, negsuc, is_nonpos}

-- `TokensFromConsensusPower`: the power times the reduction.
abbrev pub tokens_from_power : ℕ → ℤ → ℤ
tokens_from_power reduction (pos n) = pos (n * reduction)
tokens_from_power reduction (negsuc n) =
    if reduction == 0 then pos 0 else negsuc (suc n * reduction - 1)

pub data PowerError : Type 0 where
  power_not_positive : ℤ → PowerError

-- The first power that is not positive.
unfoldable pub first_nonpos : List ℤ → Option ℤ
first_nonpos [] = none
first_nonpos (power ∷ powers) =
    let rest = first_nonpos powers in if is_nonpos power then some power else rest

abbrev pub last_power : List ℤ → ℤ → ℤ
last_power [] last = last
last_power (power ∷ powers) last = last_power powers power

-- The loop that fills `n` entries from index `i` on; an `int` fits an int64.
unfoldable pub fill_powers : List ℤ → ℤ → ℕ → ℕ → List ℤ
fill_powers powers last zero i = []
fill_powers powers last (suc n) i =
    let rest = fill_powers powers last n (suc i) in
    (if ltb i (length powers) then get_or powers i last else last) ∷ rest

unfoldable pub filled : List ℤ → ℕ → Outcome PowerError (List ℤ)
filled [] n = ok (replicate n (pos 100))
filled (power ∷ powers) n = elim (first_nonpos (power ∷ powers)) [
  | some p ↦ err (power_not_positive p)
  | none ↦ ok (fill_powers (power ∷ powers) (last_power powers power) n 0)
]

-- `make` panics on a negative number of validators.
unfoldable pub parse_validator_powers : List ℤ → ℤ → Outcome PowerError (List ℤ)
parse_validator_powers powers (pos n) = filled powers n
parse_validator_powers powers (negsuc n) = panic

abbrev pub IsPositive : ℤ → Type 0
IsPositive p = is_nonpos p ≡ false

-- The power of validator `k` in words: 100 without powers, else the power given for it, or the last.
unfoldable pub power_at : List ℤ → ℕ → ℤ
power_at [] k = pos 100
power_at (power ∷ powers) k =
    let last = last_power powers power in
    if ltb k (length (power ∷ powers)) then get_or (power ∷ powers) k last else last

-- What a list of powers for `n` validators has to be.
pub record IsPowers (powers : List ℤ) (n : ℕ) (result : List ℤ) : Type 0 where
  pub for_each : length result ≡ n
  pub positive : All IsPositive result
  pub as_given : (k : ℕ) → k < n → get_elem? result k ≡ some (power_at powers k)
