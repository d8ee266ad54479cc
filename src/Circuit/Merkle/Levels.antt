-- ===== src/Circuit/Merkle/Levels.antt =====
-- The levels of `Define` of zk-bridge/pkg/circuits/bridge.go against the climb of a Merkle path.
use zk_cosmos_eth_bridge.Common.{
  ℕ, zero, suc, ◌+◌, ◌-◌, ◌<◌, ◌≡◌, refl, ap, sym, ◌∙◌, inl, inr, some, List, [], ◌∷◌, ◌++◌, arith,
  ltb, ◌==◌, if◌then◌else◌, Bytes, All, length, replicate, Bool-cases, ltb→lt,
}
use mathlib.Core.Option.{some-injective}
use zk_cosmos_eth_bridge.Common.Maybe.{>>=-eq-some}
use zk_cosmos_eth_bridge.Circuit.Api.{Api, IsGnark}
use zk_cosmos_eth_bridge.Circuit.Define.{select_bytes, level, levels}
use zk_cosmos_eth_bridge.Circuit.Merkle.{IsBit, node, climb}

abbrev zeros : Bytes
zeros = replicate 32 0

module _ (api : Api) (gnark : IsGnark api) where
  select_bytes-one : (xs ys : Bytes) → length xs ≡ length ys → select_bytes api 1 xs ys ≡ some xs
  unfolding select_bytes
  select_bytes-one [] ys h = refl
  select_bytes-one (x ∷ xs) [] h = absurd (omega arith)
  select_bytes-one (x ∷ xs) (y ∷ ys) h =
      rw (gnark.select-one x y, select_bytes-one xs ys (omega arith))

  select_bytes-zero : (xs ys : Bytes) → length xs ≡ length ys → select_bytes api 0 xs ys ≡ some ys
  unfolding select_bytes
  select_bytes-zero [] [] h = refl
  select_bytes-zero [] (y ∷ ys) h = absurd (omega arith)
  select_bytes-zero (x ∷ xs) [] h = absurd (omega arith)
  select_bytes-zero (x ∷ xs) (y ∷ ys) h =
      rw (gnark.select-zero x y, select_bytes-zero xs ys (omega arith))

  -- A selector that is no bit has no solution, if there is a byte to select.
  select_bytes-IsBit :
      (b : ℕ) (xs ys : Bytes) {r : Bytes}
      → length xs ≡ 32
      → length ys ≡ 32
      → select_bytes api b xs ys ≡ some r
      → IsBit b
  unfolding select_bytes
  select_bytes-IsBit b [] ys h k e = absurd (omega arith)
  select_bytes-IsBit b (x ∷ xs) [] h k e = absurd (omega arith)
  select_bytes-IsBit b (x ∷ xs) (y ∷ ys) h k e =
      let (v, first, _) = >>=-eq-some (api.select b x y) _ e in
      ground (arith, first, gnark.select_boolean b x y)

  abbrev side : ℕ → Bytes → Bytes → Bytes
  side helper xs ys = if helper == 1 then xs else ys

  select_bytes-side :
      (helper : ℕ) (xs ys : Bytes)
      → IsBit helper
      → length xs ≡ length ys
      → select_bytes api helper xs ys ≡ some (side helper xs ys)
  select_bytes-side helper xs ys (inl e) h = rw e (select_bytes-zero xs ys h)
  select_bytes-side helper xs ys (inr e) h = rw e (select_bytes-one xs ys h)

  length-side :
      (helper : ℕ) (xs ys : Bytes)
      → length xs ≡ 32
      → length ys ≡ 32
      → length (side helper xs ys) ≡ length zeros
  length-side helper xs ys h k = ground arith

  side-append :
      (helper : ℕ) (xs ys : Bytes)
      → IsBit helper
      → side helper xs ys ++ side helper ys xs ≡ (if helper == 1 then xs ++ ys else ys ++ xs)
  side-append helper xs ys (inl e) = rw e
  side-append helper xs ys (inr e) = rw e

  is_less-active : (i depth : ℕ) → i < depth → api.is_less i depth ≡ 1
  is_less-active i depth h = gnark.is_less_lem i depth ∙ ground arith

  is_less-idle : (i depth : ℕ) → ¬ (i < depth) → api.is_less i depth ≡ 0
  is_less-idle i depth h = gnark.is_less_lem i depth ∙ ground arith

  module _ (depth i : ℕ) (path current : Bytes) (path32 : length path ≡ 32)
      (current32 : length current ≡ 32) (helper : ℕ) (bit : IsBit helper) where
    sides_of :
        (select_bytes api helper path current ≡ some (side helper path current))
        × (select_bytes api helper current path ≡ some (side helper current path))
    sides_of = (
      select_bytes-side helper path current bit (path32 ∙ sym current32),
      select_bytes-side helper current path bit (current32 ∙ sym path32),
    )

    -- An active level hashes the two halves behind the prefix 1.
    level_active :
        i < depth
        → level api i depth path helper current ≡ some (node api.sha256 helper path current)
    unfolding level
    level_active active = rw (
      is_less-active i depth active,
      gnark.select-one 1 0,
      sides_of.0,
      sides_of.1,
      select_bytes-one _ zeros (length-side helper path current path32 current32),
      select_bytes-one _ zeros (length-side helper current path current32 path32),
      side-append helper path current bit,
      select_bytes-one _ current (gnark.length-sha256 _ ∙ sym current32),
    )

    level_idle : ¬ (i < depth) → level api i depth path helper current ≡ some current
    unfolding level
    level_idle idle = rw (
      is_less-idle i depth idle,
      gnark.select-zero 1 0,
      sides_of.0,
      sides_of.1,
      select_bytes-zero _ zeros (length-side helper path current path32 current32),
      select_bytes-zero _ zeros (length-side helper current path current32 path32),
      select_bytes-zero _ current (gnark.length-sha256 _ ∙ sym current32),
    )

  length-node : (h : ℕ) (p c : Bytes) → length (node api.sha256 h p c) ≡ 32
  length-node h p c = gnark.length-sha256 _

  -- What a level leaves, whether it is active or not.
  abbrev after_level : ℕ → ℕ → ℕ → Bytes → Bytes → Bytes
  after_level i depth helper path current =
      if ltb i depth then node api.sha256 helper path current else current

  level_lem :
      (depth i : ℕ) (path current : Bytes) (helper : ℕ)
      → length path ≡ 32
      → length current ≡ 32
      → IsBit helper
      → level api i depth path helper current ≡ some (after_level i depth helper path current)
  level_lem depth i path current helper hp hc bit = elim (Bool-cases (ltb i depth)) [
    | inl e ↦ rw e (level_active depth i path current hp hc helper bit (ltb→lt i depth e))
    | inr e ↦ rw e (level_idle depth i path current hp hc helper bit (ground arith))
  ]

  length-after_level :
      (i depth helper : ℕ) (path current : Bytes)
      → length current ≡ 32
      → length (after_level i depth helper path current) ≡ 32
  length-after_level i depth helper path current h = ground (arith, length-node helper path current)

  climb-step :
      (i depth helper : ℕ) (path : Bytes) (paths : List Bytes) (helpers : List ℕ) (current : Bytes)
      → climb api.sha256 (depth - (i + 1)) paths helpers (after_level i depth helper path current)
        ≡ climb api.sha256 (depth - i) (path ∷ paths) (helper ∷ helpers) current
  unfolding climb
  climb-step i depth helper path paths helpers current = elim (Bool-cases (ltb i depth)) [
    | inl e ↦
        let more : depth - i ≡ suc (depth - (i + 1)) = ground (arith, ltb→lt i depth e) in
        rw (e, more)
    | inr e ↦
        let over : depth - i ≡ 0 = ground arith in
        let over' : depth - (i + 1) ≡ 0 = ground arith in rw (e, over, over')
  ]

  climb-nil :
      (d : ℕ) (helpers : List ℕ) (current : Bytes) → current ≡ climb api.sha256 d [] helpers current
  unfolding climb
  climb-nil zero helpers current = refl
  climb-nil (suc d) helpers current = refl

  climb-no_sides :
      (d : ℕ) (path : Bytes) (paths : List Bytes) (current : Bytes)
      → current ≡ climb api.sha256 d (path ∷ paths) [] current
  unfolding climb
  climb-no_sides zero path paths current = refl
  climb-no_sides (suc d) path paths current = refl

  level-IsBit :
      (depth i : ℕ) (path current : Bytes) (helper : ℕ) {r : Bytes}
      → length path ≡ 32
      → length current ≡ 32
      → level api i depth path helper current ≡ some r
      → IsBit helper
  unfolding level
  level-IsBit depth i path current helper hp hc e =
      let (_, _, e1) = >>=-eq-some (api.select (api.is_less i depth) 1 0) _ e in
      let (_, left, _) = >>=-eq-some (select_bytes api helper path current) _ e1 in
      select_bytes-IsBit helper path current hp hc left

  level-length :
      (depth i : ℕ) (path current : Bytes) (helper : ℕ) {r : Bytes}
      → length path ≡ 32
      → length current ≡ 32
      → IsBit helper
      → level api i depth path helper current ≡ some r
      → length r ≡ 32
  level-length depth i path current helper {r} hp hc bit e =
      let same : after_level i depth helper path current ≡ r =
        some-injective _ _ (sym (level_lem depth i path current helper hp hc bit) ∙ e) in
      ap length (sym same) ∙ length-after_level i depth helper path current hc

  -- All levels together are the climb.
  pub levels-climb :
      (i depth : ℕ) (paths : List Bytes) (helpers : List ℕ) (current : Bytes)
      → All (λ p. length p ≡ 32) paths
      → All IsBit helpers
      → length current ≡ 32
      → levels api i depth paths helpers current
        ≡ some (climb api.sha256 (depth - i) paths helpers current)
  unfolding levels
  levels-climb i depth [] helpers current hp hb hc = ap some (climb-nil (depth - i) helpers current)
  levels-climb i depth (path ∷ paths) [] current hp hb hc =
      ap some (climb-no_sides (depth - i) path paths current)
  levels-climb i depth (path ∷ paths) (helper ∷ helpers) current hp hb hc =
      rw (level_lem depth i path current helper hp.0 hc hb.0) (
        levels-climb (i + 1) depth paths helpers _ hp.1 hb.1
          (length-after_level i depth helper path current hc)
        ∙ ap some (climb-step i depth helper path paths helpers current))

  -- An assignment that passes the levels has a bit at each of them.
  pub levels_bits :
      (i depth : ℕ) (paths : List Bytes) (helpers : List ℕ) (current : Bytes) {r : Bytes}
      → All (λ p. length p ≡ 32) paths
      → length helpers ≡ length paths
      → length current ≡ 32
      → levels api i depth paths helpers current ≡ some r
      → All IsBit helpers
  unfolding levels level
  levels_bits i depth [] [] current hp hl hc e = tt
  levels_bits i depth [] (h ∷ hs) current hp hl hc e = absurd (omega arith)
  levels_bits i depth (path ∷ paths) [] current hp hl hc e = tt
  levels_bits i depth (path ∷ paths) (helper ∷ helpers) current hp hl hc e =
      let (next, first, rest) = >>=-eq-some (level api i depth path helper current) _ e in
      let bit = level-IsBit depth i path current helper hp.0 hc first in
      (
        bit,
        levels_bits (i + 1) depth paths helpers next hp.1 (omega arith)
            (level-length depth i path current helper hp.0 hc bit first) rest,
      )
