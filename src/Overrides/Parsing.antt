-- ===== src/Overrides/Parsing.antt =====
-- `parseConfigOverride` of evmd/cmd/evmd/cmd/testnet_utils.go.
use mathlib.Core.Path.{ap₂, subst}
use zk_cosmos_eth_bridge.Common.{
  ℕ, ◌==◌, ◌≡◌, ◌↔◌, refl, ap, ◌∙◌, true, false, Option, none, some, [], ◌∷◌, ◌++◌, arith, Bytes,
  All, ==_iff, Bool-cases, inl, inr,
}
use zk_cosmos_eth_bridge.Overrides.Texts.{split_at}
use zk_cosmos_eth_bridge.Overrides.{parse_config_override}

split_at-append :
    (c : ℕ) (s t : Bytes) → All (λ x. (x == c) ≡ false) s → split_at c (s ++ (c ∷ t)) ≡ some (s, t)
unfolding split_at
split_at-append c [] t h = ground arith
split_at-append c (x ∷ s) t h = ground (arith, h.0, split_at-append c s t h.1)

split_here :
    (c x : ℕ) (s a b : Bytes)
    → (x == c) ≡ true
    → ◌≡◌ {A = Option (Bytes × Bytes)} (some ([], s)) (some (a, b))
    → (x ∷ s ≡ a ++ (c ∷ b)) × All (λ y. (y == c) ≡ false) a
split_here c x s a b e h =
    let same_a : [] ≡ a = cc in
    let same_b : s ≡ b = cc in
    let same_x : x ≡ c = (==_iff x c).0 e in
    subst (λ a'. (x ∷ s ≡ a' ++ (c ∷ b)) × All (λ y. (y == c) ≡ false) a') same_a
      (ap₂ (λ y t. y ∷ t) same_x same_b, tt)

split_at_sound :
    (c : ℕ) (text a b : Bytes)
    → split_at c text ≡ some (a, b)
    → (text ≡ a ++ (c ∷ b)) × All (λ x. (x == c) ≡ false) a
unfolding split_at
split_at_sound c [] a b h = ground (arith, h)
split_at_sound c (x ∷ s) a b h = elim (Bool-cases (x == c)) [
  | inl e ↦ split_here c x s a b e (ground (arith, e, h))
  | inr e ↦ later (split_at_sound c s) (split_at c s) refl e
]
  where
    later :
        ((a' b' : Bytes)
          → split_at c s ≡ some (a', b')
          → (s ≡ a' ++ (c ∷ b')) × All (λ y. (y == c) ≡ false) a')
        → (o : Option (Bytes × Bytes)) → split_at c s ≡ o
        → (x == c) ≡ false
        → (x ∷ s ≡ a ++ (c ∷ b)) × All (λ y. (y == c) ≡ false) a
    later ih none eq e = ground (arith, eq, e, h)
    later ih (some (a', b')) eq e =
        let made : ◌≡◌ {A = Option (Bytes × Bytes)} (some (x ∷ a', b')) (some (a, b)) =
          ground (arith, eq, e, h) in
        let same_a : x ∷ a' ≡ a = cc in
        let same_b : b' ≡ b = cc in
        let (text_is, none_in) = ih a' b' eq in
        subst (λ q. (x ∷ s ≡ q ++ (c ∷ b)) × All (λ y. (y == c) ≡ false) q) same_a
          (ap (λ t. x ∷ t) (text_is ∙ ap (λ t. a' ++ (c ∷ t)) same_b), (e, none_in))

-- An override is read as this field and this value exactly where it is the field, which has no `=`,
-- then `=`, and then the value, whatever that contains.
pub parse_config_override_iff :
    (text a b : Bytes)
    → (parse_config_override text ≡ some (a, b))
      ↔ ((text ≡ a ++ (b'=' ∷ b)) × All (λ x. (x == b'=') ≡ false) a)
unfolding parse_config_override
parse_config_override_iff text a b =
    (split_at_sound b'=' text a b, λ h. ap (split_at b'=') h.0 ∙ split_at-append b'=' a b h.1)
