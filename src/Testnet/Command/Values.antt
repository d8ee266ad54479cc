-- ===== src/Testnet/Command/Values.antt =====
-- What a command line gives to the flags of evmd/cmd/evmd/cmd/testnet.go.
use zk_cosmos_eth_bridge.Common.{
  ℕ, ◌≡◌, refl, ap, sym, Bool, true, false, List, [], ◌∷◌, ◌++◌, Bool-cases, ◌⊎◌, inl, inr,
  if◌then◌else◌, Bytes, text_eq, ◌∙◌,
}
use mathlib.Core.List.{append_assoc, append-nil}
use zk_cosmos_eth_bridge.Common.Int.{ℤ, pos}
use zk_cosmos_eth_bridge.Testnet.Flags.{
  FlagValue, int, text, bool, duration, ints, texts, normalize, assigned, given,
}

abbrev pub Line : Type 0
Line = List (Bytes × FlagValue)

-- The last value that the line gives under a name, or the default.
abbrev pub given_text : Bytes → Bytes → Line → Bytes
given_text m d line = elim (given m (text d) line) [ text s ↦ s | _ ↦ [] ]

abbrev pub given_int : Bytes → ℤ → Line → ℤ
given_int m d line = elim (given m (int d) line) [ int n ↦ n | _ ↦ pos 0 ]

abbrev pub given_bool : Bytes → Bool → Line → Bool
given_bool m d line = elim (given m (bool d) line) [ bool b ↦ b | _ ↦ false ]

-- All the numbers, or texts, that the line gives under a name, in order.
abbrev pub all_ints : Bytes → Line → List ℤ
all_ints m [] = []
all_ints m ((name, ints c ns) ∷ line) =
    let rest = all_ints m line in if text_eq (normalize name) m then ns ++ rest else rest
all_ints m ((name, v) ∷ line) = all_ints m line

abbrev pub all_texts : Bytes → Line → List Bytes
all_texts m [] = []
all_texts m ((name, texts c ts) ∷ line) =
    let rest = all_texts m line in if text_eq (normalize name) m then ts ++ rest else rest
all_texts m ((name, v) ∷ line) = all_texts m line

abbrev pub given_duration : Bytes → ℕ → Line → ℕ
given_duration m d line = elim (given m (duration d) line) [ duration t ↦ t | _ ↦ 0 ]

-- A duration stays one.
pub given-duration :
    (m : Bytes) (d : ℕ) (line : Line) → (t : ℕ) × (given m (duration d) line ≡ duration t)
unfolding given
given-duration m d [] = (d, refl)
given-duration m d ((name, duration u) ∷ line) = elim (Bool-cases (text_eq (normalize name) m)) [
  | inl e ↦ rw e (given-duration m u line)
  | inr e ↦ rw e (given-duration m d line)
]
given-duration m d ((name, int u) ∷ line) = elim (Bool-cases (text_eq (normalize name) m)) [
  | inl e ↦ rw e (given-duration m d line)
  | inr e ↦ rw e (given-duration m d line)
]
given-duration m d ((name, text u) ∷ line) = elim (Bool-cases (text_eq (normalize name) m)) [
  | inl e ↦ rw e (given-duration m d line)
  | inr e ↦ rw e (given-duration m d line)
]
given-duration m d ((name, bool u) ∷ line) = elim (Bool-cases (text_eq (normalize name) m)) [
  | inl e ↦ rw e (given-duration m d line)
  | inr e ↦ rw e (given-duration m d line)
]
given-duration m d ((name, ints b u) ∷ line) = elim (Bool-cases (text_eq (normalize name) m)) [
  | inl e ↦ rw e (given-duration m d line)
  | inr e ↦ rw e (given-duration m d line)
]
given-duration m d ((name, texts b u) ∷ line) = elim (Bool-cases (text_eq (normalize name) m)) [
  | inl e ↦ rw e (given-duration m d line)
  | inr e ↦ rw e (given-duration m d line)
]

assigned-ints :
    (c b : Bool) (d u : List ℤ)
    → (c ≡ true) ⊎ (d ≡ [])
    → assigned (ints c d) (ints b u) ≡ ints true (d ++ u)
assigned-ints true b d u h = refl
assigned-ints false b d u (inl h) = cc
assigned-ints false b d u (inr h) = ap (λ t. ints true (t ++ u)) (sym h)

-- What a line makes of a slice that was set, or whose default is empty.
pub given-ints :
    (m : Bytes) (c : Bool) (d : List ℤ) (line : Line)
    → (c ≡ true) ⊎ (d ≡ [])
    → (c' : Bool) × (given m (ints c d) line ≡ ints c' (d ++ all_ints m line))
unfolding given
given-ints m c d [] h = (c, ap (ints c) (sym (append-nil d)))
given-ints m c d ((name, ints b u) ∷ line) h = elim (Bool-cases (text_eq (normalize name) m)) [
  | inl e ↦
      let (c', is) = given-ints m true (d ++ u) line (inl refl) in
      (c', rw (e, assigned-ints c b d u h) (is ∙ ap (ints c') (append_assoc d u (all_ints m line))))
  | inr e ↦ rw e (given-ints m c d line h)
]
given-ints m c d ((name, int u) ∷ line) h = elim (Bool-cases (text_eq (normalize name) m)) [
  | inl e ↦ rw e (given-ints m c d line h)
  | inr e ↦ rw e (given-ints m c d line h)
]
given-ints m c d ((name, text u) ∷ line) h = elim (Bool-cases (text_eq (normalize name) m)) [
  | inl e ↦ rw e (given-ints m c d line h)
  | inr e ↦ rw e (given-ints m c d line h)
]
given-ints m c d ((name, bool u) ∷ line) h = elim (Bool-cases (text_eq (normalize name) m)) [
  | inl e ↦ rw e (given-ints m c d line h)
  | inr e ↦ rw e (given-ints m c d line h)
]
given-ints m c d ((name, duration u) ∷ line) h = elim (Bool-cases (text_eq (normalize name) m)) [
  | inl e ↦ rw e (given-ints m c d line h)
  | inr e ↦ rw e (given-ints m c d line h)
]
given-ints m c d ((name, texts b u) ∷ line) h = elim (Bool-cases (text_eq (normalize name) m)) [
  | inl e ↦ rw e (given-ints m c d line h)
  | inr e ↦ rw e (given-ints m c d line h)
]

assigned-texts :
    (c b : Bool) (d u : List Bytes)
    → (c ≡ true) ⊎ (d ≡ [])
    → assigned (texts c d) (texts b u) ≡ texts true (d ++ u)
assigned-texts true b d u h = refl
assigned-texts false b d u (inl h) = cc
assigned-texts false b d u (inr h) = ap (λ t. texts true (t ++ u)) (sym h)

-- What a line makes of a slice that was set, or whose default is empty.
pub given-texts :
    (m : Bytes) (c : Bool) (d : List Bytes) (line : Line)
    → (c ≡ true) ⊎ (d ≡ [])
    → (c' : Bool) × (given m (texts c d) line ≡ texts c' (d ++ all_texts m line))
unfolding given
given-texts m c d [] h = (c, ap (texts c) (sym (append-nil d)))
given-texts m c d ((name, texts b u) ∷ line) h = elim (Bool-cases (text_eq (normalize name) m)) [
  | inl e ↦
      let (c', is) = given-texts m true (d ++ u) line (inl refl) in
      (
        c',
        rw (e, assigned-texts c b d u h) (is ∙ ap (texts c') (append_assoc d u (all_texts m line))),
      )
  | inr e ↦ rw e (given-texts m c d line h)
]
given-texts m c d ((name, int u) ∷ line) h = elim (Bool-cases (text_eq (normalize name) m)) [
  | inl e ↦ rw e (given-texts m c d line h)
  | inr e ↦ rw e (given-texts m c d line h)
]
given-texts m c d ((name, text u) ∷ line) h = elim (Bool-cases (text_eq (normalize name) m)) [
  | inl e ↦ rw e (given-texts m c d line h)
  | inr e ↦ rw e (given-texts m c d line h)
]
given-texts m c d ((name, bool u) ∷ line) h = elim (Bool-cases (text_eq (normalize name) m)) [
  | inl e ↦ rw e (given-texts m c d line h)
  | inr e ↦ rw e (given-texts m c d line h)
]
given-texts m c d ((name, duration u) ∷ line) h = elim (Bool-cases (text_eq (normalize name) m)) [
  | inl e ↦ rw e (given-texts m c d line h)
  | inr e ↦ rw e (given-texts m c d line h)
]
given-texts m c d ((name, ints b u) ∷ line) h = elim (Bool-cases (text_eq (normalize name) m)) [
  | inl e ↦ rw e (given-texts m c d line h)
  | inr e ↦ rw e (given-texts m c d line h)
]
