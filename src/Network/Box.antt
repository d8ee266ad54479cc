-- ===== src/Network/Box.antt =====
-- `centerText` and `printMnemonic` of evmd/tests/network/network.go.
use zk_cosmos_eth_bridge.Common.{
  ℕ, ◌+◌, ◌-◌, ◌/◌, ◌%◌, ◌≤◌, ◌≡◌, refl, List, [], ◌∷◌, ◌++◌, if◌then◌else◌, arith, ltb, Bytes,
  codes, length, replicate, take, drop, All, length-append, length-replicate, All-append,
}
use zk_cosmos_eth_bridge.Common.{Outcome, ok, panic, ◌>>=◌}

pub data NoError : Type 0 where

-- `strings.Repeat` panics on a negative count, which a text longer than the width leads to.
unfoldable pub center_text : Bytes → ℕ → Outcome NoError Bytes
center_text text width =
    let rest = width - length text in
    if ltb width (length text)
    then panic
    else ok (replicate (rest / 2) 32 ++ (text ++ replicate (rest / 2 + rest % 2) 32))

unfoldable pub max_length : List Bytes → ℕ → ℕ
max_length [] longest = longest
max_length (line ∷ lines) longest =
    max_length lines (if ltb longest (length line) then length line else longest)

unfoldable pub boxed : ℕ → List Bytes → Outcome NoError (List Bytes)
unfolding center_text
boxed width [] = ok []
boxed width (line ∷ lines) = do
  centered ← center_text line width
  rest ← boxed width lines
  ok ((codes "++  " ++ (centered ++ codes "  ++")) ∷ rest)

abbrev border : ℕ → Bytes
border n = replicate n 43

-- The lines of the box that is logged around these lines.
unfoldable pub box : List Bytes → Outcome NoError (List Bytes)
unfolding boxed max_length
box lines = do
  let width = max_length lines 0
  inner ← boxed width lines
  ok (border (width + 8) ∷ (inner ++ (border (width + 8) ∷ [])))

abbrev pub join : List Bytes → Bytes
join [] = []
join (w ∷ []) = w
join (w ∷ v ∷ ws) = w ++ (codes " " ++ join (v ∷ ws))

-- `words` is `strings.Fields(secret)`; fewer than 24 words are out of range.
unfoldable pub mnemonic_box : List Bytes → Outcome NoError (List Bytes)
mnemonic_box words =
    if ltb (length words) 24
    then panic
    else box (
        codes "THIS MNEMONIC IS FOR TESTING PURPOSES ONLY"
        ∷ codes "DO NOT USE IN PRODUCTION"
        ∷ []
        ∷ join (take 8 words)
        ∷ join (take 8 (drop 8 words))
        ∷ join (take 8 (drop 16 words))
        ∷ [])

-- A text that fits is centered to exactly the width.
center_text-fits :
    (text : Bytes) (width : ℕ)
    → length text ≤ width
    → (line : Bytes) × (center_text text width ≡ ok line) × (length line ≡ width)
unfolding center_text
center_text-fits text width h =
    let rest = width - length text in
    let left = replicate (rest / 2) 32 in
    let right = replicate (rest / 2 + rest % 2) 32 in
    let left_length : length left ≡ rest / 2 = length-replicate {A = ℕ} (rest / 2) 32 in
    let right_length : length right ≡ rest / 2 + rest % 2 =
      length-replicate {A = ℕ} (rest / 2 + rest % 2) 32 in
    (
      left ++ (text ++ right),
      ground (arith, h),
      omega (
        arith,
        h,
        length-append left (text ++ right),
        length-append text right,
        left_length,
        right_length,
      ),
    )

max_length-grows : (lines : List Bytes) (longest : ℕ) → longest ≤ max_length lines longest
unfolding max_length
max_length-grows [] longest = omega arith
max_length-grows (line ∷ lines) longest =
    ground
      (arith, max_length-grows lines (if ltb longest (length line) then length line else longest))

max_length-All :
    (lines : List Bytes) (longest : ℕ) → All (λ line. length line ≤ max_length lines longest) lines
unfolding max_length
max_length-All [] longest = tt
max_length-All (line ∷ lines) longest =
    let next = if ltb longest (length line) then length line else longest in
    (ground (arith, max_length-grows lines next), max_length-All lines next)

boxed-fits :
    (width : ℕ) (lines : List Bytes)
    → All (λ line. length line ≤ width) lines
    → (inner : List Bytes) × (boxed width lines ≡ ok inner)
      × All (λ line. length line ≡ width + 8) inner
unfolding boxed
boxed-fits width [] h = ([], refl, tt)
boxed-fits width (line ∷ lines) h =
    let (centered, centers, centered_length) = center_text-fits line width h.0 in
    let (inner, boxes, all) = boxed-fits width lines h.1 in
    let framed = codes "++  " ++ (centered ++ codes "  ++") in
    let framed_length : length framed ≡ width + 8 =
      omega (arith, length-append centered (codes "  ++"), centered_length) in
    (framed ∷ inner, rw (centers, boxes) refl, (framed_length, all))

-- All lines of the box are of one length.
box-fits :
    (lines : List Bytes)
    → (width : ℕ) × (out : List Bytes) × (box lines ≡ ok out)
      × All (λ line. length line ≡ width + 8) out
unfolding box
box-fits lines =
    let width = max_length lines 0 in
    let (inner, boxes, all) = boxed-fits width lines (max_length-All lines 0) in
    let edge : length (border (width + 8)) ≡ width + 8 = length-replicate {A = ℕ} (width + 8) 43 in
    (
      width,
      border (width + 8) ∷ (inner ++ (border (width + 8) ∷ [])),
      rw boxes refl,
      (
        edge,
        All-append (λ line. length line ≡ width + 8) inner (border (width + 8) ∷ []) all (edge, tt),
      ),
    )

-- A secret of 24 words or more is boxed without a panic, and all lines of the box have one length.
pub mnemonic_box-fits :
    (words : List Bytes)
    → 24 ≤ length words
    → (width : ℕ) × (out : List Bytes) × (mnemonic_box words ≡ ok out)
      × All (λ line. length line ≡ width + 8) out
unfolding mnemonic_box
mnemonic_box-fits words h =
    let lines =
      codes "THIS MNEMONIC IS FOR TESTING PURPOSES ONLY"
      ∷ codes "DO NOT USE IN PRODUCTION"
      ∷ []
      ∷ join (take 8 words)
      ∷ join (take 8 (drop 8 words))
      ∷ join (take 8 (drop 16 words))
      ∷ [] in
    let (width, out, made, all) = box-fits lines in (width, out, ground (arith, h, made), all)
