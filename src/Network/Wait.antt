-- ===== src/Network/Wait.antt =====
-- `LatestHeight`, `WaitForHeightWithTimeout` and `WaitForNextBlock` of evmd/tests/network/network.go.
use zk_cosmos_eth_bridge.Common.{
  ℕ, zero, suc, ◌+◌, ◌≤◌, ◌<◌, ◌≡◌, refl, ap, sym, ◌∙◌, Option, none, some, List, [], ◌∷◌, ◌++◌,
  if◌then◌else◌, arith, leb, All, Bool-cases, inl, inr, leb→le, Outcome, ok, err, ◌>>=◌,
}

pub data NetworkError : Type 0 where
  no_validators status_failed timeout_exceeded : NetworkError

-- The first validator's answer to a status query: its latest height, or none.
unfoldable pub latest_height : ℕ → Option ℕ → Outcome NetworkError ℕ
latest_height zero status = err no_validators
latest_height (suc n) none = err status_failed
latest_height (suc n) (some height) = ok height

-- What the `select` receives: the timeout, or a tick with the answer to its query.
pub data Received : Type 0 where
  timeout : Received
  tick : Option ℕ → Received

-- How the wait stands: it goes on, or it has returned a height, with an error or without.
pub data Waited : Type 0 where
  waiting : ℕ → Waited
  timed_out : ℕ → Waited
  reached : ℕ → Waited

-- The loop, from the latest height that it holds, through what is received.
unfoldable pub wait_loop : ℕ → ℕ → List Received → Waited
wait_loop h latest [] = waiting latest
wait_loop h latest (timeout ∷ events) = timed_out latest
wait_loop h latest (tick none ∷ events) = wait_loop h latest events
wait_loop h latest (tick (some height) ∷ events) =
    let rest = wait_loop h height events in if leb h height then reached height else rest

-- The duration of the timeout shows only in the place of `timeout` among what is received.
unfoldable pub wait_for_height_with_timeout : ℕ → ℕ → List Received → Outcome NetworkError Waited
wait_for_height_with_timeout zero h events = err no_validators
wait_for_height_with_timeout (suc n) h events = ok (wait_loop h 0 events)

unfoldable pub wait_for_next_block : ℕ → Option ℕ → List Received → Outcome NetworkError Waited
wait_for_next_block n status events = do
  last_block ← latest_height n status
  wait_for_height_with_timeout n (last_block + 1) events

-- The height that the ticks tell last, or the one before them.
unfoldable pub last_told : ℕ → List Received → ℕ
last_told latest [] = latest
last_told latest (timeout ∷ events) = last_told latest events
last_told latest (tick none ∷ events) = last_told latest events
last_told latest (tick (some height) ∷ events) = last_told height events

-- A tick that does not end the wait.
pub IsBelow : ℕ → Received → Type 0
IsBelow h timeout = ⊥
IsBelow h (tick none) = Unit
IsBelow h (tick (some height)) = height < h

-- What is true of a wait for height `h` over these events, by how it stands.
unfoldable pub IsWaited : ℕ → ℕ → List Received → Waited → Type 0
IsWaited h latest events (waiting l) = All (IsBelow h) events × (l ≡ last_told latest events)
IsWaited h latest events (timed_out l) =
    (before : List Received) × (after : List Received) × (events ≡ before ++ (timeout ∷ after))
    × All (IsBelow h) before
    × (l ≡ last_told latest before)
IsWaited h latest events (reached l) =
    (before : List Received) × (after : List Received) × (events
      ≡ before ++ (tick (some l) ∷ after))
    × All (IsBelow h) before
    × (h ≤ l)

-- An event that does not end the wait goes in front.
IsWaited-cons :
    (h latest latest' : ℕ) (r : Received) (events : List Received) (w : Waited)
    → IsBelow h r
    → ((rest : List Received) → last_told latest (r ∷ rest) ≡ last_told latest' rest)
    → IsWaited h latest' events w
    → IsWaited h latest (r ∷ events) w
unfolding IsWaited
IsWaited-cons h latest latest' r events (waiting l) below told (all, same) =
    ((below, all), same ∙ sym (told events))
IsWaited-cons h latest latest' r events (timed_out l) below told (before, after, eq, all, same) =
    (r ∷ before, after, ap (λ t. r ∷ t) eq, (below, all), same ∙ sym (told before))
IsWaited-cons h latest latest' r events (reached l) below told (before, after, eq, all, high) =
    (r ∷ before, after, ap (λ t. r ∷ t) eq, (below, all), high)

wait_loop-IsWaited :
    (h latest : ℕ) (events : List Received) → IsWaited h latest events (wait_loop h latest events)
unfolding wait_loop IsWaited last_told IsBelow
wait_loop-IsWaited h latest [] = (tt, refl)
wait_loop-IsWaited h latest (timeout ∷ events) = ([], events, refl, tt, refl)
wait_loop-IsWaited h latest (tick none ∷ events) =
    IsWaited-cons h latest latest (tick none) events (wait_loop h latest events) tt (λ rest. refl)
      (wait_loop-IsWaited h latest events)
wait_loop-IsWaited h latest (tick (some height) ∷ events) = elim (Bool-cases (leb h height)) [
  | inl e ↦ rw e ([], events, refl, tt, leb→le h height e)
  | inr e ↦
      let below : height < h = ground (arith, e) in
      rw e (
        IsWaited-cons h latest height (tick (some height)) events (wait_loop h height events) below
          (λ rest. refl) (wait_loop-IsWaited h height events))
]

-- With a validator the wait for a height stands in one of three ways. It goes on, and no tick has
-- told the height yet. It timed out with the last height told, or 0, and no tick before the
-- timeout told the height. Or it returned a height at least the one waited for, told by the first
-- such tick.
pub wait_for_height_with_timeout_lem :
    (n h : ℕ) (events : List Received)
    → (w : Waited) × (wait_for_height_with_timeout (suc n) h events ≡ ok w) × IsWaited h 0 events w
unfolding wait_for_height_with_timeout
wait_for_height_with_timeout_lem n h events =
    (wait_loop h 0 events, refl, wait_loop-IsWaited h 0 events)

pub HasReturned : Waited → Type 0
HasReturned (waiting l) = ⊥
HasReturned (timed_out l) = Unit
HasReturned (reached l) = Unit

wait_loop-HasReturned :
    (h latest : ℕ) (before after : List Received)
    → HasReturned (wait_loop h latest (before ++ (timeout ∷ after)))
unfolding wait_loop HasReturned
wait_loop-HasReturned h latest [] after = tt
wait_loop-HasReturned h latest (timeout ∷ before) after = tt
wait_loop-HasReturned h latest (tick none ∷ before) after =
    wait_loop-HasReturned h latest before after
wait_loop-HasReturned h latest (tick (some height) ∷ before) after =
    elim (Bool-cases (leb h height)) [
      | inl e ↦ rw e tt
      | inr e ↦ rw e (wait_loop-HasReturned h height before after)
    ]

-- With a validator that tells its height, the wait for the next block has returned once the
-- timeout is received.
pub wait_for_next_block_ends :
    (n last_block : ℕ) (before after : List Received)
    → (w : Waited) × (wait_for_next_block (suc n) (some last_block) (before ++ (timeout ∷ after))
        ≡ ok w)
      × HasReturned w
unfolding wait_for_next_block latest_height wait_for_height_with_timeout
wait_for_next_block_ends n last_block before after = (
  wait_loop (last_block + 1) 0 (before ++ (timeout ∷ after)),
  refl,
  wait_loop-HasReturned (last_block + 1) 0 before after,
)
