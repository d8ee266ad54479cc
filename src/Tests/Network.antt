-- ===== src/Tests/Network.antt =====
-- Waits and boxes.
use zk_cosmos_eth_bridge.Common.{
  ◌≤◌, ◌≡◌, refl, arith, none, some, List, [], ◌∷◌, Bytes, codes, length, replicate, ok,
}
use zk_cosmos_eth_bridge.Network.Wait.{
  Received, timeout, tick, Waited, reached, wait_loop, wait_for_height_with_timeout, IsWaited,
  wait_for_height_with_timeout_lem, wait_for_next_block, HasReturned, wait_for_next_block_ends,
}

abbrev ticks : List Received
ticks = tick (some 1) ∷ tick none ∷ tick (some 3) ∷ timeout ∷ []

wait-ticks : wait_for_height_with_timeout 1 2 ticks ≡ ok (reached 3)
unfolding wait_for_height_with_timeout wait_loop
wait-ticks = refl

wait_for_next_block_ends_example :
    (w : Waited) × (wait_for_next_block 1 (some 7) (tick (some 7) ∷ timeout ∷ []) ≡ ok w)
    × HasReturned w
wait_for_next_block_ends_example = wait_for_next_block_ends 0 7 (tick (some 7) ∷ []) []

abbrev words : List Bytes
words = replicate 24 (codes "egg")

enough : 24 ≤ length words
enough = omega arith

wait_for_height_with_timeout_lem_example :
    (w : Waited) × (wait_for_height_with_timeout 1 2 ticks ≡ ok w) × IsWaited 2 0 ticks w
wait_for_height_with_timeout_lem_example = wait_for_height_with_timeout_lem 0 2 ticks
