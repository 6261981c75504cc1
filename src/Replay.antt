-- ===== src/Replay.antt =====
-- lightway-expresslane/src/replay_window.rs: the sliding window of packet counters that have been
-- accepted. A method on `&mut self` returns the new window.
pub mod Slots
pub mod History
mod Runs
use Prim.Native.Nat.{bit_and, bit_or}
use lightway.Base.{
  ℕ, zero, suc, ◌+◌, ◌-◌, ◌*◌, ◌/◌, ◌%◌, ◌^◌, max, Bool, true, false, not, List, ltb, leb, ◌==◌,
  if◌then◌else◌, get_or, set, replicate,
}

abbrev pub num_blocks : ℕ
num_blocks = 128

abbrev pub window_size : ℕ
window_size = num_blocks * 64

-- `high` is a u64, `bitmap` an array of `num_blocks` words of 64 bits.
pub record ReplayWindow : Type 0 where
  pub high : ℕ
  pub bitmap : List ℕ

unfoldable pub default : ReplayWindow
default = record { high = 0; bitmap = replicate num_blocks 0 }

-- The block of a counter, and the one-bit mask in it.
abbrev index : ℕ → ℕ × ℕ
index counter = let slot = counter % window_size in (slot / 64, 2 ^ (slot % 64))

unfoldable pub is_set : ReplayWindow → ℕ → Bool
is_set w counter =
    let (block, mask) = index counter in not (bit_and (get_or w.bitmap block 0) mask == 0)

unfoldable pub would_reject : ReplayWindow → ℕ → Bool
would_reject w counter =
    if counter == 0
    then true
    else if ltb w.high counter
    then false
    else if leb window_size (w.high - counter)
    then true
    else is_set w counter

-- `bitmap[block] &= !mask` and `bitmap[block] |= mask`.
unfoldable pub clear_slot : List ℕ → ℕ → List ℕ
clear_slot bitmap counter =
    let (block, mask) = index counter in
    set bitmap block (bit_and (get_or bitmap block 0) (2 ^ 64 - 1 - mask))

unfoldable pub set_slot : List ℕ → ℕ → List ℕ
set_slot bitmap counter =
    let (block, mask) = index counter in set bitmap block (bit_or (get_or bitmap block 0) mask)

-- `for c in from..from + rounds`.
unfoldable pub clear_slots : ℕ → ℕ → List ℕ → List ℕ
clear_slots zero from bitmap = bitmap
clear_slots (suc rounds) from bitmap = clear_slots rounds (suc from) (clear_slot bitmap from)

-- What `commit` does to the window for a counter above `high`.
unfoldable pub advance : ReplayWindow → ℕ → ReplayWindow
advance w counter =
    let clear_from = max (w.high + 1) (counter - (window_size - 1)) in
    let cleared =
      if leb window_size (counter - w.high)
      then replicate num_blocks 0
      else clear_slots (counter - clear_from) clear_from w.bitmap in
    record { high = counter; bitmap = cleared }

unfoldable pub commit : ReplayWindow → ℕ → ReplayWindow × Bool
commit w counter =
    if would_reject w counter
    then (w, false)
    else let moved = if ltb w.high counter then advance w counter else w in
      (record moved { bitmap = set_slot moved.bitmap counter }, true)
