-- ===== src/Replay/Slots.antt =====
-- One slot of the bitmap for each counter modulo the window's size: what the writes of the window do
-- to every slot.
use Prim.Native.Nat.{bit_and, bit_or}
use lightway.Base.{
  ℕ, zero, suc, ◌+◌, ◌-◌, ◌*◌, ◌/◌, ◌%◌, ◌^◌, ◌≤◌, ◌<◌, ◌≡◌, refl, ◌∙◌, inl, inr, not, List, ◌==◌,
  if◌then◌else◌, get_or, set, replicate, length, length-set, get_or-set_self, get_or-set_ne,
  get_or-replicate, arith, Bool-cases,
}
use lightway.Base.Bits.{
  bit, bit-bit_and, bit-bit_or, bit_and-pow, bit-pow, bit-complement, bit-le-one, pow_pos, bit-zero,
}
use lightway.Replay.{
  ReplayWindow, window_size, num_blocks, is_set, clear_slot, set_slot, clear_slots,
}

-- The bit of slot `s`, as 0 or 1.
pub slot_bit : List ℕ → ℕ → ℕ
slot_bit bitmap s = bit (get_or bitmap (s / 64) 0) (s % 64)

-- A product with a power of two vanishes with its other factor only.
nonzero-pow : (b j : ℕ) → b ≤ 1 → not (b * 2 ^ j == 0) ≡ (b == 1)
nonzero-pow zero j h = ground arith
nonzero-pow (suc zero) j h = ground (arith, pow_pos j)
nonzero-pow (suc (suc b)) j h = absurd (omega arith)

pub is_set-slot_bit :
    (w : ReplayWindow) (c : ℕ) → is_set w c ≡ (slot_bit w.bitmap (c % window_size) == 1)
unfolding is_set slot_bit
is_set-slot_bit w c =
    let word = get_or w.bitmap (c % window_size / 64) 0 in
    let j = c % window_size % 64 in
    rw (bit_and-pow word j) (nonzero-pow (bit word j) j (bit-le-one word j))

pub slot_bit-zeros : (s : ℕ) → slot_bit (replicate num_blocks 0) s ≡ 0
unfolding slot_bit
slot_bit-zeros s = rw (get_or-replicate {A = ℕ} num_blocks (s / 64) 0) (bit-zero (s % 64))

-- Equal blocks and equal offsets mean equal slots.
same_slot : (s t : ℕ) → s / 64 ≡ t / 64 → s % 64 ≡ t % 64 → s ≡ t
same_slot s t p q = omega arith

-- A write to one block that changes one bit changes one slot.
write_slot :
    (bitmap : List ℕ) (word s t v : ℕ)
    → length bitmap ≡ num_blocks
    → s < window_size
    → ((j : ℕ)
        → j < 64
        → bit word j ≡ (if s % 64 == j then v else bit (get_or bitmap (s / 64) 0) j))
    → slot_bit (set bitmap (s / 64) word) t ≡ (if s == t then v else slot_bit bitmap t)
unfolding slot_bit
write_slot bitmap word s t v len hs h = elim (Bool-cases (s / 64 == t / 64)) [
  | inl same ↦
      let block : s / 64 ≡ t / 64 = ground arith in
      rw (← block, get_or-set_self bitmap (s / 64) word 0 (omega arith), h (t % 64) (omega arith))
        (ground (arith, same_slot s t block))
  | inr apart ↦ rw (get_or-set_ne bitmap (s / 64) (t / 64) word 0 (ground arith)) (ground arith)
]

slot_bound : (c : ℕ) → c % window_size < window_size
slot_bound c = omega arith

pub slot_bit-set_slot :
    (bitmap : List ℕ) (c t : ℕ)
    → length bitmap ≡ num_blocks
    → slot_bit (set_slot bitmap c) t ≡ (if c % window_size == t then 1 else slot_bit bitmap t)
unfolding set_slot
slot_bit-set_slot bitmap c t len =
    let s = c % window_size in
    let word = get_or bitmap (s / 64) 0 in
    write_slot bitmap (bit_or word (2 ^ (s % 64))) s t 1 len (slot_bound c) λ j hj.
      ground (arith, bit-bit_or j word (2 ^ (s % 64)), bit-pow (s % 64) j, bit-le-one word j)

pub slot_bit-clear_slot :
    (bitmap : List ℕ) (c t : ℕ)
    → length bitmap ≡ num_blocks
    → slot_bit (clear_slot bitmap c) t ≡ (if c % window_size == t then 0 else slot_bit bitmap t)
unfolding clear_slot
slot_bit-clear_slot bitmap c t len =
    let s = c % window_size in
    let word = get_or bitmap (s / 64) 0 in
    write_slot bitmap (bit_and word (2 ^ 64 - 1 - 2 ^ (s % 64))) s t 0 len (slot_bound c) λ j hj.
      ground (
        arith,
        bit-bit_and j word (2 ^ 64 - 1 - 2 ^ (s % 64)),
        bit-complement 64 (s % 64) j,
        bit-le-one word j,
      )

pub length-clear_slot : (bitmap : List ℕ) (c : ℕ) → length (clear_slot bitmap c) ≡ length bitmap
unfolding clear_slot
length-clear_slot bitmap c = length-set bitmap _ _

pub length-set_slot : (bitmap : List ℕ) (c : ℕ) → length (set_slot bitmap c) ≡ length bitmap
unfolding set_slot
length-set_slot bitmap c = length-set bitmap _ _

pub length-clear_slots :
    (rounds from : ℕ) (bitmap : List ℕ) → length (clear_slots rounds from bitmap) ≡ length bitmap
unfolding clear_slots
length-clear_slots zero from bitmap = refl
length-clear_slots (suc rounds) from bitmap =
    length-clear_slots rounds (suc from) (clear_slot bitmap from) ∙ length-clear_slot bitmap from

-- The clearing loop leaves alone the slots of counters less than a window's size below the last of them.
pub slot_bit-clear_slots_out :
    (rounds from c : ℕ) (bitmap : List ℕ)
    → length bitmap ≡ num_blocks
    → c < from
    → from + rounds ≤ c + window_size
    → slot_bit (clear_slots rounds from bitmap) (c % window_size)
      ≡ slot_bit bitmap (c % window_size)
unfolding clear_slots
slot_bit-clear_slots_out zero from c bitmap len lo hi = refl
slot_bit-clear_slots_out (suc rounds) from c bitmap len lo hi = ground (
  arith,
  slot_bit-clear_slots_out rounds (suc from) c (clear_slot bitmap from),
  length-clear_slot bitmap from,
  slot_bit-clear_slot bitmap from (c % window_size),
)

-- It clears the slots of the counters that it runs over.
pub slot_bit-clear_slots_in :
    (rounds from c : ℕ) (bitmap : List ℕ)
    → length bitmap ≡ num_blocks
    → rounds ≤ window_size
    → from ≤ c
    → c < from + rounds
    → slot_bit (clear_slots rounds from bitmap) (c % window_size) ≡ 0
unfolding clear_slots
slot_bit-clear_slots_in zero from c bitmap len small lo hi = absurd (omega arith)
slot_bit-clear_slots_in (suc rounds) from c bitmap len small lo hi = ground (
  arith,
  slot_bit-clear_slots_in rounds (suc from) c (clear_slot bitmap from),
  slot_bit-clear_slots_out rounds (suc from) c (clear_slot bitmap from),
  length-clear_slot bitmap from,
  slot_bit-clear_slot bitmap from (c % window_size),
)
