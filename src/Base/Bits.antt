-- ===== src/Base/Bits.antt =====
-- Single bits of a machine word: what `|` and `&` with one-bit masks do to every bit.
use Prim.Native.Nat.{
  ℕ, zero, suc, ◌+◌, ◌-◌, ◌*◌, ◌/◌, ◌%◌, ◌^◌, ◌≤◌, ◌<◌, min, max, bit_and, bit_or, digits,
  bit_and-bitwise, bit_or-bitwise,
}
use mathlib.Core.Path.{◌≡◌, refl, ap, ◌∙◌}
use native.Mathlib.Nat.{pow-suc}
use native.Mathlib.Omega.{arith}
use mathlib.Core.Bool.{Bool, true, ◌&&◌}
use lightway.Base.Tests.{◌==◌, if◌then◌else◌}

-- Bit `j` of `a`, as 0 or 1.
pub bit : ℕ → ℕ → ℕ
bit a zero = a % 2
bit a (suc j) = bit (a / 2) j

-- The native operations recurse on halves of their first argument, on fuel: a unit more than the
-- argument needs changes nothing.
module _ (last : ℕ → ℕ) (combine : ℕ → ℕ → ℕ) where
  one_more :
      (fuel x y : ℕ) → x ≤ fuel → digits last combine (suc fuel) x y ≡ digits last combine fuel x y
  one_more zero zero y h = refl
  one_more zero (suc x) y h = elim h [ ]
  one_more (suc fuel) zero y h = refl
  one_more (suc fuel) (suc x) y h =
      ap (λ t. t * 2 + combine (suc x % 2) (y % 2))
        (one_more fuel (suc x / 2) (y / 2) (omega arith))

  -- From `x` on, all fuel is as good.
  least_fuel : (extra x y : ℕ) → digits last combine (x + extra) x y ≡ digits last combine x x y
  least_fuel zero x y = ap (λ t. digits last combine t x y) (omega arith)
  least_fuel (suc extra) x y =
      let next : x + suc extra ≡ suc (x + extra) = omega arith in
      ap (λ t. digits last combine t x y) next
      ∙ one_more (x + extra) x y (omega arith)
      ∙ least_fuel extra x y

  halve :
      (x y : ℕ)
      → digits last combine (suc x) (suc x) y
        ≡ combine (suc x % 2) (y % 2) + 2 * digits last combine (suc x / 2) (suc x / 2) (y / 2)
  halve x y =
      let spare : suc x / 2 + (x - suc x / 2) ≡ x = omega arith in
      let same = least_fuel (x - suc x / 2) (suc x / 2) (y / 2) in omega (arith, rw spare at same)

pub zero-bit_or : (y : ℕ) → bit_or 0 y ≡ y
zero-bit_or = bit_or-bitwise 0

-- The lowest bit, and the rest.
bit_and-halves : (x y : ℕ) → bit_and x y ≡ min (x % 2) (y % 2) + 2 * bit_and (x / 2) (y / 2)
bit_and-halves zero y = omega (arith, bit_and-bitwise 0 y, bit_and-bitwise 0 (y / 2))
bit_and-halves (suc x) y =
    let law = halve (λ _. zero) min x y in
    omega (arith, law, bit_and-bitwise (suc x) y, bit_and-bitwise (suc x / 2) (y / 2))

bit_or-halves : (x y : ℕ) → bit_or x y ≡ max (x % 2) (y % 2) + 2 * bit_or (x / 2) (y / 2)
bit_or-halves zero y = omega (arith, zero-bit_or y, zero-bit_or (y / 2))
bit_or-halves (suc x) y =
    let law = halve (λ t. t) max x y in
    omega (arith, law, bit_or-bitwise (suc x) y, bit_or-bitwise (suc x / 2) (y / 2))

pub bit-bit_and : (j a b : ℕ) → bit (bit_and a b) j ≡ min (bit a j) (bit b j)
unfolding bit
bit-bit_and zero a b = omega (arith, bit_and-halves a b)
bit-bit_and (suc j) a b =
    let halves : bit_and a b / 2 ≡ bit_and (a / 2) (b / 2) = omega (arith, bit_and-halves a b) in
    rw halves (bit-bit_and j (a / 2) (b / 2))

pub bit-bit_or : (j a b : ℕ) → bit (bit_or a b) j ≡ max (bit a j) (bit b j)
unfolding bit
bit-bit_or zero a b = omega (arith, bit_or-halves a b)
bit-bit_or (suc j) a b =
    let halves : bit_or a b / 2 ≡ bit_or (a / 2) (b / 2) = omega (arith, bit_or-halves a b) in
    rw halves (bit-bit_or j (a / 2) (b / 2))

pub bit-zero : (j : ℕ) → bit 0 j ≡ 0
unfolding bit
bit-zero zero = refl
bit-zero (suc j) = bit-zero j

pub bit-le-one : (a j : ℕ) → bit a j ≤ 1
unfolding bit
bit-le-one a zero = omega arith
bit-le-one a (suc j) = bit-le-one (a / 2) j

pub pow_pos : (k : ℕ) → 0 < 2 ^ k
pow_pos zero = omega arith
pow_pos (suc k) = omega (arith, pow_pos k, pow-suc 2 k)

double_pow : (k : ℕ) → 2 ^ suc k ≡ 2 * 2 ^ k
double_pow k = omega (arith, pow-suc 2 k)

pub bit-pow : (k j : ℕ) → bit (2 ^ k) j ≡ (if k == j then 1 else 0)
unfolding bit
bit-pow zero zero = refl
bit-pow zero (suc j) = ground (arith, bit-zero j)
bit-pow (suc k) zero = ground (arith, double_pow k)
bit-pow (suc k) (suc j) =
    let half : 2 ^ suc k / 2 ≡ 2 ^ k = omega (arith, double_pow k) in
    rw half (ground (arith, bit-pow k j))

no_bits : (fuel x : ℕ) → x ≤ fuel → bit_and x 0 ≡ 0
no_bits fuel zero h = bit_and-bitwise 0 0
no_bits zero (suc x) h = elim h [ ]
no_bits (suc fuel) (suc x) h =
    let below = no_bits fuel (suc x / 2) (omega arith) in
    let split = bit_and-halves (suc x) 0 in omega arith

bit_and-zero : (x : ℕ) → bit_and x 0 ≡ 0
bit_and-zero x = no_bits x x (omega arith)

-- A one-bit mask picks out its bit.
pub bit_and-pow : (a j : ℕ) → bit_and a (2 ^ j) ≡ bit a j * 2 ^ j
unfolding bit
bit_and-pow a zero = omega (arith, bit_and-halves a 1, bit_and-zero (a / 2))
bit_and-pow a (suc j) =
    let half : 2 ^ suc j / 2 ≡ 2 ^ j = omega (arith, double_pow j) in
    let ih : bit_and (a / 2) (2 ^ suc j / 2) ≡ bit (a / 2) j * 2 ^ j =
      rw half (bit_and-pow (a / 2) j) in
    omega (
      arith,
      bit_and-halves a (2 ^ suc j),
      ih,
      double_pow j,
      ap (λ (t : ℕ). bit (a / 2) j * t) (double_pow j),
    )

pub pow-lt-pow : (k n : ℕ) → k < n → 2 ^ k < 2 ^ n
pow-lt-pow k zero h = elim h [ ]
pow-lt-pow zero (suc zero) h = omega arith
pow-lt-pow zero (suc (suc n)) h =
    omega (arith, pow-lt-pow zero (suc n) (omega arith), double_pow (suc n))
pow-lt-pow (suc k) (suc n) h =
    omega (arith, pow-lt-pow k n (omega arith), double_pow k, double_pow n)

-- A word of `n` ones.
bit-ones : (n j : ℕ) → j < n → bit (2 ^ n - 1) j ≡ 1
unfolding bit
bit-ones zero j h = elim h [ ]
bit-ones (suc n) zero h = omega (arith, double_pow n, pow_pos n)
bit-ones (suc n) (suc j) h =
    let half : (2 ^ suc n - 1) / 2 ≡ 2 ^ n - 1 = omega (arith, double_pow n, pow_pos n) in
    rw half (bit-ones n j (omega arith))

-- `!(1 << k)` on `n` bits has every bit but `k`.
pub bit-complement :
    (n k j : ℕ) → k < n → j < n → bit (2 ^ n - 1 - 2 ^ k) j ≡ (if k == j then 0 else 1)
unfolding bit
bit-complement zero k j hk hj = elim hk [ ]
bit-complement (suc n) zero zero hk hj = ground (arith, double_pow n, pow_pos n)
bit-complement (suc n) zero (suc j) hk hj =
    let half : (2 ^ suc n - 1 - 1) / 2 ≡ 2 ^ n - 1 = omega (arith, double_pow n, pow_pos n) in
    rw half (ground (arith, bit-ones n j))
bit-complement (suc n) (suc k) zero hk hj =
    ground (arith, double_pow n, double_pow k, pow_pos n, pow-lt-pow k n)
bit-complement (suc n) (suc k) (suc j) hk hj =
    let half : (2 ^ suc n - 1 - 2 ^ suc k) / 2 ≡ 2 ^ n - 1 - 2 ^ k =
      omega (arith, double_pow n, double_pow k, pow-lt-pow k n (omega arith)) in
    rw half (ground (arith, bit-complement n k j))

-- Over a small range, an equation is checked at every value by evaluation.
unfoldable pub agree_below : (ℕ → ℕ) → (ℕ → ℕ) → ℕ → Bool
agree_below f g zero = true
agree_below f g (suc n) = (f n == g n) && agree_below f g n

pub agree_below-eq : (f g : ℕ → ℕ) (n : ℕ) → agree_below f g n ≡ true → (i : ℕ) → i < n → f i ≡ g i
unfolding agree_below
agree_below-eq f g zero e i h = elim h [ ]
agree_below-eq f g (suc n) e i h = ground (arith, agree_below-eq f g n (ground arith) i)
