-- ===== src/Base/Bits.antt =====
-- The bits of a machine word, and what `|` and `&` do to each of them.
use Prim.Native.Nat.{
  ℕ, zero, suc, ◌+◌, ◌-◌, ◌*◌, ◌/◌, ◌%◌, ◌^◌, ◌≤◌, ◌<◌, min, max, bit_and, bit_or, digits,
  bit_and-bitwise, bit_or-bitwise,
}
use mathlib.Core.Path.{◌≡◌, refl, ap}
use mathlib.Core.Bool.{Bool, false, not, ◌&&◌, ◌||◌}
use native.Mathlib.Nat.{pow-suc, one-le-pow}
use native.Mathlib.Omega.{arith}
use kin_os.Base.Tests.{ltb, ◌==◌}

-- Bit `k` of `w`.
abbrev pub test_bit : ℕ → ℕ → Bool
test_bit zero w = w % 2 == 1
test_bit (suc k) w = test_bit k (w / 2)

-- The digit recursion that the operations stand for does not depend on its fuel `k`, once that is enough.
module _ (tail : ℕ → ℕ) (op : ℕ → ℕ → ℕ) where
  enough_digits : (x y k l : ℕ) → x ≤ l → x ≤ k → digits tail op l x y ≡ digits tail op k x y
  enough_digits zero y zero zero _ _ = refl
  enough_digits zero y (suc k) zero _ _ = refl
  enough_digits zero y zero (suc l) _ _ = refl
  enough_digits zero y (suc k) (suc l) _ _ = refl
  enough_digits (suc x) y zero l xl xk = absurd (omega (arith, xk))
  enough_digits (suc x) y (suc k) zero xl xk = absurd (omega (arith, xl))
  enough_digits (suc x) y (suc k) (suc l) xl xk =
      let halves = enough_digits (suc x / 2) (y / 2) k l (omega arith) (omega arith) in
      omega (arith, halves)

-- The lowest digit of `x & y`, and the others.
pub bit_and_step : (x y : ℕ) → bit_and x y ≡ bit_and (x / 2) (y / 2) * 2 + min (x % 2) (y % 2)
bit_and_step zero y = omega (arith, bit_and-bitwise 0 y, bit_and-bitwise 0 (y / 2))
bit_and_step (suc x) y =
    let halves =
      enough_digits (λ d. zero) min (suc x / 2) (y / 2) (suc x / 2) x (omega arith) (omega arith) in
    omega (arith, halves, bit_and-bitwise (suc x / 2) (y / 2), bit_and-bitwise (suc x) y)

pub bit_or_step : (x y : ℕ) → bit_or x y ≡ bit_or (x / 2) (y / 2) * 2 + max (x % 2) (y % 2)
bit_or_step zero y = omega (arith, bit_or-bitwise 0 y, bit_or-bitwise 0 (y / 2))
bit_or_step (suc x) y =
    let halves =
      enough_digits (λ d. d) max (suc x / 2) (y / 2) (suc x / 2) x (omega arith) (omega arith) in
    omega (arith, halves, bit_or-bitwise (suc x / 2) (y / 2), bit_or-bitwise (suc x) y)

half-bit_and : (a b : ℕ) → bit_and a b / 2 ≡ bit_and (a / 2) (b / 2)
half-bit_and a b = omega (arith, bit_and_step a b)

half-bit_or : (a b : ℕ) → bit_or a b / 2 ≡ bit_or (a / 2) (b / 2)
half-bit_or a b = omega (arith, bit_or_step a b)

pub test_bit-bit_and : (k a b : ℕ) → test_bit k (bit_and a b) ≡ (test_bit k a && test_bit k b)
test_bit-bit_and zero a b = ground (arith, bit_and_step a b)
test_bit-bit_and (suc k) a b = rw (half-bit_and a b) (test_bit-bit_and k (a / 2) (b / 2))

pub test_bit-bit_or : (k a b : ℕ) → test_bit k (bit_or a b) ≡ (test_bit k a || test_bit k b)
test_bit-bit_or zero a b = ground (arith, bit_or_step a b)
test_bit-bit_or (suc k) a b = rw (half-bit_or a b) (test_bit-bit_or k (a / 2) (b / 2))

test_bit-zero : (k : ℕ) → test_bit k 0 ≡ false
test_bit-zero zero = refl
test_bit-zero (suc k) = test_bit-zero k

half-pow : (k : ℕ) → 2 ^ suc k / 2 ≡ 2 ^ k
half-pow k = omega (arith, pow-suc 2 k)

-- `1 << k` has bit `k` alone.
pub test_bit-pow : (j k : ℕ) → test_bit j (2 ^ k) ≡ (j == k)
test_bit-pow zero zero = refl
test_bit-pow zero (suc k) = ground (arith, pow-suc 2 k)
test_bit-pow (suc j) zero = ground (arith, test_bit-zero j)
test_bit-pow (suc j) (suc k) = rw (half-pow k) (ground (arith, test_bit-pow j k))

-- `~(1 << k)` in a word of `n` bits.
abbrev pub all_but : ℕ → ℕ → ℕ
all_but n k = 2 ^ n - 1 - 2 ^ k

half-all_but : (n k : ℕ) → k < n → all_but (suc n) (suc k) / 2 ≡ all_but n k
half-all_but n k h = omega (arith, pow-suc 2 n, pow-suc 2 k)

half-all_but_zero : (n : ℕ) → all_but (suc n) 0 / 2 ≡ 2 ^ n - 1
half-all_but_zero n = omega (arith, pow-suc 2 n)

half-ones : (n : ℕ) → (2 ^ suc n - 1) / 2 ≡ 2 ^ n - 1
half-ones n = omega (arith, pow-suc 2 n, one-le-pow n 2)

test_bit-ones : (j n : ℕ) → test_bit j (2 ^ n - 1) ≡ ltb j n
test_bit-ones j zero = ground (arith, test_bit-zero j)
test_bit-ones zero (suc n) = ground (arith, pow-suc 2 n, one-le-pow n 2)
test_bit-ones (suc j) (suc n) = rw (half-ones n) (ground (arith, test_bit-ones j n))

pow-le : (k n : ℕ) → k < n → 2 ^ k < 2 ^ n
pow-le k zero h = absurd (omega arith)
pow-le zero (suc n) h = omega (arith, pow-suc 2 n, one-le-pow n 2)
pow-le (suc k) (suc n) h = omega (arith, pow-suc 2 n, pow-suc 2 k, pow-le k n (omega arith))

pub test_bit-all_but : (j k n : ℕ) → k < n → test_bit j (all_but n k) ≡ (ltb j n && not (j == k))
test_bit-all_but j k zero h = absurd (omega arith)
test_bit-all_but zero zero (suc n) h = ground (arith, pow-suc 2 n, one-le-pow n 2)
test_bit-all_but zero (suc k) (suc n) h =
    ground (arith, pow-suc 2 n, pow-suc 2 k, pow-le k n (omega arith))
test_bit-all_but (suc j) zero (suc n) h =
    rw (half-all_but_zero n) (ground (arith, test_bit-ones j n))
test_bit-all_but (suc j) (suc k) (suc n) h =
    rw (half-all_but n k (omega arith)) (ground (arith, test_bit-all_but j k n))

-- No digit survives a zero, however many of them `n` allows for.
no_digit : (x n : ℕ) → x ≤ n → bit_and x 0 ≡ 0
no_digit zero n le = refl
no_digit (suc x) zero le = absurd (omega (arith, le))
no_digit (suc x) (suc n) le =
    let rest = no_digit (suc x / 2) n (omega arith) in omega (arith, rest, bit_and_step (suc x) 0)

pub bit_and-zero : (x : ℕ) → bit_and x 0 ≡ 0
bit_and-zero x = no_digit x x (omega arith)

-- `(w & (1 << k)) != 0` reads bit `k`.
pub bit_and-pow-eq-zero : (k w : ℕ) → (bit_and w (2 ^ k) == 0) ≡ not (test_bit k w)
bit_and-pow-eq-zero zero w = ground (arith, bit_and_step w 1, bit_and-zero (w / 2))
bit_and-pow-eq-zero (suc k) w =
    ground
      (arith, bit_and_step w (2 ^ suc k), half-pow k, pow-suc 2 k, bit_and-pow-eq-zero k (w / 2))

bit_and-ones : (n x : ℕ) → x < 2 ^ n → bit_and x (2 ^ n - 1) ≡ x
bit_and-ones zero x lt = omega (arith, bit_and-zero x)
bit_and-ones (suc n) x lt = omega (
  arith,
  bit_and_step x (2 ^ suc n - 1),
  ap (bit_and (x / 2)) (half-ones n),
  bit_and-ones n (x / 2) (omega (arith, pow-suc 2 n)),
  pow-suc 2 n,
  one-le-pow n 2,
)

-- `x & ~(2^k - 1)` in a word of `n` bits: the greatest multiple of `2^k` up to `x`.
pub bit_and_floor :
    (n k x : ℕ)
    → k ≤ n
    → x < 2 ^ n
    → let r = bit_and x (2 ^ n - 2 ^ k) in (r ≤ x) × (x < r + 2 ^ k) × (q : ℕ) × (r ≡ q * 2 ^ k)
bit_and_floor n zero x le lt =
    let e : bit_and x (2 ^ n - 1) ≡ x = bit_and-ones n x lt in
    (omega arith, omega arith, x, omega arith)
bit_and_floor zero (suc k) x le lt = absurd (omega arith)
bit_and_floor (suc n) (suc k) x le lt =
    let (below, above, q, e) =
      bit_and_floor n k (x / 2) (omega arith) (omega (arith, pow-suc 2 n)) in
    let half : (2 ^ suc n - 2 ^ suc k) / 2 ≡ 2 ^ n - 2 ^ k =
      omega (arith, pow-suc 2 n, pow-suc 2 k) in
    let even : (2 ^ suc n - 2 ^ suc k) % 2 ≡ 0 = omega (arith, pow-suc 2 n, pow-suc 2 k) in
    let step : bit_and x (2 ^ suc n - 2 ^ suc k) ≡ bit_and (x / 2) (2 ^ n - 2 ^ k) * 2 =
      omega (arith, bit_and_step x (2 ^ suc n - 2 ^ suc k), ap (bit_and (x / 2)) half, even) in
    (omega arith, omega (arith, pow-suc 2 k), q, omega (arith, ap (λ (t : ℕ). q * t) (pow-suc 2 k)))
