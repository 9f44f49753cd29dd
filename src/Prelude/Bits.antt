-- ===== src/Prelude/Bits.antt =====
-- `&`, `|` and `^` as arithmetic: one equation for the lowest digit of each, and what follows by
-- going through the digits.
use Prim.Native.Nat.{
  ℕ, zero, suc, ◌+◌, ◌-◌, ◌*◌, ◌/◌, ◌%◌, ◌^◌, ◌≤◌, ◌<◌, min, max, differ, digits, bit_and, bit_or,
  bit_xor, bit_and-bitwise, bit_or-bitwise, bit_xor-bitwise,
}
use mathlib.Core.Path.{◌≡◌, refl, ap, ap₂}
use mathlib.Core.Bool.{Bool, true, ◌&&◌}
use sockify.Prelude.Tests.{◌==◌, ==_iff}
use native.Mathlib.Nat.{pow-suc, one-le-pow}
use native.Mathlib.Omega.{arith}

-- The count of digits to go may be any number from the first argument on.
digits_count :
    (z : ℕ → ℕ) (f : ℕ → ℕ → ℕ) (n m x w : ℕ) → x ≤ n → x ≤ m → digits z f n x w ≡ digits z f m x w
digits_count z f zero zero zero w p q = refl
digits_count z f zero (suc m) zero w p q = refl
digits_count z f (suc n) zero zero w p q = refl
digits_count z f (suc n) (suc m) zero w p q = refl
digits_count z f zero m (suc x) w p q = absurd (omega arith)
digits_count z f (suc n) zero (suc x) w p q = absurd (omega arith)
digits_count z f (suc n) (suc m) (suc x) w p q =
    ap (λ k. k * 2 + f (suc x % 2) (w % 2))
      (digits_count z f n m (suc x / 2) (w / 2) (omega arith) (omega arith))

pub bit_and_step : (x w : ℕ) → bit_and x w ≡ bit_and (x / 2) (w / 2) * 2 + min (x % 2) (w % 2)
bit_and_step zero w = simp bit_and-bitwise (omega arith)
bit_and_step (suc x) w = simp bit_and-bitwise (
    omega (
      arith,
      digits_count (λ _. 0) min x (suc x / 2) (suc x / 2) (w / 2) (omega arith) (omega arith),
    ))

pub bit_or_step : (x w : ℕ) → bit_or x w ≡ bit_or (x / 2) (w / 2) * 2 + max (x % 2) (w % 2)
bit_or_step zero w = simp bit_or-bitwise (omega arith)
bit_or_step (suc x) w = simp bit_or-bitwise (
    omega (
      arith,
      digits_count (λ v. v) max x (suc x / 2) (suc x / 2) (w / 2) (omega arith) (omega arith),
    ))

pub bit_xor_step : (x w : ℕ) → bit_xor x w ≡ bit_xor (x / 2) (w / 2) * 2 + differ (x % 2) (w % 2)
bit_xor_step zero w = simp bit_xor-bitwise (omega arith)
bit_xor_step (suc x) w = simp bit_xor-bitwise (
    omega (
      arith,
      digits_count (λ v. v) differ x (suc x / 2) (suc x / 2) (w / 2) (omega arith) (omega arith),
    ))

-- On two digits `differ` is the parity of their sum.
differ_digits : (x y : ℕ) → x < 2 → y < 2 → differ x y ≡ (x + y) % 2
differ_digits zero y p q = omega arith
differ_digits (suc zero) zero p q = refl
differ_digits (suc zero) (suc zero) p q = refl
differ_digits (suc zero) (suc (suc y)) p q = absurd (omega arith)
differ_digits (suc (suc x)) y p q = absurd (omega arith)

pub bit_xor_parity : (a b : ℕ) → bit_xor a b ≡ bit_xor (a / 2) (b / 2) * 2 + (a % 2 + b % 2) % 2
bit_xor_parity a b =
    omega (arith, bit_xor_step a b, differ_digits (a % 2) (b % 2) (omega arith) (omega arith))

-- Exclusive or stays within `k` digits.
pub bit_xor_lt : (k a b : ℕ) → a < 2 ^ k → b < 2 ^ k → bit_xor a b < 2 ^ k
bit_xor_lt zero zero zero p q = omega arith
bit_xor_lt zero zero (suc b) p q = absurd (omega arith)
bit_xor_lt zero (suc a) b p q = absurd (omega arith)
bit_xor_lt (suc k) a b p q =
    let twice : 2 ^ suc k ≡ 2 ^ k * 2 = pow-suc 2 k in
    let rest = bit_xor_lt k (a / 2) (b / 2) (omega arith) (omega arith) in
    omega (arith, bit_xor_parity a b)

-- Exclusive or with the same number twice gives the first one back.
pub bit_xor_cancel : (k a b : ℕ) → a < 2 ^ k → b < 2 ^ k → bit_xor (bit_xor a b) b ≡ a
bit_xor_cancel zero zero zero p q = refl
bit_xor_cancel zero zero (suc b) p q = absurd (omega arith)
bit_xor_cancel zero (suc a) b p q = absurd (omega arith)
bit_xor_cancel (suc k) a b p q =
    let twice : 2 ^ suc k ≡ 2 ^ k * 2 = pow-suc 2 k in
    let half : bit_xor a b / 2 ≡ bit_xor (a / 2) (b / 2) = omega (arith, bit_xor_parity a b) in
    let rest = bit_xor_cancel k (a / 2) (b / 2) (omega arith) (omega arith) in
    omega
      (arith, bit_xor_parity a b, bit_xor_parity (bit_xor a b) b, ap (λ t. bit_xor t (b / 2)) half)

or_zero : (k a : ℕ) → a < 2 ^ k → bit_or a 0 ≡ a
or_zero zero zero p = refl
or_zero zero (suc a) p = absurd (omega arith)
or_zero (suc k) a p =
    let rest = or_zero k (a / 2) (omega (arith, pow-suc 2 k)) in omega (arith, bit_or_step a 0)

lt_two_pow : (a : ℕ) → a < 2 ^ a
lt_two_pow zero = omega arith
lt_two_pow (suc a) = omega (arith, lt_two_pow a, pow-suc 2 a)

and_zero : (k a : ℕ) → a < 2 ^ k → bit_and a 0 ≡ 0
and_zero zero zero p = refl
and_zero zero (suc a) p = absurd (omega arith)
and_zero (suc k) a p =
    let rest = and_zero k (a / 2) (omega (arith, pow-suc 2 k)) in omega (arith, bit_and_step a 0)

shifted : (q k : ℕ) → q * 2 ^ suc k ≡ q * 2 ^ k * 2
shifted q k = omega (arith, ap (λ (power : ℕ). q * power) (pow-suc 2 k))

-- `(q << k) | r` is a sum where `r` has at most `k` digits.
pub bit_or_fields : (k q r : ℕ) → r < 2 ^ k → bit_or (q * 2 ^ k) r ≡ q * 2 ^ k + r
bit_or_fields zero q zero p = omega (arith, or_zero (q * 1) (q * 1) (lt_two_pow (q * 1)))
bit_or_fields zero q (suc r) p = absurd (omega arith)
bit_or_fields (suc k) q r p =
    let twice : 2 ^ suc k ≡ 2 ^ k * 2 = pow-suc 2 k in
    let half : q * 2 ^ suc k / 2 ≡ q * 2 ^ k = omega (arith, shifted q k) in
    let rest = bit_or_fields k q (r / 2) (omega arith) in
    omega (arith, bit_or_step (q * 2 ^ suc k) r, shifted q k, ap (λ t. bit_or t (r / 2)) half)

-- A mask of `k` ones keeps the low `k` digits.
pub bit_and_fields : (k q r : ℕ) → r < 2 ^ k → bit_and (q * 2 ^ k + r) (2 ^ k - 1) ≡ r
bit_and_fields zero q zero p =
    omega (arith, and_zero (q * 1 + 0) (q * 1 + 0) (lt_two_pow (q * 1 + 0)))
bit_and_fields zero q (suc r) p = absurd (omega arith)
bit_and_fields (suc k) q r p =
    let twice : 2 ^ suc k ≡ 2 ^ k * 2 = pow-suc 2 k in
    let pos = one-le-pow k 2 (omega arith) in
    let half : (2 ^ suc k - 1) / 2 ≡ 2 ^ k - 1 = omega arith in
    let halves : (q * 2 ^ suc k + r) / 2 ≡ q * 2 ^ k + r / 2 = omega (arith, shifted q k) in
    let rest = bit_and_fields k q (r / 2) (omega arith) in
    omega (
      arith,
      bit_and_step (q * 2 ^ suc k + r) (2 ^ suc k - 1),
      shifted q k,
      ap₂ bit_and halves half,
    )

-- The masks that the code uses.
pub mask_6 : (a : ℕ) → bit_and a 0x3f ≡ a % 64
mask_6 a =
    let e : a ≡ a / 64 * 2 ^ 6 + a % 64 = omega arith in
    omega (arith, bit_and_fields 6 (a / 64) (a % 64) (omega arith), ap (λ t. bit_and t 0x3f) e)

pub mask_8 : (a : ℕ) → bit_and a 0xff ≡ a % 256
mask_8 a =
    let e : a ≡ a / 256 * 2 ^ 8 + a % 256 = omega arith in
    omega (arith, bit_and_fields 8 (a / 256) (a % 256) (omega arith), ap (λ t. bit_and t 0xff) e)

pub mask_2 : (a : ℕ) → bit_and a 3 ≡ a % 4
mask_2 a =
    let e : a ≡ a / 4 * 2 ^ 2 + a % 4 = omega arith in
    omega (arith, bit_and_fields 2 (a / 4) (a % 4) (omega arith), ap (λ t. bit_and t 3) e)

-- A test on bytes, run at every value below a bound.
unfoldable pub all_below : ℕ → (ℕ → Bool) → Bool
all_below zero test = true
all_below (suc bound) test = test bound && all_below bound test

pub all_below_sound :
    (bound : ℕ) (test : ℕ → Bool) (k : ℕ) → k < bound → all_below bound test ≡ true → test k ≡ true
unfolding all_below
all_below_sound zero test k below every = absurd (omega arith)
all_below_sound (suc bound) test k below every = ground (arith, all_below_sound bound test k)

module _ (f g : ℕ → ℕ) where
  same_below : (n : ℕ) → all_below n (λ x. f x == g x) ≡ true → (x : ℕ) → x < n → f x ≡ g x
  same_below n h x lt = (==_iff (f x) (g x)).0 (all_below_sound n (λ y. f y == g y) x lt h)

-- The masks on one byte, at every value.
pub mask_0x80 : (x : ℕ) → x < 256 → bit_and x 0x80 ≡ x / 128 * 128
unfolding all_below
mask_0x80 = same_below (λ x. bit_and x 0x80) (λ x. x / 128 * 128) 256 refl

pub mask_0x7f : (x : ℕ) → x < 256 → bit_and x 0x7f ≡ x % 128
unfolding all_below
mask_0x7f = same_below (λ x. bit_and x 0x7f) (λ x. x % 128) 256 refl

pub mask_0x70 : (x : ℕ) → x < 256 → bit_and x 0x70 ≡ x / 16 % 8 * 16
unfolding all_below
mask_0x70 = same_below (λ x. bit_and x 0x70) (λ x. x / 16 % 8 * 16) 256 refl

pub mask_0x0f : (x : ℕ) → x < 256 → bit_and x 0x0f ≡ x % 16
unfolding all_below
mask_0x0f = same_below (λ x. bit_and x 0x0f) (λ x. x % 16) 256 refl

-- `|` stays within `k` digits.
pub bit_or_lt : (k a b : ℕ) → a < 2 ^ k → b < 2 ^ k → bit_or a b < 2 ^ k
bit_or_lt zero zero zero p q = omega arith
bit_or_lt zero zero (suc b) p q = absurd (omega arith)
bit_or_lt zero (suc a) b p q = absurd (omega arith)
bit_or_lt (suc k) a b p q =
    let twice : 2 ^ suc k ≡ 2 ^ k * 2 = pow-suc 2 k in
    let rest = bit_or_lt k (a / 2) (b / 2) (omega arith) (omega arith) in
    omega (arith, bit_or_step a b)
