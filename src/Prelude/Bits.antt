-- ===== src/Prelude/Bits.antt =====
-- `a & (2^k - 1)` is `a % 2^k`.
use Prim.Native.Nat.{
  ℕ, zero, suc, ◌+◌, ◌-◌, ◌*◌, ◌/◌, ◌%◌, ◌^◌, ◌≤◌, ◌<◌, min, max, bit_and, bit_or, digits,
  bit_and-bitwise, bit_or-bitwise,
}
use mathlib.Core.Path.{◌≡◌, refl, ap, sym, ◌∙◌}
use native.Mathlib.Omega.{arith}
use bdev_ubi.Prelude.Power.{two_pow_suc, two_pow_pos}

-- `k` ones in binary.
ones : ℕ → ℕ
ones zero = 0
ones (suc k) = ones k * 2 + 1

ones_lem : (k : ℕ) → ones k ≡ 2 ^ k - 1
unfolding ones
ones_lem zero = refl
ones_lem (suc k) = omega (arith, ones_lem k, two_pow_suc k, two_pow_pos k)

mod-double : (x p : ℕ) → 0 < p → x % (2 * p) ≡ x / 2 % p * 2 + x % 2
mod-double x p h = grind arith

masked : (n a k : ℕ) → a ≤ n → digits (λ _. 0) min n a (ones k) ≡ a % 2 ^ k
unfolding ones
masked zero zero k h = omega (arith, two_pow_pos k)
masked zero (suc a) k h = absurd (omega arith)
masked (suc n) zero k h = omega (arith, two_pow_pos k)
masked (suc n) (suc a) zero h = omega (arith, masked n (suc a / 2) 0 (omega arith))
masked (suc n) (suc a) (suc k) h =
    let half : (ones k * 2 + 1) / 2 ≡ ones k = omega arith in
    omega (
      arith,
      masked n (suc a / 2) k (omega arith),
      ap (digits (λ _. 0) min n (suc a / 2)) half,
      mod-double (suc a) (2 ^ k) (two_pow_pos k),
      ap (λ m. suc a % m) (two_pow_suc k),
    )

pub bit_and-mask : (a k : ℕ) → bit_and a (2 ^ k - 1) ≡ a % 2 ^ k
bit_and-mask a k =
    ap (bit_and a) (sym (ones_lem k)) ∙ bit_and-bitwise a (ones k) ∙ masked a a k (omega arith)

-- Joining a number to the left of `k` free bits adds it there.
joined : (n a k b : ℕ) → a ≤ n → a < 2 ^ k → digits (λ b. b) max n a (b * 2 ^ k) ≡ a + b * 2 ^ k
joined zero zero k b h p = omega arith
joined zero (suc a) k b h p = absurd (omega arith)
joined (suc n) zero k b h p = omega arith
joined (suc n) (suc a) zero b h p = absurd (omega arith)
joined (suc n) (suc a) (suc k) b h p =
    let twice : b * 2 ^ suc k ≡ 2 * (b * 2 ^ k) = omega (arith, ap (λ t. b * t) (two_pow_suc k)) in
    let half : b * 2 ^ suc k / 2 ≡ b * 2 ^ k = omega (arith, twice) in
    omega (
      arith,
      joined n (suc a / 2) k b (omega arith) (omega (arith, two_pow_suc k)),
      ap (digits (λ b. b) max n (suc a / 2)) half,
      twice,
    )

pub bit_or-disjoint : (a k b : ℕ) → a < 2 ^ k → bit_or a (b * 2 ^ k) ≡ a + b * 2 ^ k
bit_or-disjoint a k b h = bit_or-bitwise a (b * 2 ^ k) ∙ joined a a k b (omega arith) h
