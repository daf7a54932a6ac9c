-- ===== src/Prelude/Power.antt =====
-- Powers of two: the divisors of one are powers of two.
use Prim.Native.Nat.{ℕ, zero, suc, ◌+◌, ◌*◌, ◌^◌, ◌<◌}
use mathlib.Core.Path.{◌≡◌, refl, ap, ◌∙◌}
use mathlib.Core.Logic.{◌⊎◌, inl, inr}
use native.Mathlib.Omega.{arith}
use native.Mathlib.Nat.{pow-suc}

pub two_pow_suc : (n : ℕ) → 2 ^ suc n ≡ 2 * 2 ^ n
two_pow_suc n = omega (arith, pow-suc 2 n)

pub two_pow_pos : (n : ℕ) → 0 < 2 ^ n
two_pow_pos zero = omega arith
two_pow_pos (suc n) = omega (arith, two_pow_pos n, two_pow_suc n)

pub two_pow_add : (m n : ℕ) → 2 ^ (m + n) ≡ 2 ^ m * 2 ^ n
two_pow_add zero n = grind arith
two_pow_add (suc m) n =
    let e : suc m + n ≡ suc (m + n) = omega arith in
    ap (λ k. 2 ^ k) e
    ∙ omega (arith, two_pow_add m n, ap (λ t. t * 2 ^ n) (two_pow_suc m), two_pow_suc (m + n))

-- A number is even or odd.
pub parity : (n : ℕ) → ((k : ℕ) × (n ≡ 2 * k)) ⊎ ((k : ℕ) × (n ≡ 2 * k + 1))
parity zero = inl (0, omega arith)
parity (suc n) = elim (parity n) [
  | inl (k, e) ↦ inr (k, omega arith)
  | inr (k, e) ↦ inl (suc k, omega arith)
]

-- A number whose product with another is a power of two is one itself.
pub two_pow_factor : (n d k : ℕ) → d * k ≡ 2 ^ n → (j : ℕ) × (d ≡ 2 ^ j)
two_pow_factor zero d k h = (0, factor_one d k h)
  where
    factor_one : (d k : ℕ) → d * k ≡ 1 → d ≡ 1
    factor_one zero k e = omega arith
    factor_one (suc zero) k e = refl
    factor_one (suc (suc d)) zero e = omega arith
    factor_one (suc (suc d)) (suc k) e = absurd (grind arith)
two_pow_factor (suc n) d k h = elim (parity d) [
  | inl (e, d_even) ↦
      let (j, q) = two_pow_factor n e k (omega (arith, ap (λ t. t * k) d_even, two_pow_suc n)) in
      (suc j, omega (arith, two_pow_suc j))
  | inr (e, d_odd) ↦ elim (parity k) [
    | inl (f, k_even) ↦ two_pow_factor n d f (omega (arith, ap (λ t. d * t) k_even, two_pow_suc n))
    | inr (f, k_odd) ↦
        absurd
          (omega (arith, ap (λ t. t * k) d_odd, ap (λ t. (2 * e + 1) * t) k_odd, two_pow_suc n))
  ]
]
