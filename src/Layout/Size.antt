-- ===== src/Layout/Size.antt =====
-- The stripe sizes and block lengths that pass the tests of ubi_init_layout_params.
use bdev_ubi.Prelude.{
  ℕ, zero, suc, ◌+◌, ◌-◌, ◌*◌, ◌/◌, ◌%◌, ◌^◌, ◌≤◌, ◌<◌, ◌≡◌, refl, ap, sym, ◌∙◌, ◌⊎◌, inl, inr,
  Bool, true, ◌&&◌, ◌||◌, not, ltb, ◌==◌, lt→ltb, if◌then◌else◌, arith, two_pow_suc, two_pow_pos,
  two_pow_factor, two_pow_add,
}
use native.Mathlib.Decide.{dec_le}
use native.Mathlib.Nat.{pow-le-pow_right, mul-mod_right}
use bdev_ubi.Layout.{halvings, low_bits}

-- Every number below a bound, by evaluation.
every_below : ℕ → (ℕ → Bool) → Bool
every_below zero p = true
every_below (suc n) p = p n && every_below n p

every_below_at : (n : ℕ) (p : ℕ → Bool) (x : ℕ) → every_below n p ≡ true → x < n → p x ≡ true
unfolding every_below
every_below_at zero p x h lt = absurd (omega arith)
every_below_at (suc n) p x h lt = ground (arith, every_below_at n p x)

is_stripe_size : ℕ → Bool
is_stripe_size kb = kb == 64 || kb == 128 || kb == 256 || kb == 512 || kb == 1024

size_test : ℕ → Bool
unfolding low_bits is_stripe_size
size_test kb =
    ltb kb 64 || (if low_bits kb == 0 then is_stripe_size kb else not (is_stripe_size kb))

size_table : every_below 1025 size_test ≡ true
unfolding every_below size_test
size_table = refl

-- The sizes allowed are the five powers of two from 64 to 1024.
abbrev pub StripeSize : ℕ → Type 0
StripeSize kb = (k : ℕ) × (k ≤ 4) × (kb ≡ 64 * 2 ^ k)

five_sizes :
    (kb : ℕ)
    → is_stripe_size kb ≡ true
    → (kb ≡ 64) ⊎ (kb ≡ 128) ⊎ (kb ≡ 256) ⊎ (kb ≡ 512) ⊎ (kb ≡ 1024)
unfolding is_stripe_size
five_sizes kb h = ground arith

size_test-StripeSize :
    (kb : ℕ) → 64 ≤ kb → size_test kb ≡ true → low_bits kb ≡ 0 → is_stripe_size kb ≡ true
unfolding size_test
size_test-StripeSize kb lo t h = ground arith

pub low_bits-StripeSize : (kb : ℕ) → 64 ≤ kb → kb ≤ 1024 → low_bits kb ≡ 0 → StripeSize kb
low_bits-StripeSize kb lo hi h =
    let t = every_below_at 1025 size_test kb size_table (omega arith) in
    elim (five_sizes kb (size_test-StripeSize kb lo t h)) [
      | inl e ↦ (0, omega arith, omega arith)
      | inr (inl e) ↦ (1, omega arith, omega arith)
      | inr (inr (inl e)) ↦ (2, omega arith, omega arith)
      | inr (inr (inr (inl e))) ↦ (3, omega arith, omega arith)
      | inr (inr (inr (inr e))) ↦ (4, omega arith, omega arith)
    ]

-- The other direction, with the bounds.
pub StripeSize-low_bits : (kb : ℕ) → StripeSize kb → (64 ≤ kb) × (kb ≤ 1024) × (low_bits kb ≡ 0)
unfolding low_bits
StripeSize-low_bits kb (zero, h, e) = rw e (omega arith, omega arith, refl)
StripeSize-low_bits kb (suc zero, h, e) = rw e (omega arith, omega arith, refl)
StripeSize-low_bits kb (suc (suc zero), h, e) = rw e (omega arith, omega arith, refl)
StripeSize-low_bits kb (suc (suc (suc zero)), h, e) = rw e (omega arith, omega arith, refl)
StripeSize-low_bits kb (suc (suc (suc (suc zero))), h, e) = rw e (omega arith, omega arith, refl)
StripeSize-low_bits kb (suc (suc (suc (suc (suc k)))), h, e) = absurd (omega arith)

-- A stripe size in bytes is a power of two.
pub StripeSize-bytes : (kb : ℕ) → StripeSize kb → (k : ℕ) × (k ≤ 20) × (kb * 1024 ≡ 2 ^ k)
StripeSize-bytes kb (k, h, e) =
    (k + 16, omega arith, ap (λ t. t * 1024) e ∙ omega (arith, two_pow_add k 16))

-- The block lengths that divide the metadata area are powers of two.
pub metadata-divisor : (blocklen : ℕ) → 8388608 % blocklen ≡ 0 → (j : ℕ) × (blocklen ≡ 2 ^ j)
metadata-divisor b h = two_pow_factor 23 b (8388608 / b) (grind arith)

-- A smaller power of two divides a larger one.
pub two_pow_div : (j k : ℕ) → 2 ^ j ≤ 2 ^ k → (i : ℕ) × (k ≡ j + i)
two_pow_div j k h = elim (dec_le j k) [
  | yes p ↦ (k - j, omega arith)
  | no p ↦ absurd (
      omega (
        arith,
        pow-le-pow_right {n = 2} (omega arith) {i = suc k} {j = j} (omega arith),
        two_pow_suc k,
        two_pow_pos k,
      ))
]

-- What the loop computes on a power of two: its exponent, if the fuel allows.
pub halvings-two_pow : (fuel k acc : ℕ) → k ≤ fuel → halvings fuel (2 ^ k) acc ≡ (1, acc + k)
unfolding halvings
halvings-two_pow zero zero acc h = ap (λ t. (1, t)) (omega arith)
halvings-two_pow zero (suc k) acc h = absurd (omega arith)
halvings-two_pow (suc fuel) zero acc h = ap (λ t. (1, t)) (omega arith)
halvings-two_pow (suc fuel) (suc k) acc h =
    let half : 2 ^ suc k / 2 ≡ 2 ^ k = omega (arith, two_pow_suc k) in
    rw (lt→ltb 1 (2 ^ suc k) (omega (arith, two_pow_suc k, two_pow_pos k)), half)
      (halvings-two_pow fuel k (acc + 1) (omega arith) ∙ ap (λ t. (1, t)) (omega arith))

-- A power of two up to a stripe's size divides the metadata area.
pub two_pow-divides : (j k : ℕ) → k ≤ 20 → (b : ℕ) → b ≡ 2 ^ j → b ≤ 2 ^ k → 8388608 % b ≡ 0
two_pow-divides j k small b e h =
    let (i, f) = two_pow_div j k (omega arith) in
    let exponent : 23 ≡ j + (23 - j) = omega arith in
    let whole : 8388608 ≡ b * 2 ^ (23 - j) =
      ap (λ n. 2 ^ n) exponent ∙ two_pow_add j (23 - j) ∙ ap (λ t. t * 2 ^ (23 - j)) (sym e) in
    ap (λ t. t % b) whole ∙ mul-mod_right b (2 ^ (23 - j))
