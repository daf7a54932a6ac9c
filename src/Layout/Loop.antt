-- ===== src/Layout/Loop.antt =====
-- The loop of ubi_init_layout_params that halves the number of blocks of a stripe.
use bdev_ubi.Prelude.{
  ℕ, zero, suc, ◌+◌, ◌*◌, ◌^◌, ◌/◌, ◌≤◌, ◌<◌, ◌≡◌, ◌∙◌, ap, ltb, ltb→lt, arith, if_cases,
  two_pow_suc,
}
use native.Mathlib.Nat.{pow-le-pow_right}
use bdev_ubi.Layout.{halvings}

-- The number of rounds, and the value that is left.
pub record Halved (r log2_r : ℕ) (result : ℕ × ℕ) : Type 0 where
  pub ended : result.0 ≤ 1
  pub positive : 1 ≤ r → 1 ≤ result.0
  pub rounds : ℕ
  pub counted : result.1 ≡ log2_r + rounds
  pub above : result.0 * 2 ^ rounds ≤ r
  pub below : r < (result.0 + 1) * 2 ^ rounds

doubled : (m k : ℕ) → m * 2 ^ suc k ≡ 2 * (m * 2 ^ k)
doubled m k = ap (λ t. m * t) (two_pow_suc k) ∙ grind arith

halvings-Halved : (fuel r log2_r : ℕ) → r < 2 ^ suc fuel → Halved r log2_r (halvings fuel r log2_r)
unfolding halvings
halvings-Halved zero r log2_r h = record {
  ended = omega arith;
  positive = λ p. p;
  rounds = 0;
  counted = omega arith;
  above = omega arith;
  below = omega arith;
}
halvings-Halved (suc fuel) r log2_r h =
    let rest = halvings-Halved fuel (r / 2) (log2_r + 1) (omega (arith, two_pow_suc (suc fuel))) in
    if_cases (Halved r log2_r) (ltb 1 r) _ _
      (λ e. record {
        ended = rest.ended;
        positive = λ p. rest.positive (omega (arith, ltb→lt 1 r e));
        rounds = suc rest.rounds;
        counted = omega (arith, rest.counted);
        above =
            omega (arith, doubled (halvings fuel (r / 2) (log2_r + 1)).0 rest.rounds, rest.above);
        below =
            omega
              (arith, doubled ((halvings fuel (r / 2) (log2_r + 1)).0 + 1) rest.rounds, rest.below);
      })
      (λ stop. record {
        ended = ground (arith, stop);
        positive = λ p. p;
        rounds = 0;
        counted = omega arith;
        above = omega arith;
        below = omega arith;
      })

-- For each positive number of 32 bits the loop ends within 31 rounds, with 1 left, and the counter
-- is the logarithm of the number to base 2, rounded down.
halvings-log2 :
    (fuel r : ℕ)
    → 31 ≤ fuel
    → 1 ≤ r
    → r < 2 ^ 32
    → let (left, log2_r) = halvings fuel r 0 in (left ≡ 1) × (2 ^ log2_r ≤ r) × (r < 2 ^ suc log2_r)
halvings-log2 fuel r enough positive small =
    let grows : 2 ^ 32 ≤ 2 ^ suc fuel =
      pow-le-pow_right {n = 2} (omega arith) {i = 32} {j = suc fuel} (omega arith) in
    let h = halvings-Halved fuel r 0 (omega arith) in
    let one : (halvings fuel r 0).0 ≡ 1 = omega (arith, h.ended, h.positive positive) in
    let same : (halvings fuel r 0).1 ≡ h.rounds = omega (arith, h.counted) in
    (
      one,
      rw same (omega (arith, h.above, ap (λ m. m * 2 ^ h.rounds) one)),
      rw same (omega (arith, h.below, ap (λ m. (m + 1) * 2 ^ h.rounds) one, two_pow_suc h.rounds)),
    )
