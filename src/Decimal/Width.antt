-- ===== src/Decimal/Width.antt =====
-- The number of digits against the powers of ten.
use voip_platform.Base.{
  ℕ, zero, suc, ◌*◌, ◌/◌, ◌^◌, ◌≤◌, ◌<◌, ◌≡◌, arith, ltb, inl, inr, Bool-cases,
}
use voip_platform.Decimal.{width, width_upto}

ten_times : (w : ℕ) → 10 ^ suc w ≡ 10 * 10 ^ w
ten_times w = grind arith

width_step :
    (n w : ℕ)
    → (n / 10) < 10 ^ w
    → 10 ^ w ≤ 10 * (n / 10)
    → (n < 10 ^ suc w) × (10 ^ suc w ≤ 10 * n)
width_step n w above below = (rw (ten_times w) (omega arith), rw (ten_times w) (omega arith))

width_upto_lem :
    (fuel n : ℕ)
    → n ≤ fuel
    → (n < 10 ^ width_upto fuel n) × (1 ≤ n → 10 ^ width_upto fuel n ≤ 10 * n)
unfolding width_upto
width_upto_lem zero n h = (omega arith, λ p. omega arith)
width_upto_lem (suc fuel) n h = elim (Bool-cases (ltb n 10)) [
  | inl small ↦ rw (width_upto, small) (ground arith, λ p. omega arith)
  | inr large ↦
      let many : 10 ≤ n = ground arith in
      let (above, below) = width_upto_lem fuel (n / 10) (omega arith) in
      let (p, q) = width_step n (width_upto fuel (n / 10)) above (below (omega arith)) in
      rw (width_upto, large) (p, λ _. q)
]

pub width_lem : (n : ℕ) → 1 ≤ n → (n < 10 ^ width n) × (10 ^ width n ≤ 10 * n)
unfolding width
width_lem n positive =
    let (above, below) = width_upto_lem n n (omega arith) in (above, below positive)
