-- ===== src/Experience.antt =====
-- The arithmetic of experience ladders: climbing from level n costs `n * step`. Characters climb by
-- 100 and users by 300; both loops leave a level and a remainder that the total decides.
use Prim.Native.Nat.add
use native.Mathlib.Numerals.{add-one}
use native.Mathlib.Decide.{dec_lt}
use ai_saga.Common.{ℕ, zero, suc, ◌+◌, ◌-◌, ◌*◌, ◌≤◌, ◌<◌, ◌≡◌, ap, arith}

-- What it costs to climb from level 0 to level `n`.
abbrev pub cost : ℕ → ℕ → ℕ
cost step zero = 0
cost step (suc n) = cost step n + n * step

pub cost-add_one : (step n : ℕ) → cost step (n + 1) ≡ cost step n + n * step
cost-add_one step n = rw (add-one n)

cost_mono : (step a k : ℕ) → cost step a ≤ cost step (k + a)
cost_mono step a zero = rw (add.zero a) (omega arith)
cost_mono step a (suc k) = rw (add.suc k a) (omega (arith, cost_mono step a k))

pub cost-le : (step a b : ℕ) → a ≤ b → cost step a ≤ cost step b
cost-le step a b h = let e : (b - a) + a ≡ b = omega arith in rw e at (cost_mono step a (b - a))

cost_gap : (step a b x y : ℕ) → a < b → x < a * step → cost step a + x < cost step b + y
cost_gap step a b x y h l = omega (arith, cost-le step (suc a) b h)

-- A total decides the level and the remainder.
pub cost_unique :
    (step a b x y : ℕ)
    → x < a * step
    → y < b * step
    → cost step a + x ≡ cost step b + y
    → (a ≡ b) × (x ≡ y)
cost_unique step a b x y hx hy e = elim (dec_lt a b) [
  | yes p ↦ absurd (omega (arith, cost_gap step a b x y p hx))
  | no p ↦ elim (dec_lt b a) [
    | yes q ↦ absurd (omega (arith, cost_gap step b a y x q hy))
    | no q ↦ let same : a ≡ b = omega arith in (same, omega (arith, ap (cost step) same))
  ]
]
