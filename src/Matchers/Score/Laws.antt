-- ===== src/Matchers/Score/Laws.antt =====
-- Bounds of scores, whatever the evidence.
use native.Mathlib.Nat.{mul-le-mul_left, add-mul}
use osmdiffs.Base.{ℕ, ◌+◌, ◌-◌, ◌*◌, ◌≤◌, ◌<◌, ◌≡◌, sym, ap, ◌∙◌, Option, none, some, arith}
use osmdiffs.Matchers.Score.{Factor, score_at}

mul-split : (w b r : ℕ) → w ≤ b → w * r + (b - w) * r ≡ b * r
mul-split w b r h = sym (add-mul w (b - w) r) ∙ ap (λ k. k * r) (omega (arith, h))

-- A score is no more than that at distance 0.
pub score_at_bound :
    (f : Factor) (o : Option ℕ) → f.worst ≤ f.best → score_at f o ≤ f.best * f.radius
unfolding score_at
score_at_bound f none h = omega arith
score_at_bound f (some d) h = ground (
  arith,
  h,
  mul-split (f.worst) (f.best) (f.radius) h,
  mul-le-mul_left (f.best - f.worst) shorter,
)
  where
    shorter : f.radius - d ≤ f.radius
    shorter = omega arith

-- A positive score is at least that at the end of the radius.
pub score_at_min :
    (f : Factor) (o : Option ℕ) → 0 < score_at f o → f.worst * f.radius ≤ score_at f o
unfolding score_at
score_at_min f none h = omega arith
score_at_min f (some d) h = ground (arith, h)

-- A score never rises with the distance.
pub score_at-nearer : (f : Factor) (d e : ℕ) → d ≤ e → score_at f (some e) ≤ score_at f (some d)
unfolding score_at
score_at-nearer f d e h = ground (arith, h, mul-le-mul_left (f.best - f.worst) shorter)
  where
    shorter : f.radius - e ≤ f.radius - d
    shorter = omega (arith, h)
