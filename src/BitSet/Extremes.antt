-- ===== src/BitSet/Extremes.antt =====
-- The least and the greatest number of a range with a property.
use llir_opt.Prelude.{
  ℕ, ◌+◌, ◌-◌, ◌<◌, ◌≤◌, ◌≡◌, sym, ap, ◌∙◌, ◌⊎◌, inl, inr, Bool, true, false, arith,
}

-- The least and the greatest number of a range with a property, and a range without any.
pub record Least (P : ℕ → Bool) (lo hi r : ℕ) : Type 0 where
  pub above : lo ≤ r
  pub below : r < hi
  pub holds : P r ≡ true
  pub first : (p : ℕ) → lo ≤ p → p < r → P p ≡ false

pub record Greatest (P : ℕ → Bool) (lo hi r : ℕ) : Type 0 where
  pub above : lo ≤ r
  pub below : r < hi
  pub holds : P r ≡ true
  pub last : (p : ℕ) → r < p → p < hi → P p ≡ false

abbrev pub NoneIn : (ℕ → Bool) → ℕ → ℕ → Type 0
NoneIn P lo hi = (p : ℕ) → lo ≤ p → p < hi → P p ≡ false

pub Least-weaken :
    (P : ℕ → Bool) (lo mid hi r : ℕ)
    → NoneIn P lo mid
    → lo ≤ mid
    → Least P mid hi r
    → Least P lo hi r
Least-weaken P lo mid hi r n l h = record {
  above = omega (arith, h.above);
  below = h.below;
  holds = h.holds;
  first = λ p a b. ground (arith, n p a, h.first p);
}

pub Least-extend : (P : ℕ → Bool) (lo mid hi r : ℕ) → mid ≤ hi → Least P lo mid r → Least P lo hi r
Least-extend P lo mid hi r l h = record {
  above = h.above;
  below = omega (arith, h.below);
  holds = h.holds;
  first = h.first;
}

pub Greatest-extend :
    (P : ℕ → Bool) (lo mid hi r : ℕ)
    → NoneIn P mid hi
    → mid ≤ hi
    → Greatest P lo mid r
    → Greatest P lo hi r
Greatest-extend P lo mid hi r n l h = record {
  above = h.above;
  below = omega (arith, h.below);
  holds = h.holds;
  last = λ p a b. ground (arith, n p, h.last p a);
}

pub Greatest-weaken :
    (P : ℕ → Bool) (lo mid hi r : ℕ) → lo ≤ mid → Greatest P mid hi r → Greatest P lo hi r
Greatest-weaken P lo mid hi r l h = record {
  above = omega (arith, h.above);
  below = h.below;
  holds = h.holds;
  last = h.last;
}

pub NoneIn-join :
    (P : ℕ → Bool) (lo mid hi : ℕ) → NoneIn P lo mid → NoneIn P mid hi → NoneIn P lo hi
NoneIn-join P lo mid hi m n p a b = ground (arith, m p a, n p)

-- The same property, counted from `k`.
pub shift_back :
    (Q P : ℕ → Bool) (k n p : ℕ) (v : Bool)
    → ((j : ℕ) → j < n → Q j ≡ P (k + j))
    → k ≤ p
    → p < k + n
    → Q (p - k) ≡ v
    → P p ≡ v
shift_back Q P k n p v e l h q =
    let same : k + (p - k) ≡ p = omega arith in sym (ap P same) ∙ sym (e (p - k) (omega arith)) ∙ q

pub Least-shift :
    (Q P : ℕ → Bool) (k n lo r : ℕ)
    → ((j : ℕ) → j < n → Q j ≡ P (k + j))
    → Least Q lo n r
    → Least P (k + lo) (k + n) (k + r)
Least-shift Q P k n lo r e h = record {
  above = omega (arith, h.above);
  below = omega (arith, h.below);
  holds = sym (e r h.below) ∙ h.holds;
  first = λ p a b.
      shift_back Q P k n p false e (omega arith) (omega (arith, h.below))
        (h.first (p - k) (omega arith) (omega arith));
}

pub Greatest-shift :
    (Q P : ℕ → Bool) (k n hi r : ℕ)
    → hi ≤ n
    → ((j : ℕ) → j < n → Q j ≡ P (k + j))
    → Greatest Q 0 hi r
    → Greatest P k (k + hi) (k + r)
Greatest-shift Q P k n hi r l e h = record {
  above = omega arith;
  below = omega (arith, h.below);
  holds = sym (e r (omega (arith, h.below))) ∙ h.holds;
  last = λ p a b.
      shift_back Q P k n p false e (omega arith) (omega arith)
        (h.last (p - k) (omega arith) (omega arith));
}

pub NoneIn-shift :
    (Q P : ℕ → Bool) (k n lo hi : ℕ)
    → hi ≤ n
    → ((j : ℕ) → j < n → Q j ≡ P (k + j))
    → NoneIn Q lo hi
    → NoneIn P (k + lo) (k + hi)
NoneIn-shift Q P k n lo hi l e h p a b =
    shift_back Q P k n p false e (omega arith) (omega arith) (h (p - k) (omega arith) (omega arith))

-- What a scan upwards finds: the least position, or 0 where there is none.
abbrev pub FoundUp : (ℕ → Bool) → ℕ → ℕ → ℕ → Type 0
FoundUp P lo hi r = Least P lo hi r ⊎ ((r ≡ 0) × NoneIn P lo hi)

-- What a scan downwards finds: the greatest position, or 512 where there is none.
abbrev pub FoundDown : (ℕ → Bool) → ℕ → ℕ → ℕ → Type 0
FoundDown P lo hi r = Greatest P lo hi r ⊎ ((r ≡ 512) × NoneIn P lo hi)

pub up_past :
    (P : ℕ → Bool) (lo mid hi r : ℕ)
    → NoneIn P lo mid
    → lo ≤ mid
    → FoundUp P mid hi r
    → FoundUp P lo hi r
up_past P lo mid hi r n l (inl h) = inl (Least-weaken P lo mid hi r n l h)
up_past P lo mid hi r n l (inr h) = inr (h.0, NoneIn-join P lo mid hi n h.1)

pub down_past :
    (P : ℕ → Bool) (lo mid hi r : ℕ)
    → NoneIn P mid hi
    → mid ≤ hi
    → FoundDown P lo mid r
    → FoundDown P lo hi r
down_past P lo mid hi r n l (inl h) = inl (Greatest-extend P lo mid hi r n l h)
down_past P lo mid hi r n l (inr h) = inr (h.0, NoneIn-join P lo mid hi h.1 n)
