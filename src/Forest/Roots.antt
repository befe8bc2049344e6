-- ===== src/Forest/Roots.antt =====
-- Which node is the root of which, as a relation over the parent links alone.
use mathlib.Core.Path.{subst}
use native.Mathlib.Decide.{ℕ_discrete}
use llir_opt.Prelude.{
  ℕ, zero, suc, ◌+◌, ◌≤◌, ◌<◌, ◌≡◌, refl, sym, ap, ◌∙◌, ◌≢◌, false, inl, inr, Option, some, arith,
  ◌==◌, if◌then◌else◌, ==_iff, Bool-cases, eq_of_some,
}

-- A table of parent links.
abbrev pub Links : Type 0
Links = ℕ → Option ℕ

-- `RootOf up x r`: the walk from `x` ends in `r`, a node that is its own parent.
pub data RootOf (up : Links) : ℕ → ℕ → Type 0 where
  here : {x : ℕ} → up x ≡ some x → RootOf up x x
  climb : {x p r : ℕ} → up x ≡ some p → p ≢ x → RootOf up p r → RootOf up x r

-- Links lead upwards in height, and never out of the table of `n` nodes.
pub record IsForest (up : Links) (n : ℕ) (height : ℕ → ℕ) : Type 0 where
  pub present : (x : ℕ) → x < n → (p : ℕ) × (up x ≡ some p) × (p < n)
  pub rises : (x p : ℕ) → up x ≡ some p → p ≢ x → height x < height p

pub RootOf-root : {up : Links} {x r : ℕ} → RootOf up x r → up r ≡ some r
RootOf-root (here e) = e
RootOf-root (climb e d w) = RootOf-root w

pub RootOf-functional : {up : Links} {x r s : ℕ} → RootOf up x r → RootOf up x s → r ≡ s
RootOf-functional (here e) (here f) = refl
RootOf-functional (here e) (climb f d v) = absurd (d (eq_of_some (sym f ∙ e)))
RootOf-functional (climb e d w) (here f) = absurd (d (eq_of_some (sym e ∙ f)))
RootOf-functional {up} {s = s} (climb e d w) (climb f c v) =
    RootOf-functional w (subst (λ t. RootOf up t s) (eq_of_some (sym f ∙ e)) v)

pub RootOf-is_root : {up : Links} {x r : ℕ} → RootOf up x r → up x ≡ some x → x ≡ r
RootOf-is_root w e = RootOf-functional (here e) w

-- More links change no walk.
pub RootOf-mono :
    {up up' : Links} {x r : ℕ}
    → ((y p : ℕ) → up y ≡ some p → up' y ≡ some p)
    → RootOf up x r
    → RootOf up' x r
RootOf-mono more (here {x} e) = here (more x x e)
RootOf-mono more (climb {x} {p} e d w) = climb (more x p e) d (RootOf-mono more w)

-- The rest of a walk.
pub RootOf-up : {up : Links} {x p r : ℕ} → RootOf up x r → up x ≡ some p → p ≢ x → RootOf up p r
RootOf-up (here e) at d = absurd (d (eq_of_some (sym at ∙ e)))
RootOf-up {up} {r = r} (climb e c w) at d = subst (λ t. RootOf up t r) (eq_of_some (sym e ∙ at)) w

module _ {up : Links} {n : ℕ} {height : ℕ → ℕ} (f : IsForest up n height) where
  pub RootOf-height : {x r : ℕ} → RootOf up x r → height x ≤ height r
  RootOf-height (here e) = omega arith
  RootOf-height (climb {x} {p} e c w) = omega (arith, f.rises x p e c, RootOf-height w)

  pub RootOf-height_lt : {x r : ℕ} → RootOf up x r → x ≢ r → height x < height r
  RootOf-height_lt (here e) d = absurd (d refl)
  RootOf-height_lt (climb {x} {p} e c w) d = omega (arith, f.rises x p e c, RootOf-height w)

  pub RootOf-lt : {x r : ℕ} → RootOf up x r → x < n → r < n
  RootOf-lt (here e) h = h
  RootOf-lt (climb {x} {p} e c w) h =
      let (q, at, lt) = f.present x h in
      RootOf-lt w (let same : q ≡ p = eq_of_some (sym at ∙ e) in omega arith)

  -- Every node of the table has a root.
  pub RootOf-total :
      (steps x : ℕ)
      → ((y : ℕ) → y < n → height y < height x + steps)
      → x < n
      → (r : ℕ) × RootOf up x r
  RootOf-total zero x b h = absurd (omega (arith, b x h))
  RootOf-total (suc steps) x b h =
      let (p, at, lt) = f.present x h in
      elim (ℕ_discrete p x) [
        | yes e ↦ (x, here (at ∙ ap some e))
        | no d ↦
            let (r, w) = RootOf-total steps p (λ y k. omega (arith, b y k, f.rises x p at d)) lt in
            (r, climb at d w)
      ]

-- Pointing a node of a path at the end of the path keeps every root.
module _ {up up' : Links} {i root : ℕ} (at : (x : ℕ) → up' x ≡ (if x == i then some root else up x))
    (path : RootOf up i root) (inner : i ≢ root) where
  redirected : up' i ≡ some root
  redirected = at i ∙ rw ((==_iff i i).1 refl)

  others : (x : ℕ) → x ≢ i → up' x ≡ up x
  others x d = at x ∙ ground (arith, ==_iff x i)

  pub RootOf-redirect : {x r : ℕ} → RootOf up x r → RootOf up' x r
  RootOf-redirect (here {x} e) =
      here (others x (λ same. inner (RootOf-is_root path (subst (λ t. up t ≡ some t) same e))) ∙ e)
  RootOf-redirect (climb {x} {p} {r} e d w) = elim (ℕ_discrete x i) [
    | yes same ↦
        let ends : root ≡ r =
          RootOf-functional path (subst (λ t. RootOf up t r) same (climb e d w)) in
        let top : up' root ≡ some root = others root (λ k. inner (sym k)) ∙ RootOf-root path in
        subst (λ t. RootOf up' t r) (sym same)
          (subst (RootOf up' i) ends (climb redirected (λ k. inner (sym k)) (here top)))
    | no apart ↦ climb (others x apart ∙ e) d (RootOf-redirect w)
  ]

  pub IsForest-redirect :
      {n : ℕ} {height : ℕ → ℕ} → IsForest up n height → i < n → IsForest up' n height
  IsForest-redirect {n} {height} f within = record {
    present = λ x h. elim (Bool-cases (x == i)) [
      | inl same ↦ (root, at x ∙ rw same, RootOf-lt f path within)
      | inr apart ↦ let (p, link, lt) = f.present x h in (p, at x ∙ rw apart link, lt)
    ];
    rises = λ x p h d. elim (Bool-cases (x == i)) [
      | inl same ↦
          let e : root ≡ p = eq_of_some (rw same at (sym (at x) ∙ h)) in
          omega (arith, RootOf-height_lt f path inner, ap height e, ap height ((==_iff x i).0 same))
      | inr apart ↦ f.rises x p (rw apart at (sym (at x) ∙ h)) d
    ];
  }

-- Pointing one root at another moves the nodes of the first tree under the second root.
module _ (up up' : Links) {a b : ℕ} (at : (x : ℕ) → up' x ≡ (if x == a then some b else up x))
    (root_a : up a ≡ some a) (root_b : up b ≡ some b) (apart : a ≢ b) where
  moved : up' a ≡ some b
  moved = at a ∙ rw ((==_iff a a).1 refl)

  kept : (x : ℕ) → x ≢ a → up' x ≡ up x
  kept x d = at x ∙ ground (arith, ==_iff x a)

  pub RootOf-join : {x r : ℕ} → RootOf up x r → RootOf up' x (if r == a then b else r)
  RootOf-join (here {x} e) = elim (ℕ_discrete x a) [
    | yes same ↦ rw ((==_iff x a).1 same) (
        subst (λ t. RootOf up' t b) (sym same)
          (climb moved (λ k. apart (sym k)) (here (kept b (λ k. apart (sym k)) ∙ root_b))))
    | no d ↦ rw (neq x d) (here (kept x d ∙ e))
  ]
    where
      neq : (x : ℕ) → x ≢ a → (x == a) ≡ false
      neq x d = ground (arith, ==_iff x a)
  RootOf-join (climb {x} {p} {r} e d w) =
      climb
        (kept x (λ same. d (eq_of_some (sym e ∙ subst (λ t. up t ≡ some t) (sym same) root_a))) ∙ e)
        d (RootOf-join w)
