-- ===== src/Cond/Inverse.antt =====
-- On ordered operands the inverse code is the negation, and a comparison that is taken for decided
-- is. With a NaN neither holds.
use mathlib.Core.Path.{subst}
use llir_opt.Prelude.{
  ◌≡◌, refl, sym, ◌≢◌, ◌⊎◌, ◌↔◌, inl, inr, Bool, true, false, not, some, arith, Bool-cases,
}
use llir_opt.Cond.{
  Cond, une, o, uo, get_inverse_cond, CmpResult, cmp_unordered, compare_float, same_cond,
  is_redundant, Cond-discrete,
}

CmpResult-cases : (r : CmpResult) → (r ≡ cmp_unordered) ⊎ (r ≢ cmp_unordered)
CmpResult-cases r = ground arith

-- On operands that are not unordered every code and its inverse have opposite outcomes.
pub compare_float-get_inverse_cond :
    (r : CmpResult) (cc : Cond)
    → r ≢ cmp_unordered
    → compare_float r (get_inverse_cond cc) ≡ not (compare_float r cc)
unfolding compare_float get_inverse_cond
compare_float-get_inverse_cond r cc h = ground arith

-- The codes whose inverse is the negation on unordered operands too.
abbrev pub inverts_unordered : Cond → Bool
inverts_unordered une = true
inverts_unordered o = true
inverts_unordered uo = true
inverts_unordered _ = false

-- On unordered operands a code and its inverse have opposite outcomes exactly for UNE, O and UO.
get_inverse_cond_unordered :
    (cc : Cond)
    → (compare_float cmp_unordered (get_inverse_cond cc) ≡ not (compare_float cmp_unordered cc))
      ↔ (inverts_unordered cc ≡ true)
unfolding compare_float get_inverse_cond
get_inverse_cond_unordered cc = ground arith

-- A code and its inverse have opposite outcomes exactly where the operands are not unordered or the
-- code is UNE, O or UO.
pub get_inverse_cond_iff :
    (r : CmpResult) (cc : Cond)
    → (compare_float r (get_inverse_cond cc) ≡ not (compare_float r cc))
      ↔ ((r ≢ cmp_unordered) ⊎ (inverts_unordered cc ≡ true))
get_inverse_cond_iff r cc = (
  λ h. elim (CmpResult-cases r) [
    | inl e ↦ inr (
        (get_inverse_cond_unordered cc).0
          (subst (λ u. compare_float u (get_inverse_cond cc) ≡ not (compare_float u cc)) e h))
    | inr d ↦ inl d
  ],
  λ h. elim (CmpResult-cases r) [
    | inr d ↦ compare_float-get_inverse_cond r cc d
    | inl e ↦ elim h [
      | inl d ↦ absurd (d e)
      | inr i ↦
          subst (λ u. compare_float u (get_inverse_cond cc) ≡ not (compare_float u cc)) (sym e)
            ((get_inverse_cond_unordered cc).1 i)
    ]
  ],
)

same_cond_eq : (a b : Cond) → same_cond a b ≡ true → a ≡ b
unfolding same_cond
same_cond_eq a b h =
    elim (Cond-discrete a b) as (λ d. elim d [ yes _ ↦ true | no _ ↦ false ] ≡ true → a ≡ b) [
      | yes e ↦ λ _. e
      | no d ↦ λ k. cc
    ]
      h

-- Where an earlier comparison of the same operands had the outcome by which the jump went, and the
-- operands are not unordered, the outcome that `IsRedundant` gives a later comparison is the one
-- that the comparison has.
pub is_redundant_sound :
    (r : CmpResult) (cc prior_cc : Cond) (same_lhs same_rhs flag v : Bool)
    → r ≢ cmp_unordered
    → compare_float r prior_cc ≡ flag
    → is_redundant cc prior_cc same_lhs same_rhs flag ≡ some v
    → compare_float r cc ≡ v
unfolding is_redundant
is_redundant_sound r cc prior_cc same_lhs same_rhs flag v h prior found = ground (
  arith,
  same_cond_eq cc prior_cc,
  same_cond_eq cc (get_inverse_cond prior_cc),
  compare_float-get_inverse_cond r prior_cc,
)

same_cond_refl : (a : Cond) → same_cond a a ≡ true
unfolding same_cond
same_cond_refl a =
    elim (Cond-discrete a a) as (λ d. elim d [ yes _ ↦ true | no _ ↦ false ] ≡ true) [
      | yes e ↦ refl
      | no d ↦ absurd (d refl)
    ]

inverse_differs : (a : Cond) → get_inverse_cond a ≢ a
unfolding get_inverse_cond
inverse_differs a = ground arith

same_cond_ne : (a b : Cond) → a ≢ b → same_cond a b ≡ false
same_cond_ne a b d = elim (Bool-cases (same_cond a b)) [
  | inl h ↦ absurd (d (same_cond_eq a b h))
  | inr h ↦ h
]

-- On unordered operands `IsRedundant` is wrong for every code but UNE, O and UO: after a jump
-- that went by the outcome of the earlier comparison, a comparison by the inverse code is given an
-- outcome that it does not have.
pub is_redundant_unordered :
    (prior_cc : Cond)
    → inverts_unordered prior_cc ≡ false
    → (v : Bool) × (is_redundant
          (get_inverse_cond prior_cc)
          prior_cc
          true
          true
          (compare_float cmp_unordered prior_cc)
        ≡ some v)
      × (compare_float cmp_unordered (get_inverse_cond prior_cc) ≢ v)
unfolding is_redundant
is_redundant_unordered prior_cc h = (
  not (compare_float cmp_unordered prior_cc),
  rw (same_cond_ne (get_inverse_cond prior_cc) prior_cc (inverse_differs prior_cc), is_redundant)
      (rw (same_cond_refl (get_inverse_cond prior_cc)) refl),
  λ e. cc ((get_inverse_cond_unordered prior_cc).0 e),
)
