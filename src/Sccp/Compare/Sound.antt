-- ===== src/Sccp/Compare/Sound.antt =====
-- passes/sccp/compare.cpp: an answer for two integers is the outcome of their comparison; and which
-- answers are neither a Boolean nor UNDEFINED nor OVERDEFINED.
use llir_opt.Prelude.{
  ℕ, ◌≡◌, ◌≢◌, sym, ap, ◌∙◌, inl, inr, Bool, true, false, Option, none, some, arith, Bool-cases,
}
use llir_opt.Cond.{Cond}
use llir_opt.Sccp.Lattice.{
  ApInt, ApFloat, Lattice, unknown, overdefined, int, mask, global, range, undefined, Fact,
}
use llir_opt.Sccp.Lattice.Values.{int_value, Agrees, Holds}
use llir_opt.Sccp.Compare.{
  Ty, Answer, boolean, other, unmarked, GlobalKind, ApOrder, make_boolean, compare_equality,
}
use llir_opt.Sccp.Compare.Visit.{
  compare_int, boolean_of, unequal, order_mask, visit_int, visit_mask, visit_known, visit_cmp_inst,
}

-- An answer that is a fact other than UNDEFINED and OVERDEFINED.
abbrev pub is_address : {I F : Type 0} → Option (Answer (Lattice I F)) → Bool
is_address none = false
is_address (some unmarked) = false
is_address (some (boolean _ _)) = false
is_address (some (other overdefined)) = false
is_address (some (other undefined)) = false
is_address (some (other _)) = true

abbrev pub global_and_range : {I F : Type 0} → Lattice I F → Lattice I F → Bool
global_and_range (global _ _) (range _) = true
global_and_range _ _ = false

module _ (ints : ApInt) (floats : ApFloat) (orders : ApOrder ints floats) (is_weak : ℕ → Bool)
    (kind : ℕ → GlobalKind) where
  unequal_lem :
      (x y : ints.Carrier) (cc : Cond) (ty : Ty) (width : ℕ) (value : Bool)
      → ints.same_int x y ≡ false
      → unequal ints floats orders is_weak kind cc ty ≡ some (boolean width value)
      → compare_int ints floats orders is_weak kind x y cc ≡ some value
  unfolding unequal compare_equality make_boolean compare_int
  unequal_lem x y cc ty width value d h = ground arith

  boolean_of_lem :
      (b : Option Bool) (ty : Ty) (width : ℕ) (value : Bool)
      → boolean_of ints floats orders is_weak kind b ty ≡ some (boolean width value)
      → b ≡ some value
  unfolding boolean_of make_boolean
  boolean_of_lem b ty width value h = ground arith

  -- A word that agrees with a mask differs from a word that the mask rules out.
  mask_differs :
      (known value i x : ints.Carrier)
      → Agrees ints floats is_weak known value x
      → ints.is_null_value (ints.conj known (ints.differ value i)) ≡ false
      → x ≢ i
  unfolding Agrees
  mask_differs known value i x h e same =
      let null = (ints.is_null_value_iff (ints.conj known (ints.differ value i))).1 (λ k l. ground (
        arith,
        h k l,
        ap (λ z. ints.bit z k) same,
        ints.bit-conj k known (ints.differ value i) l,
        ints.bit-differ k value i l,
      )) in
      ground (arith, null)

  same_int_ne : (x y : ints.Carrier) → x ≢ y → ints.same_int x y ≡ false
  same_int_ne x y d = elim (Bool-cases (ints.same_int x y)) [
    | inl e ↦ absurd (d ((ints.same_int_iff x y).0 e))
    | inr e ↦ e
  ]

  order_mask_lem :
      (known value i x : ints.Carrier) (cc : Cond) (ty : Ty) (width : ℕ) (v : Bool)
      → Agrees ints floats is_weak known value x
      → order_mask ints floats orders is_weak kind known value i cc ty ≡ some (boolean width v)
      → (x ≢ i) × (unequal ints floats orders is_weak kind cc ty ≡ some (boolean width v))
  unfolding order_mask
  order_mask_lem known value i x cc ty width v a h = ground (arith, mask_differs known value i x a)

  visit_known_integers :
      (a b : Fact ints floats is_weak) (x y : ints.Carrier) (cc : Cond) (ty : Ty) (width : ℕ)
      (value : Bool)
      → Holds ints floats is_weak a (int_value x)
      → Holds ints floats is_weak b (int_value y)
      → visit_known ints floats orders is_weak kind a b cc ty ≡ some (boolean width value)
      → compare_int ints floats orders is_weak kind x y cc ≡ some value
  unfolding visit_known visit_int visit_mask Holds
  visit_known_integers (int i) (int j) x y cc ty width value p q h =
      rw (p, q)
        (boolean_of_lem (compare_int ints floats orders is_weak kind i j cc) ty width value h)
  visit_known_integers (int i) (mask k v) x y cc ty width value p q h =
      let (differs, e) = order_mask_lem k v i y cc ty width value q h in
      unequal_lem x y cc ty width value (same_int_ne x y (λ s. differs (sym s ∙ p))) e
  visit_known_integers (mask k v) (int i) x y cc ty width value p q h =
      let (differs, e) = order_mask_lem k v i x cc ty width value p h in
      unequal_lem x y cc ty width value (same_int_ne x y (λ s. differs (s ∙ q))) e
  visit_known_integers a b x y cc ty width value p q h = ground arith

  -- Where a comparison is marked with an integer, it is the outcome of the comparison of any two
  -- integers that the facts of the operands allow.
  pub visit_cmp_inst_integers :
      (a b : Fact ints floats is_weak) (x y : ints.Carrier) (cc : Cond) (ty : Ty) (width : ℕ)
      (value : Bool)
      → Holds ints floats is_weak a (int_value x)
      → Holds ints floats is_weak b (int_value y)
      → visit_cmp_inst ints floats orders is_weak kind a b cc ty ≡ some (boolean width value)
      → compare_int ints floats orders is_weak kind x y cc ≡ some value
  unfolding visit_cmp_inst Holds
  visit_cmp_inst_integers unknown b x y cc ty width value p q h = absurd p
  visit_cmp_inst_integers a unknown x y cc ty width value p q h = absurd q
  visit_cmp_inst_integers a b x y cc ty width value p q h =
      visit_known_integers a b x y cc ty width value p q h
