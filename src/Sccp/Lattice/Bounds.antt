-- ===== src/Sccp/Lattice/Bounds.antt =====
-- passes/sccp/lattice.cpp: `LUB` is an upper bound, but where a weak symbol is dropped; `IsTrue` and
-- `IsFalse` say what the values of a fact count as.
use llir_opt.Prelude.{
  ℕ, ◌≡◌, refl, sym, ap, ◌∙◌, ◌⊎◌, inl, inr, Bool, true, false, not, ◌&&◌, if◌then◌else◌, some,
  arith, Bool-cases,
}
use llir_opt.Sccp.Lattice.{
  ApInt, ApFloat, int, mask, float, global, range, Fact, is_true, is_false, same_fact, known_bits,
  join_pointers, lub_distinct, lub,
}
use llir_opt.Sccp.Lattice.Values.{
  Value, int_value, symbol_address, maybe_null, Agrees, Holds, truth,
}

module _ (ints : ApInt) (floats : ApFloat) (is_weak : ℕ → Bool) where
  open ints use {conj, differ, flip}

  -- Facts that `operator==` takes for the same are equal.
  pub same_fact_eq :
      (a b : Fact ints floats is_weak) → same_fact ints floats is_weak a b ≡ true → a ≡ b
  unfolding same_fact
  same_fact_eq (int i) (int j) h = ap int ((ints.same_int_iff i j).0 h)
  same_fact_eq (float f) (float g) h = ap float ((floats.bitwise_is_equal_iff f g).0 h)
  same_fact_eq (mask known value) (mask known' value') h =
      let left = (ints.same_int_iff known known').0 (ground arith) in
      let right = (ints.same_int_iff value value').0 (ground arith) in
      ap (λ k. mask k value) left ∙ ap (mask known') right
  same_fact_eq a b h = ground arith

  -- A global that cannot be null is joined with a weak symbol.
  abbrev pub drops_weak : Fact ints floats is_weak → Fact ints floats is_weak → Bool
  drops_weak (global sym off) (global sym' off') =
      maybe_null ints floats is_weak sym' off' && not (maybe_null ints floats is_weak sym off)
  drops_weak _ _ = false

  known_bits-Holds :
      (known value x : ints.Carrier)
      → Agrees ints floats is_weak known value x
      → Holds ints floats is_weak (known_bits ints floats is_weak known value) (int_value x)
  unfolding Holds known_bits
  known_bits-Holds known value x h = elim (Bool-cases (ints.is_null_value known)) [
    | inl e ↦ rw e tt
    | inr e ↦ rw e h
  ]

  join_pointers-Holds :
      (a b : Fact ints floats is_weak) (v : Value ints.Carrier floats.Carrier)
      → drops_weak a b ≡ false
      → Holds ints floats is_weak a v ⊎ Holds ints floats is_weak b v
      → Holds ints floats is_weak (join_pointers ints floats is_weak a b) v
  unfolding Holds join_pointers
  join_pointers-Holds a b v d h = ground arith

  -- The bits on which two words agree, and that a third word shares with the first.
  int_int_Agrees :
      (lhs rhs x : ints.Carrier)
      → (x ≡ lhs) ⊎ (x ≡ rhs)
      → Agrees ints floats is_weak (flip (differ lhs rhs)) (conj lhs rhs) x
  unfolding Agrees
  int_int_Agrees lhs rhs x h i k e =
      let agree = ints.bit-flip i (differ lhs rhs) k in
      let differs = ints.bit-differ i lhs rhs k in
      let value = ints.bit-conj i lhs rhs k in
      elim h [
        | inl p ↦ ground (arith, ap (λ z. ints.bit z i) p, agree, differs, value)
        | inr p ↦ ground (arith, ap (λ z. ints.bit z i) p, agree, differs, value)
      ]

  int_mask_Agrees :
      (known value rhs x : ints.Carrier)
      → Agrees ints floats is_weak known value x ⊎ (x ≡ rhs)
      → let agree = conj (flip (differ value rhs)) known in
        Agrees ints floats is_weak agree (conj agree value) x
  unfolding Agrees
  int_mask_Agrees known value rhs x h i k e =
      let same = flip (differ value rhs) in
      let agree = ints.bit-flip i (differ value rhs) k in
      let differs = ints.bit-differ i value rhs k in
      let both = ints.bit-conj i same known k in
      let shared = ints.bit-conj i (conj same known) value k in
      elim h [
        | inl p ↦ ground (arith, p i k, agree, differs, both, shared)
        | inr p ↦ ground (arith, ap (λ z. ints.bit z i) p, agree, differs, both, shared)
      ]

  mask_mask_Agrees :
      (known value known' value' x : ints.Carrier)
      → Agrees ints floats is_weak known value x ⊎ Agrees ints floats is_weak known' value' x
      → let both = conj (conj known known') (flip (differ value' value)) in
        Agrees ints floats is_weak both (conj both value) x
  unfolding Agrees
  mask_mask_Agrees known value known' value' x h i k e =
      let same = flip (differ value' value) in
      let agree = ints.bit-flip i (differ value' value) k in
      let differs = ints.bit-differ i value' value k in
      let knows = ints.bit-conj i known known' k in
      let both = ints.bit-conj i (conj known known') same k in
      let shared = ints.bit-conj i (conj (conj known known') same) value k in
      elim h [
        | inl p ↦ ground (arith, p i k, agree, differs, knows, both, shared)
        | inr p ↦ ground (arith, p i k, agree, differs, knows, both, shared)
      ]

  lub_distinct-Holds :
      (a b : Fact ints floats is_weak) (v : Value ints.Carrier floats.Carrier)
      → drops_weak a b ≡ false
      → Holds ints floats is_weak a v ⊎ Holds ints floats is_weak b v
      → Holds ints floats is_weak (lub_distinct ints floats is_weak a b) v
  unfolding Holds lub_distinct
  lub_distinct-Holds (int lhs) (int rhs) (int_value x) d h =
      known_bits-Holds _ _ x (int_int_Agrees lhs rhs x h)
  lub_distinct-Holds (mask known value) (mask known' value') (int_value x) d h =
      known_bits-Holds _ _ x (mask_mask_Agrees known value known' value' x h)
  lub_distinct-Holds (int lhs) (mask known value) (int_value x) d h =
      known_bits-Holds _ _ x
        (int_mask_Agrees known value lhs x (elim h [ inl p ↦ inr p | inr p ↦ inl p ]))
  lub_distinct-Holds (mask known value) (int rhs) (int_value x) d h =
      known_bits-Holds _ _ x (int_mask_Agrees known value rhs x h)
  lub_distinct-Holds a b v d h = ground (arith, join_pointers-Holds a b v d h)

  -- `LUB` of two facts allows every value that either of them allows, but where the first is a global
  -- that cannot be null and the second a weak symbol that can.
  pub lub_sound :
      (a b : Fact ints floats is_weak) (v : Value ints.Carrier floats.Carrier)
      → drops_weak a b ≡ false
      → Holds ints floats is_weak a v ⊎ Holds ints floats is_weak b v
      → Holds ints floats is_weak (lub ints floats is_weak a b) v
  unfolding lub
  lub_sound a b v d h = elim (Bool-cases (same_fact ints floats is_weak a b)) [
    | inl e ↦ rw e (elim h [ inl p ↦ p | inr p ↦ rw (same_fact_eq a b e) p ])
    | inr e ↦ rw e (lub_distinct-Holds a b v d h)
  ]

  -- Where the first fact is a global that cannot be null and the second a weak symbol that can,
  -- the second allows a value that `LUB` of the two does not allow.
  pub lub-drops_weak :
      (a b : Fact ints floats is_weak)
      → drops_weak a b ≡ true
      → (v : Value ints.Carrier floats.Carrier) × Holds ints floats is_weak b v
        × ¬ Holds ints floats is_weak (lub ints floats is_weak a b) v
  unfolding lub lub_distinct join_pointers Holds same_fact
  lub-drops_weak (global s d) (global s' d') h =
      (symbol_address s' d', (refl, refl), λ k. ground arith)
  lub-drops_weak a b h = absurd (ground arith)

  -- The facts that `IsTrue` takes for true though the address may be null.
  abbrev pub weak_symbol : Fact ints floats is_weak → Bool
  weak_symbol (global sym off) = maybe_null ints floats is_weak sym off
  weak_symbol (range sym) = is_weak sym
  weak_symbol _ = false

  mask_set :
      (known value x : ints.Carrier)
      → Agrees ints floats is_weak known value x
      → ints.is_null_value (conj known value) ≡ false
      → ints.is_null_value x ≡ false
  unfolding Agrees
  mask_set known value x h e = elim (Bool-cases (ints.is_null_value x)) [
    | inr f ↦ f
    | inl f ↦ absurd (
        cc (
          e,
          (ints.is_null_value_iff (conj known value)).1 (λ i k.
              ground
                (arith, h i k, ints.bit-conj i known value k, (ints.is_null_value_iff x).0 f i k)),
        ))
  ]

  is_true_sound :
      (a : Fact ints floats is_weak) (v : Value ints.Carrier floats.Carrier)
      → is_true ints floats is_weak a ≡ some true
      → weak_symbol a ≡ false
      → Holds ints floats is_weak a v
      → truth ints floats is_weak v ≡ true
  unfolding is_true Holds truth
  is_true_sound (mask known value) (int_value x) h w k = ground (arith, mask_set known value x k)
  is_true_sound a v h w k = ground arith

  is_false_sound :
      (a : Fact ints floats is_weak) (v : Value ints.Carrier floats.Carrier)
      → is_false ints floats is_weak a ≡ some true
      → Holds ints floats is_weak a v
      → truth ints floats is_weak v ≡ false
  unfolding is_false Holds truth
  is_false_sound a v h k = ground arith

  -- Where `IsTrue` holds of a fact that is no weak symbol, every value that the fact allows counts as
  -- true; where `IsFalse` holds of a fact, every value that the fact allows counts as false.
  pub decided_sound :
      (b : Bool) (a : Fact ints floats is_weak) (v : Value ints.Carrier floats.Carrier)
      → (if b then is_true ints floats is_weak a else is_false ints floats is_weak a) ≡ some true
      → (b && weak_symbol a) ≡ false
      → Holds ints floats is_weak a v
      → truth ints floats is_weak v ≡ b
  decided_sound true a v h w k = is_true_sound a v h w k
  decided_sound false a v h w k = is_false_sound a v h k
