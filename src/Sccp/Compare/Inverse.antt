-- ===== src/Sccp/Compare/Inverse.antt =====
-- passes/sccp/compare.cpp: the inverse code gives the opposite answer.
use llir_opt.Prelude.{
  ℕ, ◌≡◌, refl, sym, inl, inr, Bool, true, false, not, ◌&&◌, ◌||◌, Option, none, some, arith,
  Bool-cases, ◌==◌, if◌then◌else◌,
}
use llir_opt.Cond.{Cond, get_inverse_cond, cmp_unordered, compare_float}
use llir_opt.Cond.Inverse.{compare_float-get_inverse_cond}
use llir_opt.Sccp.Lattice.{
  ApInt, ApFloat, unknown, overdefined, int, mask, float, frame, global, pointer, range, undefined,
  Fact,
}
use llir_opt.Sccp.Compare.{
  Ty, Answer, boolean, other, unmarked, GlobalKind, atom, ApOrder, make_boolean, compare_offsets,
  compare_equality, int_order,
}
use llir_opt.Sccp.Compare.Visit.{
  compare_int, boolean_of, compare_frame, compare_kinds, compare_global, unequal, order_null,
  order_mask, visit_float, visit_int, visit_mask, visit_frame, visit_global, visit_pointer,
  visit_known, visit_cmp_inst,
}

-- The opposite answer: an integer is negated, all else stays.
abbrev pub negate : {L : Type 0} → Option (Answer L) → Option (Answer L)
negate (some (boolean width value)) = some (boolean width (not value))
negate (some (other fact)) = some (other fact)
negate (some unmarked) = some unmarked
negate none = none

abbrev pub not_known : Option Bool → Option Bool
not_known none = none
not_known (some b) = some (not b)

make_boolean-not :
    {L : Type 0} (value : Bool) (ty : Ty)
    → make_boolean {L = L} (not value) ty ≡ negate (make_boolean {L = L} value ty)
unfolding make_boolean
make_boolean-not value ty = ground arith

int_order-inverse :
    {L : Type 0} (lower : Bool) (cc : Cond) (ty : Ty)
    → int_order {L = L} lower (get_inverse_cond cc) ty ≡ negate (int_order {L = L} lower cc ty)
unfolding int_order get_inverse_cond
int_order-inverse {L = L} lower cc ty = ground (
  arith,
  make_boolean-not {L = L} true ty,
  make_boolean-not {L = L} false ty,
  make_boolean-not {L = L} lower ty,
  make_boolean-not {L = L} (not lower) ty,
)

-- Where the two ways to answer negate, so does the switch on the codes.
compare_offsets-inverse :
    {L : Type 0} (flag order : Bool → Option (Answer L)) (equal : Bool) (loff roff : ℕ) (cc : Cond)
    → ((b : Bool) → flag (not b) ≡ negate (flag b))
    → ((b : Bool) → order (not b) ≡ negate (order b))
    → compare_offsets flag order equal loff roff (get_inverse_cond cc)
      ≡ negate (compare_offsets flag order equal loff roff cc)
unfolding compare_offsets get_inverse_cond
compare_offsets-inverse flag order equal loff roff cc f g =
    ground (arith, f true, f false, g true, g false)

compare_equality-inverse :
    {L : Type 0} (flag : Bool → Option (Answer L)) (default : Option (Answer L)) (equal : Bool)
    (cc : Cond)
    → ((b : Bool) → flag (not b) ≡ negate (flag b))
    → default ≡ negate default
    → compare_equality flag default equal (get_inverse_cond cc)
      ≡ negate (compare_equality flag default equal cc)
unfolding compare_equality get_inverse_cond
compare_equality-inverse flag default equal cc f g = ground (arith, f true, f false, g)

module _ (ints : ApInt) (floats : ApFloat) (orders : ApOrder ints floats) (is_weak : ℕ → Bool)
    (kind : ℕ → GlobalKind) where
  compare_int-inverse :
      (a b : ints.Carrier) (cc : Cond)
      → compare_int ints floats orders is_weak kind a b (get_inverse_cond cc)
        ≡ not_known (compare_int ints floats orders is_weak kind a b cc)
  unfolding compare_int get_inverse_cond
  compare_int-inverse a b cc = ground (
    arith,
    orders.sgt_flips a b,
    orders.sle_negates a b,
    orders.sge_negates a b,
    orders.unsigned_gt_flips a b,
    orders.unsigned_le_negates a b,
    orders.unsigned_ge_negates a b,
  )

  compare_frame-inverse :
      (lobj loff robj roff : ℕ) (cc : Cond) (ty : Ty)
      → compare_frame ints floats orders is_weak kind lobj loff robj roff (get_inverse_cond cc) ty
        ≡ negate (compare_frame ints floats orders is_weak kind lobj loff robj roff cc ty)
  unfolding compare_frame
  compare_frame-inverse lobj loff robj roff cc ty =
      compare_offsets-inverse _
        (λ b. if lobj == robj then make_boolean b ty else some (other undefined)) _ loff roff cc
        (λ b. make_boolean-not b ty)
        (λ b. elim (Bool-cases (lobj == robj)) [
          | inl e ↦ rw e (make_boolean-not b ty)
          | inr e ↦ rw e refl
        ])

  compare_kinds-inverse :
      (k l : GlobalKind) (lg loff rg roff : ℕ) (cc : Cond) (ty : Ty)
      → compare_kinds ints floats orders is_weak kind k l lg loff rg roff (get_inverse_cond cc) ty
        ≡ negate (compare_kinds ints floats orders is_weak kind k l lg loff rg roff cc ty)
  unfolding compare_kinds
  compare_kinds-inverse atom atom lg loff rg roff cc ty =
      compare_offsets-inverse _
        (λ b. if lg == rg then make_boolean b ty else some (other overdefined)) _ loff roff cc
        (λ b. make_boolean-not b ty)
        (λ b. elim (Bool-cases (lg == rg)) [
          | inl e ↦ rw e (make_boolean-not b ty)
          | inr e ↦ rw e refl
        ])
  compare_kinds-inverse atom l lg loff rg roff cc ty =
      compare_equality-inverse _ _ false cc (λ b. make_boolean-not b ty) refl
  compare_kinds-inverse k l lg loff rg roff cc ty =
      compare_equality-inverse _ _ (lg == rg && loff == roff) cc (λ b. make_boolean-not b ty) refl

  compare_global-inverse :
      (lg loff rg roff : ℕ) (cc : Cond) (ty : Ty)
      → compare_global ints floats orders is_weak kind lg loff rg roff (get_inverse_cond cc) ty
        ≡ negate (compare_global ints floats orders is_weak kind lg loff rg roff cc ty)
  unfolding compare_global
  compare_global-inverse lg loff rg roff cc ty = elim (Bool-cases (is_weak lg || is_weak rg)) [
    | inl e ↦ rw e refl
    | inr e ↦ rw e (compare_kinds-inverse (kind lg) (kind rg) lg loff rg roff cc ty)
  ]

  unequal-inverse :
      (cc : Cond) (ty : Ty)
      → unequal ints floats orders is_weak kind (get_inverse_cond cc) ty
        ≡ negate (unequal ints floats orders is_weak kind cc ty)
  unfolding unequal
  unequal-inverse cc ty = compare_equality-inverse _ _ false cc (λ b. make_boolean-not b ty) refl

  boolean_of-inverse :
      (b : Option Bool) (ty : Ty)
      → boolean_of ints floats orders is_weak kind (not_known b) ty
        ≡ negate (boolean_of ints floats orders is_weak kind b ty)
  unfolding boolean_of
  boolean_of-inverse none ty = refl
  boolean_of-inverse (some b) ty = make_boolean-not b ty

  order_null-inverse :
      (lower : Bool) (i : ints.Carrier) (cc : Cond) (ty : Ty)
      → order_null ints floats orders is_weak kind lower i (get_inverse_cond cc) ty
        ≡ negate (order_null ints floats orders is_weak kind lower i cc ty)
  unfolding order_null
  order_null-inverse lower i cc ty = elim (Bool-cases (ints.is_null_value i)) [
    | inl e ↦ rw e (int_order-inverse lower cc ty)
    | inr e ↦ rw e refl
  ]

  order_mask-inverse :
      (known value i : ints.Carrier) (cc : Cond) (ty : Ty)
      → order_mask ints floats orders is_weak kind known value i (get_inverse_cond cc) ty
        ≡ negate (order_mask ints floats orders is_weak kind known value i cc ty)
  unfolding order_mask
  order_mask-inverse known value i cc ty =
      elim (Bool-cases (ints.is_null_value (ints.conj known (ints.differ value i)))) [
        | inl e ↦ rw e refl
        | inr e ↦ rw e (unequal-inverse cc ty)
      ]

  -- The comparison is one of floats that are unordered.
  abbrev pub UnorderedFloats : Fact ints floats is_weak → Fact ints floats is_weak → Type 0
  UnorderedFloats (float f) (float g) = orders.compare f g ≡ cmp_unordered
  UnorderedFloats _ _ = ⊥

  visit_float-inverse :
      (f : floats.Carrier) (b : Fact ints floats is_weak) (cc : Cond) (ty : Ty)
      → ¬ UnorderedFloats (float f) b
      → visit_float ints floats orders is_weak kind f b (get_inverse_cond cc) ty
        ≡ negate (visit_float ints floats orders is_weak kind f b cc ty)
  unfolding visit_float
  visit_float-inverse f (float g) cc ty h =
      rw (compare_float-get_inverse_cond (orders.compare f g) cc h)
        (make_boolean-not (compare_float (orders.compare f g) cc) ty)
  visit_float-inverse f b cc ty h = ground arith

  visit_int-inverse :
      (i : ints.Carrier) (b : Fact ints floats is_weak) (cc : Cond) (ty : Ty)
      → visit_int ints floats orders is_weak kind i b (get_inverse_cond cc) ty
        ≡ negate (visit_int ints floats orders is_weak kind i b cc ty)
  unfolding visit_int
  visit_int-inverse i (int j) cc ty =
      rw (compare_int-inverse i j cc)
        (boolean_of-inverse (compare_int ints floats orders is_weak kind i j cc) ty)
  visit_int-inverse i (mask known value) cc ty = order_mask-inverse known value i cc ty
  visit_int-inverse i (frame _ _) cc ty = order_null-inverse true i cc ty
  visit_int-inverse i pointer cc ty = order_null-inverse true i cc ty
  visit_int-inverse i (global sym off) cc ty = elim (Bool-cases (ints.is_null_value i)) [
    | inr e ↦ rw e refl
    | inl e ↦ rw e (elim (Bool-cases (is_weak sym)) [
      | inl w ↦ rw w refl
      | inr w ↦ rw w (int_order-inverse true cc ty)
    ])
  ]
  visit_int-inverse i b cc ty = ground arith

  visit_global-inverse :
      (sym off : ℕ) (b : Fact ints floats is_weak) (cc : Cond) (ty : Ty)
      → visit_global ints floats orders is_weak kind sym off b (get_inverse_cond cc) ty
        ≡ negate (visit_global ints floats orders is_weak kind sym off b cc ty)
  unfolding visit_global
  visit_global-inverse sym off (global sym' off') cc ty =
      compare_global-inverse sym off sym' off' cc ty
  visit_global-inverse sym off (int i) cc ty =
      elim (Bool-cases (ints.is_null_value i || orders.is_one_value i)) [
        | inr e ↦ rw e refl
        | inl e ↦ rw e (elim (Bool-cases (is_weak sym)) [
          | inl w ↦ rw w refl
          | inr w ↦ rw w (int_order-inverse false cc ty)
        ])
      ]
  visit_global-inverse sym off b cc ty = ground arith

  visit_mask-inverse :
      (known value : ints.Carrier) (b : Fact ints floats is_weak) (cc : Cond) (ty : Ty)
      → visit_mask ints floats orders is_weak kind known value b (get_inverse_cond cc) ty
        ≡ negate (visit_mask ints floats orders is_weak kind known value b cc ty)
  unfolding visit_mask
  visit_mask-inverse known value (int i) cc ty = order_mask-inverse known value i cc ty
  visit_mask-inverse known value b cc ty = ground arith

  visit_frame-inverse :
      (obj off : ℕ) (b : Fact ints floats is_weak) (cc : Cond) (ty : Ty)
      → visit_frame ints floats orders is_weak kind obj off b (get_inverse_cond cc) ty
        ≡ negate (visit_frame ints floats orders is_weak kind obj off b cc ty)
  unfolding visit_frame
  visit_frame-inverse obj off (int i) cc ty = order_null-inverse false i cc ty
  visit_frame-inverse obj off (global _ _) cc ty = unequal-inverse cc ty
  visit_frame-inverse obj off (frame obj' off') cc ty =
      compare_frame-inverse obj off obj' off' cc ty
  visit_frame-inverse obj off b cc ty = ground arith

  visit_pointer-inverse :
      (b : Fact ints floats is_weak) (cc : Cond) (ty : Ty)
      → visit_pointer ints floats orders is_weak kind b (get_inverse_cond cc) ty
        ≡ negate (visit_pointer ints floats orders is_weak kind b cc ty)
  unfolding visit_pointer
  visit_pointer-inverse (int i) cc ty = order_null-inverse false i cc ty
  visit_pointer-inverse b cc ty = ground arith

  visit_known-get_inverse_cond :
      (a b : Fact ints floats is_weak) (cc : Cond) (ty : Ty)
      → ¬ UnorderedFloats a b
      → visit_known ints floats orders is_weak kind a b (get_inverse_cond cc) ty
        ≡ negate (visit_known ints floats orders is_weak kind a b cc ty)
  unfolding visit_known
  visit_known-get_inverse_cond (float f) b cc ty h = visit_float-inverse f b cc ty h
  visit_known-get_inverse_cond (int i) b cc ty h = visit_int-inverse i b cc ty
  visit_known-get_inverse_cond (mask k v) b cc ty h = visit_mask-inverse k v b cc ty
  visit_known-get_inverse_cond (frame obj off) b cc ty h = visit_frame-inverse obj off b cc ty
  visit_known-get_inverse_cond (global sym off) b cc ty h = visit_global-inverse sym off b cc ty
  visit_known-get_inverse_cond pointer b cc ty h = visit_pointer-inverse b cc ty
  visit_known-get_inverse_cond (range _) b cc ty h = visit_pointer-inverse b cc ty
  visit_known-get_inverse_cond a b cc ty h = ground arith

  -- But for floats that are unordered, a comparison by the inverse code is marked with the opposite
  -- Boolean where the comparison is marked with one, with the same fact where it is marked with a
  -- fact, and it is unmarked or unreachable where the comparison is.
  pub visit_cmp_inst-get_inverse_cond :
      (a b : Fact ints floats is_weak) (cc : Cond) (ty : Ty)
      → ¬ UnorderedFloats a b
      → visit_cmp_inst ints floats orders is_weak kind a b (get_inverse_cond cc) ty
        ≡ negate (visit_cmp_inst ints floats orders is_weak kind a b cc ty)
  unfolding visit_cmp_inst
  visit_cmp_inst-get_inverse_cond unknown b cc ty h = refl
  visit_cmp_inst-get_inverse_cond a unknown cc ty h = ground arith
  visit_cmp_inst-get_inverse_cond a b cc ty h = visit_known-get_inverse_cond a b cc ty h
