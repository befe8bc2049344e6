-- ===== src/BitSet/Visit.antt =====
-- core/adt/bitset.h: the loop `for (auto id : s)` from `begin` to `end`.
use llir_opt.Prelude.{
  ℕ, zero, suc, ◌+◌, ◌-◌, ◌%◌, ◌^◌, ◌<◌, ◌≤◌, ◌≡◌, refl, sym, ap, ◌∙◌, inl, inr, Bool, true, false,
  List, [], ◌∷◌, some, arith, ◌==◌, if◌then◌else◌, Bool-cases,
}
use llir_opt.SortedMap.{lookup}
use llir_opt.BitSet.Chunk.{Node}
use llir_opt.BitSet.Extremes.{NoneIn}
use llir_opt.BitSet.{BitSet, Iterator, iterator_at, begin, end, no_nodes, next, visit}
use llir_opt.BitSet.Valid.{mem, IsValid}
use llir_opt.BitSet.Forward.{next_item}

-- The numbers with a property among the `n` from `lo` on, in ascending order.
unfoldable pub select : (ℕ → Bool) → ℕ → ℕ → List ℕ
select P lo zero = []
select P lo (suc n) = let rest = select P (suc lo) n in if P lo then lo ∷ rest else rest

select_skip :
    (P : ℕ → Bool) (lo d n : ℕ) → NoneIn P lo (lo + d) → select P lo (d + n) ≡ select P (lo + d) n
unfolding select
select_skip P lo zero n h =
    let a : 0 + n ≡ n = omega arith in let b : lo + 0 ≡ lo = omega arith in rw (a, b) refl
select_skip P lo (suc d) n h =
    let a : suc d + n ≡ suc (d + n) = omega arith in
    let b : lo + suc d ≡ suc lo + d = omega arith in
    let here : P lo ≡ false = h lo (omega arith) (omega arith) in
    rw (a, b, here) (select_skip P (suc lo) d n (λ p l k. h p (omega arith) (omega arith)))

select_to :
    (P : ℕ → Bool) (lo y n : ℕ)
    → lo ≤ y
    → y ≤ lo + n
    → NoneIn P lo y
    → select P lo n ≡ select P y (lo + n - y)
select_to P lo y n a b h =
    let apart : n ≡ y - lo + (lo + n - y) = omega arith in
    let place : lo + (y - lo) ≡ y = omega arith in
    let clear : NoneIn P lo (lo + (y - lo)) = λ p g k. h p g (omega arith) in
    ap (select P lo) apart
    ∙ select_skip P lo (y - lo) (lo + n - y) clear
    ∙ ap (λ q. select P q (lo + n - y)) place

select_none : (P : ℕ → Bool) (lo n : ℕ) → NoneIn P lo (lo + n) → select P lo n ≡ []
unfolding select
select_none P lo zero h = refl
select_none P lo (suc n) h =
    let here : P lo ≡ false = h lo (omega arith) (omega arith) in
    rw here (select_none P (suc lo) n (λ p l k. h p (omega arith) (omega arith)))

outside : (s : BitSet) → IsValid s → (p : ℕ) → ¬ (mem s.nodes p ≡ true) → mem s.nodes p ≡ false
outside s v p h = elim (Bool-cases (mem s.nodes p)) [ inl m ↦ absurd (h m) | inr m ↦ m ]

-- At the end there is nothing left to visit.
visit_end :
    (fuel : ℕ) (s : BitSet) (i : Iterator)
    → i.current ≡ s.last + 1
    → 0 < fuel
    → visit fuel s i ≡ some []
unfolding visit
visit_end zero s i e f = absurd (omega arith)
visit_end (suc fuel) s i e f =
    let at_end : (i.current == s.last + 1) ≡ true = ground arith in rw at_end refl

-- After the last item comes the end.
next_last :
    (s : BitSet) (x : ℕ)
    → s.last + 1 < 2 ^ 32
    → x ≡ s.last
    → (i : Iterator) × (next s (iterator_at s x) ≡ some i) × (i.current ≡ s.last + 1)
unfolding next
next_last s x top e =
    let narrow : (s.last + 1) % 2 ^ 32 ≡ s.last + 1 = omega (arith, top) in
    let here : (x == s.last) ≡ true = ground arith in
    (record (iterator_at s x) { current = s.last + 1 }, rw (here, narrow) refl, refl)

visit_from :
    (fuel : ℕ) (s : BitSet) (x n : ℕ)
    → IsValid s
    → s.last + 1 < 2 ^ 32
    → mem s.nodes x ≡ true
    → s.last < x + n
    → s.last + 1 < x + fuel
    → visit fuel s (iterator_at s x) ≡ some (select (mem s.nodes) x n)
unfolding visit select
visit_from zero s x n v top m l f = absurd (omega (arith, f, v.upper x m))
visit_from (suc fuel) s x zero v top m l f = absurd (omega (arith, l, v.upper x m))
visit_from (suc fuel) s x (suc n) v top m l f =
    let more : (x == s.last + 1) ≡ false = ground (arith, v.upper x m) in
    elim (Bool-cases (x == s.last)) [
      | inl e ↦
          let (i, step, at_end) = next_last s x top (ground arith) in
          let past = visit_end fuel s i at_end (ground (arith, f)) in
          let none_past =
            select_none (mem s.nodes) (suc x) n
              (λ p g k. outside s v p (λ h. ground (arith, g, v.upper p h))) in
          rw (more, step, past, m, none_past) refl
      | inr e ↦
          let (y, step, least) = next_item s x v m (ground (arith, v.upper x m)) in
          let later =
            visit_from fuel s y (suc x + n - y) v top least.holds (omega (arith, least.above))
              (omega (arith, least.above)) in
          let skip =
            select_to (mem s.nodes) (suc x) y n least.above (omega (arith, least.below, l))
              (λ p g k. least.first p g k) in
          rw (more, step, later, m, skip) refl
    ]

mem-no_nodes : (nodes : List (ℕ × Node)) (p : ℕ) → no_nodes nodes ≡ true → mem nodes p ≡ false
unfolding lookup
mem-no_nodes [] p e = refl
mem-no_nodes (_ ∷ _) p e = absurd (ground (arith, e))

-- On a valid set without the identifier 2^32 - 1 the loop ends, once it has a round for each number
-- up to the last identifier and one more. It visits the identifiers of the set, each
-- once, in ascending order.
pub visit-begin :
    (fuel n : ℕ) (s : BitSet)
    → IsValid s
    → s.last + 1 < 2 ^ 32
    → s.last + 1 < fuel
    → s.last < n
    → visit fuel s (begin s) ≡ some (select (mem s.nodes) 0 n)
unfolding begin
visit-begin fuel n s v top f l = elim (Bool-cases (no_nodes s.nodes)) [
  | inl e ↦ rw e (
      visit_end fuel s (end s) refl (omega (arith, f))
      ∙ ap some (sym (select_none (mem s.nodes) 0 n (λ p g k. mem-no_nodes s.nodes p e))))
  | inr e ↦
      let first_in : mem s.nodes s.first ≡ true = elim v.ends [
        | inl (g, _, _) ↦ absurd (cc (sym (ap no_nodes g), e))
        | inr (p, _) ↦ p
      ] in
      let bound = v.upper s.first first_in in
      let same : 0 + n ≡ n = omega arith in
      let skip =
        select_to (mem s.nodes) 0 s.first n (omega arith) (omega (arith, bound, l))
          (λ p g k. outside s v p (λ h. omega (arith, k, v.lower p h))) in
      rw (e, skip)
        (visit_from fuel s s.first (0 + n - s.first) v top first_in (omega (arith, l, bound))
          (omega (arith, f)))
]
