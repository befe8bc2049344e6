-- ===== src/UnionFind/Merge.antt =====
-- Linking one root below another keeps the structure valid and joins the two classes.
use native.Mathlib.Decide.{ℕ_discrete}
use llir_opt.Prelude.{
  ℕ, zero, suc, ◌+◌, ◌%◌, ◌≤◌, ◌<◌, ◌≡◌, refl, sym, ap, ◌∙◌, ◌≢◌, ◌⊎◌, inl, inr, List, [], ◌∷◌,
  Option, none, some, arith, length, length-set, get_elem?, get_elem?-set, set, ◌==◌, ==_iff, ==_ne,
  if◌then◌else◌, Bool-cases, Option-cases, get_elem?_lt, eq_of_some,
}
use llir_opt.Forest.{link_at}
use llir_opt.Forest.Roots.{RootOf-join}
use llir_opt.Forest.Walk.{link_at_of}
use llir_opt.UnionFind.{Entry, UnionFind, parent_of, u32, attach}
use llir_opt.UnionFind.Valid.{is_some, rank_at, count_elements, Root, IsValid}

module _ {ℓ} {T : Type ℓ} where
  abbrev holds : Option T → ℕ
  holds none = 0
  holds (some t) = 1

  count_elements-set :
      (es : List (Entry T)) (i : ℕ) (e e' : Entry T)
      → get_elem? es i ≡ some e
      → count_elements (set es i e') + holds e.element ≡ count_elements es + holds e'.element
  count_elements-set [] i e e' at = absurd (cc)
  count_elements-set (f ∷ es) zero e e' at =
      let same : f ≡ e = eq_of_some at in
      elim (Option-cases e.element) [
        | inl p ↦ elim (Option-cases e'.element) [
          | inl q ↦ simp (same, p, q) refl
          | inr (t, q) ↦ simp (same, p, q) (omega arith)
        ]
        | inr (s, p) ↦ elim (Option-cases e'.element) [
          | inl q ↦ simp (same, p, q) (omega arith)
          | inr (t, q) ↦ simp (same, p, q) refl
        ]
      ]
  count_elements-set (f ∷ es) (suc i) e e' at = elim (Option-cases f.element) [
    | inl p ↦ simp p (count_elements-set es i e e' at)
    | inr (t, p) ↦ simp p (omega (arith, count_elements-set es i e e' at))
  ]

  module _ (absorb : T → T → T) (uf : UnionFind T) (v : IsValid uf) (winner : ℕ) (w : Entry T)
      (tw : T) (loser : ℕ) (l : Entry T) (tl : T) (at_w : get_elem? uf.entries winner ≡ some w)
      (at_l : get_elem? uf.entries loser ≡ some l) (root_w : w.parent ≡ winner)
      (root_l : l.parent ≡ loser) (has_w : w.element ≡ some tw) (has_l : l.element ≡ some tl)
      (lower : l.rank ≤ w.rank) (apart : winner ≢ loser) where
    abbrev lost : Entry T
    lost = record l { parent = winner; element = none }

    abbrev new_rank : ℕ
    new_rank = if w.rank == l.rank then (w.rank + 1) % u32 else w.rank

    abbrev won : Entry T
    won = record w { rank = new_rank; element = some (absorb tw tl) }

    abbrev after : UnionFind T
    after = attach absorb uf winner w tw loser l tl

    in_w : winner < length uf.entries
    in_w = get_elem?_lt uf.entries winner w at_w

    in_l : loser < length uf.entries
    in_l = get_elem?_lt uf.entries loser l at_l

    pub after-size : length after.entries ≡ length uf.entries
    unfolding attach
    after-size =
        length-set (set uf.entries loser lost) winner won ∙ length-set uf.entries loser lost

    after_at :
        (x : ℕ)
        → get_elem? after.entries x ≡ (
            if x == winner
            then some won
            else (if x == loser then some lost else get_elem? uf.entries x))
    unfolding attach
    after_at x =
        let outer =
          get_elem?-set (set uf.entries loser lost) winner x won
            (omega (arith, in_w, length-set uf.entries loser lost)) in
        let inner = get_elem?-set uf.entries loser x lost in_l in rw inner at outer

    after_cases :
        (x : ℕ)
        → ((x ≡ winner) × (get_elem? after.entries x ≡ some won))
          ⊎ ((x ≡ loser) × (get_elem? after.entries x ≡ some lost))
          ⊎ ((x ≢ winner) × (x ≢ loser) × (get_elem? after.entries x ≡ get_elem? uf.entries x))
    after_cases x = elim (ℕ_discrete x winner) [
      | yes p ↦ inl (p, rw ((==_iff x winner).1 p) at (after_at x))
      | no p ↦ elim (ℕ_discrete x loser) [
        | yes q ↦ inr (inl (q, rw (==_ne x winner p, (==_iff x loser).1 q) at (after_at x)))
        | no q ↦ inr (inr (p, q, rw (==_ne x winner p, ==_ne x loser q) at (after_at x)))
      ]
    ]

    after_link :
        (x : ℕ)
        → link_at parent_of after.entries x
          ≡ (if x == loser then some winner else link_at parent_of uf.entries x)
    unfolding link_at
    after_link x = elim (after_cases x) [
      | inl (p, at) ↦
          link_at_of parent_of after.entries x won at
          ∙ rw (==_ne x loser (λ q. apart (sym p ∙ q))) (
              rw p
                (rw root_w (sym (link_at_of parent_of uf.entries winner w at_w ∙ ap some root_w))))
      | inr (inl (q, at)) ↦
          link_at_of parent_of after.entries x lost at ∙ rw ((==_iff x loser).1 q) refl
      | inr (inr (_, q, at)) ↦ rw (==_ne x loser q) (rw (at, link_at) refl)
    ]

    after_rank :
        (x : ℕ) → rank_at after.entries x ≡ (if x == winner then new_rank else rank_at uf.entries x)
    after_rank x = elim (after_cases x) [
      | inl (p, at) ↦ rw (at, rank_at) (rw ((==_iff x winner).1 p) refl)
      | inr (inl (q, at)) ↦
          rw (at, rank_at)
            (rw (==_ne x winner (λ p. apart (sym p ∙ q)))
              (rw (ap (get_elem? uf.entries) q ∙ at_l, rank_at) refl))
      | inr (inr (p, _, at)) ↦ rw (==_ne x winner p) (rw (at, rank_at) refl)
    ]

    after_count : suc (count_elements after.entries) ≡ count_elements uf.entries
    unfolding attach
    after_count =
        let there = get_elem?-set uf.entries loser winner lost in_l in
        let at = rw (==_ne winner loser apart) at there in
        omega (
          arith,
          count_elements-set uf.entries loser l lost at_l,
          count_elements-set (set uf.entries loser lost) winner w won (at ∙ at_w),
          ap holds has_w,
          ap holds has_l,
        )

    room : w.rank + uf.size ≤ length uf.entries
    room = v.ranked winner w at_w

    some_left : suc (count_elements after.entries) ≡ uf.size
    some_left = after_count ∙ sym v.counted

    shrinks : after.size ≡ count_elements after.entries
    unfolding attach
    shrinks = omega (arith, some_left, room, v.narrow)

    new_rank_bounds : (w.rank ≤ new_rank) × (l.rank < new_rank) × (new_rank ≤ w.rank + 1)
    new_rank_bounds = elim (Bool-cases (w.rank == l.rank)) [
      | inl p ↦
          let same = (==_iff w.rank l.rank).0 p in
          rw p (
            omega (arith, room, v.narrow, some_left),
            omega (arith, room, v.narrow, some_left),
            omega arith,
          )
      | inr p ↦
          let differ : w.rank ≢ l.rank = λ e. cc ((==_iff w.rank l.rank).1 e) in
          rw p (omega arith, omega arith, omega arith)
    ]

    link_w : link_at parent_of uf.entries winner ≡ some winner
    link_w = link_at_of parent_of uf.entries winner w at_w ∙ ap some root_w

    link_l : link_at parent_of uf.entries loser ≡ some loser
    link_l = link_at_of parent_of uf.entries loser l at_l ∙ ap some root_l

    rank_w : rank_at uf.entries winner ≡ w.rank
    rank_w = rw (at_w, rank_at) refl

    rank_l : rank_at uf.entries loser ≡ l.rank
    rank_l = rw (at_l, rank_at) refl

    -- No rank falls, and only the winner's may grow.
    after_rank_le : (x : ℕ) → rank_at uf.entries x ≤ rank_at after.entries x
    after_rank_le x = elim (ℕ_discrete x winner) [
      | yes p ↦
          rw (after_rank x, (==_iff x winner).1 p)
            (omega (arith, rank_w, ap (rank_at uf.entries) p, new_rank_bounds.0))
      | no p ↦ rw (after_rank x, ==_ne x winner p) (omega arith)
    ]

    after_rises :
        (x p : ℕ)
        → link_at parent_of after.entries x ≡ some p
        → p ≢ x
        → rank_at after.entries x < rank_at after.entries p
    after_rises x p at d = elim (ℕ_discrete x loser) [
      | yes q ↦
          let up : winner ≡ p = eq_of_some (rw (after_link x, (==_iff x loser).1 q) at at) in
          let low : rank_at after.entries x ≡ rank_at uf.entries x =
            after_rank x ∙ rw (==_ne x winner (λ k. apart (sym k ∙ q))) refl in
          let high : rank_at after.entries p ≡ new_rank =
            after_rank p ∙ rw ((==_iff p winner).1 (sym up)) refl in
          omega (arith, low, high, rank_l, ap (rank_at uf.entries) q, new_rank_bounds.1)
      | no q ↦
          let old : link_at parent_of uf.entries x ≡ some p =
            rw (after_link x, ==_ne x loser q) at at in
          let not_w : x ≢ winner =
            λ k. d (eq_of_some (sym old ∙ ap (link_at parent_of uf.entries) k ∙ link_w) ∙ sym k) in
          let low : rank_at after.entries x ≡ rank_at uf.entries x =
            after_rank x ∙ rw (==_ne x winner not_w) refl in
          omega (arith, low, v.forest.rises x p old d, after_rank_le p)
    ]

    after_present :
        (x : ℕ)
        → x < length after.entries
        → (p : ℕ) × (link_at parent_of after.entries x ≡ some p) × (p < length after.entries)
    after_present x h = elim (ℕ_discrete x loser) [
      | yes q ↦
          (winner, after_link x ∙ rw ((==_iff x loser).1 q) refl, omega (arith, after-size, in_w))
      | no q ↦
          let (p, up, lt) = v.forest.present x (omega (arith, after-size)) in
          (p, after_link x ∙ rw (==_ne x loser q) up, omega (arith, after-size))
    ]

    after-ranked :
        (x : ℕ) (e : Entry T)
        → get_elem? after.entries x ≡ some e
        → e.rank + after.size ≤ length after.entries
    after-ranked x e at = elim (after_cases x) [
      | inl (p, won_at) ↦
          let r : e.rank ≡ new_rank = ap (λ (t : Entry T). t.rank) (eq_of_some (sym at ∙ won_at)) in
          omega (arith, new_rank_bounds.2, room, shrinks, some_left, after-size)
      | inr (inl (q, lost_at)) ↦
          let r : e.rank ≡ l.rank = ap (λ (t : Entry T). t.rank) (eq_of_some (sym at ∙ lost_at)) in
          omega (arith, room, shrinks, some_left, after-size)
      | inr (inr (_, _, same)) ↦
          omega (arith, v.ranked x e (sym same ∙ at), shrinks, some_left, after-size)
    ]

    after-owned :
        (x : ℕ) (e : Entry T)
        → get_elem? after.entries x ≡ some e
        → (e.parent == x) ≡ is_some e.element
    after-owned x e at = elim (after_cases x) [
      | inl (p, won_at) ↦
          let is : e ≡ won = eq_of_some (sym at ∙ won_at) in
          rw is ((==_iff w.parent x).1 (root_w ∙ sym p))
      | inr (inl (q, lost_at)) ↦
          let is : e ≡ lost = eq_of_some (sym at ∙ lost_at) in
          rw is (==_ne winner x (λ k. apart (k ∙ q)))
      | inr (inr (_, _, same)) ↦ v.owned x e (sym same ∙ at)
    ]

    pub attach-IsValid : IsValid after
    attach-IsValid = record {
      forest = record { present = after_present; rises = after_rises };
      ranked = after-ranked;
      owned = after-owned;
      counted = shrinks;
      narrow = omega (arith, after-size, v.narrow);
    }

    -- The loser's class now answers to the winner; every other class is as it was.
    pub attach-Root : {x r : ℕ} → Root uf x r → Root after x (if r == loser then winner else r)
    attach-Root path =
        RootOf-join (link_at parent_of uf.entries) (link_at parent_of after.entries) after_link
          link_l link_w (λ k. apart (sym k)) path

    pub attach-get : get_elem? after.entries winner ≡ some won
    attach-get = after_at winner ∙ rw ((==_iff winner winner).1 refl) refl

    pub attach-size : suc after.size ≡ uf.size
    attach-size = ap suc shrinks ∙ some_left
