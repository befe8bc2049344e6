-- ===== src/UnionFind/Valid.antt =====
-- The invariant of the union-find structure.
use llir_opt.Prelude.{
  ℕ, suc, ◌+◌, ◌≤◌, ◌<◌, ◌≡◌, inl, inr, Bool, true, false, List, [], ◌∷◌, Option, none, some, arith,
  length, get_elem?, ◌==◌, Option-cases,
}
use llir_opt.Forest.{link_at}
use llir_opt.Forest.Roots.{RootOf, IsForest}
use llir_opt.UnionFind.{Entry, UnionFind, parent_of, u32}

module _ {ℓ} {T : Type ℓ} where
  abbrev pub is_some : Option T → Bool
  is_some none = false
  is_some (some t) = true

  abbrev pub rank_at : List (Entry T) → ℕ → ℕ
  rank_at es x = elim (get_elem? es x) [ none ↦ 0 | some e ↦ e.rank ]

  -- The entries that still hold an element: those that the iterator stops at.
  abbrev pub count_elements : List (Entry T) → ℕ
  count_elements [] = 0
  count_elements (e ∷ es) = elim e.element [
    | none ↦ count_elements es
    | some t ↦ suc (count_elements es)
  ]

  -- `r` represents the class of `x`.
  abbrev pub Root : UnionFind T → ℕ → ℕ → Type 0
  Root uf x r = RootOf (link_at parent_of uf.entries) x r

  -- Ranks rise along the links and leave room for the unions to come; exactly the roots hold an
  -- element; the counter counts them; identifiers fit 32 bits.
  pub record IsValid (uf : UnionFind T) : Type ℓ where
    pub forest : IsForest (link_at parent_of uf.entries) (length uf.entries) (rank_at uf.entries)
    pub ranked :
        (x : ℕ) (e : Entry T)
        → get_elem? uf.entries x ≡ some e
        → e.rank + uf.size ≤ length uf.entries
    pub owned :
        (x : ℕ) (e : Entry T)
        → get_elem? uf.entries x ≡ some e
        → (e.parent == x) ≡ is_some e.element
    pub counted : uf.size ≡ count_elements uf.entries
    pub narrow : length uf.entries < u32

  pub rank_at-le :
      {uf : UnionFind T} → IsValid uf → (x : ℕ) → rank_at uf.entries x ≤ length uf.entries
  rank_at-le {uf} v x = elim (Option-cases (get_elem? uf.entries x)) [
    | inl gone ↦ rw (gone, rank_at) (omega arith)
    | inr (e, at) ↦ rw (at, rank_at) (omega (arith, v.ranked x e at))
  ]
