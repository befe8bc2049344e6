-- ===== src/Forest.antt =====
-- The two loops of `Find` that core/adt/union_find.h and core/analysis/union_find.cpp share: walk
-- up the parent links to the root, then walk again and point every node of the path at the root.
-- An entry is any type with a parent link, read by `link` and written by `relink`. Reading past the
-- end of the vector, which is undefined in C++, is `none`; so is running out of fuel.
pub mod Roots
pub mod Walk
use llir_opt.Prelude.{ℕ, zero, suc, List, Option, none, some, get_elem?, set, ◌==◌, if◌then◌else◌}

module _ {ℓ} {A : Type ℓ} (link : A → ℕ) where
  -- `entries_[x].Parent`
  unfoldable pub link_at : List A → ℕ → Option ℕ
  link_at es x = elim (get_elem? es x) [ none ↦ none | some e ↦ some (link e) ]

  -- `while (entries_[root].Parent != root) root = entries_[root].Parent;`
  unfoldable pub find_root : ℕ → List A → ℕ → Option ℕ
  find_root zero es root = none
  find_root (suc fuel) es root = elim (link_at es root) [
    | none ↦ none
    | some parent ↦
        let rest = find_root fuel es parent in if parent == root then some root else rest
  ]

  -- `while (entries_[id].Parent != id) { … entries_[id].Parent = root; id = parent; }`
  unfoldable pub compress : (A → ℕ → A) → ℕ → List A → ℕ → ℕ → Option (List A × ℕ)
  compress relink zero es root id = none
  compress relink (suc fuel) es root id = elim (get_elem? es id) [
    | none ↦ none
    | some e ↦
        let rest = compress relink fuel (set es id (relink e root)) root (link e) in
        if link e == id then some (es, id) else rest
  ]

  -- The whole of `Find`: the vector with the path compressed, and the root.
  unfoldable pub find : (A → ℕ → A) → ℕ → List A → ℕ → Option (List A × ℕ)
  unfolding find_root compress link_at
  find relink fuel es id = elim (find_root fuel es id) [
    | none ↦ none
    | some root ↦ compress relink fuel es root id
  ]
