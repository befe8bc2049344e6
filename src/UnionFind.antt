-- ===== src/UnionFind.antt =====
-- core/adt/union_find.h: `UnionFind<T>`, a vector of entries with parent links, union by rank and
-- path compression. The element type and the method `T::Union` that absorbs another element are
-- parameters. A null element pointer is `none`, and so is what would be undefined in C++: an index
-- past the end of the vector, or an absorbed element that is not there. The walks take fuel, one
-- round more than there are entries. `unsigned` counters keep their wrap-around.
pub mod Valid
pub mod Find
pub mod Merge
pub mod Classes
pub mod Laws
pub mod Emplace
pub mod Tests
use llir_opt.Prelude.{
  ℕ, zero, suc, ◌+◌, ◌-◌, ◌%◌, ◌^◌, List, [], ◌∷◌, ◌++◌, Option, none, some, length, get_elem?, set,
  ltb, true, false, ◌==◌, ◌>>=◌, if◌then◌else◌,
}
use llir_opt.Forest

abbrev pub u32 : ℕ
u32 = 2 ^ 32

pub record Entry {ℓ} (T : Type ℓ) : Type ℓ where
  pub parent : ℕ
  pub rank : ℕ
  pub element : Option T

pub record UnionFind {ℓ} (T : Type ℓ) : Type ℓ where
  pub entries : List (Entry T)
  pub size : ℕ

module _ {ℓ} {T : Type ℓ} where
  abbrev pub parent_of : Entry T → ℕ
  parent_of e = e.parent

  abbrev pub set_parent : Entry T → ℕ → Entry T
  set_parent e p = record e { parent = p }

  unfoldable pub empty : UnionFind T
  empty = record { entries = []; size = 0 }

  -- `make` constructs the element from its identifier.
  unfoldable pub emplace : (ℕ → T) → UnionFind T → UnionFind T × ℕ
  emplace make uf =
      let n = length uf.entries % u32 in
      let entry : Entry T = record { parent = n; rank = 0; element = some (make n) } in
      (record { entries = uf.entries ++ entry ∷ []; size = (uf.size + 1) % u32 }, n)

  unfoldable pub find : UnionFind T → ℕ → Option (UnionFind T × ℕ)
  find uf id = do
    (entries', root) ← Forest.find parent_of set_parent (suc (length uf.entries)) uf.entries id
    some (record uf { entries = entries' }, root)

  -- `Get`: the element of the entry itself.
  unfoldable pub get : UnionFind T → ℕ → Option T
  get uf id = do e ← get_elem? uf.entries id; e.element

  -- `Map`: the element of the representative. `Find` is const and compresses all the same.
  unfoldable pub map : UnionFind T → ℕ → Option (UnionFind T × T)
  map uf id = do (uf', root) ← find uf id; t ← get uf' root; some (uf', t)

  -- The two branches of `Union` differ in the roles alone: `winner` absorbs `loser`, whose element is
  -- dropped, and its rank grows where the two are equal, which the first branch rules out.
  unfoldable pub attach :
      (T → T → T) → UnionFind T → ℕ → Entry T → T → ℕ → Entry T → T → UnionFind T
  attach absorb uf winner w tw loser l tl =
      let entries1 = set uf.entries loser (record l { parent = winner; element = none }) in
      let rank' = if w.rank == l.rank then (w.rank + 1) % u32 else w.rank in
      let w' = record w { rank = rank'; element = some (absorb tw tl) } in
      record { entries = set entries1 winner w'; size = (uf.size + u32 - 1) % u32 }

  -- The rest of `Union` once both roots are known; `a->Union(*b)` is `absorb a b`.
  unfoldable pub unite : (T → T → T) → UnionFind T → ℕ → ℕ → Option (UnionFind T × ℕ)
  unfolding attach
  unite absorb uf a b = if a == b then some (uf, b) else (do
    ea ← get_elem? uf.entries a
    eb ← get_elem? uf.entries b
    ta ← ea.element
    tb ← eb.element
    some (
        if ltb ea.rank eb.rank
        then (attach absorb uf b eb tb a ea ta, b)
        else (attach absorb uf a ea ta b eb tb, a)))

  unfoldable pub union : (T → T → T) → UnionFind T → ℕ → ℕ → Option (UnionFind T × ℕ)
  union absorb uf id_a id_b = do
    (uf1, a) ← find uf id_a
    (uf2, b) ← find uf1 id_b
    unite absorb uf2 a b
