-- ===== src/UnionFind/Tests.antt =====
-- The laws of the union-find structure at the scenario of core/adt/union_find_test.cpp: items that
-- hold a set of keys, here a list.
use llir_opt.Prelude.{ℕ, ◌<◌, ◌≡◌, refl, ◌↔◌, ◌⊎◌, List, [], ◌∷◌, ◌++◌, none, some, arith}
use llir_opt.Forest.{link_at, find_root, compress}
use llir_opt.Forest
use llir_opt.Forest.Roots.{here, RootOf-functional}
use llir_opt.UnionFind.{Entry, UnionFind, parent_of, empty, emplace, find, get, map, unite, union}
use llir_opt.UnionFind.Valid.{Root, IsValid}
use llir_opt.UnionFind.Classes.{SameClass}
use llir_opt.UnionFind.Laws.{find_represents, union_joins, map-union}
use llir_opt.UnionFind.Emplace.{empty-IsValid, emplace_fresh}

abbrev Keys : Type 0
Keys = List ℕ

abbrev item : ℕ → Keys
item k = k ∷ []

abbrev single : ℕ → Entry Keys
single k = record { parent = k; rank = 0; element = some (item k) }

abbrev one_item : UnionFind Keys
one_item = record { entries = single 0 ∷ []; size = 1 }

abbrev two_items : UnionFind Keys
two_items = record { entries = single 0 ∷ single 1 ∷ []; size = 2 }

one_item-IsValid : IsValid one_item
unfolding emplace empty
one_item-IsValid = (emplace_fresh item empty empty-IsValid (omega arith)).0

two_items-IsValid : IsValid two_items
unfolding emplace
two_items-IsValid = (emplace_fresh item one_item one_item-IsValid (omega arith)).0

-- The identifiers 0 and 1 after a union.
joined :
    union ◌++◌ two_items 0 1
    ≡ some (
      record {
        entries =
            record { parent = 0; rank = 1; element = some (0 ∷ 1 ∷ []) }
            ∷ record { parent = 0; rank = 0; element = none }
            ∷ [];
        size = 1;
      },
      0,
    )
unfolding union find unite Forest.find
joined = refl

apart : ¬ SameClass two_items 0 1
unfolding link_at
apart (r, p, q) =
    let zero_is : 0 ≡ r = RootOf-functional (here refl) p in
    let one_is : 1 ≡ r = RootOf-functional (here refl) q in absurd (omega arith)

map_zero : map two_items 0 ≡ some (two_items, item 0)
unfolding map find get Forest.find
map_zero = refl

map_one : map two_items 1 ≡ some (two_items, item 1)
unfolding map find get Forest.find
map_one = refl

find_represents_example :
    (root : ℕ) × (uf' : UnionFind Keys) × (find two_items 1 ≡ some (uf', root))
    × Root two_items 1 root
    × IsValid uf'
    × (uf'.size ≡ 2)
    × ((x y : ℕ) → x < 2 → y < 2 → SameClass uf' x y ↔ SameClass two_items x y)
    × (link_at parent_of uf'.entries 1 ≡ some root)
    × (link_at parent_of uf'.entries root ≡ some root)
find_represents_example = find_represents two_items 1 two_items-IsValid (omega arith)

union_joins_example :
    (uf' : UnionFind Keys) × (r : ℕ) × (union ◌++◌ two_items 0 1 ≡ some (uf', r))
    × IsValid uf'
    × ((x y : ℕ)
        → x < 2
        → y < 2
        → SameClass uf' x y ↔ (
            SameClass two_items x y
            ⊎ (SameClass two_items x 0 × SameClass two_items y 1)
            ⊎ (SameClass two_items x 1 × SameClass two_items y 0)))
union_joins_example = union_joins ◌++◌ two_items 0 1 two_items-IsValid (omega arith) (omega arith)

map-union_example :
    (uf' : UnionFind Keys) × (r : ℕ) × (t : Keys) × (union ◌++◌ two_items 0 1 ≡ some (uf', r))
    × ((t ≡ 0 ∷ 1 ∷ []) ⊎ (t ≡ 1 ∷ 0 ∷ []))
    × ((x : ℕ)
        → x < 2
        → SameClass two_items x 0 ⊎ SameClass two_items x 1
        → (u : UnionFind Keys) × (map uf' x ≡ some (u, t)))
map-union_example =
    map-union ◌++◌ two_items two_items two_items 0 1 (item 0) (item 1) two_items-IsValid
      (omega arith) (omega arith) apart map_zero map_one
