-- ===== src/BitSet/Tests.antt =====
-- core/adt/bitset.h: the laws of the set at sets of one and of two chunks.
use llir_opt.Prelude.{
  ℕ, ◌-◌, ◌%◌, ◌^◌, ◌≡◌, ◌↔◌, refl, true, false, not, ◌&&◌, ◌||◌, some, arith, ◌==◌,
}
use llir_opt.BitSet.{
  BitSet, empty_set, insert, contains, erase_item, union_set, subtract, intersect, size_nodes,
  begin, visit, same_set,
}
use llir_opt.SortedMap.{lookup, put, at_or}
use llir_opt.BitSet.Chunk.{node_insert, node_and}
use llir_opt.BitSet.Valid.{mem, IsValid}
use llir_opt.BitSet.Insert.{empty_set-IsValid, mem-insert}
use llir_opt.BitSet.Union.{mem-union}
use llir_opt.BitSet.Subtract.{mem-subtract}
use llir_opt.BitSet.Intersect.{beyond, mem-intersect}
use llir_opt.BitSet.Visit.{select, visit-begin}
use llir_opt.BitSet.Erase.{mem-erase_item}
use llir_opt.BitSet.Equal.{contains-same_set}

abbrev five : BitSet
five = (insert empty_set 5).0

abbrev five_and_600 : BitSet
five_and_600 = (insert five 600).0

five-IsValid : IsValid five
five-IsValid = (mem-insert empty_set 5 empty_set-IsValid.0 (omega arith)).0

five_and_600-IsValid : IsValid five_and_600
five_and_600-IsValid = (mem-insert five 600 five-IsValid (omega arith)).0

insert_again : (insert five 5).1 ≡ false
unfolding insert node_insert at_or put empty_set
insert_again = refl

mem-insert_example :
    IsValid (insert five 600).0
    × ((x : ℕ) → mem (insert five 600).0.nodes x ≡ (x == 600 || mem five.nodes x))
    × ((insert five 600).1 ≡ not (mem five.nodes 600))
mem-insert_example = mem-insert five 600 five-IsValid (omega arith)

mem-erase_item_example :
    (s' : BitSet) × (erase_item five_and_600 5 ≡ some s')
    × IsValid s'
    × ((x : ℕ) → mem s'.nodes x ≡ (not (x == 5) && mem five_and_600.nodes x))
unfolding insert put empty_set
mem-erase_item_example = mem-erase_item five_and_600 5 five_and_600-IsValid refl (omega arith)

mem-union_example :
    IsValid (union_set five five_and_600).0
    × ((x : ℕ)
        → mem (union_set five five_and_600).0.nodes x
          ≡ (mem five.nodes x || mem five_and_600.nodes x))
    × ((union_set five five_and_600).1
        ≡ (size_nodes (union_set five five_and_600).0.nodes - size_nodes five.nodes) % 2 ^ 32)
mem-union_example = mem-union five five_and_600 five-IsValid five_and_600-IsValid

mem-subtract_example :
    IsValid (subtract five_and_600 five)
    × ((x : ℕ)
        → mem (subtract five_and_600 five).nodes x
          ≡ (mem five_and_600.nodes x && not (mem five.nodes x)))
mem-subtract_example = mem-subtract five_and_600 five five_and_600-IsValid five-IsValid

mem-intersect_example :
    IsValid (intersect five_and_600 five)
    × ((x : ℕ)
        → mem (intersect five_and_600 five).nodes x
          ≡ (mem five_and_600.nodes x && (mem five.nodes x || beyond five.nodes x)))
mem-intersect_example = mem-intersect five_and_600 five five_and_600-IsValid five-IsValid

-- The chunk of 600 comes after the chunks of the other set, and 600 is left.
intersect_leaves : mem (intersect five_and_600 five).nodes 600 ≡ true
unfolding intersect insert lookup put empty_set node_and node_insert at_or
intersect_leaves = refl

visit-begin_example :
    visit 700 five_and_600 (begin five_and_600) ≡ some (select (mem five_and_600.nodes) 0 601)
unfolding insert empty_set
visit-begin_example =
    visit-begin 700 601 five_and_600 five_and_600-IsValid (omega arith) (omega arith) (omega arith)

contains-same_set_example :
    ((item : ℕ) → contains five item ≡ mem five.nodes item)
    × ((same_set five five_and_600 ≡ true)
        ↔ ((x : ℕ) → mem five.nodes x ≡ mem five_and_600.nodes x))
contains-same_set_example = contains-same_set five five_and_600 five-IsValid five_and_600-IsValid
