-- ===== src/BitSet.antt =====
-- core/adt/bitset.h: `BitSet<T>` with its default of 8 words to a chunk, the only size that its
-- iterators admit. An identifier is an unsigned number of 32 bits. `__builtin_ctzll`,
-- `__builtin_clzll` and `__builtin_popcountll` are the scans of Bits.Scan. What is undefined in C++
-- is `none`: an iterator moved or read past the end of the map.
pub mod Chunk
pub mod Words
pub mod Combine
pub mod Extremes
pub mod Scan
pub mod Step
pub mod Valid
pub mod Insert
pub mod Nodes
pub mod UnionNodes
pub mod Union
pub mod Ends
pub mod Subtract
pub mod Intersect
pub mod Places
pub mod Forward
pub mod Backward
pub mod Visit
pub mod Erase
pub mod Equal
pub mod Tests
use llir_opt.Prelude.{
  ℕ, zero, suc, ◌+◌, ◌-◌, ◌*◌, ◌/◌, ◌%◌, ◌^◌, Bool, true, false, not, ◌&&◌, ◌||◌, List, [], ◌∷◌,
  Option, none, some, map, reverse, length, ltb, ◌>>=◌, ◌==◌, if◌then◌else◌,
}
use llir_opt.SortedMap.{seek, seek_back, last_entry, lookup, put, erase, at_or}
use llir_opt.BitSet.Chunk.{
  Node, empty_node, node_insert, node_contains, node_erase, node_size, same_node, node_union,
  node_subtract, node_and, node_next, node_first, node_prev, node_last,
}

abbrev pub bits_in_chunk : ℕ
bits_in_chunk = 64 * 8

abbrev pub u32_max : ℕ
u32_max = 2 ^ 32 - 1

pub record BitSet : Type 0 where
  pub first : ℕ
  pub last : ℕ
  pub nodes : List (ℕ × Node)

-- `BitSet()`, and what `Clear` leaves.
unfoldable pub empty_set : BitSet
empty_set = record { first = u32_max; last = 0; nodes = [] }

abbrev pub no_nodes : List (ℕ × Node) → Bool
no_nodes [] = true
no_nodes (_ ∷ _) = false

unfoldable pub insert : BitSet → ℕ → BitSet × Bool
insert s item =
    let key = item / bits_in_chunk in
    let node = node_insert (at_or empty_node key s.nodes) (item - key * bits_in_chunk) in
    (
      record {
        first = if ltb item s.first then item else s.first;
        last = if ltb s.last item then item else s.last;
        nodes = put key node.0 s.nodes;
      },
      node.1,
    )

unfoldable pub contains_in : Option Node → ℕ → Bool
contains_in none bit = false
contains_in (some node) bit = node_contains node bit

unfoldable pub contains : BitSet → ℕ → Bool
unfolding contains_in
contains s item =
    let key = item / bits_in_chunk in
    if ltb item s.first || ltb s.last item
    then false
    else contains_in (lookup key s.nodes) (item - key * bits_in_chunk)

-- `iterator`: the entries from its node on, and the current item.
pub record Iterator : Type 0 where
  pub it : List (ℕ × Node)
  pub current : ℕ

abbrev pub iterator_at : BitSet → ℕ → Iterator
iterator_at s current = record { it = seek (current / bits_in_chunk) s.nodes; current = current }

abbrev pub end : BitSet → Iterator
end s = iterator_at s (s.last + 1)

unfoldable pub begin : BitSet → Iterator
begin s = if no_nodes s.nodes then end s else iterator_at s s.first

-- `++it_`, and the first item of the node that it reaches.
unfoldable pub next_node : List (ℕ × Node) → Option Iterator
next_node [] = none
next_node ((key, node) ∷ rest) =
    some (record { it = (key, node) ∷ rest; current = key * bits_in_chunk + node_first node })

-- The step of `operator++` inside the node. `current_ & (kBitsInChunk - 1)` is the remainder.
unfoldable pub step_in : List (ℕ × Node) → ℕ → Option Iterator
unfolding next_node
step_in [] current = none
step_in ((key, node) ∷ rest) current =
    let next_pos = node_next node (current % bits_in_chunk) in
    if next_pos == 0
    then next_node rest
    else some (record { it = (key, node) ∷ rest; current = key * bits_in_chunk + next_pos })

-- `operator++`. `last_ + 1` has 32 bits.
unfoldable pub next : BitSet → Iterator → Option Iterator
unfolding step_in
next s i =
    if i.current == s.last
    then some (record i { current = (s.last + 1) % 2 ^ 32 })
    else step_in i.it i.current

-- `for (auto id : s)`, as `operator<<` runs it: the items in the order of the visit. One round of fuel
-- for each item and one for the end.
unfoldable pub visit : ℕ → BitSet → Iterator → Option (List ℕ)
unfolding next
visit zero s i = none
visit (suc fuel) s i =
    if i.current == (end s).current
    then some []
    else (do i' ← next s i; rest ← visit fuel s i'; some (i.current ∷ rest))

-- `reverse_iterator`: the entries from its node back. `current_` is an `int64_t`, given by its bits.
abbrev pub reverse_at : BitSet → ℕ → Iterator
reverse_at s current = record {
  it = seek_back (current / bits_in_chunk) s.nodes [];
  current = current;
}

abbrev pub rend : BitSet → Iterator
rend s = reverse_at s ((s.first + 2 ^ 64 - 1) % 2 ^ 64)

unfoldable pub rbegin : BitSet → Iterator
rbegin s = if no_nodes s.nodes then rend s else reverse_at s s.last

unfoldable pub prev_node : List (ℕ × Node) → Option Iterator
prev_node [] = none
prev_node ((key, node) ∷ rest) =
    some (record { it = (key, node) ∷ rest; current = key * bits_in_chunk + node_last node })

unfoldable pub step_back : List (ℕ × Node) → ℕ → Option Iterator
unfolding prev_node
step_back [] current = none
step_back ((key, node) ∷ rest) current =
    let next_pos = node_prev node (current % bits_in_chunk) in
    if next_pos == bits_in_chunk
    then prev_node rest
    else some (record { it = (key, node) ∷ rest; current = key * bits_in_chunk + next_pos })

unfoldable pub prev : BitSet → Iterator → Option Iterator
unfolding step_back
prev s i =
    if i.current == s.first
    then some (record i { current = (s.first + 2 ^ 32 - 1) % 2 ^ 32 })
    else step_back i.it i.current

-- `first_` and `last_` as `Erase` leaves them.
unfoldable pub erase_ends : BitSet → ℕ → Option (ℕ × ℕ)
unfolding begin next rbegin prev
erase_ends s item =
    if item == s.first && item == s.last
    then some (u32_max, 0)
    else (if item == s.first
        then (do i ← next s (begin s); some (i.current % 2 ^ 32, s.last))
        else (if item == s.last
            then (do i ← prev s (rbegin s); some (s.first, i.current % 2 ^ 32))
            else some (s.first, s.last)))

unfoldable pub erase_nodes : List (ℕ × Node) → ℕ → List (ℕ × Node)
erase_nodes nodes item =
    let key = item / bits_in_chunk in
    let node = node_erase (at_or empty_node key nodes) (item - key * bits_in_chunk) in
    let written = put key node.0 nodes in if node.1 then erase key written else written

unfoldable pub erase_item : BitSet → ℕ → Option BitSet
unfolding erase_ends erase_nodes
erase_item s item = do
  (first, last) ← erase_ends s item
  some (record { first = first; last = last; nodes = erase_nodes s.nodes item })

-- The loop of `Union` over the nodes of the other set, with the bits that it changed.
unfoldable pub union_nodes : List (ℕ × Node) → List (ℕ × Node) → List (ℕ × Node) × ℕ
union_nodes nodes [] = (nodes, 0)
union_nodes nodes ((key, that) ∷ rest) =
    let node = node_union (at_or empty_node key nodes) that in
    let later = union_nodes (put key node.0 nodes) rest in (later.0, node.1 + later.1)

unfoldable pub union_set : BitSet → BitSet → BitSet × ℕ
unfolding union_nodes
union_set s that =
    let merged = union_nodes s.nodes that.nodes in
    (
      record {
        first = if ltb that.first s.first then that.first else s.first;
        last = if ltb s.last that.last then that.last else s.last;
        nodes = merged.0;
      },
      merged.1 % 2 ^ 32,
    )

-- `ResetFirstLast`
unfoldable pub reset : List (ℕ × Node) → BitSet
reset [] = record { first = u32_max; last = 0; nodes = [] }
reset ((key, node) ∷ rest) =
    let end = last_entry (key, node) rest in
    record {
      first = (key * bits_in_chunk + node_first node) % 2 ^ 32;
      last = (end.0 * bits_in_chunk + node_last end.1) % 2 ^ 32;
      nodes = (key, node) ∷ rest;
    }

-- The loop of `Subtract`, each turn of the inner loops being a step: the nodes that are left.
unfoldable pub subtract_nodes : List (ℕ × Node) → List (ℕ × Node) → List (ℕ × Node)
subtract_nodes [] those = []
subtract_nodes ((j, v) ∷ rest) [] = (j, v) ∷ rest
subtract_nodes ((j, v) ∷ rest) ((k, w) ∷ those) =
    let skip_it = subtract_nodes rest ((k, w) ∷ those) in
    let skip_that = subtract_nodes ((j, v) ∷ rest) those in
    let node = node_subtract v w in
    if ltb j k
    then (j, v) ∷ skip_it
    else (if ltb k j then skip_that else (if node.1 then skip_it else (j, node.0) ∷ skip_it))

unfoldable pub subtract : BitSet → BitSet → BitSet
unfolding subtract_nodes reset
subtract s that = reset (subtract_nodes s.nodes that.nodes)

-- The loop of `Intersect`. It ends where the other set has no node left, and leaves the rest.
unfoldable pub intersect_nodes : List (ℕ × Node) → List (ℕ × Node) → List (ℕ × Node)
intersect_nodes [] those = []
intersect_nodes ((j, v) ∷ rest) [] = (j, v) ∷ rest
intersect_nodes ((j, v) ∷ rest) ((k, w) ∷ those) =
    let drop_it = intersect_nodes rest ((k, w) ∷ those) in
    let skip_that = intersect_nodes ((j, v) ∷ rest) those in
    let both = intersect_nodes rest those in
    let node = node_and v w in
    if ltb j k
    then drop_it
    else (if ltb k j then skip_that else (if node.1 then both else (j, node.0) ∷ both))

unfoldable pub intersect : BitSet → BitSet → BitSet
unfolding intersect_nodes reset
intersect s that = reset (intersect_nodes s.nodes that.nodes)

unfoldable pub size_nodes : List (ℕ × Node) → ℕ
size_nodes [] = 0
size_nodes ((_, node) ∷ rest) = node_size node + size_nodes rest

unfoldable pub same_nodes : List (ℕ × Node) → List (ℕ × Node) → Bool
same_nodes [] [] = true
same_nodes ((j, v) ∷ rest) ((k, w) ∷ those) = (j == k && same_node v w) && same_nodes rest those
same_nodes _ _ = false

-- `operator==`
unfoldable pub same_set : BitSet → BitSet → Bool
unfolding same_nodes
same_set s that =
    (s.first == that.first && s.last == that.last)
    && (length s.nodes == length that.nodes && same_nodes s.nodes that.nodes)
