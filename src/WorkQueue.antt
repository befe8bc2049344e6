-- ===== src/WorkQueue.antt =====
-- core/adt/queue.h: `Queue<T>`, the work queue of the points-to solver. Two vectors and a table of
-- flags that keeps an item from being queued twice. A vector is the list of its elements by index.
-- What is undefined in C++ is `none`: `Pop` on an empty queue, and a flag read past the table, which
-- happens where `item + 1` wraps to zero.
pub mod Vectors
pub mod Laws
pub mod Tests
use llir_opt.Prelude.{
  ℕ, zero, suc, ◌+◌, ◌-◌, ◌%◌, ◌^◌, Bool, true, false, List, [], ◌∷◌, ◌++◌, Option, none, some,
  length, get_elem?, set, leb, ◌==◌, ◌&&◌, if◌then◌else◌,
}

-- `std::vector<bool>::resize`: cut off, or padded with `false`.
unfoldable pub resize : ℕ → List Bool → List Bool
resize zero bs = []
resize (suc n) [] = false ∷ resize n []
resize (suc n) (b ∷ bs) = b ∷ resize n bs

-- `push_back`, and `back` with `pop_back`.
abbrev pub push_back : List ℕ → ℕ → List ℕ
push_back xs x = xs ++ x ∷ []

unfoldable pub take_back : List ℕ → Option (List ℕ × ℕ)
take_back [] = none
take_back (x ∷ xs) = elim (take_back xs) [
  | none ↦ some ([], x)
  | some (front, last) ↦ some (x ∷ front, last)
]

pub record WorkQueue : Type 0 where
  pub place : List ℕ
  pub take : List ℕ
  pub dedup : List Bool

abbrev pub empty_queue : WorkQueue
empty_queue = record { place = []; take = []; dedup = [] }

-- `if (item >= dedup_.size()) dedup_.resize(item + 1);`
unfoldable pub grow : List Bool → ℕ → List Bool
unfolding resize
grow dedup item = if leb (length dedup) item then resize ((item + 1) % 2 ^ 32) dedup else dedup

unfoldable pub push : WorkQueue → ℕ → Option WorkQueue
push q item = elim (get_elem? (grow q.dedup item) item) [
  | none ↦ none
  | some true ↦ some (record q { dedup = grow q.dedup item })
  | some false ↦
      some (record q { place = push_back q.place item; dedup = set (grow q.dedup item) item true })
]

-- `for (i = 0, n = placeQ_.size(); i < n; ++i) takeQ_.push_back(placeQ_[n - i - 1]);`
-- The first argument is the number of rounds that are left, `n - i`.
unfoldable pub refill : ℕ → List ℕ → List ℕ → Option (List ℕ)
refill zero place take = some take
refill (suc left) place take = elim (get_elem? place left) [
  | none ↦ none
  | some item ↦ refill left place (push_back take item)
]

-- The end of `Pop`, with items in `takeQ_`. The code reads the item through a reference after `pop_back`; the
-- item is what the storage held, which nothing overwrites before it is returned.
unfoldable pub pop_take : WorkQueue → Option (WorkQueue × ℕ)
pop_take q = elim (take_back q.take) [
  | none ↦ none
  | some (front, item) ↦ some (record q { take = front; dedup = set q.dedup item false }, item)
]

-- `Pop`, by what `takeQ_` holds.
unfoldable pub pop_from : List ℕ → WorkQueue → Option (WorkQueue × ℕ)
pop_from [] q = elim (refill (length q.place) q.place []) [
  | none ↦ none
  | some filled ↦ pop_take (record q { place = []; take = filled })
]
pop_from (_ ∷ _) q = pop_take q

unfoldable pub pop : WorkQueue → Option (WorkQueue × ℕ)
unfolding pop_from
pop q = pop_from q.take q

unfoldable pub is_empty : WorkQueue → Bool
is_empty q = length q.take == 0 && length q.place == 0

unfoldable pub size : WorkQueue → ℕ
size q = length q.place + length q.take
