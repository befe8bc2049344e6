-- ===== src/SortedMap.antt =====
-- `std::map` with unsigned keys: the entries by ascending key. `find` and `erase` are the methods;
-- `put` is a write through `operator[]`, and `at_or` a read through it, which makes a missing entry.
pub mod Laws
pub mod Back
use llir_opt.Prelude.{
  ℕ, ◌≡◌, Bool, true, false, List, [], ◌∷◌, Option, none, some, ltb, ◌==◌, if◌then◌else◌,
}

module _ {ℓ} {V : Type ℓ} where
  -- The entries from the one with the key on: the iterator, `[]` being the end.
  unfoldable pub seek : ℕ → List (ℕ × V) → List (ℕ × V)
  seek k [] = []
  seek k ((j, v) ∷ rest) = let later = seek k rest in if j == k then (j, v) ∷ rest else later

  unfoldable pub lookup : ℕ → List (ℕ × V) → Option V
  lookup k [] = none
  lookup k ((j, v) ∷ rest) = let later = lookup k rest in if j == k then some v else later

  unfoldable pub put : ℕ → V → List (ℕ × V) → List (ℕ × V)
  put k v [] = (k, v) ∷ []
  put k v ((j, w) ∷ rest) =
      let later = put k v rest in
      if ltb k j then (k, v) ∷ (j, w) ∷ rest else (if j == k then (k, v) ∷ rest else (j, w) ∷ later)

  unfoldable pub erase : ℕ → List (ℕ × V) → List (ℕ × V)
  erase k [] = []
  erase k ((j, w) ∷ rest) = let later = erase k rest in if j == k then rest else (j, w) ∷ later

  -- The value under the key, or the one that `operator[]` makes.
  unfoldable pub at_or : V → ℕ → List (ℕ × V) → V
  unfolding lookup
  at_or d k entries = elim (lookup k entries) [ none ↦ d | some v ↦ v ]

  -- The entry with the key and those before it, the nearest first: an iterator that steps back.
  unfoldable pub seek_back : ℕ → List (ℕ × V) → List (ℕ × V) → List (ℕ × V)
  seek_back k [] passed = []
  seek_back k ((j, v) ∷ rest) passed =
      let later = seek_back k rest ((j, v) ∷ passed) in if j == k then (j, v) ∷ passed else later

  -- `*m.rbegin()`, with the entry seen so far.
  unfoldable pub last_entry : ℕ × V → List (ℕ × V) → ℕ × V
  last_entry e [] = e
  last_entry e (d ∷ rest) = last_entry d rest
