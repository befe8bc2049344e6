-- ===== src/SortedMap/Laws.antt =====
-- What the operations of a sorted map do to the value under a key, and that they keep the order.
use mathlib.Core.Path.{subst}
use llir_opt.Prelude.{
  ℕ, ◌<◌, ◌≡◌, refl, sym, ap, ◌∙◌, inl, inr, suc, ◌≤◌, ltb→lt, Bool-cases, List, [], ◌∷◌, none,
  some, arith, ltb, ◌==◌, if◌then◌else◌,
}
use llir_opt.SortedMap.{seek, lookup, put, erase, at_or}

module _ {ℓ} {V : Type ℓ} where
  -- The keys ascend, from `b` on.
  abbrev pub From : ℕ → List (ℕ × V) → Type 0
  From b [] = Unit
  From b ((k, v) ∷ rest) = (b ≤ k) × From (suc k) rest

  pub From-weaken : (b c : ℕ) (m : List (ℕ × V)) → c ≤ b → From b m → From c m
  From-weaken b c [] l h = tt
  From-weaken b c ((k, v) ∷ rest) l h = (omega (arith, h.0), h.1)

  -- Below the bound there is no entry.
  pub lookup-From : (b k : ℕ) (m : List (ℕ × V)) → From b m → k < b → lookup k m ≡ none
  unfolding lookup
  lookup-From b k [] h l = refl
  lookup-From b k ((j, v) ∷ rest) h l =
      ground (arith, h.0, lookup-From (suc j) k rest h.1 (omega (arith, h.0)))

  pub lookup_bound : (b k : ℕ) (v : V) (m : List (ℕ × V)) → From b m → lookup k m ≡ some v → b ≤ k
  lookup_bound b k v m h e = elim (Bool-cases (ltb k b)) [
    | inl l ↦ absurd (cc (e, lookup-From b k m h (ltb→lt k b l)))
    | inr l ↦ ground arith
  ]

  pub lookup-put :
      (k q : ℕ) (v : V) (m : List (ℕ × V))
      → lookup q (put k v m) ≡ (if q == k then some v else lookup q m)
  unfolding lookup put
  lookup-put k q v [] = ground arith
  lookup-put k q v ((j, w) ∷ rest) = ground (arith, lookup-put k q v rest)

  pub put-From : (b k : ℕ) (v : V) (m : List (ℕ × V)) → b ≤ k → From b m → From b (put k v m)
  unfolding put
  put-From b k v [] l h = (l, tt)
  put-From b k v ((j, w) ∷ rest) l h = elim (Bool-cases (ltb k j)) [
    | inl e ↦ rw e (l, (ltb→lt k j e, h.1))
    | inr e ↦ rw e (elim (Bool-cases (j == k)) [
      | inl f ↦ let same : j ≡ k = ground arith in rw f (l, subst (λ n. From (suc n) rest) same h.1)
      | inr f ↦ rw f (h.0, put-From (suc j) k v rest (ground arith) h.1)
    ])
  ]

  pub erase-From : (b k : ℕ) (m : List (ℕ × V)) → From b m → From b (erase k m)
  unfolding erase
  erase-From b k [] h = tt
  erase-From b k ((j, w) ∷ rest) h = elim (Bool-cases (j == k)) [
    | inl e ↦ rw e (From-weaken (suc j) b rest (omega (arith, h.0)) h.1)
    | inr e ↦ rw e (h.0, erase-From (suc j) k rest h.1)
  ]

  pub lookup-erase :
      (b k q : ℕ) (m : List (ℕ × V))
      → From b m
      → lookup q (erase k m) ≡ (if q == k then none else lookup q m)
  unfolding lookup erase
  lookup-erase b k q [] h = ground arith
  lookup-erase b k q ((j, w) ∷ rest) h =
      ground (arith, lookup-erase (suc j) k q rest h.1, lookup-From (suc j) q rest h.1)

  -- The iterator at a key that is there: the entries after it are the map above the key.
  pub record After (k : ℕ) (v : V) (m : List (ℕ × V)) : Type ℓ where
    pub rest : List (ℕ × V)
    pub found : seek k m ≡ (k, v) ∷ rest
    pub above : From (suc k) rest
    pub agrees : (q : ℕ) → k < q → lookup q rest ≡ lookup q m
    pub onward : (q : ℕ) → k < q → seek q rest ≡ seek q m

  pub seek-After :
      (b k : ℕ) (v : V) (m : List (ℕ × V)) → From b m → lookup k m ≡ some v → After k v m
  unfolding lookup seek
  seek-After b k v [] h e = cc
  seek-After b k v ((j, w) ∷ rest) h e = elim (Bool-cases (j == k)) [
    | inl f ↦
        let same : j ≡ k = ground arith in
        let value : w ≡ v = ground arith in
        record {
          rest = rest;
          found = rw (f, same, value) refl;
          above = subst (λ n. From (suc n) rest) same h.1;
          agrees = λ q l. ground arith;
          onward = λ q l. ground arith;
        }
    | inr f ↦
        let a = seek-After (suc j) k v rest h.1 (ground arith) in
        let past = lookup_bound (suc j) k v rest h.1 (ground arith) in
        record {
          rest = a.rest;
          found = rw f a.found;
          above = a.above;
          agrees = λ q l. a.agrees q l ∙ ground arith;
          onward = λ q l. a.onward q l ∙ ground arith;
        }
  ]

  first_key :
      (k j : ℕ) (v w : V) (m n : List (ℕ × V))
      → From (suc j) n
      → ((q : ℕ) → lookup q ((k, v) ∷ m) ≡ lookup q ((j, w) ∷ n))
      → (j ≤ k) × (k ≡ j → v ≡ w)
  unfolding lookup
  first_key k j v w m n q h = ground (arith, h k, lookup-From (suc j) k n q)

  -- Maps with the same values under all keys are the same list.
  pub eq_of_lookup :
      (b : ℕ) (m n : List (ℕ × V))
      → From b m
      → From b n
      → ((q : ℕ) → lookup q m ≡ lookup q n)
      → m ≡ n
  unfolding lookup
  eq_of_lookup b [] [] p q h = refl
  eq_of_lookup b [] ((j, w) ∷ n) p q h = absurd (ground (arith, h j))
  eq_of_lookup b ((k, v) ∷ m) [] p q h = absurd (ground (arith, h k))
  eq_of_lookup b ((k, v) ∷ m) ((j, w) ∷ n) p q h =
      let (below, value) = first_key k j v w m n q.1 h in
      let (above, _) = first_key j k w v n m p.1 (λ i. sym (h i)) in
      let same : k ≡ j = omega arith in
      let tails = eq_of_lookup (suc k) m n p.1 (subst (λ i. From (suc i) n) (sym same) q.1) (λ i.
        ground (arith, h i, same, lookup-From (suc k) i m p.1, lookup-From (suc j) i n q.1)) in
      ap (λ i. (i, v) ∷ m) same ∙ ap (λ u. (j, u) ∷ m) (value same) ∙ ap (λ r. (j, w) ∷ r) tails

  -- What `operator[]` reads.
  pub at_or-cons :
      (d : V) (k j : ℕ) (v : V) (rest : List (ℕ × V))
      → at_or d k ((j, v) ∷ rest) ≡ (if j == k then v else at_or d k rest)
  unfolding at_or lookup
  at_or-cons d k j v rest = elim (Bool-cases (j == k)) [
    | inl e ↦ rw (at_or, e) refl
    | inr e ↦ rw (at_or, e) refl
  ]

  pub at_or-From : (d : V) (b k : ℕ) (m : List (ℕ × V)) → From b m → k < b → at_or d k m ≡ d
  unfolding at_or
  at_or-From d b k m h l = rw (at_or, lookup-From b k m h l) refl
