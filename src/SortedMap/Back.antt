-- ===== src/SortedMap/Back.antt =====
-- `std::map` with unsigned keys: an iterator that steps back has the entries with smaller keys.
use llir_opt.Prelude.{
  ℕ, ◌<◌, ◌≡◌, refl, sym, ◌∙◌, inl, inr, suc, ◌≤◌, Bool-cases, true, false, List, [], ◌∷◌, none,
  some, arith, ltb, ◌==◌, if◌then◌else◌,
}
use llir_opt.SortedMap.{seek, lookup, seek_back}
use llir_opt.SortedMap.Laws.{From, lookup-From}

-- The same choice, whichever bound is tested first.
same_choice {ℓ} :
    {A : Type ℓ} (b j q : ℕ) (x y z missing : A)
    → b ≤ j
    → (b ≤ q → x ≡ missing)
    → (q < suc j → z ≡ missing)
    → (if ltb q (suc j) then (if j == q then y else x) else z)
      ≡ (if ltb q b then x else (if j == q then y else z))
same_choice b j q x y z missing l p r = elim (Bool-cases (ltb q b)) [
  | inl g ↦
      let low : ltb q (suc j) ≡ true = ground arith in
      let other : (j == q) ≡ false = ground arith in rw (g, low, other) refl
  | inr g ↦ elim (Bool-cases (j == q)) [
    | inl f ↦ let low : ltb q (suc j) ≡ true = ground arith in rw (g, low, f) refl
    | inr f ↦ elim (Bool-cases (ltb q (suc j))) [
      | inl low ↦ rw (g, low, f) (p (ground arith) ∙ sym (r (ground arith)))
      | inr high ↦ rw (g, high, f) refl
    ]
  ]
]

module _ {ℓ} {V : Type ℓ} where
  -- The keys descend, below `b`.
  abbrev pub Down : ℕ → List (ℕ × V) → Type 0
  Down b [] = Unit
  Down b ((k, v) ∷ rest) = (k < b) × Down k rest

  Down-weaken : (b c : ℕ) (m : List (ℕ × V)) → b ≤ c → Down b m → Down c m
  Down-weaken b c [] l h = tt
  Down-weaken b c ((k, v) ∷ rest) l h = (omega (arith, h.0), h.1)

  -- From the bound on there is no entry.
  pub lookup-Down :
      (b q : ℕ) (m : List (ℕ × V)) → Down b m → b ≤ q → (lookup q m ≡ none) × (seek q m ≡ [])
  unfolding lookup seek
  lookup-Down b q [] h l = (refl, refl)
  lookup-Down b q ((j, v) ∷ rest) h l =
      let (gone, past) = lookup-Down j q rest h.1 (omega (arith, h.0)) in
      (ground (arith, h.0, gone), ground (arith, h.0, past))

  seek_back-From :
      (b q : ℕ) (m passed : List (ℕ × V)) → From b m → q < b → seek_back q m passed ≡ []
  unfolding seek_back
  seek_back-From b q [] passed h l = refl
  seek_back-From b q ((j, v) ∷ rest) passed h l =
      ground (arith, h.0, seek_back-From (suc j) q rest ((j, v) ∷ passed) h.1 (omega (arith, h.0)))

  -- The iterator at a key that is there, the entries `passed` being below `b`.
  record BackFrom (b k : ℕ) (v : V) (m passed : List (ℕ × V)) : Type ℓ where
    rest : List (ℕ × V)
    found : seek_back k m passed ≡ (k, v) ∷ rest
    below : Down k rest
    agrees : (q : ℕ) → q < k → lookup q rest ≡ (if ltb q b then lookup q passed else lookup q m)
    back : (q : ℕ) → q < k → seek q rest ≡ (if ltb q b then seek q passed else seek_back q m passed)

  seek_back-BackFrom :
      (b k : ℕ) (v : V) (m passed : List (ℕ × V))
      → From b m
      → Down b passed
      → lookup k m ≡ some v
      → BackFrom b k v m passed
  unfolding lookup seek seek_back
  seek_back-BackFrom b k v [] passed h d e = cc
  seek_back-BackFrom b k v ((j, w) ∷ rest) passed h d e = elim (Bool-cases (j == k)) [
    | inl f ↦
        let same : j ≡ k = ground arith in
        let value : w ≡ v = ground arith in
        record {
          rest = passed;
          found = rw (f, same, value) refl;
          below = Down-weaken b k passed (omega (arith, h.0)) d;
          agrees = λ q l. elim (Bool-cases (ltb q b)) [
            | inl g ↦ rw g refl
            | inr g ↦
                let other : (j == q) ≡ false = ground arith in
                let gone = (lookup-Down b q passed d (ground arith)).0 in
                let past = lookup-From (suc j) q rest h.1 (omega (arith, same, l)) in
                rw (g, other) (gone ∙ sym past)
          ];
          back = λ q l. elim (Bool-cases (ltb q b)) [
            | inl g ↦ rw g refl
            | inr g ↦
                let other : (j == q) ≡ false = ground arith in
                let gone = (lookup-Down b q passed d (ground arith)).1 in
                let past =
                  seek_back-From (suc j) q rest ((j, w) ∷ passed) h.1 (omega (arith, same, l)) in
                rw (g, other) (gone ∙ sym past)
          ];
        }
    | inr f ↦
        let a =
          seek_back-BackFrom (suc j) k v rest ((j, w) ∷ passed) h.1
            (omega arith, Down-weaken b j passed h.0 d) (ground arith) in
        record {
          rest = a.rest;
          found = rw f a.found;
          below = a.below;
          agrees = λ q l.
              a.agrees q l
              ∙ same_choice b j q (lookup q passed) (some w) (lookup q rest) none h.0
                  (λ g. (lookup-Down b q passed d g).0) (lookup-From (suc j) q rest h.1);
          back = λ q l.
              a.back q l
              ∙ same_choice b j q (seek q passed) ((j, w) ∷ passed)
                  (seek_back q rest ((j, w) ∷ passed)) [] h.0 (λ g. (lookup-Down b q passed d g).1)
                  (seek_back-From (suc j) q rest ((j, w) ∷ passed) h.1);
        }
  ]

  -- The iterator that steps back, at a key that is there: the entries after it are the map below the
  -- key.
  pub record Before (k : ℕ) (v : V) (m : List (ℕ × V)) : Type ℓ where
    pub rest : List (ℕ × V)
    pub found : seek_back k m [] ≡ (k, v) ∷ rest
    pub below : Down k rest
    pub agrees : (q : ℕ) → q < k → lookup q rest ≡ lookup q m
    pub back : (q : ℕ) → q < k → seek q rest ≡ seek_back q m []

  pub seek_back-Before :
      (k : ℕ) (v : V) (m : List (ℕ × V)) → From 0 m → lookup k m ≡ some v → Before k v m
  seek_back-Before k v m h e =
      let a = seek_back-BackFrom 0 k v m [] h tt e in
      record {
        rest = a.rest;
        found = a.found;
        below = a.below;
        agrees = λ q l. a.agrees q l ∙ ground arith;
        back = λ q l. a.back q l ∙ ground arith;
      }
