-- ===== src/Tags/Sat/Two/Entries.antt =====
-- passes/tags/sat_2.cpp: the components of the nodes, which no two nodes share where every component is
-- given to one node.
use llir_opt.Prelude.{
  ℕ, suc, ◌<◌, ◌≡◌, ◌≢◌, refl, sym, ap, ◌∙◌, ◌⊎◌, inl, inr, true, false, List, [], ◌∷◌, none, some,
  arith, ◌==◌, if◌then◌else◌, Bool-cases, Option-cases,
}
use llir_opt.Tags.Sat.Two.{negate, find_scc, emplace, find_unsat}

-- Every entry is the one that `find` finds.
abbrev pub Found : List (ℕ × ℕ) → List (ℕ × ℕ) → Type 0
Found [] all = Unit
Found ((w, scc) ∷ rest) all = (find_scc w all ≡ some scc) × Found rest all

-- The keys are below `size`, the components below `count`, and no two nodes share one.
pub record Alone (size count : ℕ) (entries : List (ℕ × ℕ)) : Type 0 where
  pub keys : (v a : ℕ) → find_scc v entries ≡ some a → v < size
  pub values : (v a : ℕ) → find_scc v entries ≡ some a → a < count
  pub apart : (v w a : ℕ) → find_scc v entries ≡ some a → find_scc w entries ≡ some a → v ≡ w
  pub found : Found entries entries

find_scc-cons :
    (v w a : ℕ) (entries : List (ℕ × ℕ))
    → find_scc v ((w, a) ∷ entries) ≡ (if w == v then some a else find_scc v entries)
unfolding find_scc
find_scc-cons v w a entries = refl

Found-cons :
    (es all : List (ℕ × ℕ)) (v a : ℕ)
    → find_scc v all ≡ none
    → Found es all
    → Found es ((v, a) ∷ all)
Found-cons [] all v a n h = tt
Found-cons ((w, scc) ∷ rest) all v a n h = (here, Found-cons rest all v a n h.1)
  where
    here : find_scc w ((v, a) ∷ all) ≡ some scc
    here = find_scc-cons w v a all ∙ elim (Bool-cases (v == w)) [
      | inl e ↦ let same : v ≡ w = ground arith in absurd (cc (h.0, n, same))
      | inr e ↦ rw e (h.0)
    ]

emplace-old :
    (v count a : ℕ) (entries : List (ℕ × ℕ))
    → find_scc v entries ≡ some a
    → emplace v count entries ≡ entries
unfolding emplace
emplace-old v count a entries e = rw (emplace, e) refl

emplace-new :
    (v count : ℕ) (entries : List (ℕ × ℕ))
    → find_scc v entries ≡ none
    → emplace v count entries ≡ (v, count) ∷ entries
unfolding emplace
emplace-new v count entries e = rw (emplace, e) refl

-- A new component is given to at most one node.
pub emplace-Alone :
    (size count v : ℕ) (entries : List (ℕ × ℕ))
    → v < size
    → Alone size count entries
    → Alone size (suc count) (emplace v count entries)
emplace-Alone size count v entries l h = elim (Option-cases (find_scc v entries)) [
  | inr (a, e) ↦ rw (emplace-old v count a entries e) (record {
    keys = h.keys;
    values = λ w b f. omega (arith, h.values w b f);
    apart = h.apart;
    found = h.found;
  })
  | inl e ↦ rw (emplace-new v count entries e) (record {
    keys = λ w b f. elim (Bool-cases (v == w)) [
      | inl i ↦ ground arith
      | inr i ↦ h.keys w b (sym (rest w i) ∙ f)
    ];
    values = λ w b f. elim (Bool-cases (v == w)) [
      | inl i ↦ let new : some count ≡ some b = sym (first w i) ∙ f in ground arith
      | inr i ↦ omega (arith, h.values w b (sym (rest w i) ∙ f))
    ];
    apart = λ w u b f g. elim (Bool-cases (v == w)) [
      | inl i ↦ elim (Bool-cases (v == u)) [
        | inl j ↦ ground arith
        | inr j ↦
            let new : some count ≡ some b = sym (first w i) ∙ f in
            let old = h.values u b (sym (rest u j) ∙ g) in absurd (ground arith)
      ]
      | inr i ↦ elim (Bool-cases (v == u)) [
        | inl j ↦
            let new : some count ≡ some b = sym (first u j) ∙ g in
            let old = h.values w b (sym (rest w i) ∙ f) in absurd (ground arith)
        | inr j ↦ h.apart w u b (sym (rest w i) ∙ f) (sym (rest u j) ∙ g)
      ]
    ];
    found = (first v (ground arith), Found-cons entries entries v count e h.found);
  })
]
  where
    first : (w : ℕ) → (v == w) ≡ true → find_scc w ((v, count) ∷ entries) ≡ some count
    first w i = find_scc-cons w v count entries ∙ rw i refl

    rest : (w : ℕ) → (v == w) ≡ false → find_scc w ((v, count) ∷ entries) ≡ find_scc w entries
    rest w i = find_scc-cons w v count entries ∙ rw i refl

-- `emplace` keeps the entries and finds the new one.
pub emplace-keeps :
    (v count w a : ℕ) (entries : List (ℕ × ℕ))
    → find_scc w entries ≡ some a
    → find_scc w (emplace v count entries) ≡ some a
emplace-keeps v count w a entries f = elim (Option-cases (find_scc v entries)) [
  | inr (b, e) ↦ rw (emplace-old v count b entries e) f
  | inl e ↦ rw (emplace-new v count entries e) (
      find_scc-cons w v count entries ∙ elim (Bool-cases (v == w)) [
        | inl i ↦ let same : v ≡ w = ground arith in absurd (cc (e, f, same))
        | inr i ↦ rw i f
      ])
]

pub emplace-finds :
    (v count : ℕ) (entries : List (ℕ × ℕ))
    → (a : ℕ) × (find_scc v (emplace v count entries) ≡ some a)
emplace-finds v count entries = elim (Option-cases (find_scc v entries)) [
  | inr (b, e) ↦ (b, rw (emplace-old v count b entries e) e)
  | inl e ↦ (
    count,
    rw (emplace-new v count entries e) (
        find_scc-cons v v count entries
        ∙ (let same : (v == v) ≡ true = ground arith in rw same refl)),
  )
]

-- An entry is an old one or the new one.
pub emplace-cases :
    (v count w a : ℕ) (entries : List (ℕ × ℕ))
    → find_scc w (emplace v count entries) ≡ some a
    → (find_scc w entries ≡ some a) ⊎ ((w ≡ v) × (a ≡ count))
emplace-cases v count w a entries f = elim (Option-cases (find_scc v entries)) [
  | inr (b, e) ↦ inl (ap (find_scc w) (sym (emplace-old v count b entries e)) ∙ f)
  | inl e ↦
      let new =
        sym (find_scc-cons w v count entries)
        ∙ ap (find_scc w) (sym (emplace-new v count entries e))
        ∙ f in
      elim (Bool-cases (v == w)) [
        | inl i ↦
            let here : some count ≡ some a = rw i refl ∙ new in inr (ground arith, ground arith)
        | inr i ↦ let rest : find_scc w entries ≡ some a = rw i refl ∙ new in inl rest
      ]
]

negate-ne : (lit : ℕ) → lit ≢ negate lit
unfolding negate
negate-ne lit = ground arith

-- The last loop finds the component of each negation, and never that of the literal.
pub find_unsat-false :
    (size count : ℕ) (entries es : List (ℕ × ℕ))
    → Alone size count entries
    → Found es entries
    → ((v : ℕ) → v < size → (a : ℕ) × (find_scc (negate v) entries ≡ some a))
    → find_unsat entries es ≡ some false
unfolding find_unsat
find_unsat-false size count entries [] h f k = refl
find_unsat-false size count entries ((lit, scc) ∷ rest) h f k =
    let (other, e) = k lit (h.keys lit scc f.0) in
    let later = find_unsat-false size count entries rest h f.1 k in
    let apart : (scc == other) ≡ false = different other e in rw (e, later, apart) refl
  where
    different : (other : ℕ) → find_scc (negate lit) entries ≡ some other → (scc == other) ≡ false
    different other e = elim (Bool-cases (scc == other)) [
      | inr i ↦ i
      | inl i ↦
          let same : scc ≡ other = ground arith in
          absurd (negate-ne lit (h.apart lit (negate lit) scc f.0 (e ∙ ap some (sym same))))
    ]
