-- ===== src/UnionFind/Find.antt =====
-- `Find` on a valid structure: it returns the representative, compresses the path, and changes no
-- class, no rank, no element and no counter.
use llir_opt.Prelude.{
  ℕ, suc, ◌+◌, ◌<◌, ◌≡◌, refl, sym, ap, ◌∙◌, ◌≢◌, ◌⊎◌, inl, inr, List, [], ◌∷◌, some, arith, length,
  get_elem?, ◌==◌, ==_iff, ==_ne, Bool-cases, Option-cases, get_elem?_lt, get_elem?_total,
  eq_of_some,
}
use llir_opt.Forest.{link_at}
use llir_opt.Forest.Walk.{Compressed, Relinked, find_lem, Compressed-root_iff, link_at_of}
use llir_opt.UnionFind.{Entry, UnionFind, parent_of, set_parent, find}
use llir_opt.UnionFind.Valid.{is_some, rank_at, count_elements, Root, IsValid, rank_at-le}

module _ {ℓ} {T : Type ℓ} where
  -- Two vectors that agree but for the links.
  abbrev pub SameItems : List (Entry T) → List (Entry T) → Type ℓ
  SameItems es es' =
      (x : ℕ) (e' : Entry T)
      → get_elem? es' x ≡ some e'
      → (e : Entry T) × (get_elem? es x ≡ some e) × (e'.rank ≡ e.rank) × (e'.element ≡ e.element)

  Relinked-SameItems :
      (es es' : List (Entry T)) (root : ℕ)
      → Relinked parent_of set_parent (λ e r. refl) es es' root
      → SameItems es es'
  Relinked-SameItems es es' root r x e' at =
      let (e, at', new) = r x e' at in
      let (ranks, elements) = kept e e' new in (e, at', ranks, elements)
    where
      kept :
          (e e' : Entry T)
          → (e' ≡ e) ⊎ (e' ≡ set_parent e root)
          → (e'.rank ≡ e.rank) × (e'.element ≡ e.element)
      kept e e' (inl same) =
          (ap (λ (t : Entry T). t.rank) same, ap (λ (t : Entry T). t.element) same)
      kept e e' (inr new) = (ap (λ (t : Entry T). t.rank) new, ap (λ (t : Entry T). t.element) new)

  count_elements-SameItems :
      (es es' : List (Entry T))
      → length es' ≡ length es
      → SameItems es es'
      → count_elements es' ≡ count_elements es
  count_elements-SameItems [] [] l s = refl
  count_elements-SameItems [] (e' ∷ es') l s = absurd (omega arith)
  count_elements-SameItems (e ∷ es) [] l s = absurd (omega arith)
  count_elements-SameItems (e ∷ es) (e' ∷ es') l s =
      let (f, at, _, same) = s 0 e' refl in
      let here : e'.element ≡ e.element =
        same ∙ ap (λ (t : Entry T). t.element) (eq_of_some (sym at)) in
      let rest = count_elements-SameItems es es' (omega arith) (λ x. s (suc x)) in
      elim (Option-cases e.element) [
        | inl gone ↦ simp (here, gone) rest
        | inr (t, has) ↦ simp (here, has) (ap suc rest)
      ]

  rank_at-SameItems :
      (es es' : List (Entry T))
      → length es' ≡ length es
      → SameItems es es'
      → (x : ℕ) → rank_at es' x ≡ rank_at es x
  rank_at-SameItems es es' l s x = elim (Option-cases (get_elem? es' x)) [
    | inl gone ↦ elim (Option-cases (get_elem? es x)) [
      | inl gone' ↦ rw (gone, gone', rank_at) refl
      | inr (e, at) ↦
          let (e', at') = get_elem?_total es' x (omega (arith, get_elem?_lt es x e at)) in cc
    ]
    | inr (e', at') ↦ let (e, at, r, _) = s x e' at' in rw (at', at, rank_at) r
  ]

  -- What a call of `Find` leaves behind.
  pub record Found (uf uf' : UnionFind T) : Type ℓ where
    pub valid : IsValid uf'
    pub capacity : length uf'.entries ≡ length uf.entries
    pub size : uf'.size ≡ uf.size
    pub items : SameItems uf.entries uf'.entries
    pub roots : (x r : ℕ) → Root uf x r → Root uf' x r

  pub enough :
      (uf : UnionFind T)
      → IsValid uf
      → (x y : ℕ) → y < length uf.entries
      → rank_at uf.entries y < rank_at uf.entries x + suc (length uf.entries)
  enough uf v x y h = omega (arith, rank_at-le v y)

  module _ (uf : UnionFind T) (v : IsValid uf) {es' : List (Entry T)} {root : ℕ}
      (c : Compressed parent_of set_parent
        (λ e r. refl)
        (length uf.entries)
        (rank_at uf.entries)
        uf.entries
        es'
        root) where
    items : SameItems uf.entries es'
    items = Relinked-SameItems uf.entries es' root c.relinked

    compressed-owned :
        (x : ℕ) (e' : Entry T) → get_elem? es' x ≡ some e' → (e'.parent == x) ≡ is_some e'.element
    compressed-owned x e' at' =
        let (e, at, _, same) = items x e' at' in
        let within = get_elem?_lt uf.entries x e at in
        let tops =
          Compressed-root_iff parent_of set_parent (λ e r. refl) c v.forest
            (suc (length uf.entries)) x (enough uf v x) within in
        let old = link_at_of parent_of uf.entries x e at in
        let new = link_at_of parent_of es' x e' at' in
        let owns = v.owned x e at in
        elim (Bool-cases (e.parent == x)) [
          | inl top ↦
              let link : some e'.parent ≡ some x =
                sym new ∙ tops.1 (old ∙ ap some ((==_iff e.parent x).0 top)) in
              (==_iff e'.parent x).1 (eq_of_some link) ∙ (sym top ∙ owns) ∙ sym (ap is_some same)
          | inr inner ↦
              let no_link : e'.parent ≢ x =
                λ k. cc ((==_iff e.parent x).1 (eq_of_some (sym old ∙ tops.0 (new ∙ ap some k)))) in
              ==_ne e'.parent x no_link ∙ (sym inner ∙ owns) ∙ sym (ap is_some same)
        ]

    compressed-Found : Found uf (record uf { entries = es' })
    compressed-Found = record {
      valid = record {
        forest = record {
          present = λ x h.
              let (p, at, lt) = c.forest.present x (omega (arith, c.size)) in
              (p, at, omega (arith, c.size));
          rises = λ x p at d. omega (
            arith,
            c.forest.rises x p at d,
            rank_at-SameItems uf.entries es' c.size items x,
            rank_at-SameItems uf.entries es' c.size items p,
          );
        };
        ranked = λ x e' at'.
            let (e, at, same, _) = items x e' at' in omega (arith, v.ranked x e at, c.size);
        owned = compressed-owned;
        counted = v.counted ∙ sym (count_elements-SameItems uf.entries es' c.size items);
        narrow = omega (arith, c.size, v.narrow);
      };
      capacity = c.size;
      size = refl;
      items = items;
      roots = c.roots;
    }

  -- On a valid structure `Find` returns the representative of any identifier.
  pub find-Found :
      (uf : UnionFind T) (i : ℕ)
      → IsValid uf
      → i < length uf.entries
      → (root : ℕ) × (uf' : UnionFind T) × Root uf i root
        × (find uf i ≡ some (uf', root))
        × Found uf uf'
        × (link_at parent_of uf'.entries i ≡ some root)
  unfolding find
  find-Found uf i v h =
      let (root, es', path, ends, c, up) =
        find_lem parent_of set_parent (λ e r. refl) (λ e r s. refl) (suc (length uf.entries))
          (length uf.entries) (rank_at uf.entries) uf.entries i v.forest h (enough uf v i) in
      (root, record uf { entries = es' }, path, rw ends refl, compressed-Found uf v c, up)
