-- ===== src/UnionFind/Classes.antt =====
-- The classes that the structure stands for: `Emplace` adds a class of one, and `Union` makes one
-- class of two.
use mathlib.Core.Path.{subst}
use native.Mathlib.Decide.{ℕ_discrete}
use llir_opt.Prelude.{
  ℕ, suc, ◌≤◌, ◌<◌, ◌≡◌, refl, sym, ap, ◌∙◌, ◌≢◌, ◌⊎◌, inl, inr, false, some, arith, length,
  get_elem?, ltb, ◌==◌, ==_iff, ==_ne, if◌then◌else◌, Bool-cases, Option-cases,
}
use llir_opt.Forest.{link_at}
use llir_opt.Forest.Roots.{RootOf-functional, RootOf-root, RootOf-total}
use llir_opt.Forest.Walk.{link_at_inv}
use llir_opt.UnionFind.{Entry, UnionFind, parent_of, find, get, union, unite, attach}
use llir_opt.UnionFind.Valid.{is_some, Root, IsValid}
use llir_opt.UnionFind.Find.{Found, find-Found, enough}
use llir_opt.UnionFind.Merge.{attach-IsValid, attach-Root, attach-get, attach-size, after-size}

module _ {ℓ} {T : Type ℓ} where
  pub top_entry :
      (uf : UnionFind T) (r : ℕ)
      → IsValid uf
      → link_at parent_of uf.entries r ≡ some r
      → (e : Entry T) × (t : T) × (get_elem? uf.entries r ≡ some e)
        × (e.parent ≡ r)
        × (e.element ≡ some t)
  top_entry uf r v up =
      let (e, at, p) = link_at_inv parent_of uf.entries r r up in
      elim (Option-cases e.element) [
        | inl gone ↦
            absurd (let own = v.owned r e at in cc (own, ap is_some gone, (==_iff e.parent r).1 p))
        | inr (t, has) ↦ (e, t, at, p, has)
      ]

  Found-trans : {uf uf1 uf2 : UnionFind T} → Found uf uf1 → Found uf1 uf2 → Found uf uf2
  Found-trans f g = record {
    valid = g.valid;
    capacity = g.capacity ∙ f.capacity;
    size = g.size ∙ f.size;
    items = λ x e'' at''.
        let (e', at', r', m') = g.items x e'' at'' in
        let (e, at, r, m) = f.items x e' at' in (e, at, r' ∙ r, m' ∙ m);
    roots = λ x r w. g.roots x r (f.roots x r w);
  }

  pub get_of :
      (uf : UnionFind T) (x : ℕ) (e : Entry T)
      → get_elem? uf.entries x ≡ some e
      → get uf x ≡ e.element
  unfolding get
  get_of uf x e at = rw at refl

  -- `uf'` has the classes of `uf` with those of the roots `ra` and `rb` made one, under `r`, and `r`
  -- holds the element that absorbed the other.
  pub record Merged (absorb : T → T → T) (uf uf' : UnionFind T) (ra rb r : ℕ) : Type ℓ where
    pub valid : IsValid uf'
    pub capacity : length uf'.entries ≡ length uf.entries
    pub one_of : (r ≡ ra) ⊎ (r ≡ rb)
    pub roots :
        (x s : ℕ) → Root uf x s → Root uf' x (if s == ra then r else (if s == rb then r else s))
    pub size : uf.size ≡ (if ra == rb then uf'.size else suc uf'.size)
    pub element :
        (ta tb : T)
        → get uf ra ≡ some ta
        → get uf rb ≡ some tb
        → get uf' r ≡ (
            if ra == rb
            then some ta
            else (if r == ra then some (absorb ta tb) else some (absorb tb ta)))

  pub Found-get :
      {uf uf' : UnionFind T}
      → Found uf uf'
      → (x : ℕ) (e' : Entry T) → get_elem? uf'.entries x ≡ some e'
      → get uf x ≡ e'.element
  Found-get {uf} f x e' at' = let (e, at, _, m) = f.items x e' at' in get_of uf x e at ∙ sym m

  module _ (absorb : T → T → T) (uf uf2 : UnionFind T) (a b : ℕ) (f : Found uf uf2) (apart : a ≢ b)
      (ea eb : Entry T) (ta tb : T) (at_a : get_elem? uf2.entries a ≡ some ea)
      (at_b : get_elem? uf2.entries b ≡ some eb) (top_a : ea.parent ≡ a) (top_b : eb.parent ≡ b)
      (has_a : ea.element ≡ some ta) (has_b : eb.element ≡ some tb) where
    differ : (a == b) ≡ false
    differ = ==_ne a b apart

    first_wins : eb.rank ≤ ea.rank → Merged absorb uf (attach absorb uf2 a ea ta b eb tb) a b a
    first_wins low = record {
      valid =
          attach-IsValid absorb uf2 f.valid a ea ta b eb tb at_a at_b top_a top_b has_a has_b low
            apart;
      capacity =
          after-size absorb uf2 f.valid a ea ta b eb tb at_a at_b top_a top_b has_a has_b low apart
          ∙ f.capacity;
      one_of = inl refl;
      roots = λ x s w. subst (Root (attach absorb uf2 a ea ta b eb tb) x) (ground (arith)) (
          attach-Root absorb uf2 f.valid a ea ta b eb tb at_a at_b top_a top_b has_a has_b low apart
            (f.roots x s w));
      size =
          sym f.size
          ∙ sym (
              attach-size absorb uf2 f.valid a ea ta b eb tb at_a at_b top_a top_b has_a has_b low
                apart)
          ∙ rw differ refl;
      element = λ sa sb ha hb.
          get_of (attach absorb uf2 a ea ta b eb tb) a _ (
            attach-get absorb uf2 f.valid a ea ta b eb tb at_a at_b top_a top_b has_a has_b low
              apart)
          ∙ rw (differ, (==_iff a a).1 refl) (cc (Found-get f a ea at_a, Found-get f b eb at_b));
    }

    second_wins : ea.rank ≤ eb.rank → Merged absorb uf (attach absorb uf2 b eb tb a ea ta) a b b
    second_wins low =
        let other = λ (k : b ≡ a). apart (sym k) in
        record {
          valid =
              attach-IsValid absorb uf2 f.valid b eb tb a ea ta at_b at_a top_b top_a has_b has_a
                low other;
          capacity =
              after-size absorb uf2 f.valid b eb tb a ea ta at_b at_a top_b top_a has_b has_a low
                other
              ∙ f.capacity;
          one_of = inr refl;
          roots = λ x s w. subst (Root (attach absorb uf2 b eb tb a ea ta) x) (ground (arith)) (
              attach-Root absorb uf2 f.valid b eb tb a ea ta at_b at_a top_b top_a has_b has_a low
                other (f.roots x s w));
          size =
              sym f.size
              ∙ sym (
                  attach-size absorb uf2 f.valid b eb tb a ea ta at_b at_a top_b top_a has_b has_a
                    low other)
              ∙ rw differ refl;
          element = λ sa sb ha hb.
              get_of (attach absorb uf2 b eb tb a ea ta) b _ (
                attach-get absorb uf2 f.valid b eb tb a ea ta at_b at_a top_b top_a has_b has_a low
                  other)
              ∙ rw (differ, ==_ne b a other) (cc (Found-get f a ea at_a, Found-get f b eb at_b));
        }

  Found-Merged :
      (absorb : T → T → T) {uf uf' : UnionFind T} (a b : ℕ)
      → Found uf uf'
      → a ≡ b
      → link_at parent_of uf'.entries b ≡ some b
      → Merged absorb uf uf' a b b
  Found-Merged absorb {uf} {uf'} a b f same top =
      let (e, at, _) = link_at_inv parent_of uf'.entries b b top in
      record {
        valid = f.valid;
        capacity = f.capacity;
        one_of = inr refl;
        roots = λ x s w. subst (Root uf' x) (ground arith) (f.roots x s w);
        size = sym f.size ∙ rw ((==_iff a b).1 same) refl;
        element = λ ta tb ha hb.
            rw ((==_iff a b).1 same)
              (get_of uf' b e at ∙ sym (Found-get f b e at) ∙ ap (get uf) (sym same) ∙ ha);
      }

  unite_same :
      (absorb : T → T → T) (uf : UnionFind T) (a b : ℕ) → a ≡ b → unite absorb uf a b ≡ some (uf, b)
  unfolding unite
  unite_same absorb uf a b e = rw ((==_iff a b).1 e) refl

  unite_apart :
      (absorb : T → T → T) (uf : UnionFind T) (a b : ℕ) (ea eb : Entry T) (ta tb : T)
      → a ≢ b
      → get_elem? uf.entries a ≡ some ea
      → get_elem? uf.entries b ≡ some eb
      → ea.element ≡ some ta
      → eb.element ≡ some tb
      → unite absorb uf a b
        ≡ some (
            if ltb ea.rank eb.rank
            then (attach absorb uf b eb tb a ea ta, b)
            else (attach absorb uf a ea ta b eb tb, a))
  unfolding unite
  unite_apart absorb uf a b ea eb ta tb d at_a at_b has_a has_b =
      rw (==_ne a b d) (rw at_a (rw at_b (rw has_a (rw has_b refl))))

  union-unite :
      (absorb : T → T → T) (uf uf1 uf2 : UnionFind T) (id_a id_b a b : ℕ)
      → find uf id_a ≡ some (uf1, a)
      → find uf1 id_b ≡ some (uf2, b)
      → union absorb uf id_a id_b ≡ unite absorb uf2 a b
  unfolding union
  union-unite absorb uf uf1 uf2 id_a id_b a b p q = rw (p, union) (rw q refl)

  -- On a valid structure `Union` returns, and joins the classes of its two identifiers.
  pub union-Merged :
      (absorb : T → T → T) (uf : UnionFind T) (id_a id_b : ℕ)
      → IsValid uf
      → id_a < length uf.entries
      → id_b < length uf.entries
      → (ra : ℕ) × (rb : ℕ) × (r : ℕ) × (uf' : UnionFind T) × Root uf id_a ra
        × Root uf id_b rb
        × (union absorb uf id_a id_b ≡ some (uf', r))
        × Merged absorb uf uf' ra rb r
  union-Merged absorb uf id_a id_b v in_a in_b =
      let (a, uf1, path_a, found_a, f1, _) = find-Found uf id_a v in_a in
      let (b, uf2, path_b, found_b, f2, _) =
        find-Found uf1 id_b f1.valid (omega (arith, f1.capacity)) in
      let f = Found-trans f1 f2 in
      let (rb, path_b') =
        RootOf-total v.forest (suc (length uf.entries)) id_b (enough uf v id_b) in_b in
      let is_b : rb ≡ b = RootOf-functional (f1.roots id_b rb path_b') path_b in
      let path_b0 : Root uf id_b b = subst (Root uf id_b) is_b path_b' in
      let top_a = RootOf-root (f.roots id_a a path_a) in
      let top_b = RootOf-root (f.roots id_b b path_b0) in
      let (ea, ta, at_a, p_a, has_a) = top_entry uf2 a f2.valid top_a in
      let (eb, tb, at_b, p_b, has_b) = top_entry uf2 b f2.valid top_b in
      let step = union-unite absorb uf uf1 uf2 id_a id_b a b found_a found_b in
      elim (ℕ_discrete a b) [
        | yes same ↦ (
          a,
          b,
          b,
          uf2,
          path_a,
          path_b0,
          step ∙ unite_same absorb uf2 a b same,
          Found-Merged absorb a b f same top_b,
        )
        | no apart ↦ elim (Bool-cases (ltb ea.rank eb.rank)) [
          | inl less ↦ (
            a,
            b,
            b,
            attach absorb uf2 b eb tb a ea ta,
            path_a,
            path_b0,
            step
                ∙ unite_apart absorb uf2 a b ea eb ta tb apart at_a at_b has_a has_b
                ∙ rw less refl,
            second_wins absorb uf uf2 a b f apart ea eb ta tb at_a at_b p_a p_b has_a has_b
                (ground arith),
          )
          | inr more ↦ (
            a,
            b,
            a,
            attach absorb uf2 a ea ta b eb tb,
            path_a,
            path_b0,
            step
                ∙ unite_apart absorb uf2 a b ea eb ta tb apart at_a at_b has_a has_b
                ∙ rw more refl,
            first_wins absorb uf uf2 a b f apart ea eb ta tb at_a at_b p_a p_b has_a has_b
                (ground arith),
          )
        ]
      ]

  -- Two identifiers are in one class if one node represents both.
  abbrev pub SameClass : UnionFind T → ℕ → ℕ → Type 0
  SameClass uf x y = (r : ℕ) × Root uf x r × Root uf y r

  module _ (uf : UnionFind T) (v : IsValid uf) where
    pub Root-of : (x : ℕ) → x < length uf.entries → (r : ℕ) × Root uf x r
    Root-of x h = RootOf-total v.forest (suc (length uf.entries)) x (enough uf v x) h
