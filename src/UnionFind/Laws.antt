-- ===== src/UnionFind/Laws.antt =====
-- What the operations of the union-find structure promise.
use mathlib.Core.Path.{subst}
use mathlib.Core.Logic.{⊎_elim}
use llir_opt.Prelude.{
  ℕ, suc, ◌<◌, ◌≡◌, refl, sym, ap, ◌∙◌, ◌↔◌, ◌⊎◌, inl, inr, Bool, true, false, some, arith, length,
  ◌==◌, ==_iff, ==_ne, if◌then◌else◌,
}
use llir_opt.Forest.{link_at}
use llir_opt.Forest.Roots.{RootOf-functional, RootOf-root}
use llir_opt.Forest.Walk.{link_at_inv}
use llir_opt.UnionFind.{UnionFind, parent_of, find, get, map, union}
use llir_opt.UnionFind.Valid.{Root, IsValid}
use llir_opt.UnionFind.Find.{Found, find-Found}
use llir_opt.UnionFind.Classes.{get_of, Found-get, top_entry, SameClass, union-Merged, Root-of}

-- The root of a class after the roots `a` and `b` became `r`.
abbrev new_root : ℕ → ℕ → ℕ → ℕ → ℕ
new_root a b r s = if s == a then r else (if s == b then r else s)

new_root_eq :
    (a b r s t : ℕ)
    → (r ≡ a) ⊎ (r ≡ b)
    → (new_root a b r s ≡ new_root a b r t) ↔ ((s ≡ t) ⊎ ((s ≡ a) × (t ≡ b)) ⊎ ((s ≡ b) × (t ≡ a)))
new_root_eq a b r s t h = ground arith

new_root_hit : (a b r s : ℕ) → (s ≡ a) ⊎ (s ≡ b) → new_root a b r s ≡ r
new_root_hit a b r s h = ground arith

if_some {ℓ} :
    {A : Type ℓ} (c : Bool) (x y : A) → (if c then some x else some y) ≡ some (if c then x else y)
if_some true x y = refl
if_some false x y = refl

if_either {ℓ} :
    {A : Type ℓ} (c : Bool) (x y : A) → ((if c then x else y) ≡ x) ⊎ ((if c then x else y) ≡ y)
if_either true x y = inl refl
if_either false x y = inr refl

iff_trans {ℓ κ μ} : {A : Type ℓ} {B : Type κ} {C : Type μ} → A ↔ B → B ↔ C → A ↔ C
iff_trans f g = (λ a. g.0 (f.0 a), λ c. f.1 (g.1 c))

-- The three ways to be joined, with each fact replaced by an equivalent one.
either_way :
    {P P' A A' B B' C C' D D' : Type 0}
    → P ↔ P'
    → A ↔ A'
    → B ↔ B'
    → C ↔ C'
    → D ↔ D'
    → (P ⊎ (A × B) ⊎ (C × D))
    → P' ⊎ (A' × B') ⊎ (C' × D')
either_way p a b c d (inl x) = inl (p.0 x)
either_way p a b c d (inr (inl (x, y))) = inr (inl (a.0 x, b.0 y))
either_way p a b c d (inr (inr (x, y))) = inr (inr (c.0 x, d.0 y))

flip {ℓ κ} : {A : Type ℓ} {B : Type κ} → A ↔ B → B ↔ A
flip f = (f.1, f.0)

module _ {ℓ} {T : Type ℓ} where
  SameClass-iff :
      (uf : UnionFind T) {x y s t : ℕ} → Root uf x s → Root uf y t → SameClass uf x y ↔ (s ≡ t)
  SameClass-iff uf {x} {y} {s} p q = (
    λ (r, p', q'). RootOf-functional p p' ∙ RootOf-functional q' q,
    λ e. (s, p, subst (Root uf y) (sym e) q),
  )

  Found-SameClass :
      {uf uf' : UnionFind T}
      → IsValid uf
      → Found uf uf'
      → (x y : ℕ) → x < length uf.entries
      → y < length uf.entries
      → SameClass uf' x y ↔ SameClass uf x y
  Found-SameClass {uf} {uf'} v f x y hx hy =
      let (s, p) = Root-of uf v x hx in
      let (t, q) = Root-of uf v y hy in
      let old = SameClass-iff uf p q in
      let new = SameClass-iff uf' (f.roots x s p) (f.roots y t q) in
      (λ h. old.1 (new.0 h), λ h. new.1 (old.0 h))

  -- On a valid structure `Find` returns for every identifier a node that represents its class. The
  -- structure stays valid with its size, every two identifiers are in one class exactly when they
  -- were, and the identifier now points straight at the node returned, which points at itself.
  pub find_represents :
      (uf : UnionFind T) (i : ℕ)
      → IsValid uf
      → i < length uf.entries
      → (root : ℕ) × (uf' : UnionFind T) × (find uf i ≡ some (uf', root))
        × Root uf i root
        × IsValid uf'
        × (uf'.size ≡ uf.size)
        × ((x y : ℕ)
            → x < length uf.entries
            → y < length uf.entries
            → SameClass uf' x y ↔ SameClass uf x y)
        × (link_at parent_of uf'.entries i ≡ some root)
        × (link_at parent_of uf'.entries root ≡ some root)
  find_represents uf i v h =
      let (root, uf', path, ends, f, up) = find-Found uf i v h in
      (
        root,
        uf',
        ends,
        path,
        f.valid,
        f.size,
        Found-SameClass v f,
        up,
        RootOf-root (f.roots i root path),
      )

  -- `Union` of two identifiers of a valid structure returns a valid structure in which two
  -- identifiers share a class exactly when they did before, or when one was with `a` and the other
  -- with `b`.
  pub union_joins :
      (absorb : T → T → T) (uf : UnionFind T) (a b : ℕ)
      → IsValid uf
      → a < length uf.entries
      → b < length uf.entries
      → (uf' : UnionFind T) × (r : ℕ) × (union absorb uf a b ≡ some (uf', r))
        × IsValid uf'
        × ((x y : ℕ)
            → x < length uf.entries
            → y < length uf.entries
            → SameClass uf' x y ↔ (
                SameClass uf x y
                ⊎ (SameClass uf x a × SameClass uf y b)
                ⊎ (SameClass uf x b × SameClass uf y a)))
  union_joins absorb uf a b v in_a in_b =
      let (ra, rb, r, uf', pa, pb, ends, m) = union-Merged absorb uf a b v in_a in_b in
      (
        uf',
        r,
        ends,
        m.valid,
        λ x y hx hy.
            let (s, p) = Root-of uf v x hx in
            let (t, q) = Root-of uf v y hy in
            let now = SameClass-iff uf' (m.roots x s p) (m.roots y t q) in
            let cases = new_root_eq ra rb r s t m.one_of in
            let xy = SameClass-iff uf p q in
            let xa = SameClass-iff uf p pa in
            let xb = SameClass-iff uf p pb in
            let ya = SameClass-iff uf q pa in
            let yb = SameClass-iff uf q pb in
            iff_trans (iff_trans now cases) (
              either_way (flip xy) (flip xa) (flip yb) (flip xb) (flip ya),
              either_way xy xa yb xb ya,
            ),
      )

  -- `Union` of two identifiers of a valid structure lowers `Size` by one if they were in two classes,
  -- and leaves it if they were in one.
  pub union-size :
      (absorb : T → T → T) (uf : UnionFind T) (a b : ℕ)
      → IsValid uf
      → a < length uf.entries
      → b < length uf.entries
      → (uf' : UnionFind T) × (r : ℕ) × (union absorb uf a b ≡ some (uf', r))
        × (SameClass uf a b → uf'.size ≡ uf.size)
        × (¬ SameClass uf a b → suc uf'.size ≡ uf.size)
  union-size absorb uf a b v in_a in_b =
      let (ra, rb, r, uf', pa, pb, ends, m) = union-Merged absorb uf a b v in_a in_b in
      let same = SameClass-iff uf pa pb in
      (
        uf',
        r,
        ends,
        λ h. sym (m.size ∙ rw ((==_iff ra rb).1 (same.0 h)) refl),
        λ h. sym (m.size ∙ rw (==_ne ra rb (λ e. h (same.1 e))) refl),
      )

  map_of :
      (uf : UnionFind T) (i r : ℕ) (t : T)
      → IsValid uf
      → i < length uf.entries
      → Root uf i r
      → get uf r ≡ some t
      → (uf' : UnionFind T) × (map uf i ≡ some (uf', t))
  unfolding map
  map_of uf i r t v h path has =
      let (root, uf', path', ends, f, _) = find-Found uf i v h in
      let same : root ≡ r = RootOf-functional path' path in
      let (e', at', _) =
        link_at_inv parent_of uf'.entries root root (RootOf-root (f.roots i root path')) in
      let here' : get uf' root ≡ some t =
        get_of uf' root e' at' ∙ sym (Found-get f root e' at') ∙ ap (get uf) same ∙ has in
      (uf', rw (ends, map) (rw here' refl))

  Root-element :
      (uf : UnionFind T) {i r : ℕ} → IsValid uf → Root uf i r → (t : T) × (get uf r ≡ some t)
  Root-element uf {r = r} v path =
      let (e, t, at, _, has) = top_entry uf r v (RootOf-root path) in (t, get_of uf r e at ∙ has)

  -- What `Map` returned is the element of the root.
  map-get :
      (uf u : UnionFind T) (i r : ℕ) (t : T)
      → IsValid uf
      → i < length uf.entries
      → Root uf i r
      → map uf i ≡ some (u, t)
      → get uf r ≡ some t
  map-get uf u i r t v h path ends =
      let (s, has) = Root-element uf v path in
      let (u', ends') = map_of uf i r s v h path has in has ∙ ap some (cc (ends, ends'))

  -- When `Union` joins two classes, one of their elements has absorbed the other, and `Map` returns
  -- the outcome for every identifier of either class.
  pub map-union :
      (absorb : T → T → T) (uf ua ub : UnionFind T) (a b : ℕ) (ta tb : T)
      → IsValid uf
      → a < length uf.entries
      → b < length uf.entries
      → ¬ SameClass uf a b
      → map uf a ≡ some (ua, ta)
      → map uf b ≡ some (ub, tb)
      → (uf' : UnionFind T) × (r : ℕ) × (t : T) × (union absorb uf a b ≡ some (uf', r))
        × ((t ≡ absorb ta tb) ⊎ (t ≡ absorb tb ta))
        × ((x : ℕ)
            → x < length uf.entries
            → SameClass uf x a ⊎ SameClass uf x b
            → (u : UnionFind T) × (map uf' x ≡ some (u, t)))
  map-union absorb uf ua ub a b ta tb v in_a in_b apart map_a map_b =
      let (ra, rb, r, uf', pa, pb, ends, m) = union-Merged absorb uf a b v in_a in_b in
      let differ : (ra == rb) ≡ false = ==_ne ra rb (λ e. apart ((SameClass-iff uf pa pb).1 e)) in
      let has =
        m.element ta tb (map-get uf ua a ra ta v in_a pa map_a)
          (map-get uf ub b rb tb v in_b pb map_b) in
      let t = if r == ra then absorb ta tb else absorb tb ta in
      let holds : get uf' r ≡ some t = rw differ at has ∙ if_some (r == ra) _ _ in
      (
        uf',
        r,
        t,
        ends,
        if_either (r == ra) _ _,
        λ x hx class.
            let (s, p) = Root-of uf v x hx in
            let of_a = (SameClass-iff uf p pa).0 in
            let of_b = (SameClass-iff uf p pb).0 in
            let root_r : new_root ra rb r s ≡ r =
              new_root_hit ra rb r s (⊎_elim (λ k. inl (of_a k)) (λ k. inr (of_b k)) class) in
            map_of uf' x r t m.valid (omega (arith, m.capacity))
              (subst (Root uf' x) root_r (m.roots x s p)) holds,
      )
