-- ===== src/Forest/Walk.antt =====
-- What the two loops of `Find` do: the first ends in the root, and the second changes parent links
-- alone, keeps the root of every node and leaves the start of the walk one step below its root.
use mathlib.Core.Path.{subst}
use native.Mathlib.Decide.{ℕ_discrete}
use llir_opt.Prelude.{
  ℕ, zero, suc, ◌+◌, ◌<◌, ◌≡◌, refl, sym, ap, ◌∙◌, ◌≢◌, ◌↔◌, ◌⊎◌, inl, inr, List, some, arith,
  length, length-set, get_elem?, get_elem?_lt, get_elem?-set, set, Bool-cases, ==_ne, eq_of_some,
  Option-cases, ◌==◌, if◌then◌else◌, ==_iff,
}
use llir_opt.Forest.{link_at, find_root, compress, find}
use llir_opt.Forest.Roots.{
  RootOf, RootOf-up, IsForest-redirect, here, climb, IsForest, RootOf-redirect, RootOf-total,
  RootOf-root, RootOf-is_root,
}

module _ {ℓ} {A : Type ℓ} (link : A → ℕ) where
  pub link_at_inv :
      (es : List A) (x p : ℕ)
      → link_at link es x ≡ some p
      → (e : A) × (get_elem? es x ≡ some e) × (link e ≡ p)
  unfolding link_at
  link_at_inv es x p h = elim (Option-cases (get_elem? es x)) [
    | inl gone ↦ absurd (ground arith)
    | inr (e, at) ↦ (e, at, ground arith)
  ]

  pub link_at_of :
      (es : List A) (x : ℕ) (e : A) → get_elem? es x ≡ some e → link_at link es x ≡ some (link e)
  unfolding link_at
  link_at_of es x e h = rw (h, link_at)

  compress-root :
      (relink : A → ℕ → A) (fuel : ℕ) (es : List A) (root i : ℕ) (e : A)
      → get_elem? es i ≡ some e
      → link e ≡ i
      → compress link relink (suc fuel) es root i ≡ some (es, i)
  unfolding compress
  compress-root relink fuel es root i e at same =
      rw (at, compress) (rw ((==_iff (link e) i).1 same))

  compress-inner :
      (relink : A → ℕ → A) (fuel : ℕ) (es : List A) (root i : ℕ) (e : A)
      → get_elem? es i ≡ some e
      → link e ≢ i
      → compress link relink (suc fuel) es root i
        ≡ compress link relink fuel (set es i (relink e root)) root (link e)
  unfolding compress
  compress-inner relink fuel es root i e at d = rw (at, compress) (rw (==_ne (link e) i d))

  module _ {n : ℕ} {height : ℕ → ℕ} where
    -- With fuel for the rise that is left, the first loop returns the root.
    pub find_root_finds :
        (fuel : ℕ) (es : List A) {x r : ℕ}
        → IsForest (link_at link es) n height
        → RootOf (link_at link es) x r
        → x < n
        → ((y : ℕ) → y < n → height y < height x + fuel)
        → find_root link fuel es x ≡ some r
    unfolding find_root
    find_root_finds zero es {x = x} f w h b = absurd (omega (arith, b x h))
    find_root_finds (suc fuel) es f (here {x} e) h b = ground (arith, ==_iff x x)
    find_root_finds (suc fuel) es f (climb {x} {p} {r} e d w) h b =
        let (q, at, lt) = f.present x h in
        let below : p < n = ground arith in
        let rest =
          find_root_finds fuel es f w below (λ y k. omega (arith, b y k, f.rises x p e d)) in
        ground (arith, ==_iff p x)

  module _ (relink : A → ℕ → A) (link-relink : (e : A) (r : ℕ) → link (relink e r) ≡ r) where
    -- Every entry is as it was, or has a new link and nothing else new.
    abbrev pub Relinked : List A → List A → ℕ → Type ℓ
    Relinked es es' root =
        (x : ℕ) (e' : A)
        → get_elem? es' x ≡ some e'
        → (e : A) × (get_elem? es x ≡ some e) × ((e' ≡ e) ⊎ (e' ≡ relink e root))

    link_at-set :
        (es : List A) (i root : ℕ) (e : A)
        → get_elem? es i ≡ some e
        → (x : ℕ)
        → link_at link (set es i (relink e root)) x
          ≡ (if x == i then some root else link_at link es x)
    unfolding link_at
    link_at-set es i root e h x =
        ground
          (arith, get_elem?_lt es i e, get_elem?-set es i x (relink e root), link-relink e root)

    Relinked-set :
        (es : List A) (i root : ℕ) (e : A)
        → get_elem? es i ≡ some e
        → Relinked es (set es i (relink e root)) root
    Relinked-set es i root e h x e' at =
        let written = get_elem?-set es i x (relink e root) (get_elem?_lt es i e h) in
        elim (Bool-cases (x == i)) [
          | inl same ↦ (
            e,
            subst (λ t. get_elem? es t ≡ some e) (sym ((==_iff x i).0 same)) h,
            inr (eq_of_some (sym at ∙ (rw same at written))),
          )
          | inr apart ↦ (e', sym (rw apart at written) ∙ at, inl refl)
        ]

    -- What a walk that compresses towards `root` leaves behind.
    pub record Compressed (n : ℕ) (height : ℕ → ℕ) (es es' : List A) (root : ℕ) : Type ℓ where
      pub size : length es' ≡ length es
      pub relinked : Relinked es es' root
      pub forest : IsForest (link_at link es') n height
      pub roots : (x r : ℕ) → RootOf (link_at link es) x r → RootOf (link_at link es') x r

    Compressed-none :
        (n : ℕ) (height : ℕ → ℕ) (es : List A) (root : ℕ)
        → IsForest (link_at link es) n height
        → Compressed n height es es root
    Compressed-none n height es root f = record {
      size = refl;
      relinked = λ x e' at. (e', at, inl refl);
      forest = f;
      roots = λ x r w. w;
    }

    module _ {n : ℕ} {height : ℕ → ℕ} (es : List A) (i root : ℕ) (e : A)
        (f : IsForest (link_at link es) n height) (at : get_elem? es i ≡ some e)
        (path : RootOf (link_at link es) i root) (inner : i ≢ root) (within : i < n) where
      Compressed-set : Compressed n height es (set es i (relink e root)) root
      Compressed-set = record {
        size = length-set es i (relink e root);
        relinked = Relinked-set es i root e at;
        forest = IsForest-redirect (link_at-set es i root e at) path inner f within;
        roots = λ x r w. RootOf-redirect (link_at-set es i root e at) path inner w;
      }

    redirects :
        (es : List A) (i root : ℕ) (e : A)
        → get_elem? es i ≡ some e
        → link_at link (set es i (relink e root)) i ≡ some root
    redirects es i root e at = link_at-set es i root e at i ∙ rw ((==_iff i i).1 refl)

    -- A node that already points at the root goes on doing so.
    Compressed-keeps_link :
        {n : ℕ} {height : ℕ → ℕ} {es es' : List A} {root : ℕ}
        → Compressed n height es es' root
        → (i : ℕ) → i < n
        → link_at link es i ≡ some root
        → link_at link es' i ≡ some root
    Compressed-keeps_link {es} {es'} {root} c i within h =
        let (q, up, _) = c.forest.present i within in
        let (e', at', _) = link_at_inv es' i q up in
        let (e, at, new) = c.relinked i e' at' in
        let to_root : link e ≡ root = eq_of_some (sym (link_at_of es i e at) ∙ h) in
        link_at_of es' i e' at' ∙ ap some (kept e e' root new to_root)
      where
        kept :
            (e e' : A) (root : ℕ) → (e' ≡ e) ⊎ (e' ≡ relink e root) → link e ≡ root → link e' ≡ root
        kept e e' root (inl same) to = ap link same ∙ to
        kept e e' root (inr new) to = ap link new ∙ link-relink e root

    module _ (again : (e : A) (r s : ℕ) → relink (relink e r) s ≡ relink e s) where
      Relinked-trans :
          (e e' e'' : A) (root : ℕ)
          → (e' ≡ e) ⊎ (e' ≡ relink e root)
          → (e'' ≡ e') ⊎ (e'' ≡ relink e' root)
          → (e'' ≡ e) ⊎ (e'' ≡ relink e root)
      Relinked-trans e e' e'' root (inl p) (inl q) = inl (q ∙ p)
      Relinked-trans e e' e'' root (inr p) (inl q) = inr (q ∙ p)
      Relinked-trans e e' e'' root (inl p) (inr q) = inr (q ∙ rw p)
      Relinked-trans e e' e'' root (inr p) (inr q) = inr (q ∙ rw p (again e root root))

      Compressed-trans :
          {n : ℕ} {height : ℕ → ℕ} (es es' es'' : List A) (root : ℕ)
          → Compressed n height es es' root
          → Compressed n height es' es'' root
          → Compressed n height es es'' root
      Compressed-trans es es' es'' root c d = record {
        size = d.size ∙ c.size;
        relinked = λ x e'' at'.
            let (e', at, new) = d.relinked x e'' at' in
            let (e, old, kept) = c.relinked x e' at in
            (e, old, Relinked-trans e e' e'' root kept new);
        forest = d.forest;
        roots = λ x r w. d.roots x r (c.roots x r w);
      }

      -- The second loop returns the root, with every walk compressed or as it was.
      compress_lem :
          (fuel n : ℕ) (height : ℕ → ℕ) (es : List A) (root i : ℕ)
          → IsForest (link_at link es) n height
          → RootOf (link_at link es) i root
          → i < n
          → ((y : ℕ) → y < n → height y < height i + fuel)
          → (es' : List A) × (compress link relink fuel es root i ≡ some (es', root))
            × Compressed n height es es' root
            × (link_at link es' i ≡ some root)
      compress_lem zero n height es root i f path within b = absurd (omega (arith, b i within))
      compress_lem (suc fuel) n height es root i f path within b =
          let (p, up, below) = f.present i within in
          let (e, at, to_p) = link_at_inv es i p up in
          elim (ℕ_discrete p i) [
            | yes same ↦
                let top : i ≡ root = RootOf-is_root path (up ∙ ap some same) in
                (
                  es,
                  compress-root relink fuel es root i e at (to_p ∙ same)
                      ∙ ap (λ t. some (es, t)) top,
                  Compressed-none n height es root f,
                  up ∙ ap some (same ∙ top),
                )
            | no apart ↦
                let inner : i ≢ root = λ top. apart (
                  eq_of_some (
                    sym up
                    ∙ subst (λ t. link_at link es t ≡ some root) (sym top) (RootOf-root path))
                  ∙ sym top) in
                let es1 = set es i (relink e root) in
                let c = Compressed-set es i root e f at path inner within in
                let rest = c.roots p root (RootOf-up path up apart) in
                let (es', ends, d, _) =
                  compress_lem fuel n height es1 root p c.forest rest below
                    (λ y k. omega (arith, b y k, f.rises i p up apart)) in
                (
                  es',
                  compress-inner relink fuel es root i e at (λ k. apart (sym to_p ∙ k))
                      ∙ (ap (compress link relink fuel es1 root) to_p ∙ ends),
                  Compressed-trans es es1 es' root c d,
                  Compressed-keeps_link d i within (redirects es i root e at),
                )
          ]

      -- The whole of `Find`.
      pub find_lem :
          (fuel n : ℕ) (height : ℕ → ℕ) (es : List A) (i : ℕ)
          → IsForest (link_at link es) n height
          → i < n
          → ((y : ℕ) → y < n → height y < height i + fuel)
          → (root : ℕ) × (es' : List A) × RootOf (link_at link es) i root
            × (find link relink fuel es i ≡ some (es', root))
            × Compressed n height es es' root
            × (link_at link es' i ≡ some root)
      unfolding find
      find_lem fuel n height es i f within b =
          let (root, path) = RootOf-total f fuel i b within in
          let (es', ends, c, up) = compress_lem fuel n height es root i f path within b in
          (root, es', path, rw (find_root_finds fuel es f path within b, find) ends, c, up)

    -- The roots are the same nodes as before.
    pub Compressed-root_iff :
        {n : ℕ} {height : ℕ → ℕ} {es es' : List A} {root : ℕ}
        → Compressed n height es es' root
        → IsForest (link_at link es) n height
        → (fuel x : ℕ) → ((y : ℕ) → y < n → height y < height x + fuel)
        → x < n
        → (link_at link es' x ≡ some x) ↔ (link_at link es x ≡ some x)
    Compressed-root_iff {es} {es'} c f fuel x b within = (
      λ top.
          let (r, w) = RootOf-total f fuel x b within in
          let same : x ≡ r = RootOf-is_root (c.roots x r w) top in
          subst (λ t. link_at link es t ≡ some t) (sym same) (RootOf-root w),
      λ top. RootOf-root (c.roots x x (here top)),
    )
