-- ===== src/UnionFind/Emplace.antt =====
-- Adding an element to the union-find structure.
use llir_opt.Prelude.{
  ℕ, suc, ◌+◌, ◌%◌, ◌≤◌, ◌<◌, ◌≡◌, refl, sym, ap, ◌∙◌, ◌⊎◌, inl, inr, List, [], ◌∷◌, ◌++◌, Option,
  none, some, arith, length, length-append, get_elem?, ==_iff, Option-cases, get_elem?_lt,
  get_elem?-append_left, get_elem?-append_end, eq_of_some,
}
use native.Mathlib.Decide.{dec_lt}
use native.Mathlib.Nat.{mod-eq_of_lt}
use llir_opt.Forest.{link_at}
use llir_opt.Forest.Roots.{RootOf-mono, here}
use llir_opt.Forest.Walk.{link_at_of, link_at_inv}
use llir_opt.UnionFind.{Entry, UnionFind, parent_of, u32, empty, emplace, get}
use llir_opt.UnionFind.Valid.{rank_at, count_elements, Root, IsValid}

module _ {ℓ} {T : Type ℓ} where
  count_elements-le : (es : List (Entry T)) → count_elements es ≤ length es
  count_elements-le [] = omega arith
  count_elements-le (e ∷ es) = elim (Option-cases e.element) [
    | inl p ↦ simp p (omega (arith, count_elements-le es))
    | inr (t, p) ↦ simp p (omega (arith, count_elements-le es))
  ]

  count_elements_end :
      (es : List (Entry T)) (e : Entry T) (t : T)
      → e.element ≡ some t
      → count_elements (es ++ e ∷ []) ≡ suc (count_elements es)
  count_elements_end [] e t h = simp h refl
  count_elements_end (f ∷ es) e t h = elim (Option-cases f.element) [
    | inl p ↦ simp p (count_elements_end es e t h)
    | inr (s, p) ↦ simp p (ap suc (count_elements_end es e t h))
  ]

  module _ (uf : UnionFind T) (v : IsValid uf) (fits : suc (length uf.entries) < u32) where
    same : length uf.entries % u32 ≡ length uf.entries
    same = mod-eq_of_lt v.narrow

    size_exact : (uf.size + 1) % u32 ≡ suc uf.size
    size_exact = omega (arith, v.counted, count_elements-le uf.entries)

  module _ (t : T) (uf : UnionFind T) where
    abbrev added : Entry T
    added = record { parent = length uf.entries; rank = 0; element = some t }

    abbrev more : List (Entry T)
    more = uf.entries ++ added ∷ []

    module _ (v : IsValid uf) (fits : suc (length uf.entries) < u32) where
      more_size : length more ≡ suc (length uf.entries)
      more_size = omega (arith, length-append uf.entries (added ∷ []))

      more_cases :
          (x : ℕ) (e : Entry T)
          → get_elem? more x ≡ some e
          → (get_elem? uf.entries x ≡ some e) ⊎ ((x ≡ length uf.entries) × (e ≡ added))
      more_cases x e at = elim (dec_lt x (length uf.entries)) [
        | yes h ↦ inl (sym (get_elem?-append_left uf.entries (added ∷ []) x h) ∙ at)
        | no h ↦
            let last : x ≡ length uf.entries = omega (arith, get_elem?_lt more x e at, more_size) in
            inr (
              last,
              eq_of_some
                  (sym at ∙ ap (get_elem? more) last ∙ get_elem?-append_end uf.entries added),
            )
      ]

      added_link : link_at parent_of more (length uf.entries) ≡ some (length uf.entries)
      added_link =
          link_at_of parent_of more (length uf.entries) added
            (get_elem?-append_end uf.entries added)

      added_links :
          (y p : ℕ) → link_at parent_of uf.entries y ≡ some p → link_at parent_of more y ≡ some p
      added_links y p up =
          let (e, at, to) = link_at_inv parent_of uf.entries y p up in
          let h = get_elem?_lt uf.entries y e at in
          link_at_of parent_of more y e (get_elem?-append_left uf.entries (added ∷ []) y h ∙ at)
          ∙ ap some to

      old_rank : (x : ℕ) → x < length uf.entries → rank_at more x ≡ rank_at uf.entries x
      old_rank x h =
          ap (λ (o : Option (Entry T)). elim o [ none ↦ 0 | some e ↦ e.rank ])
            (get_elem?-append_left uf.entries (added ∷ []) x h)

      added-IsValid : IsValid (record { entries = more; size = (uf.size + 1) % u32 })
      added-IsValid = record {
        forest = record {
          present = λ x h. elim (dec_lt x (length uf.entries)) [
            | yes k ↦
                let (p, up, lt) = v.forest.present x k in
                (p, added_links x p up, omega (arith, more_size))
            | no k ↦
                let last : x ≡ length uf.entries = omega (arith, more_size) in
                (
                  length uf.entries,
                  ap (link_at parent_of more) last ∙ added_link,
                  omega (arith, more_size),
                )
          ];
          rises = λ x p up d.
              let (e, at, to) = link_at_inv parent_of more x p up in
              elim (more_cases x e at) [
                | inl old ↦
                    let was = link_at_of parent_of uf.entries x e old ∙ ap some to in
                    let k = get_elem?_lt uf.entries x e old in
                    let (q, up', lt) = v.forest.present x k in
                    let is : q ≡ p = eq_of_some (sym up' ∙ was) in
                    omega (arith, v.forest.rises x p was d, old_rank x k, old_rank p (omega arith))
                | inr (last, is) ↦
                    absurd (d (sym to ∙ ap (λ (f : Entry T). f.parent) is ∙ sym last))
              ];
        };
        ranked = λ x e at. elim (more_cases x e at) [
          | inl old ↦ omega (arith, v.ranked x e old, more_size, size_exact uf v fits)
          | inr (last, is) ↦ omega (
            arith,
            ap (λ (f : Entry T). f.rank) is,
            more_size,
            size_exact uf v fits,
            v.counted,
            count_elements-le uf.entries,
          )
        ];
        owned = λ x e at. elim (more_cases x e at) [
          | inl old ↦ v.owned x e old
          | inr (last, is) ↦ rw is ((==_iff (length uf.entries) x).1 (sym last))
        ];
        counted =
            size_exact uf v fits
            ∙ ap suc v.counted
            ∙ sym (count_elements_end uf.entries added t refl);
        narrow = omega (arith, more_size);
      }

  -- `Emplace` on a valid structure with fewer than 2^32 - 1 entries returns the next identifier and
  -- a valid structure, one larger, in which that identifier is alone in its class, holds the new
  -- element, and all other classes are as they were.
  pub emplace_fresh :
      (make : ℕ → T) (uf : UnionFind T)
      → IsValid uf
      → suc (length uf.entries) < u32
      → IsValid (emplace make uf).0
        × ((emplace make uf).1 ≡ length uf.entries)
        × ((emplace make uf).0.size ≡ suc uf.size)
        × (get (emplace make uf).0 (length uf.entries) ≡ some (make (length uf.entries)))
        × Root (emplace make uf).0 (length uf.entries) (length uf.entries)
        × ((x r : ℕ) → Root uf x r → Root (emplace make uf).0 x r)
  unfolding emplace get
  emplace_fresh make uf v fits = rw (same uf v fits) (
    added-IsValid (make (length uf.entries)) uf v fits,
    refl,
    size_exact uf v fits,
    rw (get_elem?-append_end uf.entries (added (make (length uf.entries)) uf)) refl,
    here (added_link (make (length uf.entries)) uf v fits),
    λ x r w. RootOf-mono (added_links (make (length uf.entries)) uf v fits) w,
  )

pub empty-IsValid {ℓ} : {T : Type ℓ} → IsValid {T = T} empty
unfolding empty link_at
empty-IsValid = record {
  forest = record { present = λ x h. absurd (omega arith); rises = λ x p up d. absurd (cc) };
  ranked = λ x e at. absurd (cc);
  owned = λ x e at. absurd (cc);
  counted = refl;
  narrow = omega arith;
}
