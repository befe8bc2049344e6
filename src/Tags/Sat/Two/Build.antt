-- ===== src/Tags/Sat/Two/Build.antt =====
-- passes/tags/sat_2.cpp: the implication graph that the constructor builds before it visits the nodes.
use llir_opt.Prelude.{
  ℕ, zero, suc, ◌<◌, ◌≤◌, ◌+◌, ◌-◌, ◌%◌, ◌^◌, ◌≡◌, refl, sym, ap, ◌∙◌, ◌⊎◌, inl, inr, Bool, true,
  List, [], ◌∷◌, Option, some, arith, length, length-set, get_elem?, set, get_elem?_total, ltb,
  ◌==◌, Bool-cases,
}
use mathlib.Core.Path.{subst}
use mathlib.Core.Option.{some-injective}
use llir_opt.Tags.Sat.Two.{
  Node, negate, set_insert, new_node, resize, max, add_edge, add_clause, build,
}
use llir_opt.Tags.Sat.Two.Quiet.{AllBelow, AllIn}
use llir_opt.Tags.Sat.Two.Entered.{set-cases}

-- The nodes of the graph: none was entered, every edge leads to a node, and a literal is a node where its
-- negation is. The
-- edges do not leave the set of the members.
pub record Built (members : ℕ → Bool) (nodes : List Node) : Type 0 where
  pub blank : (i : ℕ) (node : Node) → get_elem? nodes i ≡ some node → node.index ≡ 0
  pub ranged :
      (i : ℕ) (node : Node) → get_elem? nodes i ≡ some node → AllBelow (length nodes) node.next
  pub implied :
      (i : ℕ) (node : Node)
      → get_elem? nodes i ≡ some node
      → members i ≡ true
      → AllIn members node.next
  pub even : length nodes % 2 ≡ 0

AllBelow-mono : (m n : ℕ) (us : List ℕ) → m ≤ n → AllBelow m us → AllBelow n us
AllBelow-mono m n [] l h = tt
AllBelow-mono m n (u ∷ us) l h = (omega (arith, h.0), AllBelow-mono m n us l h.1)

AllBelow-set_insert : (n x : ℕ) (us : List ℕ) → x < n → AllBelow n us → AllBelow n (set_insert x us)
unfolding set_insert
AllBelow-set_insert n x [] l h = (l, tt)
AllBelow-set_insert n x (u ∷ us) l h = elim (Bool-cases (ltb x u)) [
  | inl e ↦ rw e (l, h)
  | inr e ↦ elim (Bool-cases (x == u)) [
    | inl f ↦ rw (e, f) h
    | inr f ↦ rw (e, f) (h.0, AllBelow-set_insert n x us l h.1)
  ]
]

AllIn-set_insert :
    (members : ℕ → Bool) (x : ℕ) (us : List ℕ)
    → members x ≡ true
    → AllIn members us
    → AllIn members (set_insert x us)
unfolding set_insert
AllIn-set_insert members x [] l h = (l, tt)
AllIn-set_insert members x (u ∷ us) l h = elim (Bool-cases (ltb x u)) [
  | inl e ↦ rw e (l, h)
  | inr e ↦ elim (Bool-cases (x == u)) [
    | inl f ↦ rw (e, f) h
    | inr f ↦ rw (e, f) (h.0, AllIn-set_insert members x us l h.1)
  ]
]

length-resize :
    (garbage : Bool) (nodes : List Node) (n : ℕ)
    → length (resize garbage nodes n) ≡ max (length nodes) n
unfolding resize max
length-resize garbage nodes zero = ground arith
length-resize garbage [] (suc n) = ground (arith, length-resize garbage [] n)
length-resize garbage (node ∷ nodes) (suc n) = ground (arith, length-resize garbage nodes n)

get_elem?-resize :
    (garbage : Bool) (nodes : List Node) (n i : ℕ) (node : Node)
    → get_elem? (resize garbage nodes n) i ≡ some node
    → (get_elem? nodes i ≡ some node) ⊎ (node ≡ new_node garbage)
unfolding resize
get_elem?-resize garbage nodes zero i node e = inl e
get_elem?-resize garbage [] (suc n) zero node e =
    inr (some-injective node (new_node garbage) (sym e))
get_elem?-resize garbage [] (suc n) (suc i) node e = elim (get_elem?-resize garbage [] n i node e) [
  | inl h ↦ cc
  | inr h ↦ inr h
]
get_elem?-resize garbage (x ∷ nodes) (suc n) zero node e = inl e
get_elem?-resize garbage (x ∷ nodes) (suc n) (suc i) node e =
    get_elem?-resize garbage nodes n i node e

-- The number of nodes for the literals of the clauses fits into 32 bits.
abbrev pub AllFit : List (List ℕ) → Type 0
AllFit [] = Unit
AllFit (clause ∷ clauses) = AllBelow (2 ^ 32 - 2) clause × AllFit clauses

module _ (members : ℕ → Bool) where
  resize-Built :
      (garbage : Bool) (nodes : List Node) (n : ℕ)
      → n % 2 ≡ 0
      → Built members nodes
      → Built members (resize garbage nodes n)
  unfolding max
  resize-Built garbage nodes n d h = record {
    blank = λ i node e. elim (get_elem?-resize garbage nodes n i node e) [
      | inl f ↦ h.blank i node f
      | inr f ↦ ap Node.index f
    ];
    ranged = λ i node e. elim (get_elem?-resize garbage nodes n i node e) [
      | inl f ↦
          AllBelow-mono (length nodes) (length (resize garbage nodes n)) node.next
            (ground (arith, length-resize garbage nodes n)) (h.ranged i node f)
      | inr f ↦ subst (λ (x : Node). AllBelow (length (resize garbage nodes n)) x.next) (sym f) tt
    ];
    implied = λ i node e. elim (get_elem?-resize garbage nodes n i node e) [
      | inl f ↦ h.implied i node f
      | inr f ↦ λ m. subst (λ (x : Node). AllIn members x.next) (sym f) tt
    ];
    even = ground (arith, length-resize garbage nodes n, h.even);
  }

  -- An edge between nodes of the graph.
  data Added (nodes : List Node) (outcome : Option (List Node)) : Type 0 where
    added :
        (nodes' : List Node)
        → outcome ≡ some nodes'
        → Built members nodes'
        → length nodes' ≡ length nodes
        → Added nodes outcome

  add_edge-Added :
      (nodes : List Node) (u w : ℕ)
      → Built members nodes
      → u < length nodes
      → w < length nodes
      → (members u ≡ true → members w ≡ true)
      → Added nodes (add_edge nodes u w)
  unfolding add_edge
  add_edge-Added nodes u w h l k c =
      let (node, e) = get_elem?_total nodes u l in
      let node' : Node = record node { next = set_insert w node.next } in
      let size = length-set nodes u node' in
      added (set nodes u node') (rw e refl)
        (record {
          blank = λ i n f. elim (set-cases nodes u i node' n l f) [
            | inl c ↦ ap Node.index c.1 ∙ h.blank u node e
            | inr c ↦ h.blank i n c.1
          ];
          ranged = λ i n f.
              subst (λ (m : ℕ). AllBelow m n.next) (sym size)
                (elim (set-cases nodes u i node' n l f) [
                  | inl c ↦
                      subst (λ (x : Node). AllBelow (length nodes) x.next) (sym c.1)
                        (AllBelow-set_insert (length nodes) w node.next k (h.ranged u node e))
                  | inr c ↦ h.ranged i n c.1
                ]);
          implied = λ i n f. elim (set-cases nodes u i node' n l f) [
            | inl d ↦ λ m.
                let here : members u ≡ true = ap members (sym d.0) ∙ m in
                subst (λ (x : Node). AllIn members x.next) (sym d.1)
                  (AllIn-set_insert members w node.next (c here) (h.implied u node e here))
            | inr d ↦ h.implied i n d.1
          ];
          even = omega (arith, size, h.even);
        })
        size

  -- What a clause asks of the members.
  abbrev pub Respects : List ℕ → Type 0
  Respects [] = Unit
  Respects (a ∷ []) = members (negate a) ≡ true → members a ≡ true
  Respects (a ∷ b ∷ []) =
      (members (negate a) ≡ true → members b ≡ true)
      × (members (negate b) ≡ true → members a ≡ true)
  Respects (a ∷ b ∷ c ∷ rest) = Unit

  abbrev pub AllRespect : List (List ℕ) → Type 0
  AllRespect [] = Unit
  AllRespect (clause ∷ clauses) = Respects clause × AllRespect clauses

  add_clause-Built :
      (garbage : Bool) (nodes : List Node) (clause : List ℕ)
      → Built members nodes
      → AllBelow (2 ^ 32 - 2) clause
      → Respects clause
      → (nodes' : List Node) × (add_clause garbage nodes clause ≡ some nodes')
        × Built members nodes'
  unfolding add_clause max negate
  add_clause-Built garbage nodes [] h f r = (nodes, refl, h)
  add_clause-Built garbage nodes (a ∷ []) h f r =
      let n = (max a (negate a) + 1) % 2 ^ 32 in
      let size = length-resize garbage nodes n in
      elim (add_edge-Added (resize garbage nodes n) (negate a) a
        (resize-Built garbage nodes n (ground arith) h) (ground (arith, size))
        (ground (arith, size)) r) [ added nodes' e b l ↦ (nodes', e, b) ]
  add_clause-Built garbage nodes (a ∷ b ∷ []) h f r =
      let n = (max (max a b) (max (negate a) (negate b)) + 1) % 2 ^ 32 in
      let size = length-resize garbage nodes n in
      elim (add_edge-Added (resize garbage nodes n) (negate a) b
        (resize-Built garbage nodes n (ground arith) h) (ground (arith, size))
        (ground (arith, size)) r.0) [
          | added one e c l ↦
              elim (add_edge-Added one (negate b) a c (ground (arith, size, l))
                (ground (arith, size, l)) r.1) [ added two g d m ↦ (two, rw (e, g) refl, d) ]
        ]
  add_clause-Built garbage nodes (a ∷ b ∷ c ∷ rest) h f r = (nodes, refl, h)

  pub build-Built :
      (garbage : Bool) (nodes : List Node) (clauses : List (List ℕ))
      → Built members nodes
      → AllFit clauses
      → AllRespect clauses
      → (nodes' : List Node) × (build garbage nodes clauses ≡ some nodes') × Built members nodes'
  unfolding build
  build-Built garbage nodes [] h f r = (nodes, refl, h)
  build-Built garbage nodes (clause ∷ clauses) h f r =
      let (one, e, h') = add_clause-Built garbage nodes clause h f.0 r.0 in
      let (all, g, h'') = build-Built garbage one clauses h' f.1 r.1 in (all, rw (e, g) refl, h'')
