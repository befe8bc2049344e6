-- ===== src/Tags/Sat/Two/Quiet.antt =====
-- passes/tags/sat_2.cpp: what `visit` keeps of the variables it shares.
use llir_opt.Prelude.{
  ℕ, zero, suc, ◌<◌, ◌≤◌, ◌+◌, ◌≡◌, refl, sym, ap, ◌∙◌, ◌⊎◌, inl, inr, Bool, true, false, List, [],
  ◌∷◌, ◌++◌, some, arith, length, get_elem?, set, set-same, ltb, ◌==◌, if◌then◌else◌, Bool-cases,
  Option-cases,
}
use llir_opt.Tags.Sat.Two.{
  set_insert, Node, Walk, find_scc, emplace, enter, lower, leave, pop_component, follow, follow_all,
  min,
}
use llir_opt.Tags.Sat.Two.Entries.{Alone, emplace-keeps}

-- A node that was entered is the lowest node it has seen, and is marked as a node of a component.
abbrev pub Settled : ℕ → Node → Type 0
Settled k node =
    (node.index ≤ k) × ((node.index ≡ 0) ⊎ ((node.link ≡ node.index) × (node.in_component ≡ true)))

abbrev pub AllBelow : ℕ → List ℕ → Type 0
AllBelow n [] = Unit
AllBelow n (u ∷ us) = (u < n) × AllBelow n us

-- A set of nodes that the edges do not leave: its members in a list, and a component with a member.
abbrev pub AllIn : (ℕ → Bool) → List ℕ → Type 0
AllIn h [] = Unit
AllIn h (u ∷ us) = (h u ≡ true) × AllIn h us

abbrev pub Inhabited : (ℕ → Bool) → List (ℕ × ℕ) → ℕ → Type 0
Inhabited h scc_of b = (w : ℕ) × (find_scc w scc_of ≡ some b) × (h w ≡ true)

abbrev pub AllInhabited : (ℕ → Bool) → List (ℕ × ℕ) → List ℕ → Type 0
AllInhabited h scc_of [] = Unit
AllInhabited h scc_of (b ∷ bs) = Inhabited h scc_of b × AllInhabited h scc_of bs

pub record Quiet (h : ℕ → Bool) (s : Walk) : Type 0 where
  pub stack : s.stack ≡ []
  pub settled : (i : ℕ) (node : Node) → get_elem? s.nodes i ≡ some node → Settled s.index node
  pub ranged :
      (i : ℕ) (node : Node) → get_elem? s.nodes i ≡ some node → AllBelow (length s.nodes) node.next
  pub implied :
      (i : ℕ) (node : Node) → get_elem? s.nodes i ≡ some node → h i ≡ true → AllIn h node.next
  pub sound :
      (a : ℕ) (edges : List ℕ) (v : ℕ)
      → get_elem? s.graph a ≡ some edges
      → find_scc v s.scc_of ≡ some a
      → h v ≡ true
      → AllInhabited h s.scc_of edges
  pub alone : Alone (length s.nodes) (length s.graph) s.scc_of

-- The nodes that were not entered.
unfoldable pub unvisited : List Node → ℕ
unvisited [] = 0
unvisited (node ∷ nodes) = (if node.index == 0 then 1 else 0) + unvisited nodes

-- What becomes of the variables while `visit` runs: the nodes that were entered stay, and the nodes that
-- it enters have later numbers and a component.
pub record Grows (s t : Walk) : Type 0 where
  pub size : length t.nodes ≡ length s.nodes
  pub index : s.index ≤ t.index
  pub kept :
      (i : ℕ) (node : Node)
      → get_elem? s.nodes i ≡ some node
      → 0 < node.index
      → get_elem? t.nodes i ≡ some node
  pub fresh :
      (i : ℕ) (node : Node)
      → get_elem? t.nodes i ≡ some node
      → 0 < node.index
      → (get_elem? s.nodes i ≡ some node)
        ⊎ ((s.index < node.index) × (a : ℕ) × (find_scc i t.scc_of ≡ some a))
  pub entries : (i a : ℕ) → find_scc i s.scc_of ≡ some a → find_scc i t.scc_of ≡ some a
  pub fewer : unvisited t.nodes ≤ unvisited s.nodes

pub Grows-refl : (s : Walk) → Grows s s
Grows-refl s = record {
  size = refl;
  index = omega arith;
  kept = λ i node h l. h;
  fresh = λ i node h l. inl h;
  entries = λ i a h. h;
  fewer = omega arith;
}

pub Grows-trans : (s t r : Walk) → Grows s t → Grows t r → Grows s r
Grows-trans s t r h k = record {
  size = k.size ∙ h.size;
  index = omega (arith, h.index, k.index);
  kept = λ i node g l. k.kept i node (h.kept i node g l) l;
  fresh = λ i node g l. elim (k.fresh i node g l) [
    | inr (m, a, f) ↦ inr (omega (arith, h.index), a, f)
    | inl g' ↦ elim (h.fresh i node g' l) [
      | inl g'' ↦ inl g''
      | inr (m, a, f) ↦ inr (m, a, k.entries i a f)
    ]
  ];
  entries = λ i a f. k.entries i a (h.entries i a f);
  fewer = omega (arith, h.fewer, k.fewer);
}

-- The number of the nodes that are left where a node is entered.
pub unvisited-set :
    (nodes : List Node) (v : ℕ) (node x : Node)
    → get_elem? nodes v ≡ some node
    → node.index ≡ 0
    → 0 < x.index
    → suc (unvisited (set nodes v x)) ≡ unvisited nodes
unfolding unvisited
unvisited-set [] v node x e z l = cc
unvisited-set (n ∷ nodes) zero node x e z l = ground (arith, e)
unvisited-set (n ∷ nodes) (suc v) node x e z l = omega (arith, unvisited-set nodes v node x e z l)

-- The node that `visit` starts with, and the variables then.
abbrev pub entered_node : Walk → Node → Node
entered_node s node = record node { index = s.index + 1; link = s.index + 1; in_component = true }

abbrev pub entered : ℕ → Walk → Node → Walk
entered v s node = record s { nodes = set s.nodes v (entered_node s node); index = s.index + 1 }

pub enter-entered :
    (v : ℕ) (s : Walk) (node : Node)
    → get_elem? s.nodes v ≡ some node
    → enter v s ≡ some (entered v s node)
unfolding enter
enter-entered v s node e = rw e refl

-- A successor with a later number does not lower the node.
pub lower-same :
    (v u : ℕ) (s : Walk) (node succ : Node)
    → get_elem? s.nodes v ≡ some node
    → get_elem? s.nodes u ≡ some succ
    → node.link ≤ succ.link
    → lower v u s ≡ some s
unfolding lower min
lower-same v u s node succ e f l =
    let later : ltb succ.link node.link ≡ false = ground arith in
    rw (e, f, later) (ap (λ nodes. some (record s { nodes = nodes })) (set-same s.nodes v node e))

-- The variables after a node that is the lowest it has seen, on an empty stack.
abbrev pub finished : ℕ → Walk → Node → Walk
finished v s node = record {
  nodes = s.nodes;
  index = s.index;
  stack = [];
  graph = s.graph ++ follow (emplace v (length s.graph) s.scc_of) node.next [] ∷ [];
  scc_of = emplace v (length s.graph) s.scc_of;
}

pub leave-finished :
    (v : ℕ) (s : Walk) (node : Node)
    → get_elem? s.nodes v ≡ some node
    → node.link ≡ node.index
    → node.in_component ≡ true
    → s.stack ≡ []
    → leave v s ≡ some (finished v s node)
unfolding leave pop_component follow_all
leave-finished v s node e l c k =
    let same : (node.link == node.index) ≡ true = ground arith in
    let marked : set s.nodes v (record node { in_component = true }) ≡ s.nodes =
      ap (λ b. set s.nodes v (record node { in_component = b })) (sym c)
      ∙ set-same s.nodes v node e in
    rw (e, same, k, marked, e) refl

-- A new entry changes no member, and the edges of a node in the set lead to components with a member.
pub AllInhabited-emplace :
    (h : ℕ → Bool) (v count : ℕ) (entries : List (ℕ × ℕ)) (bs : List ℕ)
    → AllInhabited h entries bs
    → AllInhabited h (emplace v count entries) bs
AllInhabited-emplace h v count entries [] k = tt
AllInhabited-emplace h v count entries (b ∷ bs) k = (
  (k.0.0, emplace-keeps v count k.0.0 b entries k.0.1, k.0.2),
  AllInhabited-emplace h v count entries bs k.1,
)

AllInhabited-set_insert :
    (h : ℕ → Bool) (entries : List (ℕ × ℕ)) (x : ℕ) (bs : List ℕ)
    → Inhabited h entries x
    → AllInhabited h entries bs
    → AllInhabited h entries (set_insert x bs)
unfolding set_insert
AllInhabited-set_insert h entries x [] l k = (l, tt)
AllInhabited-set_insert h entries x (b ∷ bs) l k = elim (Bool-cases (ltb x b)) [
  | inl e ↦ rw e (l, k)
  | inr e ↦ elim (Bool-cases (x == b)) [
    | inl f ↦ rw (e, f) k
    | inr f ↦ rw (e, f) (k.0, AllInhabited-set_insert h entries x bs l k.1)
  ]
]

pub follow-AllInhabited :
    (h : ℕ → Bool) (entries : List (ℕ × ℕ)) (us bs : List ℕ)
    → AllIn h us
    → AllInhabited h entries bs
    → AllInhabited h entries (follow entries us bs)
unfolding follow
follow-AllInhabited h entries [] bs l k = k
follow-AllInhabited h entries (u ∷ us) bs l k = elim (Option-cases (find_scc u entries)) [
  | inl e ↦ rw e (follow-AllInhabited h entries us bs l.1 k)
  | inr (scc, e) ↦ rw e (
      follow-AllInhabited h entries us (set_insert scc bs) l.1
        (AllInhabited-set_insert h entries scc bs (u, e, l.0) k))
]
