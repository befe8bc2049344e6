-- ===== src/Tags/Sat/Two.antt =====
-- passes/tags/sat_2.cpp: `SAT2Solver`, for problems whose clauses have at most two literals. A read
-- outside of a vector or of a map is `none`.
pub mod Entries
pub mod Quiet
pub mod Entered
pub mod Visit
pub mod Build
pub mod Outcome
pub mod Reach
pub mod Answers
use llir_opt.Prelude.{
  ℕ, zero, suc, ◌+◌, ◌-◌, ◌/◌, ◌*◌, ◌%◌, ◌^◌, Bool, true, false, not, ◌&&◌, ◌||◌, List, [], ◌∷◌,
  ◌++◌, Option, none, some, get_elem?, get_or, set, length, ltb, ◌==◌, ◌>>=◌, if◌then◌else◌,
}

pub record Node : Type 0 where
  pub index : ℕ
  pub link : ℕ
  pub in_component : Bool
  pub next : List ℕ

-- `lit ^ 1`
unfoldable pub negate : ℕ → ℕ
negate lit = if lit % 2 == 0 then lit + 1 else lit - 1

-- `std::set<unsigned>`
unfoldable pub set_insert : ℕ → List ℕ → List ℕ
set_insert x [] = x ∷ []
set_insert x (y ∷ ys) =
    let later = set_insert x ys in
    if ltb x y then x ∷ y ∷ ys else (if x == y then y ∷ ys else y ∷ later)

-- A new node. The constructor leaves `InComponent` as it finds it.
abbrev pub new_node : Bool → Node
new_node garbage = record { index = 0; link = 0; in_component = garbage; next = [] }

-- `if (nodes.size() < size) nodes.resize(size)`
unfoldable pub resize : Bool → List Node → ℕ → List Node
resize garbage nodes zero = nodes
resize garbage [] (suc n) = new_node garbage ∷ resize garbage [] n
resize garbage (node ∷ nodes) (suc n) = node ∷ resize garbage nodes n

unfoldable pub max : ℕ → ℕ → ℕ
max a b = if ltb a b then b else a

unfoldable pub min : ℕ → ℕ → ℕ
min a b = if ltb b a then b else a

-- `nodes[u].Next.insert(w)`
unfoldable pub add_edge : List Node → ℕ → ℕ → Option (List Node)
add_edge nodes u w = do
  node ← get_elem? nodes u
  some (set nodes u (record node { next = set_insert w node.next }))

-- The size that the clause needs wraps in 32 bits.
unfoldable pub add_clause : Bool → List Node → List ℕ → Option (List Node)
add_clause garbage nodes (a ∷ []) =
    add_edge (resize garbage nodes ((max a (negate a) + 1) % 2 ^ 32)) (negate a) a
add_clause garbage nodes (a ∷ b ∷ []) = do
  one ←
      add_edge (resize garbage nodes ((max (max a b) (max (negate a) (negate b)) + 1) % 2 ^ 32))
        (negate a) b
  add_edge one (negate b) a
add_clause garbage nodes _ = some nodes

unfoldable pub build : Bool → List Node → List (List ℕ) → Option (List Node)
build garbage nodes [] = some nodes
build garbage nodes (clause ∷ clauses) = do
  nodes' ← add_clause garbage nodes clause
  build garbage nodes' clauses

-- `sccOfNode_`, an entry of `unordered_map` for each node that has a component.
unfoldable pub find_scc : ℕ → List (ℕ × ℕ) → Option ℕ
find_scc v [] = none
find_scc v ((w, scc) ∷ rest) = let later = find_scc v rest in if w == v then some scc else later

unfoldable pub emplace : ℕ → ℕ → List (ℕ × ℕ) → List (ℕ × ℕ)
emplace v scc entries = elim (find_scc v entries) [ none ↦ (v, scc) ∷ entries | some _ ↦ entries ]

-- The variables that `visit` shares, the top of the stack first.
pub record Walk : Type 0 where
  pub nodes : List Node
  pub index : ℕ
  pub stack : List ℕ
  pub graph : List (List ℕ)
  pub scc_of : List (ℕ × ℕ)

-- The start of `visit`.
unfoldable pub enter : ℕ → Walk → Option Walk
enter v s = do
  node ← get_elem? s.nodes v
  some (record s {
    nodes =
        set s.nodes v
          (record node { index = s.index + 1; link = s.index + 1; in_component = true });
    index = s.index + 1;
  })

-- `node.Link = std::min(node.Link, nodes[succId].Link)`
unfoldable pub lower : ℕ → ℕ → Walk → Option Walk
lower v u s = do
  node ← get_elem? s.nodes v
  succ ← get_elem? s.nodes u
  some (record s { nodes = set s.nodes v (record node { link = min node.link succ.link }) })

-- The loop over the successors of `v`, which calls `visit`.
unfoldable pub visit_succs : (ℕ → Walk → Option Walk) → ℕ → List ℕ → Walk → Option Walk
visit_succs visit v [] s = some s
visit_succs visit v (u ∷ us) s = do
  succ ← get_elem? s.nodes u
  s' ←
      (if succ.index == 0
        then (do t ← visit u s; lower v u t)
        else (if succ.in_component then some s else lower v u s))
  visit_succs visit v us s'

-- The nodes that leave the stack for the component `scc`: the nodes, the rest of the stack, the
-- components and the nodes of the component.
unfoldable pub pop_component :
    ℕ
    → ℕ
    → List Node
    → List ℕ
    → List (ℕ × ℕ)
    → List ℕ
    → Option (List Node × List ℕ × List (ℕ × ℕ) × List ℕ)
pop_component scc link nodes [] scc_of component = some (nodes, [], scc_of, component)
pop_component scc link nodes (top ∷ stack) scc_of component = do
  node ← get_elem? nodes top
  if ltb link node.index
      then pop_component scc link (set nodes top (record node { in_component = true })) stack
          (emplace top scc scc_of) (component ++ top ∷ [])
      else some (nodes, top ∷ stack, scc_of, component)

-- The components that follow a component.
unfoldable pub follow : List (ℕ × ℕ) → List ℕ → List ℕ → List ℕ
follow scc_of [] edges = edges
follow scc_of (u ∷ us) edges =
    follow scc_of us (elim (find_scc u scc_of) [ none ↦ edges | some scc ↦ set_insert scc edges ])

unfoldable pub follow_all : List Node → List (ℕ × ℕ) → List ℕ → List ℕ → Option (List ℕ)
follow_all nodes scc_of [] edges = some edges
follow_all nodes scc_of (n ∷ ns) edges = do
  node ← get_elem? nodes n
  follow_all nodes scc_of ns (follow scc_of node.next edges)

-- The end of `visit`.
unfoldable pub leave : ℕ → Walk → Option Walk
leave v s = do
  node ← get_elem? s.nodes v
  if node.link == node.index
      then (do
        (nodes, stack, scc_of, component) ←
            pop_component (length s.graph) node.link
              (set s.nodes v (record node { in_component = true })) s.stack
              (emplace v (length s.graph) s.scc_of) (v ∷ [])
        edges ← follow_all nodes scc_of component []
        some (record {
          nodes = nodes;
          index = s.index;
          stack = stack;
          graph = s.graph ++ edges ∷ [];
          scc_of = scc_of;
        }))
      else some (record s { stack = v ∷ s.stack })

-- `visit`, on fuel for the depth of the calls.
unfoldable pub visit : ℕ → ℕ → Walk → Option Walk
visit zero v s = none
visit (suc fuel) v s = do
  entered ← enter v s
  node ← get_elem? entered.nodes v
  left ← visit_succs (visit fuel) v node.next entered
  leave v left

-- `for (i = 0; i < n; ++i)`, with the nodes that are left.
unfoldable pub visit_all : ℕ → ℕ → ℕ → Walk → Option Walk
visit_all fuel i zero s = some s
visit_all fuel i (suc n) s = do
  node ← get_elem? s.nodes i
  s' ← (if node.index == 0 then visit fuel i s else some s)
  visit_all fuel (suc i) n s'

-- The last loop of the constructor: whether a literal and its negation share a component.
unfoldable pub find_unsat : List (ℕ × ℕ) → List (ℕ × ℕ) → Option Bool
find_unsat scc_of [] = some false
find_unsat scc_of ((lit, scc) ∷ rest) = do
  other ← find_scc (negate lit) scc_of
  unsat ← find_unsat scc_of rest
  some (scc == other || unsat)

pub record Solver2 : Type 0 where
  pub unsat : Bool
  pub scc_graph : List (List ℕ)
  pub scc_of_node : List (ℕ × ℕ)

unfoldable pub new_solver2 : Bool → List (List ℕ) → Option Solver2
new_solver2 garbage clauses = do
  nodes ← build garbage [] clauses
  walk ←
      visit_all (length nodes) 0 (length nodes)
        (record { nodes = nodes; index = 0; stack = []; graph = []; scc_of = [] })
  unsat ← find_unsat walk.scc_of walk.scc_of
  some (record { unsat = unsat; scc_graph = walk.graph; scc_of_node = walk.scc_of })

-- The loop of `IsSatisfiableWith` over the queue, on fuel: `false` where it meets the component `end`.
unfoldable pub contains_scc : ℕ → List ℕ → Bool
contains_scc x [] = false
contains_scc x (y ∷ ys) = x == y || contains_scc x ys

unfoldable pub find_path : ℕ → ℕ → List (List ℕ) → List ℕ → List ℕ → Option Bool
find_path zero end graph visited q = none
find_path (suc fuel) end graph visited [] = some true
find_path (suc fuel) end graph visited (node ∷ q) =
    let skip = find_path fuel end graph visited q in
    if node == end
    then some false
    else (if contains_scc node visited then skip else (do
      next ← get_elem? graph node
      find_path fuel end graph (node ∷ visited) (q ++ next)))

-- `IsSatisfiable` and `IsSatisfiableWith`.
unfoldable pub is_satisfiable2 : Solver2 → Bool
is_satisfiable2 s = not s.unsat

unfoldable pub is_satisfiable_with2 : ℕ → ℕ → Solver2 → Option Bool
is_satisfiable_with2 fuel id s =
    if s.unsat then some false else elim (find_scc (id * 2 % 2 ^ 32) s.scc_of_node) [
      | none ↦ some true
      | some start ↦ elim (find_scc (id * 2 % 2 ^ 32 + 1) s.scc_of_node) [
        | none ↦ some true
        | some end ↦ find_path fuel end s.scc_graph [] (start ∷ [])
      ]
    ]

-- The rounds of `find_path` that are enough: one for each edge, one for the start and one for the end.
unfoldable pub total_edges : List (List ℕ) → ℕ
total_edges [] = 0
total_edges (edges ∷ graph) = length edges + total_edges graph

abbrev pub enough : Solver2 → ℕ
enough s = total_edges s.scc_graph + 2
