-- ===== src/Lib.antt =====
-- A model of parts of llir-opt, an optimiser for a low-level intermediate representation, and proofs
-- about them. The parts are the containers and the value domains that its analyses stand on, the
-- satisfiability solvers of the tag analysis, and the lexer with the names and strings it reads back.
--
-- UnionFind models core/adt/union_find.h: `Emplace`, `Find`, `Map`, `Get`, `Union`, `Size` of
-- `UnionFind<T>` are emplace, find, map, get, union and the field size. Forest holds the two loops of
-- `Find`. A structure is a list of entries; an operation returns the new structure, since `Find`
-- compresses paths. Each loop has one round of fuel more than there are entries: a walk on a valid
-- structure visits no entry twice, and the theorems state that the operations return.
--
-- BitSet models core/adt/bitset.h, the sparse sets of the points-to solver and other passes: each
-- method of `BitSet<T>` is a function of the same name (erase_item, union_set, same_set and empty_set
-- are `Erase`, `Union`, `operator==` and the constructor), the methods of `Node` are those of
-- BitSet.Chunk, and the iterators are next and prev. BitSet.Valid says which identifiers are in a set
-- and what the class keeps true. SortedMap stands for `std::map`. The fuel of visit, the loop over a
-- set, is one round for each number up to the last identifier and one more: the loop takes one for
-- each item and one for the end.
--
-- WorkQueue models core/adt/queue.h: `Push`, `Pop`, `Empty`, `Size` of `Queue<T>` are push, pop,
-- is_empty and size. The points-to solver (passes/pta) is the client of the three containers.
--
-- Cond models core/cond.h and core/cond.cpp, with the comparison of floats of
-- passes/sccp/compare.cpp, which says what the codes mean, and the rule `IsRedundant` of
-- passes/cond_simplify.cpp, which relies on `GetInverseCond`.
--
-- Syntax.Lexer models core/lexer.cpp: `NextToken` is next_token, with a function for each kind of token.
-- The text that is left stands for the buffer with the current character. The fuel of a loop is the
-- number of characters that are left and one more, since each round takes a character; the loops that
-- do not end on a text without a closing quote or newline run out of it. Syntax.Names and Syntax.Quote
-- model the tables of names in core/type.cpp, core/calling_conv.cpp, core/visibility.cpp,
-- core/register.cpp and core/parser.cpp, and the quoted strings of core/printer.cpp; `isprint` is a
-- parameter. Syntax.Args models the flags of core/type.cpp and the line `.args`: `ParseArgs` is
-- parse_args, with fuel for one round per parameter, and the printer of numbers of LLVM and
-- `llvm::Align` are parameters.
--
-- Tags.MaskedType and Tags.TaggedType model passes/tags/masked_type.cpp and
-- passes/tags/tagged_type.cpp, the domain of the tag analysis: each operator of the two classes is a
-- function of the same name, `operator|` of tagged types a function join with one function for each
-- row of its table. Tags.TaggedType.Values gives the types a meaning, as sets of words and pointers.
--
-- Tags.Step models passes/tags/eval: `Step::Add` and the other tables that give the type of a result
-- from the types of the operands are step_add and so on, with a function for each row of a table.
-- Tags.Step.Pointers says where a pointer may point after an addition. The types of instructions are
-- those of Sccp.Compare.
--
-- Tags.Sat models passes/tags/sat.h, sat.cpp, sat_n.cpp and sat_2.cpp: Problem is `SATProblem`, with
-- `Add`, `IsSatisfiable` and `IsSatisfiableWith` as add, is_satisfiable and is_satisfiable_with. Its two
-- solvers are Tags.Sat.Search, a search with a trail of decisions, and Tags.Sat.Two, for clauses of at
-- most two literals, on the components of a graph. A pointer to a literal is its number. Literals are
-- shifted, and the graph of the second solver is sized, in 32 bits, as in the code. The fuel of
-- the search is two rounds for each assignment of the variables, that of `visit` the number of nodes,
-- each of which is entered once, and that of the walk over the components one round for each edge and
-- two more. The flag that the constructor of a node leaves uninitialised is an argument.
--
-- Sccp.Lattice models passes/sccp/lattice.cpp, the domain of constant propagation: `LUB`, `IsTrue`,
-- `IsFalse` and `operator==` are lub, is_true, is_false and same_fact. Sccp.Lattice.Values gives the
-- facts a meaning. Sccp.Compare models passes/sccp/compare.cpp: `VisitCmpInst` is visit_cmp_inst, which
-- takes the facts of the operands and returns what the solver marks the comparison with.
--
-- Prelude and Bits hold what the parts share: tests on numbers, lists indexed by numbers, the bits of
-- a word, what the machine's operators do to them and the scans for a bit. Machine words are numbers
-- with the wrap-around written out. `none` is where C++ has undefined behaviour or `llvm_unreachable`,
-- where a loop is out of fuel, and in the parser where it calls `Error`. The scan for zeros,
-- the wide integers and the floats of LLVM are parameters, each with its documented behaviour, and the
-- Tests modules give an instance of each.
--
-- Not modelled: the object graph of the representation, the parts of the parser and the printer that
-- build and walk it, its transformations, the dataflow solvers of the analyses, the emitters, which drive
-- LLVM's back ends, and the command line tools.
pub mod Prelude
pub mod Bits
pub mod SortedMap
pub mod BitSet
pub mod Forest
pub mod UnionFind
pub mod WorkQueue
pub mod Cond
pub mod Syntax
pub mod Tags
pub mod Sccp
