-- ===== src/Lib.antt =====
-- A verification library for jstd: typed identifiers, the two arenas that store payloads under
-- them, the segmented registry, the string pool, the owning graph with its traversals, the dominator
-- tree, the post-dominators and the region analysis.
--
-- Parts of the program and the files that model them:
--
-- * Identifiers (src/registry.rs, derive/src/lib.rs). `Identifier.antt` is the trait `Identifier`,
--   a record of the two conversions with the two laws that its users rely on, and `Identified`.
--   `Identifier/Derive.antt` is the code that `#[derive(Identifier)]` generates for `usize` and
--   `u32` fields; its `derived` fills the record. `cast` is `usize -> Id -> usize`.
-- * Stable arena (src/stable_arena.rs). `StableArena.antt` has the record and one function for each
--   method under the method's name; `relocate` is the tail of `remove`, `take_back` and
--   `take_back_range` are the loop of `truncate_issued`, `push_all` that of `from_iter`, `at` and
--   `set_entry` are `Index` and `IndexMut`. `StableArena/Wire.antt` is the serde implementation,
--   `placed` one accepted entry and `load` its loop. `Valid`, `Remove` and `Repair` carry the
--   representation invariant; `Ledger` is what a client sees, and `Refine`, `Truncate`, `Dense` and
--   `History` compare the two.
-- * Recycling arena (src/recycling_arena.rs). `RecyclingArena.antt` has the slots and the methods;
--   the fields `free` and `live` are `first_free` and `live_len` here, since the constructors of
--   `Slot` have those words. `reuse` and `extend` are the two arms of `push`. `Pool` is what a
--   client sees; `FreeList` and `Represents` relate the intrusive list to the pool's stack.
-- * Registry (src/registry.rs). `Registry.antt` has the segmented vector; `grow` is the fresh chunk
--   of `push`, `drop_last` the loop of `truncate`, `push_all` that of `from_iter`, and `replace_at`
--   is `replace` on a raw index. `Holds` says which flat list a registry holds; `Locate`, `Push`,
--   `Replace`, `Shrink` and `Iterate` are about the operations; `Wire` has serialization, cloning and
--   comparison.
--   `Registry/Select` is `select_mut`: `want_from`, `route` and `expect_all` are its three loops.
-- * String pool (src/intern.rs). `Intern.antt` has `intern` and its map over a vector; a `&'static
--   str` is an address among the leaked strings. `Intern/Exact` has the invariant.
-- * Owning graph (src/graph.rs, src/graph/owning.rs, src/graph/node.rs, src/graph/edge.rs).
--   `Graph.antt` has the four maps and two counters, the edits, and the methods of the views as
--   functions of the graph and an id; `attach` and `detach` write one incident set, `remove_edges` is
--   the loop of `remove_node`, `rehome` that of `merge_nodes`, and `children_among` and its kin are the
--   `next` of the three iterators. `Graph/Diagram` is what a client sees, `Represents` relates the two;
--   `Edges`, `Edits`, `Nodes`, `Refine` and `History` are about the edits, `Views` and `Adjacency` about
--   the iterators, `Merge`, `MergeArcs` and `Merged` about `merge_nodes`, `Live` about the calls that the
--   parser makes. `Graph/Dfs` is `DfsIter`:
--   `push_items` is its inner loop, `collect` the calls of `next`.
-- * Dominators (src/graph/analysis/dominator.rs). `Dominators.antt` has `reachable_from_root`;
--   `push_unvisited` and `search` are its loops. A `Cfg` is its function `successors`.
--   `Dominators/Tree.antt` has `DominatorTree` with the children, sets and frontier that it computes
--   from the immediate dominators; `climb` and `sets_from` are the loops of
--   `compute_dominator_sets`, `run_up`, `run_all` and `frontier_from` those of `dominator_frontier`.
--   `Dominators/Tarjan.antt` has the state of the Lengauer-Tarjan run, `dfs`, `compress` and `eval`, and
--   `Dominators/Tarjan/Passes.antt` the passes of `run_lengauer_tarjan` and `compute_dominators`.
--   `Above` and `Strip` describe the ways up the tree, `Sets`, `Frontier`, `Joins` and `Exact` are about
--   the loops.
-- * Post-dominators (src/graph/analysis/post_dominator.rs). `PostDominators.antt` has the iteration:
--   `start` is the loop of the first sets, `sweep` the `for` loop and `iterate` the `while` loop.
--   `Escape` describes the paths that avoid a node; `Meet`, `Sweep`, `Round` and `Fixpoint` are about
--   the sets, one update, one round and the whole.
-- * Graph parser (src/graph/parse.rs). `Parse.antt` has the characters, lines and declarations;
--   `Parse/Build.antt` has `ensure_node` and the loop of `parse`, `parse_edge` and `parse_node` for the
--   two kinds of line. A string is the list of its code points, and `char::is_whitespace` is the
--   parameter `is_whitespace`. `Trim` and `Declaration` are about `parse_declaration`;
--   `Build/Faults` says what is wrong with a line, for the errors of `parse`.
-- * Regions (src/graph/analysis/sese.rs). `Sese.antt` has the edge predicates on the internal
--   flowgraph, up to `region_nodes`; `offer` and `scan` are the inner loop of `reachable`, `visit`
--   and `search` the outer one, and `valid` is the check of the partition at the end of
--   `jpp_cycle_classes`. `Walk` describes the paths of the flowgraph that avoid one edge; `Scan`,
--   `Flags` and `Loop` are about the search, `Boundary`, `Region` and `Classes` about its users.
--   `Sese/Compute.antt` has `compute_sese` and `compute_sese_candidates`, which share the steps that the
--   source writes out twice: `Sese/Flowgraph.antt` numbers the nodes that the root reaches and builds the
--   flowgraph, `Sese/Jpp.antt` and `Sese/Jpp/Brackets.antt` are `jpp_cycle_classes` (`visit` and its
--   loop, then `round` for each node; `propose` is the part before the validation and `settle` the
--   rest), `Sese/Direct.antt` is `direct_cycle_classes`, `Sese/Candidates.antt` the loop over the pairs
--   of edges, and `Sese/Regions.antt` the selection and the tree of regions. A graph is its successor
--   function and the list of its edges, and ids are numbers in their order. `Sese/Flowgraph/Sinks` is
--   about the synthetic edges, `Sese/Regions/Canonical` and `Selection` about the selection, and
--   `Parents`, `Made`, `Owners` and `Tree` there about the loops that build the tree.
--
-- `Base` passes the library's names on and has the lists over the native numbers, the Boolean tests
-- and `Outcome`, in which `panic` stands for a failed assertion, an index out of range or an
-- `unreachable!`. A method that takes `&mut self` returns the new value beside its result; a
-- reference to a payload is the payload, and a write through a mutable reference is a function of
-- the value written. Each component's theorems are applied at concrete inputs in its `Tests`.
--
-- Bounds and fuel: `usize` has 64 bits; `dead` is its largest value, and a `Vec` is a list of any
-- length. `locate` counts the leading zeros of 64 bits and panics on an overflow. The loop of
-- `truncate_issued` is structural in the length of its range. `search`, the loop of `reachable`,
-- runs on `rounds` rounds of fuel, `n * (edges + 1) + 1`: each of the `n` nodes is expanded once,
-- pushes at most one node for each edge, and each round pops one. `reachable_from_root` takes fuel
-- for the nodes and edges that lie within reach, a loop up the dominator tree for the height of the
-- tree, a traversal for the nodes and one more call, and the
-- post-dominators for one round more than the square of the number of nodes, since each round but the
-- last takes an element out of a set. `dfs` and `compress` of the Lengauer-Tarjan run take fuel for
-- the depth of their recursion, as does `visit` of `jpp_cycle_classes`. The breadth-first loop of
-- `compute_sese` takes fuel for the nodes and edges within reach, and `find` of
-- `direct_cycle_classes` more than the square of the number of edges: a tree of parent pointers is not
-- higher than the number of joins.
--
-- Not modelled: capacities and formatting; serde's encodings below the wire structs; the registry's
-- `get_mut` and the writes through its mutable references; the assertions that
-- `compute_sese` makes in test builds; the references by id; the cells in which the dominator tree
-- keeps what it has computed; logging and benchmarks.
pub mod Base
pub mod Identifier
pub mod StableArena
pub mod RecyclingArena
pub mod Registry
pub mod Intern
pub mod Graph
pub mod Dominators
pub mod PostDominators
pub mod Parse
pub mod Sese
