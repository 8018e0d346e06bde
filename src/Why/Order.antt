-- ===== src/Why/Order.antt =====
-- internal/why/why.go: the order in which relations and generations are shown.
use dira.Prelude.{
  ℕ, zero, suc, ◌+◌, Bool, true, false, not, ◌&&◌, List, [], ◌∷◌, ◌++◌, none, some, Str, str_lt,
  ltb, ◌==◌, if◌then◌else◌, Dict, lookup, sort,
}
use dira.Ledger.Entry.{EdgeType, supersedes, derives_from, informs, blocks, edge_type_eq}
use dira.Why.{Node, Relation}

abbrev relation_groups : List (EdgeType × Bool)
relation_groups =
    (supersedes, false)
    ∷ (informs, false)
    ∷ (blocks, false)
    ∷ (derives_from, true)
    ∷ (informs, true)
    ∷ (blocks, true)
    ∷ []

abbrev incoming_eq : Bool → Bool → Bool
incoming_eq a b = if a then b else not b

abbrev group_in : List (EdgeType × Bool) → Relation → ℕ
group_in [] r = 0
group_in ((type, incoming) ∷ groups) r =
    if edge_type_eq type r.type && incoming_eq incoming r.incoming then 0 else 1 + group_in groups r

-- `group`
unfoldable pub group : Relation → ℕ
group r = group_in relation_groups r

unfoldable pub relation_less : Relation → Relation → Bool
unfolding group
relation_less a b =
    if group a == group b then str_lt a.node.ref b.node.ref else ltb (group a) (group b)

-- The greatest depth.
abbrev pub deepest : Dict ℕ → ℕ
deepest [] = 0
deepest ((_, d) ∷ depths) = let m = deepest depths in if ltb m d then d else m

abbrev node_at : Dict Node → Str → List Node
node_at nodes ref = elim (lookup ref nodes) [ none ↦ [] | some n ↦ n ∷ [] ]

-- The nodes of one depth.
unfoldable pub nodes_at : ℕ → Dict ℕ → Dict Node → List Node
unfolding lookup
nodes_at d [] nodes = []
nodes_at d ((ref, known) ∷ depths) nodes =
    let rest = nodes_at d depths nodes in if known == d then node_at nodes ref ++ rest else rest

abbrev generations_from : ℕ → Dict ℕ → Dict Node → List (List Node)
generations_from zero depths nodes = []
generations_from (suc d) depths nodes =
    sort (λ a b. str_lt a.ref b.ref) (nodes_at (suc d) depths nodes)
    ∷ generations_from d depths nodes

-- `generations`: the deepest first; the generation of depth 1 is the last.
unfoldable pub generations : Dict ℕ → Dict Node → List (List Node)
unfolding nodes_at sort
generations depths nodes = generations_from (deepest depths) depths nodes
