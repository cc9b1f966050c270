-- ===== src/Plan/Pieces.antt =====
-- The split of a node list into pieces.
use nx_tinygrad.Base.{
  ◌≡◌, refl, ap, ◌∙◌, Bool, true, false, List, [], ◌∷◌, ◌++◌, append_assoc, All, All-append,
  Bool-cases, inl, inr, ◌≢◌,
}
use nx_tinygrad.Graph.{Node}
use nx_tinygrad.Plan.{Piece, run, single, node_jit_safe, flush, split, piece_nodes}

unfoldable pub join_nodes : List Piece → List Node
join_nodes [] = []
join_nodes (p ∷ ps) = piece_nodes p ++ join_nodes ps

pub join_nodes-cons :
    (p : Piece) (ps : List Piece) → join_nodes (p ∷ ps) ≡ piece_nodes p ++ join_nodes ps
unfolding join_nodes
join_nodes-cons p ps = refl

join_nodes-flush :
    (current : List Node) (ps : List Piece)
    → join_nodes (flush current ps) ≡ current ++ join_nodes ps
unfolding join_nodes
join_nodes-flush [] ps = refl
join_nodes-flush (n ∷ ns) ps = refl

join_nodes-split : (ns current : List Node) → join_nodes (split ns current) ≡ current ++ ns
unfolding split join_nodes
join_nodes-split [] current = join_nodes-flush current []
join_nodes-split (n ∷ ns) current = elim (Bool-cases (node_jit_safe n)) [
  | inl safe ↦
      rw safe (join_nodes-split ns (current ++ (n ∷ [])) ∙ append_assoc current (n ∷ []) ns)
  | inr unsafe ↦ rw unsafe (
      join_nodes-flush current (single n ∷ split ns [])
      ∙ ap (λ (t : List Node). current ++ (n ∷ t)) (join_nodes-split ns []))
]

-- A piece is a non-empty run of jit-safe nodes, or one node that is not jit-safe; and no two runs
-- stand next to each other, so each is as long as it can be.
abbrev pub IsSafe : Node → Type 0
IsSafe n = node_jit_safe n ≡ true

abbrev pub IsMaximal : Bool → List Piece → Type 0
IsMaximal after_run [] = Unit
IsMaximal after_run (run ns ∷ ps) =
    (after_run ≡ false) × (ns ≢ []) × All IsSafe ns × IsMaximal true ps
IsMaximal after_run (single n ∷ ps) = (node_jit_safe n ≡ false) × IsMaximal false ps

IsMaximal-flush :
    (current : List Node) (ps : List Piece)
    → All IsSafe current
    → IsMaximal true ps
    → IsMaximal false ps
    → IsMaximal false (flush current ps)
IsMaximal-flush [] ps h k l = l
IsMaximal-flush (n ∷ ns) ps h k l = (refl, λ e. cc, h, k)

split-IsMaximal : (ns current : List Node) → All IsSafe current → IsMaximal false (split ns current)
unfolding split
split-IsMaximal [] current h = IsMaximal-flush current [] h tt tt
split-IsMaximal (n ∷ ns) current h = elim (Bool-cases (node_jit_safe n)) [
  | inl safe ↦
      rw safe
        (split-IsMaximal ns (current ++ (n ∷ [])) (All-append IsSafe current (n ∷ []) h (safe, tt)))
  | inr unsafe ↦
      let rest : IsMaximal false (single n ∷ split ns []) = (unsafe, split-IsMaximal ns [] tt) in
      rw unsafe (IsMaximal-flush current (single n ∷ split ns []) h rest rest)
]

-- The pieces hold the nodes of the graph, each once and in order; the runs are maximal stretches
-- of jit-safe nodes, and every other node stands alone.
pub split_lem :
    (nodes : List Node) → (join_nodes (split nodes []) ≡ nodes) × IsMaximal false (split nodes [])
split_lem nodes = (join_nodes-split nodes [], split-IsMaximal nodes [] tt)
