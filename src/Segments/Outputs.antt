-- ===== src/Segments/Outputs.antt =====
-- The whole of `_eval_segments` on the plan of `_plan_segments`.
use nx_tinygrad.Base.{
  ℕ, suc, ◌≡◌, refl, sym, ap, ◌∙◌, subst, false, some, List, [], ◌∷◌, ◌++◌, arith, append_assoc,
}
use nx_tinygrad.Errors.{Result, ok, >>=-eq-ok, ok_inj}
use nx_tinygrad.Dict.{Dict, lookup}
use nx_tinygrad.Dict.PopAll.{contains}
use nx_tinygrad.Graph.{Node}
use nx_tinygrad.Plan.{
  Piece, run, single, Segment, all_inputs, all_defined, needed_before, segment_inputs,
  segment_outputs, segment_of, with_ids, piece_nodes, split, plan_segments,
}
use nx_tinygrad.Plan.Ids.{contains-append, segment_inputs_sound}
use nx_tinygrad.Plan.Pieces.{join_nodes, split_lem}
use nx_tinygrad.Segments.{Progress, eval_nodes, eval_segment, eval_segments}
use nx_tinygrad.Segments.Agree.{Extends, EqOn}
use nx_tinygrad.Segments.Eval.{eval_nodes_unchanged, eval_nodes-EqOn, eval_nodes-append}
use nx_tinygrad.Segments.Refine.{IsFaithful, InStep, eval_jit-InStep}

-- No node defines the id of a constant.
abbrev pub LeavesAlone : {V : Type 0} → Dict V → List Node → Type 0
LeavesAlone {V} constants ns =
    (i : ℕ) (v : V) → lookup i constants ≡ some v → contains i (all_defined ns) ≡ false

all_defined-append : (ns ms : List Node) → all_defined (ns ++ ms) ≡ all_defined ns ++ all_defined ms
unfolding all_defined
all_defined-append [] ms = refl
all_defined-append (n ∷ ns) ms = rw (all_defined-append ns ms, append_assoc)

LeavesAlone-append :
    {V : Type 0} (constants : Dict V) (ns ms : List Node)
    → LeavesAlone constants (ns ++ ms)
    → LeavesAlone constants ns × LeavesAlone constants ms
LeavesAlone-append constants ns ms h =
    let both = λ (i : ℕ).
      ap (contains i) (all_defined-append ns ms)
      ∙ contains-append i (all_defined ns) (all_defined ms) in
    (λ i v c. ground (arith, h i v c, both i), λ i v c. ground (arith, h i v c, both i))

module _ {V : Type 0} (compute : Node → List V → Result (List V))
    (capture : ℕ → (List V → Result (List V)) → List V → Result (List V)) (constants : Dict V)
    (faithful : IsFaithful capture) where
  eval_segment-InStep :
      (p : Piece) (ps : List Piece) (ids outs : List ℕ) (idx : ℕ) (full env full' : Dict V)
      (progress : Progress)
      → Extends constants full
      → EqOn (needed_before (p ∷ ps) outs) full env
      → eval_nodes compute (piece_nodes p) full ≡ ok full'
      → InStep
          (needed_before ps outs)
          full'
          (eval_segment compute capture constants idx
            (segment_of p ids (needed_before ps outs))
            env
            progress).0
  unfolding segment_of needed_before eval_segment
  eval_segment-InStep (single n) ps ids outs idx full env full' progress consts same evaluated =
      let set = needed_before ps outs ++ all_inputs (n ∷ []) in
      let (env', again, h) =
        eval_nodes-EqOn compute set (n ∷ []) full env
          (λ i c. ground (arith, contains-append i (needed_before ps outs) (all_inputs (n ∷ []))))
          same evaluated in
      (
        env',
        again,
        λ i c.
            h i (ground (arith, contains-append i (needed_before ps outs) (all_inputs (n ∷ [])))),
      )
  eval_segment-InStep (run ns) ps ids outs idx full env full' progress consts same evaluated =
      let after = needed_before ps outs in
      let both = λ (i : ℕ). contains-append i after (all_inputs ns) in
      eval_jit-InStep compute capture constants faithful idx ns (segment_inputs ns [] ids [])
        (after ++ all_inputs ns) after full env full' progress consts
        (λ i c. ground (arith, both i, segment_inputs_sound i ns [] ids [] c))
        (λ i c. ground (arith, both i)) (λ i c. ground (arith, both i)) same evaluated
        (segment_outputs ns after) refl

  eval_pieces-InStep :
      (ps : List Piece) (ids outs : List ℕ) (idx : ℕ) (full env full' : Dict V)
      (progress : Progress)
      → Extends constants full
      → LeavesAlone constants (join_nodes ps)
      → EqOn (needed_before ps outs) full env
      → eval_nodes compute (join_nodes ps) full ≡ ok full'
      → InStep outs full'
          (eval_segments compute capture constants (with_ids ps ids outs) idx env progress).0
  unfolding join_nodes with_ids needed_before eval_segments eval_nodes
  eval_pieces-InStep [] ids outs idx full env full' progress consts alone same evaluated =
      (env, refl, λ i c. rw (← ok_inj evaluated) (same i c))
  eval_pieces-InStep (p ∷ ps) ids outs idx full env full' progress consts alone same evaluated =
      let (mid, first, rest) =
        >>=-eq-ok (eval_nodes compute (piece_nodes p) full) _
          (sym (eval_nodes-append compute (piece_nodes p) (join_nodes ps) full) ∙ evaluated) in
      let s = segment_of p ids (needed_before ps outs) in
      let (env', stepped, h) =
        eval_segment-InStep p ps ids outs idx full env mid progress consts same first in
      let (before, behind) = LeavesAlone-append constants (piece_nodes p) (join_nodes ps) alone in
      let kept : Extends constants mid = λ i v c.
        eval_nodes_unchanged compute i (piece_nodes p) full (before i v c) first ∙ consts i v c in
      let (env'', ended, h') =
        eval_pieces-InStep ps ids outs (suc idx) mid env' full'
          (eval_segment compute capture constants idx s env progress).1 kept behind h rest in
      (env'', rw (stepped, eval_segments) ended, h')

  -- Where node-by-node evaluation of a graph returns, evaluation by the segments of its plan
  -- returns too, and the environments agree on every graph output: whichever captures exist
  -- already, and whichever of them fail and are interpreted instead. `capture` fails or returns
  -- what the function returns, the environment holds the constants, and no node defines the id
  -- of a constant.
  pub eval_segments-outputs :
      (nodes : List Node) (ids outs : List ℕ) (segments : List Segment) (env full : Dict V)
      (progress : Progress)
      → plan_segments nodes ids outs ≡ some segments
      → Extends constants env
      → LeavesAlone constants nodes
      → eval_nodes compute nodes env ≡ ok full
      → InStep outs full (eval_segments compute capture constants segments 0 env progress).0
  unfolding plan_segments
  eval_segments-outputs nodes ids outs segments env full progress planned consts alone evaluated =
      let whole = (split_lem nodes).0 in
      let planned' : with_ids (split nodes []) ids outs ≡ segments = ground arith in
      subst
        (λ (ss : List Segment).
          InStep outs full (eval_segments compute capture constants ss 0 env progress).0)
        planned'
        (eval_pieces-InStep (split nodes []) ids outs 0 env env full progress consts
          (rw whole alone) (λ i c. refl) (rw whole evaluated))
