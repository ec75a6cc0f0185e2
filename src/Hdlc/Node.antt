-- ===== src/Hdlc/Node.antt =====
-- src/proto/hdlc/node.rs: a pipeline of nodes that are linked to their neighbours. What a node does is a parameter, an
-- interface; a node that is lent to its neighbour is given as it is at that moment.
pub mod Chain
use tinyproto_rust.Base.{
  ℕ, zero, suc, ◌-◌, ◌<◌, Bool, true, false, Option, none, some, List, [], ◌∷◌, ◌++◌, append_assoc,
  length, length-append, get_elem?, set, ltb, ◌>>=◌, ◌==◌, ◌≡◌, refl, sym, ap, ◌∙◌, arith,
  if◌then◌else◌,
}
use tinyproto_rust.Hdlc.Frame.{HdlcFrame}
use tinyproto_rust.Hdlc.Frame as Frame

pub record NodeInterface {ℓ} (N : Type ℓ) : Type ℓ where
  pub add_source : N → N → N
  pub add_sink : N → N → N
  pub on_rx_frame : N → HdlcFrame → N
  pub put_tx_frame : N → HdlcFrame → N

pub record Pipeline {ℓ} (N : Type ℓ) : Type ℓ where
  pub nodes : List N

module _ {ℓ} {N : Type ℓ} where
  abbrev pub new : Pipeline N
  new = record { nodes = [] }

  module _ ⦃i : NodeInterface N⦄ where
    open i use {add_source, add_sink, on_rx_frame, put_tx_frame}

    -- The node before `index` takes the one there as its sink, which takes it as its source.
    abbrev pub link_nodes : List N → ℕ → Option (List N)
    link_nodes nodes index = do
      before ← get_elem? nodes (index - 1)
      next ← get_elem? nodes index
      let left = set nodes (index - 1) (add_sink before next)
      prev ← get_elem? left (index - 1)
      last ← get_elem? left index
      some (set left index (add_source last prev))

    -- `none` stands for a panic.
    unfoldable pub add_node : Pipeline N → N → Option (Pipeline N)
    add_node p node =
        let nodes = p.nodes ++ node ∷ [] in
        if ltb 1 (length nodes)
        then (do nodes' ← link_nodes nodes (length nodes - 1); some (record p { nodes = nodes' }))
        else some (record p { nodes = nodes })

    unfoldable pub run_rx : Pipeline N → Option (Pipeline N)
    run_rx p = do
      first ← get_elem? p.nodes 0
      some (record p { nodes = set p.nodes 0 (on_rx_frame first Frame.new) })

    -- `len() - 1` with no nodes is a panic.
    unfoldable pub run_tx : Pipeline N → Option (Pipeline N)
    run_tx p = if length p.nodes == 0 then none else (do
      last ← get_elem? p.nodes (length p.nodes - 1)
      some (record p { nodes = set p.nodes (length p.nodes - 1) (put_tx_frame last Frame.new) }))
