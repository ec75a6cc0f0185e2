-- ===== src/Hdlc/Node/Chain.antt =====
-- What a pipeline of src/proto/hdlc/node.rs holds once nodes were added.
use tinyproto_rust.Base.{
  suc, ◌-◌, true, Option, some, List, [], ◌∷◌, ◌++◌, append_assoc, length, length-append, ltb,
  ◌>>=◌, ◌≡◌, refl, sym, ap, ◌∙◌, arith, get_elem?-append_here, get_elem?-append_next,
  set-append_here, set-append_next,
}
use tinyproto_rust.Hdlc.Node.{NodeInterface, Pipeline, new, link_nodes, add_node}

module _ {ℓ} {N : Type ℓ} ⦃i : NodeInterface N⦄ where
  open i use {add_source, add_sink}

  -- A node, already linked to the one before it, and those that follow: each takes the next as its sink, and that one
  -- takes it as its source, as it then is.
  abbrev pub chain : N → List N → List N
  chain node [] = node ∷ []
  chain node (next ∷ nodes) =
      let node' = add_sink node next in node' ∷ chain (add_source next node') nodes

  abbrev pub add_all : Pipeline N → List N → Option (Pipeline N)
  add_all p [] = some p
  add_all p (node ∷ nodes) = add_node p node >>= λ p'. add_all p' nodes

  link_nodes-append :
      (front : List N) (node next : N)
      → link_nodes (front ++ node ∷ next ∷ []) (suc (length front))
        ≡ some (front ++ add_sink node next ∷ add_source next (add_sink node next) ∷ [])
  link_nodes-append front node next =
      let node' = add_sink node next in
      let before : suc (length front) - 1 ≡ length front = omega arith in
      rw
        (
          before,
          get_elem?-append_here front (next ∷ []) node,
          get_elem?-append_next front [] node next,
          set-append_here front (next ∷ []) node node',
          get_elem?-append_here front (next ∷ []) node',
          get_elem?-append_next front [] node' next,
          set-append_next front [] node' next (add_source next node'),
        )
        refl

  add_node-append :
      (front : List N) (node next : N)
      → add_node (record { nodes = front ++ node ∷ [] }) next
        ≡ some (record {
          nodes = front ++ add_sink node next ∷ add_source next (add_sink node next) ∷ [];
        })
  unfolding add_node
  add_node-append front node next =
      let many : ltb 1 (length (front ++ node ∷ next ∷ [])) ≡ true =
        ground (arith, length-append front (node ∷ next ∷ [])) in
      let last : length (front ++ node ∷ next ∷ []) - 1 ≡ suc (length front) =
        omega (arith, length-append {ℓ} front (node ∷ next ∷ [])) in
      rw (append_assoc front (node ∷ []) (next ∷ []), many, last, link_nodes-append front node next)
        refl

  add_all-append :
      (front : List N) (node : N) (nodes : List N)
      → add_all (record { nodes = front ++ node ∷ [] }) nodes
        ≡ some (record { nodes = front ++ chain node nodes })
  add_all-append front node [] = refl
  add_all-append front node (next ∷ nodes) =
      let node' = add_sink node next in
      let next' = add_source next node' in
      let regroup = append_assoc front (node' ∷ []) in
      ap (λ o. o >>= λ p. add_all p nodes)
        (add_node-append front node next
          ∙ ap (λ ns. some (record { nodes = ns })) (sym (regroup (next' ∷ []))))
      ∙ add_all-append (front ++ node' ∷ []) next' nodes
      ∙ ap (λ ns. some (record { nodes = ns })) (regroup (chain next' nodes))

  -- Nodes that are added one by one to an empty pipeline make a chain, in their order, whatever the nodes do: each one but the last was given the next
  -- as its sink, exactly once, and each one but the first the one before as its source, after that one had taken its sink. Nothing panics.
  pub add_all-chain :
      (node : N) (nodes : List N)
      → add_all new (node ∷ nodes) ≡ some (record { nodes = chain node nodes })
  unfolding add_node
  add_all-chain node nodes = add_all-append [] node nodes
