-- ===== src/Tests/Node.antt =====
-- A pipeline of nodes that note what they are told.
use tinyproto_rust.Base.{ℕ, none, some, List, [], ◌∷◌, ◌++◌, ◌≡◌, refl}
use tinyproto_rust.Hdlc.Node.{NodeInterface, new, run_rx, run_tx}
use tinyproto_rust.Hdlc.Node.Chain.{add_all, add_all-chain}

-- Its name, the names of its neighbours, and the numbers of frames in both directions.
record Noting : Type 0 where
  name : ℕ
  sources : List ℕ
  sinks : List ℕ
  rx_count : ℕ
  tx_count : ℕ

instance Noting-NodeInterface : NodeInterface Noting
Noting-NodeInterface = record {
  add_source = λ node source. record node { sources = node.sources ++ source.name ∷ [] };
  add_sink = λ node sink. record node { sinks = node.sinks ++ sink.name ∷ [] };
  on_rx_frame = λ node frame. record node { rx_count = 1 };
  put_tx_frame = λ node frame. record node { tx_count = 1 };
}

abbrev noting : ℕ → Noting
noting n = record { name = n; sources = []; sinks = []; rx_count = 0; tx_count = 0 }

abbrev three : List Noting
three =
    record (noting 1) { sinks = 2 ∷ [] }
    ∷ record (noting 2) { sources = 1 ∷ []; sinks = 3 ∷ [] }
    ∷ record (noting 3) { sources = 2 ∷ [] }
    ∷ []

add_all-chain_example :
    add_all new (noting 1 ∷ noting 2 ∷ noting 3 ∷ []) ≡ some (record { nodes = three })
unfolding Noting-NodeInterface
add_all-chain_example = add_all-chain (noting 1) (noting 2 ∷ noting 3 ∷ [])

first_reads :
    run_rx (record { nodes = three })
    ≡ some (record {
      nodes =
          record (noting 1) { sinks = 2 ∷ []; rx_count = 1 }
          ∷ record (noting 2) { sources = 1 ∷ []; sinks = 3 ∷ [] }
          ∷ record (noting 3) { sources = 2 ∷ [] }
          ∷ [];
    })
unfolding run_rx Noting-NodeInterface
first_reads = refl

last_sends :
    run_tx (record { nodes = three })
    ≡ some (record {
      nodes =
          record (noting 1) { sinks = 2 ∷ [] }
          ∷ record (noting 2) { sources = 1 ∷ []; sinks = 3 ∷ [] }
          ∷ record (noting 3) { sources = 2 ∷ []; tx_count = 1 }
          ∷ [];
    })
unfolding run_tx Noting-NodeInterface
last_sends = refl

none_reads : run_rx (new {N = Noting}) ≡ none
unfolding run_rx
none_reads = refl
