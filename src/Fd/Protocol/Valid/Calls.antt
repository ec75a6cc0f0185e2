-- ===== src/Fd/Protocol/Valid/Calls.antt =====
-- Sequences of calls of the methods of src/proto/fd/protocol.rs on one handle.
use tinyproto_rust.Base.{
  ℕ, ◌≤◌, ◌<◌, Option, some, List, [], ◌∷◌, Bytes, ◌≡◌, Returns, returns, Returns-bind, ◌>>=◌,
}
use tinyproto_rust.Error.{ok}
use tinyproto_rust.Fd.Protocol.Defs.{
  TinyFd, TinyFdConfig, new, set_on_read, set_on_send, set_on_connect_event,
}
use tinyproto_rust.Fd.Protocol.Send.{disconnect, send_packet}
use tinyproto_rust.Fd.Protocol.Receive.{on_rx_data}
use tinyproto_rust.Fd.Protocol.Transmit.{get_tx_data}
use tinyproto_rust.Fd.Protocol.Valid.{Valid}
use tinyproto_rust.Hdlc.Ll.Tx.Pending.{TxOk}
use tinyproto_rust.Fd.Protocol.Valid.Channel.{IsReady, own-Valid, on_rx_data-IsReady}
use tinyproto_rust.Fd.Protocol.Valid.Output.{get_tx_data-IsReady}
use tinyproto_rust.Fd.Protocol.Valid.Send.{send_packet-Valid, disconnect-Valid}
use tinyproto_rust.Fd.Protocol.Valid.New.{new-Ready}

-- A call, with the instants at which it runs.
pub data Request : Type 0 where
  read_set send_set connect_set disconnect_request : Request
  send_request : ℕ → Bytes → Request
  rx_request : ℕ → Bytes → Request
  tx_request : ℕ → ℕ → ℕ → ℕ → Request

-- The handle after the call; what the call returns is left out.
abbrev pub perform : TinyFd → Request → Option TinyFd
perform fd read_set = some (set_on_read fd)
perform fd send_set = some (set_on_send fd)
perform fd connect_set = some (set_on_connect_event fd)
perform fd disconnect_request = do r ← disconnect fd; some (r.0)
perform fd (send_request address payload) = do r ← send_packet fd address payload; some (r.0)
perform fd (rx_request now bytes) = on_rx_data now fd bytes
perform fd (tx_request now later out_len timeout_ms) = do
  r ← get_tx_data now later fd out_len timeout_ms
  some (r.1)

unfoldable pub perform_all : TinyFd → List Request → Option TinyFd
perform_all fd [] = some fd
perform_all fd (r ∷ rs) = do fd' ← perform fd r; perform_all fd' rs

module _ (n : ℕ) (some_peer : 0 < n) (few : n ≤ 255) where
  again : (h : TinyFd) (fd : TinyFd) → IsReady n h → Valid n h.hdlc fd → IsReady n fd
  again h fd ready v =
      let (v', tx_ok) = own-Valid fd TxOk v ready.tx_ok in record { valid = v'; tx_ok = tx_ok }

  perform-IsReady : (fd : TinyFd) (r : Request) → IsReady n fd → Returns (IsReady n) (perform fd r)
  perform-IsReady fd read_set ready = returns (record { valid = ready.valid; tx_ok = ready.tx_ok })
  perform-IsReady fd send_set ready = returns (record { valid = ready.valid; tx_ok = ready.tx_ok })
  perform-IsReady fd connect_set ready =
      returns (record { valid = ready.valid; tx_ok = ready.tx_ok })
  perform-IsReady fd disconnect_request ready =
      Returns-bind (disconnect-Valid fd some_peer ready.valid)
        (λ r v. returns (again fd r.0 ready v))
  perform-IsReady fd (send_request address payload) ready =
      Returns-bind (send_packet-Valid fd ready.valid address payload some_peer few)
        (λ r v. returns (again fd r.0 ready v))
  perform-IsReady fd (rx_request now bytes) ready =
      on_rx_data-IsReady n now fd bytes some_peer few ready
  perform-IsReady fd (tx_request now later out_len timeout_ms) ready =
      Returns-bind (get_tx_data-IsReady n now later fd out_len timeout_ms ready)
        (λ r ready'. returns ready')

  perform_all-IsReady :
      (fd : TinyFd) (rs : List Request) → IsReady n fd → Returns (IsReady n) (perform_all fd rs)
  unfolding perform_all
  perform_all-IsReady fd [] ready = returns ready
  perform_all-IsReady fd (r ∷ rs) ready =
      Returns-bind (perform-IsReady fd r ready) (λ fd' ready'. perform_all-IsReady fd' rs ready')

-- On a handle that `new` made, for at most 255 peers, no sequence of calls panics or runs on without end, whatever bytes
-- arrive, whatever is sent, and at whatever instants: each sequence returns a handle. In that handle the
-- number of peers is the same as after `new`, every sequence number has three bits, the remembered index of each queue
-- is one of a slot, and the transmitter is in a state that it can go on from.
pub perform_all-Ready :
    (now : ℕ) (config : TinyFdConfig) (fd : TinyFd) (rs : List Request)
    → config.peers_count ≤ 255
    → new now config ≡ ok fd
    → (n : ℕ) × IsReady n fd × Returns (IsReady n) (perform_all fd rs)
perform_all-Ready now config fd rs few made =
    let (n, some_peer, few', ready) = new-Ready now config fd few made in
    (n, ready, perform_all-IsReady n some_peer few' fd rs ready)
