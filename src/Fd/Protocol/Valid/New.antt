-- ===== src/Fd/Protocol/Valid/New.antt =====
-- A handle that `new` of src/proto/fd/protocol.rs makes is ready.
use tinyproto_rust.Base.{
  ℕ, zero, suc, ◌≤◌, ◌<◌, ◌||◌, List, length, ltb, ◌==◌, ◌≡◌, refl, ap, arith, if-both, All,
}
use mathlib.Core.Path.{subst}
use Prim.Native.Nat.{max}
use tinyproto_rust.Error.{TinyResult, ok, err}
use tinyproto_rust.Hdlc.Ll.Defs.{HdlcLl, HdlcLlInit}
use tinyproto_rust.Hdlc.Ll.Defs as Ll
use tinyproto_rust.Hdlc.Ll.Tx.Pending.{TxOk}
use tinyproto_rust.Fd.Defines.{u_queue_max_size}
use tinyproto_rust.Fd.FrameQueue.{new_queues}
use tinyproto_rust.Fd.FrameQueue.Keep.{new-IsValid}
use tinyproto_rust.Fd.Peers.{PeerInfo, is_primary_address, new_peer, secondaries}
use tinyproto_rust.Fd.Peers as Peers
use tinyproto_rust.Fd.Protocol.Defs.{
  TinyFd, TinyFdConfig, local_address, with_framer, new_over, new,
}
use tinyproto_rust.Fd.Protocol.Valid.{NumbersOk, fresh-NumbersOk}
use tinyproto_rust.Fd.Protocol.Valid.Channel.{IsReady}

abbrev Of {ℓ} : {A : Type ℓ} → (A → Type 0) → TinyResult A → Type 0
Of P (ok a) = P a
Of P (err e) = Unit

abbrev pub Ready : TinyFd → Type 0
Ready fd = (n : ℕ) × (0 < n) × (n ≤ 255) × IsReady n fd

new_peer-NumbersOk : (now addr : ℕ) → NumbersOk (new_peer now addr)
new_peer-NumbersOk now addr = fresh-NumbersOk (new_peer now addr) refl

-- A list of so many new peers.
abbrev Fresh : List PeerInfo → Type 0
Fresh ps = (0 < length ps) × (length ps ≤ 255) × All NumbersOk ps

secondaries-Fresh :
    (n i now : ℕ) → (length (secondaries n i now) ≡ n) × All NumbersOk (secondaries n i now)
unfolding secondaries
secondaries-Fresh zero i now = (refl, tt)
secondaries-Fresh (suc n) i now =
    let (count, all) = secondaries-Fresh n (suc i) now in
    (ap suc count, (new_peer-NumbersOk now _, all))

peers-Fresh :
    (now local_addr peers_count : ℕ)
    → peers_count ≤ 255
    → Fresh (Peers.new now local_addr peers_count).peers
unfolding Peers.new
peers-Fresh now local_addr peers_count few =
    let (count, all) = secondaries-Fresh (max peers_count 1) 0 now in
    if-both Fresh (is_primary_address local_addr) (omega (arith, count), omega (arith, count), all)
      (omega arith, omega arith, (new_peer-NumbersOk now _, tt))

framer-TxOk : (init : HdlcLlInit) → Of TxOk (Ll.new init)
unfolding Ll.new
framer-TxOk init = if-both (Of TxOk) (init.rx_buf_size == 0) tt tt

new_over-Ready :
    (now : ℕ) (config : TinyFdConfig) (hdlc : HdlcLl)
    → config.peers_count ≤ 255
    → TxOk hdlc
    → Ready (new_over now config hdlc)
unfolding new_queues
new_over-Ready now config hdlc few tx_ok =
    let (some_peer, count, all) =
      peers-Fresh now (local_address config.addr) config.peers_count few in
    (
      length (Peers.new now (local_address config.addr) config.peers_count).peers,
      some_peer,
      count,
      record {
        valid = record {
          same_hdlc = refl;
          peer_count = refl;
          numbers = all;
          i_queue_ok = new-IsValid config.window_frames _;
          s_queue_ok = new-IsValid u_queue_max_size _;
        };
        tx_ok = tx_ok;
      },
    )

with_framer-Ready :
    (now : ℕ) (config : TinyFdConfig) (r : TinyResult HdlcLl)
    → config.peers_count ≤ 255
    → Of TxOk r
    → Of Ready (with_framer now config r)
with_framer-Ready now config (err e) few tx_ok = tt
with_framer-Ready now config (ok hdlc) few tx_ok = new_over-Ready now config hdlc few tx_ok

pub new-Ready :
    (now : ℕ) (config : TinyFdConfig) (fd : TinyFd)
    → config.peers_count ≤ 255
    → new now config ≡ ok fd
    → Ready fd
unfolding new
new-Ready now config fd few e = subst (Of Ready) e (
    if-both (Of Ready) ((config.window_frames == 0) || ltb 7 config.window_frames) tt
      (with_framer-Ready now config _ few (framer-TxOk _)))
