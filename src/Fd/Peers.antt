-- ===== src/Fd/Peers.antt =====
-- src/proto/fd/peers.rs: the peers of a station and their addresses. The clock is an argument in milliseconds;
-- a peer's first instants lie 60 s before it.
pub mod Addresses
use tinyproto_rust.Base.{
  ℕ, zero, suc, ◌+◌, ◌-◌, ◌%◌, bit_and, bit_or, Bool, true, false, not, ◌||◌, Option, none, some,
  List, [], ◌∷◌, length, get_elem?, ◌==◌, if◌then◌else◌, u8, ◌<<<◌,
}
use Prim.Native.Nat.{max}
use mathlib.Core.Option as Option
use tinyproto_rust.Fd.Defines.{
  FdState, disconnected, hdlc_primary_addr, hdlc_e_bit, hdlc_invalid_peer_index,
}
use tinyproto_rust.Fd.IQueueControl.{IQueueControl}
use tinyproto_rust.Fd.IQueueControl as IQueueControl

pub record PeerInfo : Type 0 where
  pub state : FdState
  pub addr : ℕ
  pub sent_nr : ℕ
  pub sent_reject : Bool
  pub srej_req_mask : ℕ
  pub i_queue_control : IQueueControl
  pub last_sent_i_ts : ℕ
  pub last_sent_frame_ts : ℕ
  pub last_received_frame_ts : ℕ
  pub ka_confirmed : Bool
  pub retries : ℕ
  pub events : ℕ

abbrev pub new_peer : ℕ → ℕ → PeerInfo
new_peer now addr = record {
  state = disconnected;
  addr = addr;
  sent_nr = 0;
  sent_reject = false;
  srej_req_mask = 0;
  i_queue_control = IQueueControl.new;
  last_sent_i_ts = now - 60000;
  last_sent_frame_ts = now - 60000;
  last_received_frame_ts = now - 60000;
  ka_confirmed = false;
  retries = 0;
  events = 0;
}

unfoldable pub reset_connection : ℕ → PeerInfo → PeerInfo
reset_connection now p = record p {
  i_queue_control = IQueueControl.reset p.i_queue_control;
  sent_nr = 0;
  sent_reject = false;
  srej_req_mask = 0;
  last_received_frame_ts = now;
  last_sent_frame_ts = now;
}

-- `address & !HDLC_CR_BIT` on a `u8`
abbrev pub without_cr : ℕ → ℕ
without_cr address = bit_and address 0xFD

abbrev pub is_primary_address : ℕ → Bool
is_primary_address address = without_cr address == bit_or hdlc_primary_addr hdlc_e_bit

pub record PeerManager : Type 0 where
  pub peers : List PeerInfo
  pub local_addr : ℕ
  pub next_peer : ℕ

-- `((i as u8 + 1) << 2) | HDLC_E_BIT`: the shift drops the bits that leave the byte.
abbrev pub secondary_addr : ℕ → ℕ
secondary_addr i = bit_or (u8 (u8 (u8 i + 1) <<< 2)) hdlc_e_bit

-- The peers number `i`, `i + 1`, …; the first argument counts them.
unfoldable pub secondaries : ℕ → ℕ → ℕ → List PeerInfo
secondaries zero i now = []
secondaries (suc n) i now = new_peer now (secondary_addr i) ∷ secondaries n (suc i) now

unfoldable pub new : ℕ → ℕ → ℕ → PeerManager
new now local_addr peers_count = record {
  peers =
      if is_primary_address local_addr
      then secondaries (max peers_count 1) 0 now
      else new_peer now (bit_or hdlc_primary_addr hdlc_e_bit) ∷ [];
  local_addr = local_addr;
  next_peer = 0;
}

abbrev pub is_primary_station : PeerManager → Bool
is_primary_station m = is_primary_address m.local_addr

abbrev pub is_secondary_station : PeerManager → Bool
is_secondary_station m = not (is_primary_station m)

-- `none` stands for the panic of an index out of range.
unfoldable pub peer_to_address_field : PeerManager → ℕ → Option ℕ
peer_to_address_field m peer =
    if is_primary_station m
    then Option.map (λ (p : PeerInfo). without_cr p.addr) (get_elem? m.peers peer)
    else some (without_cr m.local_addr)

-- The loop over the peers, from number `i` on.
unfoldable pub find_address : ℕ → ℕ → List PeerInfo → ℕ
find_address address i [] = hdlc_invalid_peer_index
find_address address i (p ∷ ps) =
    let rest = find_address address (suc i) ps in
    if without_cr p.addr == address then u8 i else rest

unfoldable pub address_field_to_peer : PeerManager → ℕ → ℕ
address_field_to_peer m address =
    if is_primary_station m
    then find_address (without_cr address) 0 m.peers
    else if (without_cr address == without_cr m.local_addr)
        || is_primary_address (without_cr address)
    then 0
    else hdlc_invalid_peer_index

-- `% len` with no peers is a panic, which `new` excludes: there is always a peer.
unfoldable pub switch_to_next_peer : PeerManager → PeerManager × ℕ
switch_to_next_peer m =
    let next = u8 ((m.next_peer + 1) % length m.peers) in (record m { next_peer = next }, next)
