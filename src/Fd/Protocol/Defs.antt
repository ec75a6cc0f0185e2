-- ===== src/Fd/Protocol/Defs.antt =====
-- The handle of src/proto/fd/protocol.rs, its creation and its settings. A callback's own state is not seen:
-- `calls` lists the calls made, in their order, and the callback fields tell whether one is set.
use tinyproto_rust.Base.{
  ℕ, ◌+◌, bit_or, Bool, true, false, ◌||◌, Option, List, [], ◌∷◌, ◌++◌, Bytes, get_elem?, set, ◌==◌,
  ltb, if◌then◌else◌, u8, ◌<<<◌, ◌>>>◌,
}
use tinyproto_rust.Crc.{HdlcCrcT, hdlc_crc16}
use tinyproto_rust.Error.{invalid_data, failed, TinyResult, ok, err}
use tinyproto_rust.Hdlc.Ll.Defs.{HdlcLl}
use tinyproto_rust.Hdlc.Ll.Defs as Ll
use tinyproto_rust.Fd.Defines.{
  FdMode, abm, FdState, connected, hdlc_primary_addr, hdlc_e_bit, u_queue_max_size, fd_primary_addr,
  fd_event_queue_has_free_slots,
}
use tinyproto_rust.Fd.Peers.{PeerInfo, PeerManager, is_primary_station}
use tinyproto_rust.Fd.Peers as Peers
use tinyproto_rust.Fd.FrameQueue.{FramesQueue, new_queues}
use tinyproto_rust.Fd.Protocol.Events as Events

pub data Call : Type 0 where
  read_call : ℕ → Bytes → Call
  connect_call : ℕ → Bool → Call

pub record TinyFdConfig : Type 0 where
  pub crc_type : HdlcCrcT
  pub window_frames : ℕ
  pub mtu : ℕ
  pub send_timeout : ℕ
  pub retry_timeout : ℕ
  pub retries : ℕ
  pub addr : ℕ
  pub peers_count : ℕ
  pub mode : FdMode
  pub rx_buf_size : ℕ

-- `Default for TinyFdConfig`
abbrev pub default_config : TinyFdConfig
default_config = record {
  crc_type = hdlc_crc16;
  window_frames = 7;
  mtu = 64;
  send_timeout = 1000;
  retry_timeout = 200;
  retries = 2;
  addr = 0;
  peers_count = 1;
  mode = abm;
  rx_buf_size = 512;
}

pub record TinyFd : Type 0 where
  pub hdlc : HdlcLl
  pub peer_mgr : PeerManager
  pub frames : FramesQueue
  pub events : ℕ
  pub mode : FdMode
  pub send_timeout : ℕ
  pub retry_timeout : ℕ
  pub retries : ℕ
  pub on_read_cb : Bool
  pub on_send_cb : Bool
  pub on_connect_event_cb : Bool
  pub mtu : ℕ
  pub calls : List Call

abbrev pub local_address : ℕ → ℕ
local_address addr =
    if addr == 0 then bit_or hdlc_primary_addr hdlc_e_bit else bit_or (u8 (addr <<< 2)) hdlc_e_bit

abbrev pub or_default : ℕ → ℕ → ℕ
or_default n d = if n == 0 then d else n

-- The handle that `new` builds over a framer.
abbrev pub new_over : ℕ → TinyFdConfig → HdlcLl → TinyFd
new_over now config hdlc =
    let mtu = if ltb 0 config.mtu then config.mtu else 64 in
    record {
      hdlc = hdlc;
      peer_mgr = Peers.new now (local_address config.addr) config.peers_count;
      frames = new_queues config.window_frames u_queue_max_size mtu;
      events = Events.set Events.new fd_event_queue_has_free_slots;
      mode = config.mode;
      send_timeout = or_default config.send_timeout 1000;
      retry_timeout = or_default config.retry_timeout 200;
      retries = config.retries;
      on_read_cb = false;
      on_send_cb = false;
      on_connect_event_cb = false;
      mtu = mtu;
      calls = [];
    }

abbrev pub with_framer : ℕ → TinyFdConfig → TinyResult HdlcLl → TinyResult TinyFd
with_framer now config (err e) = err e
with_framer now config (ok hdlc) = ok (new_over now config hdlc)

unfoldable pub new : ℕ → TinyFdConfig → TinyResult TinyFd
new now config =
    if (config.window_frames == 0) || ltb 7 config.window_frames
    then err invalid_data
    else let mtu = if ltb 0 config.mtu then config.mtu else 64 in
      with_framer now config (
        Ll.new
          (record { crc_type = config.crc_type; mtu = mtu + 2; rx_buf_size = config.rx_buf_size }))

abbrev pub set_on_read : TinyFd → TinyFd
set_on_read fd = record fd { on_read_cb = true }

abbrev pub set_on_send : TinyFd → TinyFd
set_on_send fd = record fd { on_send_cb = true }

abbrev pub set_on_connect_event : TinyFd → TinyFd
set_on_connect_event fd = record fd { on_connect_event_cb = true }

abbrev pub is_connected : FdState → Bool
is_connected connected = true
is_connected _ = false

abbrev status_of : List PeerInfo → TinyResult (Unit {0})
status_of [] = err invalid_data
status_of (p ∷ ps) = if is_connected p.state then ok tt else err failed

unfoldable pub get_status : TinyFd → TinyResult (Unit {0})
get_status fd = status_of fd.peer_mgr.peers

abbrev pub get_mtu : TinyFd → ℕ
get_mtu fd = fd.mtu

-- `self.peer_mgr.peers[i]`; `none` stands for the panic.
abbrev pub peer_at : TinyFd → ℕ → Option PeerInfo
peer_at fd i = get_elem? fd.peer_mgr.peers i

abbrev pub set_peer : TinyFd → ℕ → PeerInfo → TinyFd
set_peer fd i p = record fd {
  peer_mgr = record (fd.peer_mgr) { peers = set fd.peer_mgr.peers i p };
}

abbrev pub set_events : TinyFd → ℕ → TinyFd
set_events fd bits = record fd { events = Events.set fd.events bits }

-- What the callbacks are told as the address of a peer.
abbrev pub user_address : TinyFd → ℕ → ℕ
user_address fd addr = if is_primary_station fd.peer_mgr then addr >>> 2 else fd_primary_addr

abbrev pub call_read : TinyFd → ℕ → Bytes → TinyFd
call_read fd address payload =
    if fd.on_read_cb then record fd { calls = fd.calls ++ read_call address payload ∷ [] } else fd

abbrev pub call_connect : TinyFd → ℕ → Bool → TinyFd
call_connect fd address up =
    if fd.on_connect_event_cb
    then record fd { calls = fd.calls ++ connect_call address up ∷ [] }
    else fd
