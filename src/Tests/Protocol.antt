-- ===== src/Tests/Protocol.antt =====
-- src/proto/fd/protocol.rs on concrete inputs.
use tinyproto_rust.Base.{
  ℕ, ◌≤◌, ◌==◌, true, false, none, some, List, [], ◌∷◌, ◌≡◌, refl, arith, Returns,
}
use tinyproto_rust.Error.{ok, err, timeout}
use tinyproto_rust.Crc.{hdlc_crc16}
use tinyproto_rust.Hdlc.Ll.Defs.{HdlcLl, RxState, TxState}
use tinyproto_rust.Hdlc.Ll.Defs as Ll
use tinyproto_rust.Fd.Protocol.Defs.{TinyFd, default_config, new_over, new, peer_at}
use tinyproto_rust.Fd.Defines.{
  disconnected, connecting, connected, fd_event_queue_has_free_slots, hdlc_invalid_peer_index,
}
use tinyproto_rust.Fd.Peers.{PeerInfo, new_peer, secondaries, peer_to_address_field}
use tinyproto_rust.Fd.Peers as Peers
use tinyproto_rust.Fd.Protocol.Handlers.{on_i_frame_received, on_u_frame_received}
use tinyproto_rust.Fd.Protocol.Outcome.IFrame.{Outcome, on_i_frame_received-Outcome}
use tinyproto_rust.Fd.Protocol.Outcome.UFrame.{Moved}
use tinyproto_rust.Fd.Protocol.Outcome.States.{on_u_frame_received-Moved}
use tinyproto_rust.Fd.Protocol.Events as Events
use tinyproto_rust.Fd.Protocol.Send.{send_packet, resolve_peer}
use tinyproto_rust.Fd.Protocol.Outcome.Refused.{send_packet-refused}
use tinyproto_rust.Fd.Protocol.Outcome.GiveUp.{GivenUp, checks, checks-disconnected}
use tinyproto_rust.Fd.Protocol.Valid.Channel.{IsReady}
use tinyproto_rust.Fd.Protocol.Valid.Calls.{
  Request, read_set, connect_set, disconnect_request, send_request, rx_request, tx_request,
  perform_all, perform_all-Ready,
}

abbrev pub framer : HdlcLl
framer = record {
  crc_type = hdlc_crc16;
  phys_mtu = 68;
  rx_buf = [];
  rx_state = RxState.start_phase;
  rx_ptr = 0;
  rx_escape = false;
  tx_state = TxState.start_phase;
  tx_data = none;
  tx_pos = 0;
  tx_crc = 0;
  tx_crc_bits_sent = 0;
  tx_escape = false;
  rx_frames = [];
  tx_sent_frames = [];
}

abbrev pub handle : TinyFd
handle = new_over 100000 default_config framer

pub handle-new : new 100000 default_config ≡ ok handle
unfolding new Ll.new
handle-new = refl

-- A request to connect arrives, with a wrong check sequence, among packets to send and calls for output.
abbrev requests : List Request
requests =
    read_set
    ∷ connect_set
    ∷ send_request 0 (1 ∷ 2 ∷ [])
    ∷ rx_request 100010 (0x7E ∷ 0x05 ∷ 0x3F ∷ 0x11 ∷ 0x22 ∷ 0x7E ∷ [])
    ∷ tx_request 100020 100030 64 10
    ∷ disconnect_request
    ∷ []

perform_all-Ready_example :
    (n : ℕ) × IsReady n handle × Returns (IsReady n) (perform_all handle requests)
perform_all-Ready_example =
    perform_all-Ready 100000 default_config handle requests (omega arith) handle-new

-- The only peer of the handle, and its address.
abbrev peer : PeerInfo
peer = new_peer 100000 5

known : peer_at handle 0 ≡ some peer
unfolding Peers.new secondaries
known = refl

addressed : peer_to_address_field handle.peer_mgr 0 ≡ some 5
unfolding Peers.new secondaries peer_to_address_field
addressed = refl

on_i_frame_received-Outcome_example :
    Returns (Outcome handle 0 5 0 (7 ∷ []) peer true) (on_i_frame_received handle 0 0 (7 ∷ []))
on_i_frame_received-Outcome_example =
    on_i_frame_received-Outcome handle 0 5 0 (7 ∷ []) peer known addressed (omega arith)

on_u_frame_received-Moved_example :
    Returns (Moved handle 0 5 disconnected connected) (on_u_frame_received 100010 handle 0 0x3F)
on_u_frame_received-Moved_example =
    on_u_frame_received-Moved 100010 handle 0 5 0x3F peer known addressed

-- A request went out at 100000, and one may be repeated.
abbrev requesting : PeerInfo
requesting = record peer { state = connecting; retries = 1; last_sent_frame_ts = 100000 }

abbrev waiting : TinyFd
waiting = record handle { peer_mgr = record (handle.peer_mgr) { peers = requesting ∷ [] } }

waiting_addressed : peer_to_address_field waiting.peer_mgr 0 ≡ some 5
unfolding Peers.new secondaries peer_to_address_field
waiting_addressed = refl

checks-disconnected_example :
    Returns (GivenUp 1 5 waiting.frames.s_queue) (checks (100200 ∷ 100500 ∷ []) waiting)
checks-disconnected_example =
    checks-disconnected 1 5 (100200 ∷ 100500 ∷ []) waiting requesting waiting_addressed refl refl
      refl refl (omega arith, (omega arith, tt))

-- A handle with no slot announced as free.
abbrev filled : TinyFd
filled = record handle { events = 0 }

filled-timeout : send_packet filled 0 (1 ∷ 2 ∷ []) ≡ some (filled, err timeout)
unfolding send_packet Peers.new secondaries
filled-timeout = refl

send_packet-refused_example :
    (filled ≡ filled)
    × ((2 ≤ filled.mtu)
        × ((resolve_peer filled 0 == hdlc_invalid_peer_index) ≡ false)
        × (Events.wait filled.events fd_event_queue_has_free_slots ≡ 0))
send_packet-refused_example =
    send_packet-refused filled filled 0 (1 ∷ 2 ∷ []) timeout filled-timeout
