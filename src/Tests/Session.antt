-- ===== src/Tests/Session.antt =====
-- Two stations on a concrete run: two packets are accepted and sent, and the first is read and acknowledged.
use tinyproto_rust.Fd.Protocol.Defs.{TinyFdConfig, new}
use tinyproto_rust.Fd.Protocol.Handlers.{ua_control}
use tinyproto_rust.Base.{true, Option, none, some, [], ◌∷◌, Bytes, ◌≡◌, refl, arith}
use tinyproto_rust.Error.{ok}
use tinyproto_rust.Hdlc.Ll.Defs.{put_frame}
use tinyproto_rust.Fd.Frames.{to_bytes}
use tinyproto_rust.Fd.IQueueControl.{
  IQueueControl, next_number, move_to_next_frame_to_receive, confirm_sent_frames, confirm_loop,
}
use tinyproto_rust.Fd.IQueueControl as IQueueControl
use tinyproto_rust.Fd.FrameQueue.{
  allocate, allocate_loop, new_queues, has_free_slots, any_free, capacity,
}
use tinyproto_rust.Fd.FrameQueue as FrameQueue
use tinyproto_rust.Fd.Peers.{
  new_peer, secondaries, reset_connection, peer_to_address_field, address_field_to_peer,
  find_address,
}
use tinyproto_rust.Fd.Peers as Peers
use tinyproto_rust.Fd.Protocol.Defs.{TinyFd, default_config, new_over, set_on_read}
use tinyproto_rust.Fd.Protocol.Connect.{connect_peer, switch_to_connected}
use tinyproto_rust.Fd.Protocol.Send.{Answer, put_u_s_frame, send_packet}
use tinyproto_rust.Fd.Protocol.Handlers.{confirm, free_all, on_i_frame_received, put_s, rr_control}
use tinyproto_rust.Fd.IQueueControl.Confirm.{note, with_confirm_ns}
use tinyproto_rust.Fd.Protocol.Receive.{on_frame_received}
use tinyproto_rust.Fd.Protocol.Transmit.{Round, send_i_of, send_s_from}
use tinyproto_rust.Crc.Crc16 as Crc16
use tinyproto_rust.Fd.Session.{info, rr, encode, Session, control_of, reads}
use tinyproto_rust.Fd.Session.Refine.{opened, Fresh}
use tinyproto_rust.Tests.Protocol.{framer, handle, handle-new}
use tinyproto_rust.Fd.Session.Handshake.{Waiting}
use tinyproto_rust.Fd.Session.Opening.{handshake}
use tinyproto_rust.Fd.Protocol.Timers.{sabm_control, check_timeouts}
use tinyproto_rust.Hdlc.Ll.Defs as Ll

-- The primary station and the secondary one of address 1, just connected.
abbrev primary : TinyFd
primary = set_on_read (new_over 0 default_config framer)

abbrev secondary : TinyFd
secondary = set_on_read (new_over 0 (record default_config { addr = 1 }) framer)

abbrev left : TinyFd
left = connect_peer 0 primary 0 5 (new_peer 0 5)

abbrev right : TinyFd
right = connect_peer 0 secondary 0 5 (new_peer 0 1)

left_connected : switch_to_connected 0 primary 0 ≡ some left
unfolding switch_to_connected Peers.new secondaries peer_to_address_field
left_connected = refl

right_connected : switch_to_connected 0 secondary 0 ≡ some right
unfolding switch_to_connected Peers.new secondaries peer_to_address_field
right_connected = refl

-- The handles in what the calls return.
abbrev answered : Option Answer → TinyFd
answered none = left
answered (some (fd, r)) = fd

abbrev given : Option Round → TinyFd
given none = left
given (some (fd, done)) = fd

abbrev got : Option TinyFd → TinyFd
got none = right
got (some fd) = fd

abbrev payload : Bytes
payload = 1 ∷ 2 ∷ []

abbrev accepting : TinyFd
accepting = answered (send_packet left 0 payload)

abbrev sending : TinyFd
sending = given (send_i_of 10 accepting 0)

abbrev reading : TinyFd
reading = got (on_frame_received 20 right (encode 5 (info 0 0 payload)))

read : reads reading.calls ≡ payload ∷ []
unfolding has_free_slots any_free new_queues FrameQueue.new Peers.new secondaries
    peer_to_address_field reset_connection IQueueControl.reset address_field_to_peer find_address
    on_frame_received on_i_frame_received confirm confirm_sent_frames confirm_loop free_all
    put_u_s_frame allocate allocate_loop move_to_next_frame_to_receive next_number
read = refl

-- The framer writes the frame out, and is free for the next one.
abbrev written_out : Bytes
written_out = 126 ∷ 5 ∷ 0 ∷ 1 ∷ 2 ∷ 67 ∷ 168 ∷ 126 ∷ []

abbrev wrote : TinyFd
wrote = record sending {
  hdlc = record framer {
    tx_pos = 4;
    tx_crc = 43075;
    tx_crc_bits_sent = 16;
    tx_sent_frames = (5 ∷ 0 ∷ payload) ∷ [];
  };
}

abbrev ready : TinyFd
ready = record wrote { hdlc = record (wrote.hdlc) { tx_sent_frames = [] } }

abbrev second : Bytes
second = 3 ∷ []

abbrev accepting_again : TinyFd
accepting_again = answered (send_packet ready 0 second)

abbrev sending_again : TinyFd
sending_again = given (send_i_of 30 accepting_again 0)

-- The acknowledgement leaves the queue of the S-frames.
abbrev telling : TinyFd
telling = (send_s_from (capacity reading.frames.s_queue) 0 reading).0

abbrev accepted : Session
accepted = record (opened left right) { left = accepting; from_left = payload ∷ [] }

abbrev sent_off : Session
sent_off = record accepted { left = sending; rightward = info 0 0 payload ∷ [] }

abbrev written : Session
written = record sent_off { left = ready }

abbrev accepted_again : Session
accepted_again = record written { left = accepting_again; from_left = payload ∷ second ∷ [] }

abbrev sent_off_again : Session
sent_off_again = record accepted_again {
  left = sending_again;
  rightward = info 0 0 payload ∷ info 1 0 second ∷ [];
}

abbrev owing : Session
owing = record sent_off_again {
  right = reading;
  rightward = info 1 0 second ∷ [];
  right_owed = (control_of reading).rx_state.next_nr ∷ [];
}

abbrev taken : Session
taken = record owing { right = telling; leftward = rr 1 ∷ []; right_owed = [] }

-- The S-queue is emptied slot by slot: where two acknowledgements wait in the last slot and in the first, the later one
-- goes out before the earlier one.
abbrev wrapped : TinyFd
wrapped = record left {
  frames = record (left.frames) {
    s_queue = record { frames = none ∷ none ∷ none ∷ none ∷ []; mtu = 64; lookup_index = 3 };
  };
}

abbrev two_acks : TinyFd
two_acks = put_s (put_s wrapped 5 (rr_control 4)) 5 (rr_control 5)

later_first : (send_s_from 4 0 two_acks).0.hdlc.tx_data ≡ some (5 ∷ rr_control 5 ∷ [])
unfolding put_u_s_frame allocate allocate_loop send_s_from FrameQueue.get FrameQueue.free put_frame
    to_bytes has_free_slots any_free new_queues FrameQueue.new
later_first = refl

-- The earlier number is then taken for an acknowledgement of seven frames that were not sent.
abbrev all_confirmed : IQueueControl
all_confirmed = record {
  tx_state = record { last_ns = 5; confirm_ns = 5; next_ns = 5 };
  rx_state = record { next_nr = 0 };
}

earlier_again :
    confirm_sent_frames note [] all_confirmed 4
    ≡ some (5 ∷ 6 ∷ 7 ∷ 0 ∷ 1 ∷ 2 ∷ 3 ∷ [], with_confirm_ns all_confirmed 4, true)
unfolding confirm_sent_frames confirm_loop next_number
earlier_again = refl

-- The two stations, as `new` makes them.
abbrev far : TinyFdConfig
far = record default_config { addr = 1 }

far-new : new 100000 far ≡ ok (new_over 100000 far framer)
unfolding new Ll.new
far-new = refl

handshake_example :
    (asked left right : TinyFd) × (check_timeouts 100300 (set_on_read handle) ≡ some asked)
    × Waiting asked 5 sabm_control
    × (on_frame_received 100310 (set_on_read (new_over 100000 far framer)) (5 ∷ sabm_control ∷ [])
        ≡ some right)
    × Waiting right 5 ua_control
    × (on_frame_received 100320 asked (5 ∷ ua_control ∷ []) ≡ some left)
    × Fresh 5 7 64 left
    × Fresh 5 7 64 right
handshake_example =
    handshake 100000 100000 100300 100310 100320 default_config far handle
      (new_over 100000 far framer) handle-new far-new refl refl refl refl (omega arith)
