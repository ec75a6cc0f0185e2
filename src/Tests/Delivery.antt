-- ===== src/Tests/Delivery.antt =====
-- A direction of a connection on a concrete run: a payload is accepted, sent and delivered.
use tinyproto_rust.Base.{◌+◌, ◌≤◌, some, none, List, [], ◌∷◌, ◌++◌, Bytes, length, ◌≡◌, refl, arith}
use tinyproto_rust.Fd.Frames.{i_frame, FrameInfo}
use tinyproto_rust.Fd.Frames as Frames
use tinyproto_rust.Fd.IQueueControl.{
  tx_full, next_number, all_frames_are_sent, move_to_next_ns, advance_next_ns,
  move_to_next_frame_to_receive,
}
use tinyproto_rust.Fd.FrameQueue.{
  FrameQueue, allocate, allocate_loop, get_next, find_from, is_next, frame_ns, new,
}
use tinyproto_rust.Fd.Protocol.Send.{i_control}
use tinyproto_rust.Fd.Delivery.{Link, start, Step, accept, send, deliver, Steps, stay, go}
use tinyproto_rust.Fd.Delivery.Order.{Steps-delivered}
use tinyproto_rust.Fd.Delivery.Course.{Course}

abbrev payload : Bytes
payload = 7 ∷ 8 ∷ []

abbrev stored : FrameInfo
stored = Frames.new i_frame (record { address = 5; control = i_control 0 0 }) payload

abbrev with_frame : FrameQueue
with_frame = record { frames = some stored ∷ none ∷ []; mtu = 16; lookup_index = 1 }

abbrev accepted : Link
accepted = record (start 2 16) {
  queue = with_frame;
  sender = move_to_next_ns (start 2 16).sender;
  accepted = payload ∷ [];
}

abbrev sent : Link
sent = record accepted { sender = advance_next_ns accepted.sender; wire = (0, payload) ∷ [] }

abbrev delivered : Link
delivered = record sent {
  wire = [];
  receiver = move_to_next_frame_to_receive sent.receiver;
  delivered = payload ∷ [];
}

accept_step : Step 5 (start 2 16) accepted
unfolding tx_full next_number allocate allocate_loop new
accept_step = accept (start 2 16) 0 payload with_frame 0 (omega arith) refl refl

send_step : Step 5 accepted sent
unfolding all_frames_are_sent move_to_next_ns next_number get_next find_from is_next frame_ns
send_step = send accepted 0 stored refl refl

deliver_step : Step 5 sent delivered
deliver_step = deliver sent 0 payload [] refl refl

run : Steps 5 (start 2 16) delivered
run =
    go (start 2 16) sent delivered
      (go (start 2 16) accepted sent
        (go (start 2 16) (start 2 16) accepted (stay (start 2 16)) accept_step) send_step)
      deliver_step

Steps-delivered_example :
    ((waiting : List Bytes) × (delivered.accepted ≡ delivered.delivered ++ waiting))
    × (length delivered.accepted ≤ length delivered.delivered + 7)
Steps-delivered_example = Steps-delivered 5 2 16 delivered run

-- The frame is lost on its way.
abbrev lost : Link
lost = record sent { wire = [] }
