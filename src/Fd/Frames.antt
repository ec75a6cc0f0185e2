-- ===== src/Fd/Frames.antt =====
-- src/proto/fd/frames.rs: headers, and frames waiting in a queue.
use tinyproto_rust.Base.{ℕ, ◌+◌, Bool, true, false, Option, none, some, [], ◌∷◌, Bytes, length}

pub record FrameHeader : Type 0 where
  pub address : ℕ
  pub control : ℕ

-- The array of two bytes, as a list.
unfoldable pub header_to_bytes : FrameHeader → Bytes
header_to_bytes h = h.address ∷ h.control ∷ []

unfoldable pub from_bytes : Bytes → Option FrameHeader
from_bytes [] = none
from_bytes (a ∷ []) = none
from_bytes (a ∷ c ∷ bs) = some (record { address = a; control = c })

pub data QueuedFrameType : Type 0 where
  free u_frame s_frame i_frame : QueuedFrameType

-- `==` on the tags.
abbrev pub same_type : QueuedFrameType → QueuedFrameType → Bool
same_type free free = true
same_type u_frame u_frame = true
same_type s_frame s_frame = true
same_type i_frame i_frame = true
same_type _ _ = false

pub record FrameInfo : Type 0 where
  pub frame_type : QueuedFrameType
  pub header : FrameHeader
  pub payload : Bytes

abbrev pub new : QueuedFrameType → FrameHeader → Bytes → FrameInfo
new frame_type header payload = record {
  frame_type = frame_type;
  header = header;
  payload = payload;
}

unfoldable pub total_len : FrameInfo → ℕ
total_len f = 2 + length f.payload

unfoldable pub to_bytes : FrameInfo → Bytes
to_bytes f = f.header.address ∷ f.header.control ∷ f.payload

pub record IFrameInfo : Type 0 where
  pub frame : FrameInfo
  pub peer_address : ℕ
