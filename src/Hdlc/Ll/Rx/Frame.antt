-- ===== src/Hdlc/Ll/Rx/Frame.antt =====
-- A frame on the wire is received: `run_rx` of src/proto/hdlc/low_level_ll.rs on the escaped bytes.
use tinyproto_rust.Base.{
  ℕ, ◌+◌, ◌-◌, ◌≤◌, ◌<◌, bit_xor, true, false, none, [], ◌∷◌, ◌++◌, ◌≡◌, refl, sym, ap, ap₂, ◌∙◌,
  arith, append_assoc, append-nil, Bytes, IsBytes, length, length-append, Bool-cases, inl, inr,
  take-length-append,
}
use tinyproto_rust.Crc.{HdlcCrcT, get_crc_field_size}
use tinyproto_rust.Hdlc.Stuffing.{
  flag_sequence, escape_char, escape_bit, is_special, stuff, stuff_all, stuff_all-append, le_bytes,
  frame_wire,
}
use tinyproto_rust.Hdlc.Ll.Defs.{HdlcLl, RxState, start_phase, data_phase, end_phase, calculate_crc}
use tinyproto_rust.Hdlc.Ll.Rx.{rx_byte, rx_check, rx_end, settle, run_rx_from}
use tinyproto_rust.Hdlc.Ll.Rx.Check.{read_crc-le_bytes, length-le_bytes}
use tinyproto_rust.Hdlc.Ll.Rx.Rounds.{IsSettled, run_rx_from-byte, run_rx_from-settle}

-- The framer inside a frame, with `bs` read so far and no escape open.
abbrev pub reading : HdlcLl → Bytes → HdlcLl
reading ll bs = record ll {
  rx_state = data_phase;
  rx_escape = false;
  rx_buf = bs;
  rx_ptr = length bs;
}

module _ (ll : HdlcLl) (bs : Bytes) (b : ℕ) (room : length bs < ll.phys_mtu) where
  plain-byte : is_special b ≡ false → rx_byte (reading ll bs) b ≡ reading ll (bs ++ b ∷ [])
  unfolding rx_byte
  plain-byte h = ground (arith, length-append {0} bs (b ∷ []))

  -- An escaped byte takes two rounds.
  escaped-byte :
      is_special b ≡ true
      → rx_byte (rx_byte (reading ll bs) escape_char) (bit_xor b escape_bit)
        ≡ reading ll (bs ++ b ∷ [])
  unfolding rx_byte
  escaped-byte h = ground (arith, length-append {0} bs (b ∷ []))

  escaped-IsSettled : IsSettled (rx_byte (reading ll bs) escape_char).rx_state
  unfolding rx_byte
  escaped-IsSettled = tt

  read-stuff :
      (c : ℕ) (rest : Bytes)
      → run_rx_from c (reading ll bs) (stuff b ++ rest)
        ≡ run_rx_from (c + length (stuff b)) (reading ll (bs ++ b ∷ [])) rest
  read-stuff c rest = elim (Bool-cases (is_special b)) [
    | inl special ↦ rw special (
        run_rx_from-byte c (reading ll bs) escape_char (bit_xor b escape_bit ∷ rest) tt
        ∙ run_rx_from-byte (c + 1) _ (bit_xor b escape_bit) rest escaped-IsSettled
        ∙ ap₂ (λ n l. run_rx_from n l rest) {x = c + 1 + 1} {y = c + 2} (omega arith)
            (escaped-byte special))
    | inr plain ↦ rw plain (
        run_rx_from-byte c (reading ll bs) b rest tt
        ∙ ap (λ l. run_rx_from (c + 1) l rest) (plain-byte plain))
  ]

read-stuff_all :
    (ll : HdlcLl) (bs xs : Bytes) (c : ℕ) (rest : Bytes)
    → length bs + length xs ≤ ll.phys_mtu
    → run_rx_from c (reading ll bs) (stuff_all xs ++ rest)
      ≡ run_rx_from (c + length (stuff_all xs)) (reading ll (bs ++ xs)) rest
unfolding stuff_all
read-stuff_all ll bs [] c rest h =
    ap₂ (λ n l. run_rx_from n (reading ll l) rest) {x = c} {y = c + 0} (omega arith)
      (sym (append-nil bs))
read-stuff_all ll bs (x ∷ xs) c rest h = rw (append_assoc (stuff x) (stuff_all xs) rest) (
    read-stuff ll bs x (omega arith) c (stuff_all xs ++ rest)
    ∙ read-stuff_all ll (bs ++ x ∷ []) xs (c + length (stuff x)) rest
        (omega (arith, length-append {0} bs (x ∷ [])))
    ∙ ap₂ (λ n l. run_rx_from n (reading ll l) rest)
        {x = c + length (stuff x) + length (stuff_all xs)}
        {y = c + length (stuff x ++ stuff_all xs)}
        (omega (arith, length-append {0} (stuff x) (stuff_all xs))) (append_assoc bs (x ∷ []) xs))

-- Ready for a flag: outside a frame, or at the start of one.
abbrev pub ReadyIn : RxState → HdlcLl → Type 0
ReadyIn start_phase ll = Unit
ReadyIn data_phase ll = (ll.rx_buf ≡ []) × (ll.rx_ptr ≡ 0)
ReadyIn end_phase ll = ⊥

abbrev pub Ready : HdlcLl → Type 0
Ready ll = ReadyIn ll.rx_state ll

-- The frame's payload with its check sequence.
abbrev pub checked : HdlcLl → Bytes → Bytes
checked ll payload =
    payload ++ le_bytes (get_crc_field_size ll.crc_type) (calculate_crc ll.crc_type payload)

-- The payload as a frame on the wire. The streaming framer queues no empty payload, and so writes none of these for it.
abbrev pub wire : HdlcCrcT → Bytes → Bytes
wire t payload = frame_wire payload (le_bytes (get_crc_field_size t) (calculate_crc t payload))

wire-append :
    (ll : HdlcLl) (payload rest : Bytes)
    → wire ll.crc_type payload ++ rest
      ≡ flag_sequence ∷ (stuff_all (checked ll payload) ++ flag_sequence ∷ rest)
unfolding frame_wire
wire-append ll payload rest = simp (stuff_all-append, append_assoc)

length-wire :
    (ll : HdlcLl) (payload : Bytes)
    → length (wire ll.crc_type payload) ≡ length (stuff_all (checked ll payload)) + 2
length-wire ll payload =
    ap length (sym (append-nil (wire ll.crc_type payload)) ∙ wire-append ll payload [])
    ∙ omega (arith, length-append {0} (stuff_all (checked ll payload)) (flag_sequence ∷ []))

-- The framer once `payload` is received.
abbrev pub received : HdlcLl → Bytes → HdlcLl
received ll payload = record ll {
  rx_state = start_phase;
  rx_escape = false;
  rx_buf = [];
  rx_ptr = length (checked ll payload);
  rx_frames = ll.rx_frames ++ payload ∷ [];
}

-- The closing flag leaves the whole frame to be checked.
abbrev closing : HdlcLl → Bytes → HdlcLl
closing ll payload = record (reading ll (checked ll payload)) { rx_state = end_phase }

module _ (ll : HdlcLl) (payload : Bytes) (h : IsBytes payload)
    (fits : length (checked ll payload) ≤ ll.phys_mtu)
    (full : 0 < length (checked ll payload)) where
  settle-closing : settle (closing ll payload) ≡ (received ll payload, none)
  unfolding settle rx_end rx_check
  settle-closing =
      let size = get_crc_field_size ll.crc_type in
      let check = le_bytes size (calculate_crc ll.crc_type payload) in
      let whole = length-append {0} payload check in
      let short : length (checked ll payload) - size ≡ length payload =
        omega (arith, whole, length-le_bytes size (calculate_crc ll.crc_type payload)) in
      ground (
        arith,
        short,
        whole,
        length-le_bytes size (calculate_crc ll.crc_type payload),
        take-length-append payload check,
        read_crc-le_bytes
            (record ll {
              rx_state = start_phase;
              rx_escape = false;
              rx_buf = checked ll payload;
              rx_ptr = length (checked ll payload);
            })
            payload h refl,
      )

  flag-closes : rx_byte (reading ll (checked ll payload)) flag_sequence ≡ closing ll payload
  unfolding rx_byte
  flag-closes = refl

  run_rx_from-opened :
      (c : ℕ) (rest : Bytes)
      → run_rx_from c (reading ll []) (stuff_all (checked ll payload) ++ flag_sequence ∷ rest)
        ≡ run_rx_from (c + length (stuff_all (checked ll payload)) + 1) (received ll payload) rest
  run_rx_from-opened c rest =
      let n = c + length (stuff_all (checked ll payload)) in
      read-stuff_all ll [] (checked ll payload) c (flag_sequence ∷ rest) (omega (arith, fits))
      ∙ run_rx_from-byte n (reading ll (checked ll payload)) flag_sequence rest tt
      ∙ ap (λ l. run_rx_from (n + 1) l rest) flag-closes
      ∙ run_rx_from-settle (n + 1) (closing ll payload) rest (ap (λ r. r.1) settle-closing)
      ∙ ap (λ r. run_rx_from (n + 1) r.0 rest) settle-closing

-- A flag opens a frame.
open_frame_in :
    (s : RxState) (ll : HdlcLl) (c : ℕ) (rest : Bytes)
    → ll.rx_state ≡ s
    → ReadyIn s ll
    → run_rx_from c ll (flag_sequence ∷ rest) ≡ run_rx_from (c + 1) (reading ll []) rest
unfolding rx_byte settle rx_end
open_frame_in start_phase ll c rest e ready =
    run_rx_from-byte c ll flag_sequence rest (rw e tt)
    ∙ ap (λ l. run_rx_from (c + 1) l rest) (rw (e, rx_byte))
open_frame_in data_phase ll c rest e ready =
    let flagged : rx_byte ll flag_sequence ≡ record ll { rx_state = end_phase } = rw (e, rx_byte) in
    let settled : settle (record ll { rx_state = end_phase }) ≡ (reading ll [], none) =
      ground arith in
    run_rx_from-byte c ll flag_sequence rest (rw e tt)
    ∙ ap (λ l. run_rx_from (c + 1) l rest) flagged
    ∙ run_rx_from-settle (c + 1) _ rest (ap (λ r. r.1) settled)
    ∙ ap (λ r. run_rx_from (c + 1) r.0 rest) settled
open_frame_in end_phase ll c rest e ready = absurd ready

-- A framer that is ready for a flag receives every frame whose payload is not empty, consists of
-- bytes and fits with its check sequence: the payload joins the received frames, without an error,
-- and the rest of the input is read from a ready state.
pub run_rx-wire :
    (ll : HdlcLl) (payload rest : Bytes) (c : ℕ)
    → Ready ll
    → IsBytes payload
    → length payload + get_crc_field_size ll.crc_type ≤ ll.phys_mtu
    → 0 < length payload
    → run_rx_from c ll (wire ll.crc_type payload ++ rest)
      ≡ run_rx_from (c + length (wire ll.crc_type payload)) (received ll payload) rest
run_rx-wire ll payload rest c ready h fits full =
    let size =
      length-append {0} payload
        (le_bytes (get_crc_field_size ll.crc_type) (calculate_crc ll.crc_type payload)) in
    let crc =
      length-le_bytes (get_crc_field_size ll.crc_type) (calculate_crc ll.crc_type payload) in
    ap (run_rx_from c ll) (wire-append ll payload rest)
    ∙ open_frame_in ll.rx_state ll c _ refl ready
    ∙ run_rx_from-opened ll payload h (omega (arith, size, crc)) (omega (arith, size)) (c + 1) rest
    ∙ ap (λ n. run_rx_from n (received ll payload) rest) (omega (arith, length-wire ll payload))
