-- ===== src/Hdlc/High.antt =====
-- src/proto/hdlc/high_level.rs: the framer with events, callbacks and a blocking `send`. A callback of the handle is a
-- flag, and its calls are listed in `calls`. The channel behind `send_fn`, with the clock, is a state `S`; `elapsed` tells
-- the milliseconds since the call began. `none` stands for a panic or for a loop that does not end.
pub mod Events
pub mod Notify
pub mod Reads
pub mod Exchange
use tinyproto_rust.Base.{
  ℕ, zero, suc, ◌+◌, ◌-◌, ◌*◌, Bool, true, false, not, ◌&&◌, Option, none, some, List, [], ◌∷◌,
  ◌++◌, Bytes, length, take, ltb, leb, ◌==◌, if◌then◌else◌,
}
use tinyproto_rust.Base.Int.{ℤ, pos, negsuc}
use tinyproto_rust.Crc.{HdlcCrcT, hdlc_crc16}
use tinyproto_rust.Error.{TinyError, busy, failed, timeout, TinyResult, ok, err}
use tinyproto_rust.Hdlc.Ll.Defs.{HdlcLl, both, tx_only, put_frame, get_rx_frame, get_tx_sent_frame}
use tinyproto_rust.Hdlc.Ll.Defs as Ll
use tinyproto_rust.Hdlc.Ll.Rx as Rx
use tinyproto_rust.Hdlc.Ll.Tx as Tx
use tinyproto_rust.Hdlc.High.Events as Events

abbrev pub tx_accept_bit : ℕ
tx_accept_bit = 0x01

abbrev pub tx_data_ready_bit : ℕ
tx_data_ready_bit = 0x02

abbrev pub tx_data_sent_bit : ℕ
tx_data_sent_bit = 0x04

abbrev pub rx_data_ready_bit : ℕ
rx_data_ready_bit = 0x08

pub data Call : Type 0 where
  read_call send_call : Bytes → Call

pub record HdlcConfig : Type 0 where
  pub crc_type : HdlcCrcT
  pub rx_buf_size : ℕ
  pub mtu : ℕ
  pub multithread_mode : Bool

-- `Default for HdlcConfig`
abbrev pub default_config : HdlcConfig
default_config = record {
  crc_type = hdlc_crc16;
  rx_buf_size = 256;
  mtu = 0;
  multithread_mode = false;
}

pub record Hdlc : Type 0 where
  pub ll : HdlcLl
  pub events : ℕ
  pub multithread_mode : Bool
  pub on_frame_read : Bool
  pub on_frame_send : Bool
  pub rx_len : ℕ
  pub calls : List Call

abbrev new_over : Bool → TinyResult HdlcLl → TinyResult Hdlc
new_over multithread_mode (err e) = err e
new_over multithread_mode (ok ll) = ok (record {
  ll = ll;
  events = Events.set Events.new tx_accept_bit;
  multithread_mode = multithread_mode;
  on_frame_read = false;
  on_frame_send = false;
  rx_len = 0;
  calls = [];
})

unfoldable pub new : HdlcConfig → TinyResult Hdlc
new config = new_over config.multithread_mode (
    Ll.new
      (record { crc_type = config.crc_type; mtu = config.mtu; rx_buf_size = config.rx_buf_size }))

abbrev pub set_on_frame_read : Hdlc → Hdlc
set_on_frame_read h = record h { on_frame_read = true }

abbrev pub set_on_frame_send : Hdlc → Hdlc
set_on_frame_send h = record h { on_frame_send = true }

abbrev pub set_events : Hdlc → ℕ → Hdlc
set_events h bits = record h { events = Events.set h.events bits }

unfoldable pub reset : Hdlc → Hdlc
reset h =
    set_events (record h { ll = Ll.reset h.ll both; events = Events.clear h.events 0xFF })
      tx_accept_bit

abbrev pub call_read : Hdlc → Bytes → Hdlc
call_read h frame =
    if h.on_frame_read then record h { calls = h.calls ++ read_call frame ∷ [] } else h

abbrev pub call_send : Hdlc → Bytes → Hdlc
call_send h frame =
    if h.on_frame_send then record h { calls = h.calls ++ send_call frame ∷ [] } else h

-- The loop of `run_rx` over the frames, a round for each.
unfoldable pub deliver : ℕ → Hdlc → Hdlc
deliver zero h = h
deliver (suc n) h =
    let (frame, ll') = get_rx_frame h.ll in
    elim frame [
      | none ↦ record h { ll = ll' }
      | some f ↦
          deliver n
            (set_events (call_read (record h { ll = ll'; rx_len = length f }) f) rx_data_ready_bit)
    ]

unfoldable pub run_rx : Hdlc → Bytes → ℕ × Option TinyError × Hdlc
run_rx h bytes =
    let (consumed, error, ll') = Rx.run_rx h.ll bytes in
    (consumed, error, deliver (length ll'.rx_frames) (record h { ll = ll' }))

-- What follows a frame that was sent.
abbrev pub sent : Hdlc → Bytes → Hdlc
sent h frame = set_events (set_events (call_send h frame) tx_data_sent_bit) tx_accept_bit

-- The loop over the notices, a round for each.
unfoldable pub notify : ℕ → Hdlc → Hdlc
notify zero h = h
notify (suc n) h =
    let (frame, ll') = get_tx_sent_frame h.ll in
    elim frame [ none ↦ record h { ll = ll' } | some f ↦ notify n (sent (record h { ll = ll' }) f) ]

abbrev pub notify_all : Hdlc → Hdlc
notify_all h = notify (length h.ll.tx_sent_frames) h

-- The bytes written to an output of `out_len` bytes.
unfoldable pub get_tx_data : Hdlc → ℕ → Option (Bytes × Hdlc)
get_tx_data h out_len = elim (Tx.run_tx h.ll out_len) [
  | none ↦ none
  | some (written, ll') ↦ some (written, notify_all (record h { ll = ll' }))
]

-- `reset(TxOnly)` and the accept bit, before an error of `send`.
abbrev cancelled : Hdlc → Hdlc
cancelled h = set_events (record h { ll = Ll.reset h.ll tx_only }) tx_accept_bit

module _ {S : Type 0} (send_fn : S → Bytes → ℤ × S) (elapsed : S → ℕ) where
  -- The inner loop of `run_tx` and of `send`: the total of the numbers, and the negative number that stops it.
  -- `none`: the fuel runs out, or `remaining` would fall below 0.
  unfoldable pub write_loop : ℕ → Bytes → ℕ → ℕ → S → Option (S × ℕ × Option ℤ)
  write_loop fuel buf zero total s = some (s, total, none)
  write_loop zero buf (suc r) total s = none
  write_loop (suc fuel) buf (suc r) total s =
      let (n, s') = send_fn s (take (suc r) buf) in
      elim n [
        | negsuc k ↦ some (s', total, some (negsuc k))
        | pos k ↦
            let rest = write_loop fuel buf (suc r - k) (total + k) s' in
            if ltb (suc r) k then none else rest
      ]

  -- The loop of `run_tx`; a total beyond an `i32` is left aside.
  unfoldable pub run_tx : ℕ → ℕ → Hdlc → S → Option (S × Hdlc × ℤ)
  run_tx zero total h s = none
  run_tx (suc fuel) total h s = elim (Tx.run_tx h.ll 1) [
    | none ↦ none
    | some ([], ll') ↦ some (s, notify_all (record h { ll = ll' }), pos total)
    | some (b ∷ bs, ll') ↦ elim (write_loop fuel (b ∷ bs) (length (b ∷ bs)) total s) [
      | none ↦ none
      | some (s', total', some code) ↦
          some (s', record h { ll = ll' }, (if ltb 0 total' then pos total' else code))
      | some (s', total', none) ↦ run_tx fuel total' (record h { ll = ll' }) s'
    ]
  ]

  -- The look at the clock that ends a round of `send`: whether it is over.
  abbrev is_over : ℕ → S → Bool
  is_over timeout_ms s = not (timeout_ms == 0xFFFFFFFF) && leb timeout_ms (elapsed s)

  -- The loop of `send` without another thread.
  unfoldable pub send_loop : ℕ → ℕ → Hdlc → S → Option (S × Hdlc × TinyResult (Unit {0}))
  send_loop zero timeout_ms h s = none
  send_loop (suc fuel) timeout_ms h s = elim (Tx.run_tx h.ll 1) [
    | none ↦ none
    | some (bytes, ll') ↦ elim (write_loop fuel bytes (length bytes) 0 s) [
      | none ↦ none
      | some (s', total, some code) ↦ some (s', cancelled (record h { ll = ll' }), err failed)
      | some (s', total, none) ↦
          let (frame, ll'') = get_tx_sent_frame ll' in
          let h' = record h { ll = ll'' } in
          elim frame [
            | some f ↦ some (s', sent h' f, ok tt)
            | none ↦
                let rest = send_loop fuel timeout_ms h' s' in
                if is_over timeout_ms s' then some (s', cancelled h', err timeout) else rest
          ]
    ]
  ]

  -- The wait for another thread to send the frame.
  abbrev await_sent : ℕ → Hdlc → S → Option (S × Hdlc × TinyResult (Unit {0}))
  await_sent timeout_ms h s = elim (Events.wait h.events tx_data_sent_bit timeout_ms) [
    | none ↦ none
    | some (zero, events) ↦ some (s, cancelled (record h { events = events }), err timeout)
    | some (suc bits, events) ↦ some (s, record h { events = events }, ok tt)
  ]

  -- `send` behind `put_frame`, whose error it passes on. `has_send_fn` tells whether a callback was given.
  abbrev send_queued :
      ℕ
      → Bool
      → ℕ
      → Hdlc
      → S
      → HdlcLl × TinyResult (Unit {0})
      → Option (S × Hdlc × TinyResult (Unit {0}))
  send_queued fuel has_send_fn timeout_ms h s (ll', err e) = some (s, record h { ll = ll' }, err e)
  send_queued fuel has_send_fn timeout_ms h s (ll', ok u) =
      let h' = set_events (record h { ll = ll' }) tx_data_ready_bit in
      if timeout_ms == 0
      then some (s, h', ok tt)
      else if h.multithread_mode
      then await_sent timeout_ms h' s
      else if has_send_fn
      then send_loop fuel timeout_ms h' s
      else some (s, h', ok tt)

  unfoldable pub send : ℕ → Bool → Hdlc → Bytes → ℕ → S → Option (S × Hdlc × TinyResult (Unit {0}))
  send fuel has_send_fn h payload timeout_ms s =
      elim (Events.wait h.events tx_accept_bit timeout_ms) [
        | none ↦ none
        | some (zero, events) ↦ some (s, record h { events = events }, err busy)
        | some (suc bits, events) ↦
            send_queued fuel has_send_fn timeout_ms (record h { events = events }) s
              (put_frame h.ll payload)
      ]
