-- ===== src/Light.antt =====
-- src/proto/light.rs: frames sent and read one at a time over a channel. The state of the channel and of the
-- clock is an `S`. A call of `write_fn` or `read_fn` returns the callback's number and the new state,
-- and `read_fn` the byte in the buffer besides; `elapsed` tells the milliseconds since the call began.
pub mod Read
pub mod Timeout
pub mod Send
use tinyproto_rust.Base.{
  ℕ, zero, suc, ◌-◌, Bool, true, false, Option, none, some, [], ◌∷◌, Bytes, length, take, ltb, leb,
  ◌==◌, if◌then◌else◌,
}
use tinyproto_rust.Base.Int.{ℤ, pos, negsuc}
use tinyproto_rust.Crc.{HdlcCrcT, hdlc_crc16}
use tinyproto_rust.Error.{TinyError, failed, timeout, wrong_crc, TinyResult, ok, err}
use tinyproto_rust.Hdlc.Ll.Defs.{
  HdlcLl, tx_only, rx_only, reset, put_frame, get_rx_frame, get_tx_sent_frame,
}
use tinyproto_rust.Hdlc.Ll.Defs as Ll
use tinyproto_rust.Hdlc.Ll.Rx.{run_rx}
use tinyproto_rust.Hdlc.Ll.Tx.{run_tx}

pub record LightConfig : Type 0 where
  pub crc_type : HdlcCrcT
  pub timeout_ms : ℕ

-- `Default for LightConfig`
abbrev pub default_config : LightConfig
default_config = record { crc_type = hdlc_crc16; timeout_ms = 1000 }

pub record Light : Type 0 where
  pub ll : HdlcLl
  pub timeout_ms : ℕ

unfoldable pub new : LightConfig → TinyResult Light
new config = elim (Ll.new (record { crc_type = config.crc_type; mtu = 0; rx_buf_size = 256 })) [
  | ok ll ↦ ok (record { ll = ll; timeout_ms = config.timeout_ms })
  | err e ↦ err e
]

abbrev after_error : TinyError → Light → Light
after_error timeout l = record l { ll = reset l.ll tx_only }
after_error _ l = l

-- `sent as usize` of a number that is not negative.
abbrev sent_count : ℤ → ℕ
sent_count (pos n) = n
sent_count (negsuc n) = 0

module _ {S : Type 0} (write_fn : S → Bytes → ℤ × S) (elapsed : S → ℕ) where
  -- The inner loop of `send`. `none`: the fuel runs out, or `remaining` would fall below 0.
  unfoldable pub write_loop : ℕ → ℕ → Bytes → ℕ → S → Option (S × Option TinyError)
  write_loop fuel timeout_ms buf zero s = some (s, none)
  write_loop zero timeout_ms buf (suc r) s = none
  write_loop (suc fuel) timeout_ms buf (suc r) s =
      let (sent, s') = write_fn s (take (suc r) buf) in
      let rest = write_loop fuel timeout_ms buf (suc r - sent_count sent) s' in
      elim sent [
        | negsuc n ↦ some (s', some failed)
        | pos n ↦
            if ltb (suc r) n
            then none
            else if leb timeout_ms (elapsed s')
            then some (s', some timeout)
            else rest
      ]

  -- The outer loop of `send`, with a buffer of one byte.
  unfoldable pub send_loop : ℕ → ℕ → Light → S → Option (S × Light × TinyResult ℕ)
  send_loop zero len l s = none
  send_loop (suc fuel) len l s = elim (run_tx l.ll 1) [
    | none ↦ none
    | some ([], ll') ↦ some (s, record l { ll = (get_tx_sent_frame ll').1 }, ok len)
    | some (b ∷ bs, ll') ↦ elim (write_loop fuel l.timeout_ms (b ∷ bs) (length (b ∷ bs)) s) [
      | none ↦ none
      | some (s', none) ↦ send_loop fuel len (record l { ll = ll' }) s'
      | some (s', some e) ↦ some (s', after_error e (record l { ll = ll' }), err e)
    ]
  ]

  -- `send` behind `put_frame`, whose error it passes on.
  abbrev pub send_queued :
      ℕ → Light → Bytes → S → HdlcLl × TinyResult (Unit {0}) → Option (S × Light × TinyResult ℕ)
  send_queued fuel l payload s (ll', err e) = some (s, record l { ll = ll' }, err e)
  send_queued fuel l payload s (ll', ok u) =
      send_loop fuel (length payload) (record l { ll = ll' }) s

  unfoldable pub send : ℕ → Light → Bytes → S → Option (S × Light × TinyResult ℕ)
  send fuel l payload s = send_queued fuel l payload s (put_frame l.ll payload)

-- What an error of `run_rx` makes `read` return: a wrong check sequence is passed over.
abbrev fatal : Option TinyError → Option TinyError
fatal none = none
fatal (some wrong_crc) = none
fatal (some e) = some e

abbrev next_frame : Light → Option TinyError → Light × Option (TinyResult Bytes)
next_frame l (some e) = (l, some (err e))
next_frame l none =
    let (frame, ll') = get_rx_frame l.ll in
    (record l { ll = ll' }, elim frame [ none ↦ none | some f ↦ some (ok f) ])

-- A round of `read` between the callback and the look at the clock: what is returned, if anything is. `none`: the
-- callback claims more bytes than the buffer holds.
unfoldable pub read_round : Light → ℤ → ℕ → Option (Light × Option (TinyResult Bytes))
read_round l (negsuc n) byte = some (l, some (err failed))
read_round l (pos zero) byte = some (next_frame l none)
read_round l (pos (suc zero)) byte =
    let (consumed, error, ll') = run_rx l.ll (byte ∷ []) in
    some (next_frame (record l { ll = ll' }) (fatal error))
read_round l (pos (suc (suc n))) byte = none

module _ {S : Type 0} (read_fn : S → ℤ × ℕ × S) (elapsed : S → ℕ) where
  -- The loop of `read`; `none` also where the fuel runs out.
  unfoldable pub read : ℕ → Light → S → Option (S × Light × TinyResult Bytes)
  read zero l s = none
  read (suc fuel) l s =
      let (n, byte, s') = read_fn s in
      elim (read_round l n byte) [
        | none ↦ none
        | some (l', some r) ↦ some (s', l', r)
        | some (l', none) ↦
            let rest = read fuel l' s' in
            if leb l.timeout_ms (elapsed s')
            then some (s', record l' { ll = reset l'.ll rx_only }, err timeout)
            else rest
      ]
