-- ===== src/Fd/Session/Opening.antt =====
-- Two handles that `new` of src/proto/fd/protocol.rs makes, until they are connected.
use tinyproto_rust.Base.{
  ℕ, ◌-◌, ◌≤◌, true, ◌||◌, some, [], ◌∷◌, ltb, ◌==◌, ◌≡◌, refl, ap, ◌∙◌, arith, if-both,
  if◌then◌else◌,
}
use mathlib.Core.Path.{subst}
use tinyproto_rust.Error.{TinyResult, ok, err}
use tinyproto_rust.Hdlc.Ll.Defs.{HdlcLl}
use tinyproto_rust.Fd.Defines.{disconnected, u_queue_max_size}
use tinyproto_rust.Fd.FrameQueue.{new_queues}
use tinyproto_rust.Fd.FrameQueue as FrameQueue
use tinyproto_rust.Fd.Peers.{new_peer, secondaries}
use tinyproto_rust.Fd.Peers as Peers
use tinyproto_rust.Fd.Protocol.Defs.{
  TinyFd, TinyFdConfig, or_default, new_over, with_framer, new, set_on_read,
}
use tinyproto_rust.Fd.Protocol.Handlers.{ua_control}
use tinyproto_rust.Fd.Protocol.Receive.{on_frame_received}
use tinyproto_rust.Fd.Protocol.Timers.{is_abm, is_over, sabm_control, check_timeouts}
use tinyproto_rust.Fd.Session.Refine.{Fresh}
use tinyproto_rust.Fd.Session.Handshake.{
  Unconnected, Waiting, sabm-Fresh, ua-Fresh, check_timeouts-asks,
}

-- The largest payload.
abbrev pub mtu_of : TinyFdConfig → ℕ
mtu_of config = if ltb 0 config.mtu then config.mtu else 64

-- A handle that was just made, once a reader is set.
record Made (now : ℕ) (config : TinyFdConfig) (fd : TinyFd) : Type 0 where
  unconnected : Unconnected 5 config.window_frames (mtu_of config) disconnected (set_on_read fd)
  empty : fd.frames.s_queue ≡ FrameQueue.new u_queue_max_size (mtu_of config)
  same_mode : fd.mode ≡ config.mode
  same_timeout : fd.retry_timeout ≡ or_default config.retry_timeout 200
  last_sent : unconnected.peer.last_sent_frame_ts ≡ now - 60000

abbrev IfOk {ℓ} : {A : Type ℓ} → (A → Type 0) → TinyResult A → Type 0
IfOk P (ok a) = P a
IfOk P (err e) = Unit

module _ (now : ℕ) (config : TinyFdConfig)
    (makes : (hdlc : HdlcLl) → Made now config (new_over now config hdlc)) where
  with_framer-Made : (r : TinyResult HdlcLl) → IfOk (Made now config) (with_framer now config r)
  with_framer-Made (err e) = tt
  with_framer-Made (ok hdlc) = makes hdlc

  new-Made : (fd : TinyFd) → new now config ≡ ok fd → Made now config fd
  unfolding new
  new-Made fd e = subst (IfOk (Made now config)) e (
      if-both (IfOk (Made now config)) ((config.window_frames == 0) || ltb 7 config.window_frames)
        tt (with_framer-Made _))

primary-Made :
    (now : ℕ) (config : TinyFdConfig) (hdlc : HdlcLl)
    → config.addr ≡ 0
    → config.peers_count ≡ 1
    → Made now config (new_over now config hdlc)
unfolding new_queues Peers.new secondaries
primary-Made now config hdlc e e' = record {
  unconnected = record {
    peer = new_peer now 5;
    only = rw (e, e') refl;
    state_is = refl;
    numbers = refl;
    reaches = rw e refl;
    queue = refl;
    heard = refl;
    listening = refl;
  };
  empty = refl;
  same_mode = refl;
  same_timeout = refl;
  last_sent = refl;
}

secondary-Made :
    (now : ℕ) (config : TinyFdConfig) (hdlc : HdlcLl)
    → config.addr ≡ 1
    → Made now config (new_over now config hdlc)
unfolding new_queues Peers.new secondaries
secondary-Made now config hdlc e = record {
  unconnected = record {
    peer = new_peer now 1;
    only = rw e refl;
    state_is = refl;
    numbers = refl;
    reaches = rw e refl;
    queue = refl;
    heard = refl;
    listening = refl;
  };
  empty = refl;
  same_mode = refl;
  same_timeout = refl;
  last_sent = refl;
}

-- Two stations are made, the primary one with one peer and in the mode that asks for connections, and the secondary one with the address 1, and each is given
-- a reader. When the primary one checks its timeouts, its retry timeout after the instant that its peer counts as last sent to, it queues a SABM; the secondary one that receives this is
-- connected, and has a UA queued; the primary one that receives that is connected too. Both connections are then new, with nothing queued as an I-frame and nothing read, under the
-- same address field. Nothing panics.
pub handshake :
    (now now' t1 t2 t3 : ℕ) (config config' : TinyFdConfig) (a b : TinyFd)
    → new now config ≡ ok a
    → new now' config' ≡ ok b
    → config.addr ≡ 0
    → config.peers_count ≡ 1
    → is_abm config.mode ≡ true
    → config'.addr ≡ 1
    → or_default config.retry_timeout 200 ≤ t1 - (now - 60000)
    → (asked left right : TinyFd) × (check_timeouts t1 (set_on_read a) ≡ some asked)
      × Waiting asked 5 sabm_control
      × (on_frame_received t2 (set_on_read b) (5 ∷ sabm_control ∷ []) ≡ some right)
      × Waiting right 5 ua_control
      × (on_frame_received t3 asked (5 ∷ ua_control ∷ []) ≡ some left)
      × Fresh 5 config.window_frames (mtu_of config) left
      × Fresh 5 config'.window_frames (mtu_of config') right
handshake now now' t1 t2 t3 config config' a b made made' primary one_peer asks secondary due =
    let m = new-Made now config (λ hdlc. primary-Made now config hdlc primary one_peer) a made in
    let m' = new-Made now' config' (λ hdlc. secondary-Made now' config' hdlc secondary) b made' in
    let asks' : is_abm a.mode ≡ true = ap is_abm m.same_mode ∙ asks in
    let over : is_over t1 (set_on_read a) m.unconnected.peer.last_sent_frame_ts ≡ true =
      ground (arith, m.same_timeout, m.last_sent) in
    let ask =
      check_timeouts-asks 5 config.window_frames (mtu_of config) refl (set_on_read a) m.unconnected
        t1 (mtu_of config) asks' over m.empty in
    let answer =
      sabm-Fresh 5 config'.window_frames (mtu_of config') refl disconnected (set_on_read b)
        m'.unconnected t2 (mtu_of config') refl m'.empty in
    let done = ua-Fresh 5 config.window_frames (mtu_of config) refl ask.result ask.holds.0 t3 in
    (
      ask.result, done.result, answer.result, ask.returned, ask.holds.1, answer.returned,
      answer.holds.1, done.returned, done.holds, answer.holds.0,
    )
