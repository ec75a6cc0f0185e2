-- ===== src/Hdlc/High/Notify.antt =====
-- The callbacks of src/proto/hdlc/high_level.rs: which frames they are told of, and that output goes on as in the framer.
use tinyproto_rust.Base.{
  ℕ, zero, suc, ◌≤◌, Bool, true, false, Option, none, some, List, [], ◌∷◌, ◌++◌, append_assoc,
  append-nil, Bytes, length, take, drop, ◌≡◌, refl, sym, ap, ◌∙◌, arith, inl, inr, Bool-cases,
  if◌then◌else◌,
}
use mathlib.Core.Path.{subst}
use tinyproto_rust.Hdlc.Ll.Defs.{
  HdlcLl, TxState, start_phase, data_phase, crc_phase, end_phase, get_tx_sent_frame,
}
use tinyproto_rust.Hdlc.Ll.Tx.Pending.{pending, pending_in, TxOk, queued, accepted}
use tinyproto_rust.Hdlc.Ll.Tx.Stream.{run_tx-stream}
use tinyproto_rust.Hdlc.Ll.Tx.Queues.{
  get_tx_sent_frame-TxOk, get_tx_sent_frame-nil, get_tx_sent_frame-cons,
}
use tinyproto_rust.Hdlc.High.{
  Hdlc, Call, send_call, call_send, sent, notify, notify_all, get_tx_data,
}

notices-pending_in :
    (ll : HdlcLl) (fs : List Bytes) (s : TxState) (o : Option Bytes)
    → pending_in s o (record ll { tx_sent_frames = fs }) ≡ pending_in s o ll
notices-pending_in ll fs start_phase none = refl
notices-pending_in ll fs start_phase (some f) = refl
notices-pending_in ll fs data_phase none = refl
notices-pending_in ll fs data_phase (some f) = refl
notices-pending_in ll fs crc_phase o = refl
notices-pending_in ll fs end_phase o = refl

get_tx_sent_frame-pending :
    (ll : HdlcLl)
    → (pending (get_tx_sent_frame ll).1 ≡ pending ll)
      × ((get_tx_sent_frame ll).1.tx_data ≡ ll.tx_data)
unfolding get_tx_sent_frame
get_tx_sent_frame-pending ll = (notices-pending_in ll _ ll.tx_state ll.tx_data, refl)

abbrev pub send_calls : List Bytes → List Call
send_calls [] = []
send_calls (f ∷ fs) = send_call f ∷ send_calls fs

-- The calls once the callback, where one is set, has been told of the frames in order.
abbrev pub told : Bool → List Call → List Bytes → List Call
told flag calls fs = if flag then calls ++ send_calls fs else calls

told-nil : (flag : Bool) (calls : List Call) → told flag calls [] ≡ calls
told-nil true calls = append-nil calls
told-nil false calls = refl

told-cons :
    (flag : Bool) (calls : List Call) (f : Bytes) (fs : List Bytes)
    → told flag (told flag calls (f ∷ [])) fs ≡ told flag calls (f ∷ fs)
told-cons true calls f fs = append_assoc calls (send_call f ∷ []) (send_calls fs)
told-cons false calls f fs = refl

-- A handle after the callback has been told of `fs`.
record Told (h : Hdlc) (fs : List Bytes) (h' : Hdlc) : Type 0 where
  none_left : h'.ll.tx_sent_frames ≡ []
  same_pending : pending h'.ll ≡ pending h.ll
  same_data : h'.ll.tx_data ≡ h.ll.tx_data
  ok : TxOk h'.ll
  calls_then : h'.calls ≡ told h.on_frame_send h.calls fs

-- One call leaves the framer and the flag.
sent-fields :
    (h : Hdlc) (f : Bytes)
    → ((sent h f).ll ≡ h.ll)
      × ((sent h f).on_frame_send ≡ h.on_frame_send)
      × ((sent h f).calls ≡ told h.on_frame_send h.calls (f ∷ []))
sent-fields h f = elim (Bool-cases h.on_frame_send) [
  | inl e ↦ rw (e, call_send) (refl, refl, refl)
  | inr e ↦ rw (e, call_send) (refl, refl, refl)
]

notify-Told :
    (n : ℕ) (h : Hdlc) (fs : List Bytes)
    → h.ll.tx_sent_frames ≡ fs
    → length fs ≤ n
    → TxOk h.ll
    → Told h fs (notify n h)
unfolding notify
notify-Told zero h [] e le ok = record {
  none_left = e;
  same_pending = refl;
  same_data = refl;
  ok = ok;
  calls_then = sym (told-nil h.on_frame_send h.calls);
}
notify-Told zero h (f ∷ fs) e le ok = absurd (omega arith)
notify-Told (suc n) h [] e le ok =
    let (nothing, left) = get_tx_sent_frame-nil h.ll e in
    let (same, data_same) = get_tx_sent_frame-pending h.ll in
    rw (nothing, notify)
      (record {
        none_left = left;
        same_pending = same;
        same_data = data_same;
        ok = get_tx_sent_frame-TxOk h.ll ok;
        calls_then = sym (told-nil h.on_frame_send h.calls);
      })
notify-Told (suc n) h (f ∷ fs) e le ok =
    let ll = (get_tx_sent_frame h.ll).1 in
    let (found, left) = get_tx_sent_frame-cons h.ll f fs e in
    let (same, data_same) = get_tx_sent_frame-pending h.ll in
    let h1 = sent (record h { ll = ll }) f in
    let (framer, flag, calls) = sent-fields (record h { ll = ll }) f in
    let rest =
      notify-Told n h1 fs (ap (λ (l : HdlcLl). l.tx_sent_frames) framer ∙ left) (omega arith)
        (subst TxOk (sym framer) (get_tx_sent_frame-TxOk h.ll ok)) in
    rw (found, notify)
      (record {
        none_left = rest.none_left;
        same_pending = rest.same_pending ∙ ap pending framer ∙ same;
        same_data = rest.same_data ∙ ap (λ (l : HdlcLl). l.tx_data) framer ∙ data_same;
        ok = rest.ok;
        calls_then = rest.calls_then ∙ rw (flag, calls) (told-cons h.on_frame_send h.calls f fs);
      })

-- In a state that the framer reaches, `get_tx_data` returns the bytes that the framer has to write next, as many as fit,
-- and leaves the rest to be written. The callback, where one is set, is told of the frames that are sent by then, in their order:
-- together with the frame in transmission they are those that were handed over. No notice is left behind.
pub get_tx_data-told :
    (h : Hdlc) (n : ℕ)
    → TxOk h.ll
    → (h' : Hdlc) × (fs : List Bytes) × (get_tx_data h n ≡ some (take n (pending h.ll), h'))
      × (pending h'.ll ≡ drop n (pending h.ll))
      × TxOk h'.ll
      × (fs ++ queued h'.ll.tx_data ≡ accepted h.ll)
      × (h'.calls ≡ told h.on_frame_send h.calls fs)
      × (h'.ll.tx_sent_frames ≡ [])
unfolding get_tx_data
get_tx_data-told h n ok =
    let (ll, ran, left, ok', kept) = run_tx-stream h.ll n ok in
    let h1 = record h { ll = ll } in
    let t = notify-Told (length ll.tx_sent_frames) h1 ll.tx_sent_frames refl (omega arith) ok' in
    (
      notify_all h1,
      ll.tx_sent_frames,
      rw (ran, get_tx_data) refl,
      t.same_pending ∙ left,
      t.ok,
      ap (λ o. ll.tx_sent_frames ++ queued o) t.same_data ∙ kept,
      t.calls_then,
      t.none_left,
    )
