-- ===== src/Hdlc/High/Reads.antt =====
-- What `run_rx` of src/proto/hdlc/high_level.rs tells the callback for frames that are read.
use tinyproto_rust.Base.{
  ℕ, zero, suc, ◌≤◌, Bool, true, false, none, some, List, [], ◌∷◌, ◌++◌, append_assoc, append-nil,
  Bytes, length, ◌≡◌, refl, sym, ap, ◌∙◌, arith, inl, inr, Bool-cases, if◌then◌else◌,
}
use mathlib.Core.Path.{subst}
use tinyproto_rust.Hdlc.Ll.Defs.{HdlcLl, RxState, start_phase, data_phase, end_phase, get_rx_frame}
use tinyproto_rust.Hdlc.Ll.Rx as Rx
use tinyproto_rust.Hdlc.Ll.Rx.Frame.{Ready, ReadyIn}
use tinyproto_rust.Hdlc.Ll.Rx.Chunks.{wires, AllFit, run_rx-wires}
use tinyproto_rust.Hdlc.High.{
  Hdlc, Call, read_call, call_read, set_events, rx_data_ready_bit, deliver, run_rx,
}

abbrev pub read_calls : List Bytes → List Call
read_calls [] = []
read_calls (f ∷ fs) = read_call f ∷ read_calls fs

-- The calls once the callback, where one is set, has been given the frames in order.
abbrev pub given : Bool → List Call → List Bytes → List Call
given flag calls fs = if flag then calls ++ read_calls fs else calls

given-nil : (flag : Bool) (calls : List Call) → given flag calls [] ≡ calls
given-nil true calls = append-nil calls
given-nil false calls = refl

given-cons :
    (flag : Bool) (calls : List Call) (f : Bytes) (fs : List Bytes)
    → given flag (given flag calls (f ∷ [])) fs ≡ given flag calls (f ∷ fs)
given-cons true calls f fs = append_assoc calls (read_call f ∷ []) (read_calls fs)
given-cons false calls f fs = refl

-- The length that the handle remembers, and its events.
abbrev pub last_len : ℕ → List Bytes → ℕ
last_len n [] = n
last_len n (f ∷ fs) = last_len (length f) fs

-- A handle once it has handed on the frames that waited.
record HandedOn (h : Hdlc) (fs : List Bytes) (h' : Hdlc) : Type 0 where
  framer : h'.ll ≡ record (h.ll) { rx_frames = [] }
  calls_then : h'.calls ≡ given h.on_frame_read h.calls fs
  len_then : h'.rx_len ≡ last_len h.rx_len fs

get_rx_frame-nil :
    (ll : HdlcLl)
    → ll.rx_frames ≡ []
    → ((get_rx_frame ll).0 ≡ none) × ((get_rx_frame ll).1 ≡ record ll { rx_frames = [] })
unfolding get_rx_frame
get_rx_frame-nil ll e = rw e (refl, refl)

get_rx_frame-cons :
    (ll : HdlcLl) (f : Bytes) (fs : List Bytes)
    → ll.rx_frames ≡ f ∷ fs
    → ((get_rx_frame ll).0 ≡ some f) × ((get_rx_frame ll).1 ≡ record ll { rx_frames = fs })
unfolding get_rx_frame
get_rx_frame-cons ll f fs e = rw e (refl, refl)

-- One call leaves the framer and the flag.
call_read-fields :
    (h : Hdlc) (f : Bytes)
    → let h' = set_events (call_read h f) rx_data_ready_bit in
      (h'.ll ≡ h.ll)
      × (h'.on_frame_read ≡ h.on_frame_read)
      × (h'.rx_len ≡ h.rx_len)
      × (h'.calls ≡ given h.on_frame_read h.calls (f ∷ []))
call_read-fields h f = elim (Bool-cases h.on_frame_read) [
  | inl e ↦ rw (e, call_read) (refl, refl, refl, refl)
  | inr e ↦ rw (e, call_read) (refl, refl, refl, refl)
]

deliver-HandedOn :
    (n : ℕ) (h : Hdlc) (fs : List Bytes)
    → h.ll.rx_frames ≡ fs
    → length fs ≤ n
    → HandedOn h fs (deliver n h)
unfolding deliver
deliver-HandedOn zero h [] e le = record {
  framer = ap (λ fs. record (h.ll) { rx_frames = fs }) e;
  calls_then = sym (given-nil h.on_frame_read h.calls);
  len_then = refl;
}
deliver-HandedOn zero h (f ∷ fs) e le = absurd (omega arith)
deliver-HandedOn (suc n) h [] e le =
    let (nothing, left) = get_rx_frame-nil h.ll e in
    rw (nothing, deliver)
      (record {
        framer = left;
        calls_then = sym (given-nil h.on_frame_read h.calls);
        len_then = refl;
      })
deliver-HandedOn (suc n) h (f ∷ fs) e le =
    let (found, left) = get_rx_frame-cons h.ll f fs e in
    let h1 : Hdlc = record h { ll = (get_rx_frame h.ll).1; rx_len = length f } in
    let h2 = set_events (call_read h1 f) rx_data_ready_bit in
    let (framer, flag, len, calls) = call_read-fields h1 f in
    let rest =
      deliver-HandedOn n h2 fs (ap (λ (l : HdlcLl). l.rx_frames) (framer ∙ left)) (omega arith) in
    rw (found, deliver)
      (record {
        framer = rest.framer ∙ ap (λ (l : HdlcLl). record l { rx_frames = [] }) (framer ∙ left);
        calls_then = rest.calls_then ∙ rw (flag, calls) (given-cons h.on_frame_read h.calls f fs);
        len_then = rest.len_then ∙ ap (λ k. last_len k fs) len;
      })

Ready-frames : (s : RxState) (ll : HdlcLl) → ReadyIn s ll → ReadyIn s (record ll { rx_frames = [] })
Ready-frames start_phase ll r = r
Ready-frames data_phase ll r = r
Ready-frames end_phase ll r = r

-- A handle whose framer is ready for a flag and holds no frame is given frames in a row, whose payloads are not empty, consist of bytes and fit: all bytes are
-- consumed without an error, the callback, where one is set, is given each payload once and in order, the length remembered is that of the last one, no frame
-- is left behind, and the framer is ready again.
pub run_rx-reads :
    (h : Hdlc) (ps : List Bytes)
    → Ready h.ll
    → h.ll.rx_frames ≡ []
    → AllFit h.ll.crc_type h.ll.phys_mtu ps
    → let (n, error, h') = run_rx h (wires h.ll.crc_type ps) in
      (n ≡ length (wires h.ll.crc_type ps))
      × (error ≡ none)
      × (h'.calls ≡ given h.on_frame_read h.calls ps)
      × (h'.rx_len ≡ last_len h.rx_len ps)
      × (h'.ll.rx_frames ≡ [])
      × Ready h'.ll
unfolding run_rx Rx.run_rx
run_rx-reads h ps ready nothing fit =
    let (count, error, frames, ready') = run_rx-wires h.ll ps 0 ready fit in
    let ll' = (Rx.run_rx_from 0 h.ll (wires h.ll.crc_type ps)).2 in
    let mine : ll'.rx_frames ≡ ps = frames ∙ ap (λ fs. fs ++ ps) nothing in
    let on =
      deliver-HandedOn (length ll'.rx_frames) (record h { ll = ll' }) ps mine
        (omega (arith, ap length mine)) in
    (
      count ∙ omega arith,
      error,
      on.calls_then,
      on.len_then,
      ap (λ (l : HdlcLl). l.rx_frames) on.framer,
      subst Ready (sym on.framer) (Ready-frames ll'.rx_state ll' ready'),
    )
