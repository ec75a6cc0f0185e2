-- ===== src/Light/Read.antt =====
-- `read` of src/proto/light.rs on a channel that delivers its bytes one by one, and a clock that stands still.
use tinyproto_rust.Base.{
  ℕ, zero, suc, ◌+◌, ◌-◌, ◌≤◌, ◌<◌, false, Option, none, some, List, [], ◌∷◌, ◌++◌, append-nil, ◌≡◌,
  refl, sym, ap, ◌∙◌, arith, Bytes, IsBytes, length, take, head?, leb, Option-cases, inl, inr,
}
use tinyproto_rust.Base.Int.{ℤ, pos}
use tinyproto_rust.Crc.{get_crc_field_size}
use tinyproto_rust.Error.{TinyError, TinyResult, ok}
use tinyproto_rust.Hdlc.Ll.Defs.{HdlcLl, RxState, start_phase, data_phase, end_phase, get_rx_frame}
use tinyproto_rust.Hdlc.Ll.Rx.{rx_byte, rx_end, rx_check, settle, run_rx_from, run_rx}
use tinyproto_rust.Hdlc.Ll.Rx.Rounds.{
  IsSettled, settle-IsSettled, settle_settles, run_rx_from-nil, run_rx_from-byte,
  run_rx_from-settle, run_rx_from-stops, run_rx_from-goes_on,
}
use tinyproto_rust.Hdlc.Ll.Rx.Chunks.{stops_before, Ready-rests}
use tinyproto_rust.Hdlc.Ll.Rx.Frame.{Ready, ReadyIn, wire, received, run_rx-wire}
use tinyproto_rust.Light.{Light, read_round, next_frame, read}

-- The bytes that are left are the channel's state.
abbrev pub deliver : Bytes → ℤ × ℕ × Bytes
deliver [] = (pos 0, 0, [])
deliver (b ∷ bs) = (pos 1, b, bs)

abbrev pub no_time : Bytes → ℕ
no_time bs = 0

head?-append_last :
    (fs : List Bytes) (f p : Bytes) → head? fs ≡ some p → head? (fs ++ f ∷ []) ≡ some p
head?-append_last [] f p h = cc
head?-append_last (g ∷ fs) f p h = h

rx_byte-rx_frames : (ll : HdlcLl) (b : ℕ) → (rx_byte ll b).rx_frames ≡ ll.rx_frames
unfolding rx_byte
rx_byte-rx_frames ll b = ground arith

settle-head?_in :
    (s : RxState) (ll : HdlcLl) (p : Bytes)
    → ll.rx_state ≡ s
    → head? ll.rx_frames ≡ some p
    → head?
        (ll.rx_frames ++ take (length ll.rx_buf - get_crc_field_size ll.crc_type) ll.rx_buf ∷ [])
      ≡ some p
    → head? (settle ll).0.rx_frames ≡ some p
unfolding settle rx_end rx_check
settle-head?_in start_phase ll p e h k = rw e h
settle-head?_in data_phase ll p e h k = rw e h
settle-head?_in end_phase ll p e h k = rw e (ground arith)

settle-head? :
    (ll : HdlcLl) (p : Bytes) → head? ll.rx_frames ≡ some p → head? (settle ll).0.rx_frames ≡ some p
settle-head? ll p h = settle-head?_in ll.rx_state ll p refl h (
    head?-append_last ll.rx_frames
      (take (length ll.rx_buf - get_crc_field_size ll.crc_type) ll.rx_buf) p h)

-- A frame that waits stays the next one.
run_rx_from-head? :
    (bs : Bytes) (c : ℕ) (ll : HdlcLl) (p : Bytes)
    → head? ll.rx_frames ≡ some p
    → head? (run_rx_from c ll bs).2.rx_frames ≡ some p
run_rx_from-head? [] c ll p h = rw (run_rx_from-nil c ll) (settle-head? ll p h)
run_rx_from-head? (b ∷ bs) c ll p h = elim (Option-cases (settle ll).1) [
  | inl fine ↦ rw (run_rx_from-goes_on c ll b bs fine) (
      run_rx_from-head? bs (c + 1) (rx_byte (settle ll).0 b) p
        (rw (rx_byte-rx_frames (settle ll).0 b) (settle-head? ll p h)))
  | inr (e, failed) ↦ rw (run_rx_from-stops c ll b bs e failed) (settle-head? ll p h)
]

run_rx-byte :
    (ll : HdlcLl) (b : ℕ)
    → IsSettled ll.rx_state
    → run_rx ll (b ∷ []) ≡ (0 + 1, (settle (rx_byte ll b)).1, (settle (rx_byte ll b)).0)
unfolding run_rx
run_rx-byte ll b h = run_rx_from-byte 0 ll b [] h ∙ run_rx_from-nil (0 + 1) (rx_byte ll b)

round-next_frame :
    (l : Light) (b : ℕ)
    → IsSettled l.ll.rx_state
    → (settle (rx_byte l.ll b)).1 ≡ none
    → read_round l (pos 1) b
      ≡ some (next_frame (record l { ll = (settle (rx_byte l.ll b)).0 }) none)
unfolding read_round
round-next_frame l b h fine = rw (run_rx-byte l.ll b h, read_round, fine) refl

next_frame-cons :
    (l : Light) (q : Bytes) (qs : List Bytes)
    → l.ll.rx_frames ≡ q ∷ qs
    → next_frame l none ≡ (record l { ll = record (l.ll) { rx_frames = qs } }, some (ok q))
unfolding get_rx_frame
next_frame-cons l q qs e = rw e refl

next_frame-nil : (l : Light) → l.ll.rx_frames ≡ [] → next_frame l none ≡ (l, none)
unfolding get_rx_frame
next_frame-nil l e = rw e refl

read-stops :
    (fuel : ℕ) (l l' : Light) (b : ℕ) (bs : Bytes) (r : TinyResult Bytes)
    → read_round l (pos 1) b ≡ some (l', some r)
    → read deliver no_time (suc fuel) l (b ∷ bs) ≡ some (bs, l', r)
unfolding read
read-stops fuel l l' b bs r h = rw (h, read) refl

read-goes_on :
    (fuel : ℕ) (l l' : Light) (b : ℕ) (bs : Bytes)
    → read_round l (pos 1) b ≡ some (l', none)
    → 0 < l.timeout_ms
    → read deliver no_time (suc fuel) l (b ∷ bs) ≡ read deliver no_time fuel l' bs
unfolding read
read-goes_on fuel l l' b bs h lt =
    let running : leb l.timeout_ms 0 ≡ false = ground arith in rw (h, read, running) refl

-- `bs` are read until the first frame in them is complete.
module _ (p rest : Bytes) where
  Reads : ℕ → Light → Bytes → Type 0
  Reads fuel l bs =
      (left : Bytes) × (l' : Light) × (read deliver no_time fuel l (bs ++ rest)
        ≡ some (left, l', ok p))

  -- After a byte without an error, where `fs` are the frames that wait then.
  after_byte :
      (fs : List Bytes) (fuel c n : ℕ) (l : Light) (b : ℕ) (bs : Bytes) (ll' : HdlcLl)
      → (settle (rx_byte l.ll b)).0.rx_frames ≡ fs
      → (IsSettled l.ll.rx_state)
      → (settle (rx_byte l.ll b)).1 ≡ none
      → 0 < l.timeout_ms
      → run_rx_from c (settle (rx_byte l.ll b)).0 bs ≡ (n, none, ll')
      → head? ll'.rx_frames ≡ some p
      → (fs ≡ [] → Reads fuel (record l { ll = (settle (rx_byte l.ll b)).0 }) bs)
      → Reads (suc fuel) l (b ∷ bs)
  unfolding Reads
  after_byte [] fuel c n l b bs ll' e settled fine lt ran first go_on =
      let l1 = record l { ll = (settle (rx_byte l.ll b)).0 } in
      let (left, l2, eq) = go_on refl in
      (
        left,
        l2,
        read-goes_on fuel l l1 b (bs ++ rest)
              (round-next_frame l b settled fine ∙ ap some (next_frame-nil l1 e)) lt
            ∙ eq,
      )
  after_byte (q ∷ qs) fuel c n l b bs ll' e settled fine lt ran first go_on =
      let l1 = record l { ll = (settle (rx_byte l.ll b)).0 } in
      let l2 = record l1 { ll = record (l1.ll) { rx_frames = qs } } in
      let still = run_rx_from-head? bs c l1.ll q (ap head? e) in
      let same : some q ≡ some p = sym still ∙ ap (λ r. head? r.2.rx_frames) ran ∙ first in
      (
        bs ++ rest,
        l2,
        read-stops fuel l l2 b (bs ++ rest) (ok q)
              (round-next_frame l b settled fine ∙ ap some (next_frame-cons l1 q qs e))
            ∙ ap (λ f. some (bs ++ rest, l2, ok f)) {x = q} {y = p} cc,
      )

  reads :
      (bs : Bytes) (fuel c n : ℕ) (l : Light) (ll' : HdlcLl)
      → IsSettled l.ll.rx_state
      → l.ll.rx_frames ≡ []
      → 0 < l.timeout_ms
      → length bs ≤ fuel
      → run_rx_from c l.ll bs ≡ (n, none, ll')
      → head? ll'.rx_frames ≡ some p
      → Reads fuel l bs
  reads [] fuel c n l ll' settled no_frames lt enough ran first =
      let nothing : ◌≡◌ {A = Option Bytes} none (some p) =
        ap head? (sym no_frames)
        ∙ ap (λ r. head? r.0.rx_frames) (sym (settle-IsSettled l.ll settled))
        ∙ ap (λ r. head? r.2.rx_frames) (sym (run_rx_from-nil c l.ll) ∙ ran)
        ∙ first in
      absurd cc
  reads (b ∷ bs) zero c n l ll' settled no_frames lt enough ran first = absurd (omega arith)
  reads (b ∷ bs) (suc fuel) c n l ll' settled no_frames lt enough ran first =
      let m = rx_byte l.ll b in
      let ran1 = sym (run_rx_from-byte c l.ll b bs settled) ∙ ran in
      elim (Option-cases (settle m).1) [
        | inl fine ↦
            let ran2 = sym (run_rx_from-settle (c + 1) m bs fine) ∙ ran1 in
            after_byte (settle m).0.rx_frames fuel (c + 1) n l b bs ll' refl settled fine lt ran2
              first
              (λ none_yet.
                reads bs fuel (c + 1) n (record l { ll = (settle m).0 }) ll' (settle_settles m)
                  none_yet lt (omega arith) ran2 first)
        | inr (e, bad) ↦
            let no_error : ◌≡◌ {A = Option TinyError} (some e) none =
              ap (λ r. r.1) (sym (stops_before (c + 1) m bs e bad) ∙ ran1) in
            absurd cc
      ]

Ready-IsSettled_in : (s : RxState) (ll : HdlcLl) → ReadyIn s ll → IsSettled s
Ready-IsSettled_in start_phase ll h = tt
Ready-IsSettled_in data_phase ll h = tt
Ready-IsSettled_in end_phase ll h = absurd h

-- On a channel that delivers a frame byte by byte, and maybe more behind it, with no time passing, `read` ends within
-- as many rounds as the frame has bytes and returns the payload, if the framer is ready, holds no
-- earlier frame and is large enough.
pub read-wire :
    (l : Light) (payload rest : Bytes) (fuel : ℕ)
    → Ready l.ll
    → l.ll.rx_frames ≡ []
    → 0 < l.timeout_ms
    → IsBytes payload
    → length payload + get_crc_field_size l.ll.crc_type ≤ l.ll.phys_mtu
    → 0 < length payload
    → length (wire l.ll.crc_type payload) ≤ fuel
    → (left : Bytes) × (l' : Light) × (read deliver no_time fuel l
          (wire l.ll.crc_type payload ++ rest)
        ≡ some (left, l', ok payload))
unfolding Reads
read-wire l payload rest fuel ready no_frames lt h fits full enough =
    let frame = wire l.ll.crc_type payload in
    let ran =
      ap (run_rx_from 0 l.ll) (sym (append-nil frame))
      ∙ run_rx-wire l.ll payload [] 0 ready h fits full
      ∙ Ready-rests (received l.ll payload) (0 + length frame) tt in
    reads payload rest frame fuel 0 (0 + length frame) l (received l.ll payload)
      (Ready-IsSettled_in l.ll.rx_state l.ll ready) no_frames lt enough ran
      (ap (λ fs. head? (fs ++ payload ∷ [])) no_frames)
