-- ===== src/Light/Timeout.antt =====
-- `read` of src/proto/light.rs ends when its time is over, whatever the channel delivers.
use tinyproto_rust.Base.{
  ℕ, zero, suc, ◌≤◌, false, Option, none, some, Bytes, ◌≡◌, refl, arith, leb, Bool-cases, inl, inr,
}
use tinyproto_rust.Base.Int.{ℤ, pos, negsuc}
use tinyproto_rust.Error.{TinyError, timeout, TinyResult, err}
use tinyproto_rust.Hdlc.Ll.Defs.{rx_only, reset}
use tinyproto_rust.Light.{Light, next_frame, read_round, read}

-- What a callback may return for a buffer of one byte.
abbrev pub FitsBuffer : ℤ → Type 0
FitsBuffer (negsuc n) = Unit
FitsBuffer (pos n) = n ≤ 1

next_frame-timeout_ms :
    (l : Light) (e : Option TinyError) → (next_frame l e).0.timeout_ms ≡ l.timeout_ms
next_frame-timeout_ms l none = refl
next_frame-timeout_ms l (some e) = refl

Ends : Light → Option (Light × Option (TinyResult Bytes)) → Type 0
Ends l round =
    (l' : Light) × (r : Option (TinyResult Bytes)) × (round ≡ some (l', r))
    × (l'.timeout_ms ≡ l.timeout_ms)

read_round-Ends : (l : Light) (n : ℤ) (byte : ℕ) → FitsBuffer n → Ends l (read_round l n byte)
unfolding Ends read_round
read_round-Ends l (negsuc n) byte h = (_, _, refl, refl)
read_round-Ends l (pos zero) byte h = (_, _, refl, next_frame-timeout_ms l none)
read_round-Ends l (pos (suc zero)) byte h = (_, _, refl, next_frame-timeout_ms _ _)
read_round-Ends l (pos (suc (suc n))) byte h = absurd (omega arith)

module _ {S : Type 0} (read_fn : S → ℤ × ℕ × S) (elapsed : S → ℕ) where
  -- The channel after `n` calls.
  abbrev pub after : ℕ → S → S
  after zero s = s
  after (suc n) s = after n (read_fn s).2

  abbrev Returns : ℕ → Light → S → Type 0
  Returns fuel l s =
      (s' : S) × (l' : Light) × (r : TinyResult Bytes) × (read read_fn elapsed fuel l s
        ≡ some (s', l', r))

  after_round :
      (fuel : ℕ) (l l1 : Light) (s : S) (r : Option (TinyResult Bytes))
      → read_round l (read_fn s).0 (read_fn s).1 ≡ some (l1, r)
      → (leb l.timeout_ms (elapsed (read_fn s).2) ≡ false → Returns fuel l1 (read_fn s).2)
      → Returns (suc fuel) l s
  unfolding read
  after_round fuel l l1 s (some x) eq go_on = ((read_fn s).2, l1, x, rw (eq, read) refl)
  after_round fuel l l1 s none eq go_on =
      elim (Bool-cases (leb l.timeout_ms (elapsed (read_fn s).2))) [
        | inl over ↦ (
          (read_fn s).2,
          record l1 { ll = reset l1.ll rx_only },
          err timeout,
          rw (eq, read, over) refl,
        )
        | inr early ↦ let (s', l', r, rest) = go_on early in (s', l', r, rw (eq, read, early) rest)
      ]

  -- If the callback never claims more bytes than its buffer holds, and the time is over after `k + 1` calls, then
  -- `read` ends within `k + 1` rounds, with a frame or an error, and without a panic.
  pub read-ends :
      (k : ℕ) (l : Light) (s : S)
      → ((t : S) → FitsBuffer (read_fn t).0)
      → l.timeout_ms ≤ elapsed (after (suc k) s)
      → (s' : S) × (l' : Light) × (r : TinyResult Bytes) × (read read_fn elapsed (suc k) l s
          ≡ some (s', l', r))
  unfolding Ends
  read-ends zero l s fits over =
      let (l1, r, eq, same) = read_round-Ends l (read_fn s).0 (read_fn s).1 (fits s) in
      after_round 0 l l1 s r eq (λ early. absurd (ground arith))
  read-ends (suc k) l s fits over =
      let (l1, r, eq, same) = read_round-Ends l (read_fn s).0 (read_fn s).1 (fits s) in
      after_round (suc k) l l1 s r eq (λ early. read-ends k l1 (read_fn s).2 fits (rw same over))
