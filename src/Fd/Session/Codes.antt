-- ===== src/Fd/Session/Codes.antt =====
-- The control bytes of I- and S-frames, as src/proto/fd/protocol.rs takes them apart.
use tinyproto_rust.Base.{
  ℕ, ◌+◌, ◌*◌, ◌/◌, ◌%◌, ◌<◌, bit_and, Bool, true, false, not, ◌&&◌, ◌==◌, ◌≡◌, refl, sym, ap, ◌∙◌,
  arith, ◌>>>◌,
}
use tinyproto_rust.Base.Bits.{holds_below, holds_below-lt}
use tinyproto_rust.Fd.Defines.{
  seq_bits_mask, hdlc_u_frame_bits, hdlc_u_frame_mask, hdlc_i_frame_bits, hdlc_i_frame_mask,
  hdlc_s_frame_bits, hdlc_s_frame_mask, hdlc_s_frame_type_rr, hdlc_s_frame_type_rej,
  hdlc_s_frame_type_mask,
}
use tinyproto_rust.Fd.Protocol.Send.{i_control}
use tinyproto_rust.Fd.Protocol.Handlers.{rr_control, rej_control}

-- The numbers of an I-frame can be read off, and it is no U-frame.
pub record IsInfo (control ns nr : ℕ) : Type 0 where
  pub info_ns : bit_and (control >>> 5) seq_bits_mask ≡ ns
  pub info_nr : bit_and (control >>> 1) seq_bits_mask ≡ nr
  pub not_u : (bit_and control hdlc_u_frame_mask == hdlc_u_frame_bits) ≡ false
  pub is_i : (bit_and control hdlc_i_frame_mask == hdlc_i_frame_bits) ≡ true

-- The number and the type of an S-frame can be read off, and it is no frame of another kind.
pub record IsSupervisory (control nr s_type : ℕ) : Type 0 where
  pub number : bit_and (control >>> 5) seq_bits_mask ≡ nr
  pub kind : bit_and control hdlc_s_frame_type_mask ≡ s_type
  pub not_u : (bit_and control hdlc_u_frame_mask == hdlc_u_frame_bits) ≡ false
  pub not_i : (bit_and control hdlc_i_frame_mask == hdlc_i_frame_bits) ≡ false
  pub is_s : (bit_and control hdlc_s_frame_mask == hdlc_s_frame_bits) ≡ true

abbrev info_test : ℕ → ℕ → ℕ → Bool
info_test control ns nr =
    (bit_and (control >>> 5) seq_bits_mask == ns)
    && (bit_and (control >>> 1) seq_bits_mask == nr)
    && not (bit_and control hdlc_u_frame_mask == hdlc_u_frame_bits)
    && (bit_and control hdlc_i_frame_mask == hdlc_i_frame_bits)

abbrev s_test : ℕ → ℕ → ℕ → Bool
s_test control nr s_type =
    (bit_and (control >>> 5) seq_bits_mask == nr)
    && (bit_and control hdlc_s_frame_type_mask == s_type)
    && not (bit_and control hdlc_u_frame_mask == hdlc_u_frame_bits)
    && not (bit_and control hdlc_i_frame_mask == hdlc_i_frame_bits)
    && (bit_and control hdlc_s_frame_mask == hdlc_s_frame_bits)

info_test-IsInfo : (control ns nr : ℕ) → info_test control ns nr ≡ true → IsInfo control ns nr
info_test-IsInfo control ns nr e = ground arith

s_test-IsSupervisory :
    (control nr s_type : ℕ) → s_test control nr s_type ≡ true → IsSupervisory control nr s_type
s_test-IsSupervisory control nr s_type e = ground arith

info_table : holds_below 64 (λ x. info_test (i_control (x / 8) (x % 8)) (x / 8) (x % 8)) ≡ true
unfolding holds_below
info_table = refl

rr_table : holds_below 8 (λ x. s_test (rr_control x) x hdlc_s_frame_type_rr) ≡ true
unfolding holds_below
rr_table = refl

rej_table : holds_below 8 (λ x. s_test (rej_control x) x hdlc_s_frame_type_rej) ≡ true
unfolding holds_below
rej_table = refl

pub i_control-IsInfo : (ns nr : ℕ) → ns < 8 → nr < 8 → IsInfo (i_control ns nr) ns nr
i_control-IsInfo ns nr a b =
    let x = ns * 8 + nr in
    let high : x / 8 ≡ ns = omega arith in
    let low : x % 8 ≡ nr = omega arith in
    rw (high, low) at
      (info_test-IsInfo _ (x / 8) (x % 8) (holds_below-lt 64 _ x info_table (omega arith)))

pub rr_control-IsSupervisory :
    (nr : ℕ) → nr < 8 → IsSupervisory (rr_control nr) nr hdlc_s_frame_type_rr
rr_control-IsSupervisory nr lt = s_test-IsSupervisory _ nr _ (holds_below-lt 8 _ nr rr_table lt)

pub rej_control-IsSupervisory :
    (nr : ℕ) → nr < 8 → IsSupervisory (rej_control nr) nr hdlc_s_frame_type_rej
rej_control-IsSupervisory nr lt = s_test-IsSupervisory _ nr _ (holds_below-lt 8 _ nr rej_table lt)

-- Equal control bytes have equal numbers.
pub i_control-eq :
    (ns nr ns' nr' : ℕ)
    → ns < 8
    → nr < 8
    → ns' < 8
    → nr' < 8
    → i_control ns nr ≡ i_control ns' nr'
    → (ns ≡ ns') × (nr ≡ nr')
i_control-eq ns nr ns' nr' a b a' b' e =
    let code = i_control-IsInfo ns nr a b in
    let code' = i_control-IsInfo ns' nr' a' b' in
    (
      sym code.info_ns ∙ ap (λ x. bit_and (x >>> 5) seq_bits_mask) e ∙ code'.info_ns,
      sym code.info_nr ∙ ap (λ x. bit_and (x >>> 1) seq_bits_mask) e ∙ code'.info_nr,
    )
