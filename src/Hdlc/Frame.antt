-- ===== src/Hdlc/Frame.antt =====
-- src/proto/hdlc/frame.rs: a frame buffer that grows byte by byte.
use tinyproto_rust.Base.{
  ℕ, Option, [], ◌∷◌, ◌++◌, append_assoc, append-nil, Bytes, get_elem?, ◌≡◌, sym, ap, ◌∙◌,
}

pub record HdlcFrame : Type 0 where
  pub bytes : Bytes

abbrev pub new : HdlcFrame
new = record { bytes = [] }

unfoldable pub push : HdlcFrame → ℕ → HdlcFrame
push f byte = record f { bytes = f.bytes ++ byte ∷ [] }

-- Indexing by a number; `none` stands for the panic.
abbrev pub index : HdlcFrame → ℕ → Option ℕ
index f i = get_elem? f.bytes i

abbrev push_all : HdlcFrame → Bytes → HdlcFrame
push_all f [] = f
push_all f (b ∷ bs) = push_all (push f b) bs

push_all-bytes : (f : HdlcFrame) (bs : Bytes) → (push_all f bs).bytes ≡ f.bytes ++ bs
unfolding push
push_all-bytes f [] = sym (append-nil f.bytes)
push_all-bytes f (b ∷ bs) = push_all-bytes (push f b) bs ∙ append_assoc f.bytes (b ∷ []) bs

-- A frame to which bytes are appended one by one holds each at its place, behind those it had before.
index-push_all :
    (f : HdlcFrame) (bs : Bytes) (i : ℕ) → index (push_all f bs) i ≡ get_elem? (f.bytes ++ bs) i
index-push_all f bs i = ap (λ t. get_elem? t i) (push_all-bytes f bs)
