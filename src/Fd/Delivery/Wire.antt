-- ===== src/Fd/Delivery/Wire.antt =====
-- What is under way in a direction of a connection, by the places of the payloads in what was accepted.
use tinyproto_rust.Base.{
  ℕ, zero, suc, ◌+◌, ◌%◌, ◌≤◌, ◌<◌, some, List, [], ◌∷◌, ◌++◌, Bytes, length, get_elem?, ◌≡◌, refl,
  arith,
}
use Prim.Native.Nat.{max}

-- Each frame on the wire holds one of the first `l` accepted payloads. A receiver that expects payload
-- `bound` is at most seven ahead of it, and is so too once it has taken the frames in front.
abbrev pub Frames : ℕ → ℕ → List Bytes → List (ℕ × Bytes) → Type 0
Frames bound l acc [] = Unit
Frames bound l acc ((ns, payload) ∷ w) =
    (k : ℕ) × (ns ≡ k % 8)
    × (get_elem? acc k ≡ some payload)
    × (k < l)
    × (bound ≤ k + 7)
    × Frames (max bound (suc k)) l acc w

pub Frames-bound :
    (b b' l : ℕ) (acc : List Bytes) (w : List (ℕ × Bytes))
    → b' ≤ b
    → Frames b l acc w
    → Frames b' l acc w
Frames-bound b b' l acc [] le fs = tt
Frames-bound b b' l acc ((ns, m) ∷ w) le (k, e, at, lt, near, fs) = (
  k,
  e,
  at,
  lt,
  omega arith,
  Frames-bound (max b (suc k)) (max b' (suc k)) l acc w (omega arith) fs,
)

-- A further frame goes last: none of those in front takes the receiver too far ahead of it.
pub Frames-append :
    (b l k : ℕ) (acc : List Bytes) (w : List (ℕ × Bytes)) (m : Bytes)
    → get_elem? acc k ≡ some m
    → k < l
    → b ≤ l
    → l ≤ k + 7
    → Frames b l acc w
    → Frames b l acc (w ++ (k % 8, m) ∷ [])
Frames-append b l k acc [] m at lt le near fs = (k, refl, at, lt, omega arith, tt)
Frames-append b l k acc (f ∷ w) m at lt le near (j, e, at', lt', near', fs) =
    (j, e, at', lt', near', Frames-append (max b (suc j)) l k acc w m at lt (omega arith) near fs)

pub Frames-remove :
    (b l : ℕ) (acc : List Bytes) (u : List (ℕ × Bytes)) (f : ℕ × Bytes) (w : List (ℕ × Bytes))
    → Frames b l acc (u ++ f ∷ w)
    → Frames b l acc (u ++ w)
Frames-remove b l acc [] f w (k, e, at, lt, near, fs) =
    Frames-bound (max b (suc k)) b l acc w (omega arith) fs
Frames-remove b l acc (g ∷ u) f w (k, e, at, lt, near, fs) =
    (k, e, at, lt, near, Frames-remove (max b (suc k)) l acc u f w fs)

pub get_elem?-append_left :
    (acc : List Bytes) (k : ℕ) (m : Bytes) (more : List Bytes)
    → get_elem? acc k ≡ some m
    → get_elem? (acc ++ more) k ≡ some m
get_elem?-append_left [] k m more e = cc
get_elem?-append_left (x ∷ acc) zero m more e = e
get_elem?-append_left (x ∷ acc) (suc k) m more e = get_elem?-append_left acc k m more e

pub get_elem?-length-append :
    (acc : List Bytes) (m : Bytes) → get_elem? (acc ++ m ∷ []) (length acc) ≡ some m
get_elem?-length-append [] m = refl
get_elem?-length-append (x ∷ acc) m = get_elem?-length-append acc m

-- More is accepted.
pub Frames-accept :
    (b l : ℕ) (acc : List Bytes) (w : List (ℕ × Bytes)) (m : Bytes)
    → Frames b l acc w
    → Frames b (suc l) (acc ++ m ∷ []) w
Frames-accept b l acc [] m fs = tt
Frames-accept b l acc ((ns, m') ∷ w) m (k, e, at, lt, near, fs) = (
  k,
  e,
  get_elem?-append_left acc k m' (m ∷ []) at,
  omega arith,
  near,
  Frames-accept (max b (suc k)) l acc w m fs,
)

-- The acknowledgements under way do not go down, from what is confirmed to what is delivered.
abbrev pub Acks : ℕ → ℕ → List ℕ → Type 0
Acks c r [] = Unit
Acks c r (nr ∷ ns) = (a : ℕ) × (nr ≡ a % 8) × (c ≤ a) × (a ≤ r) × Acks a r ns

pub Acks-bounds : (c c' r r' : ℕ) (ns : List ℕ) → c' ≤ c → r ≤ r' → Acks c r ns → Acks c' r' ns
Acks-bounds c c' r r' [] low high oks = tt
Acks-bounds c c' r r' (nr ∷ ns) low high (a, e, ge, le, oks) =
    (a, e, omega arith, omega arith, Acks-bounds a a r r' ns (omega arith) high oks)

pub Acks-append : (c r : ℕ) (ns : List ℕ) → c ≤ r → Acks c r ns → Acks c r (ns ++ r % 8 ∷ [])
Acks-append c r [] le oks = (r, refl, le, omega arith, tt)
Acks-append c r (nr ∷ ns) le (a, e, ge, le', oks) = (a, e, ge, le', Acks-append a r ns le' oks)

pub Acks-remove :
    (c r : ℕ) (u : List ℕ) (nr : ℕ) (ns : List ℕ) → Acks c r (u ++ nr ∷ ns) → Acks c r (u ++ ns)
Acks-remove c r [] nr ns (a, e, ge, le, oks) = Acks-bounds a c r r ns ge (omega arith) oks
Acks-remove c r (n ∷ u) nr ns (a, e, ge, le, oks) = (a, e, ge, le, Acks-remove a r u nr ns oks)
