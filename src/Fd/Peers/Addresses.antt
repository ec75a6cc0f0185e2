-- ===== src/Fd/Peers/Addresses.antt =====
-- The addresses of src/proto/fd/peers.rs: what a peer is called in the address field, who is meant by
-- one, and whose turn it is.
use tinyproto_rust.Base.{
  ℕ, zero, suc, ◌+◌, ◌*◌, ◌%◌, ◌≤◌, ◌<◌, Bool, true, false, ◌||◌, some, length, get_elem?, ◌≡◌,
  refl, sym, ap, ◌∙◌, arith, Bool-cases, inl, inr, ◌==◌, ==_iff, if◌then◌else◌, u8,
}
use Prim.Native.Nat.{max}
use mathlib.Core.Option as Option
use native.Mathlib.Nat.{mod-eq_of_lt, mod-lt, mod-add-mod}
use tinyproto_rust.Base.Bits.{holds_below, holds_below-lt}
use tinyproto_rust.Fd.Peers.{
  PeerInfo, new_peer, without_cr, is_primary_address, PeerManager, secondary_addr, secondaries, new,
  peer_to_address_field, find_address, address_field_to_peer, switch_to_next_peer,
}

address_table : holds_below 63 (λ i. without_cr (secondary_addr i) == i * 4 + 5) ≡ true
unfolding holds_below
address_table = refl

without_cr-secondary_addr : (i : ℕ) → i < 63 → without_cr (secondary_addr i) ≡ i * 4 + 5
without_cr-secondary_addr i h = (==_iff _ (i * 4 + 5)).0 (holds_below-lt 63 _ i address_table h)

command_table : holds_below 63 (λ i. without_cr (i * 4 + 5 + 2) == i * 4 + 5) ≡ true
unfolding holds_below
command_table = refl

response_table : holds_below 63 (λ i. without_cr (i * 4 + 5) == i * 4 + 5) ≡ true
unfolding holds_below
response_table = refl

u8-same : (i j : ℕ) → i ≡ j → j < 63 → u8 i ≡ j
u8-same i j e h = omega arith

u8-lt : (n : ℕ) → n < 256 → u8 n ≡ n
u8-lt n h = omega arith

get_elem?-secondaries :
    (n i j now : ℕ)
    → j < n
    → get_elem? (secondaries n i now) j ≡ some (new_peer now (secondary_addr (i + j)))
unfolding secondaries
get_elem?-secondaries zero i j now h = absurd (omega arith)
get_elem?-secondaries (suc n) i zero now h =
    ap (λ k. some (new_peer now (secondary_addr k))) {x = i} {y = i + 0} (omega arith)
get_elem?-secondaries (suc n) i (suc j) now h =
    get_elem?-secondaries n (suc i) j now (omega arith)
    ∙ ap (λ k. some (new_peer now (secondary_addr k))) {x = suc i + j} {y = i + suc j} (omega arith)

first_of :
    (i n now : ℕ)
    → i < n
    → get_elem? (secondaries n 0 now) i ≡ some (new_peer now (secondary_addr i))
first_of i n now h =
    get_elem?-secondaries n 0 i now h
    ∙ ap (λ k. some (new_peer now (secondary_addr k))) {x = 0 + i} {y = i} (omega arith)

find_address-secondaries :
    (n i j now : ℕ)
    → i ≤ j
    → j < i + n
    → j < 63
    → find_address (j * 4 + 5) i (secondaries n i now) ≡ j
unfolding secondaries find_address
find_address-secondaries zero i j now a b h = absurd (omega arith)
find_address-secondaries (suc n) i j now a b h =
    let own = without_cr-secondary_addr i (omega arith) in
    elim (Bool-cases (without_cr (secondary_addr i) == j * 4 + 5)) [
      | inl e ↦
          rw (e, find_address)
            (u8-same i j
              (omega (arith, own, (==_iff (without_cr (secondary_addr i)) (j * 4 + 5)).0 e)) h)
      | inr e ↦
          rw (e, find_address)
            (find_address-secondaries n (suc i) j now (ground (arith, own)) (omega arith) h)
    ]

-- On the primary station each of the first 63 peers is called by an address of its own, 4 (i + 1) with the
-- extension bit, and that address, as a response or with the command bit, leads back to the peer.
pub peer_to_address_field-address_field_to_peer :
    (now local_addr peers_count i : ℕ)
    → is_primary_address local_addr ≡ true
    → i < max peers_count 1
    → i < 63
    → let m = new now local_addr peers_count in
      (peer_to_address_field m i ≡ some (i * 4 + 5))
      × (address_field_to_peer m (i * 4 + 5) ≡ i)
      × (address_field_to_peer m (i * 4 + 5 + 2) ≡ i)
unfolding new peer_to_address_field address_field_to_peer
peer_to_address_field-address_field_to_peer now local_addr peers_count i primary lt h =
    let all = max peers_count 1 in
    rw (primary, new, peer_to_address_field, address_field_to_peer)
      (
        ap (Option.map (λ (p : PeerInfo). without_cr p.addr)) (first_of i all now lt)
            ∙ ap some (without_cr-secondary_addr i h),
        rw ((==_iff _ (i * 4 + 5)).0 (holds_below-lt 63 _ i response_table h))
            (find_address-secondaries all 0 i now (omega arith) (omega (arith, lt)) h),
        rw ((==_iff _ (i * 4 + 5)).0 (holds_below-lt 63 _ i command_table h))
            (find_address-secondaries all 0 i now (omega arith) (omega (arith, lt)) h),
      )

idempotent_table : holds_below 256 (λ a. without_cr (without_cr a) == without_cr a) ≡ true
unfolding holds_below
idempotent_table = refl

idempotent : (a : ℕ) → a < 256 → without_cr (without_cr a) ≡ without_cr a
idempotent a h = (==_iff _ (without_cr a)).0 (holds_below-lt 256 _ a idempotent_table h)

by_primary : (b : Bool) → ◌≡◌ {A = ℕ} (if b || true then 0 else 0xFF) 0
by_primary true = refl
by_primary false = refl

-- A secondary station has one peer. It calls itself by its own address without the command bit, and
-- takes a frame to its own address, with or without that bit, or to the primary's address, as one
-- from that peer.
secondary-address_field_to_peer :
    (now local_addr peers_count i : ℕ)
    → is_primary_address local_addr ≡ false
    → local_addr < 256
    → let m = new now local_addr peers_count in
      (length m.peers ≡ 1)
      × (peer_to_address_field m i ≡ some (without_cr local_addr))
      × (address_field_to_peer m local_addr ≡ 0)
      × (address_field_to_peer m (without_cr local_addr) ≡ 0)
      × (address_field_to_peer m 0x01 ≡ 0)
unfolding new peer_to_address_field address_field_to_peer
secondary-address_field_to_peer now local_addr peers_count i secondary lt =
    rw (secondary, new, peer_to_address_field, address_field_to_peer)
      (
        refl,
        refl,
        rw ((==_iff (without_cr local_addr) (without_cr local_addr)).1 refl) refl,
        rw
            (
              idempotent local_addr lt,
              (==_iff (without_cr local_addr) (without_cr local_addr)).1 refl,
            )
            refl,
        by_primary (1 == without_cr local_addr),
      )

-- `switch_to_next_peer` called `n` times.
abbrev pub turns : ℕ → PeerManager → PeerManager
turns zero m = m
turns (suc n) m = (switch_to_next_peer (turns n m)).0

next_mod : (n len : ℕ) → 0 < len → len ≤ 256 → u8 ((n % len + 1) % len) ≡ suc n % len
next_mod n len h small =
    ap u8 (mod-add-mod n len 1 ∙ ap (λ x. x % len) {x = n + 1} {y = suc n} (omega arith))
    ∙ u8-lt (suc n % len) (omega (arith, mod-lt (suc n) h))

switch-mod :
    (n : ℕ) (m : PeerManager)
    → 0 < length m.peers
    → length m.peers ≤ 256
    → (switch_to_next_peer (record m { next_peer = n % length m.peers })).1 ≡ suc n % length m.peers
unfolding switch_to_next_peer
switch-mod n m h small = next_mod n (length m.peers) h small

turns-next_peer :
    (n : ℕ) (m : PeerManager)
    → 0 < length m.peers
    → length m.peers ≤ 256
    → m.next_peer ≡ 0
    → turns n m ≡ record m { next_peer = n % length m.peers }
unfolding switch_to_next_peer
turns-next_peer zero m h small start =
    ap (λ k. record m { next_peer = k }) {x = m.next_peer} {y = 0 % length m.peers}
      (start ∙ sym (mod-eq_of_lt h))
turns-next_peer (suc n) m h small start =
    ap (λ x. (switch_to_next_peer x).0) (turns-next_peer n m h small start)
    ∙ ap (λ k. record m { next_peer = k }) (next_mod n (length m.peers) h small)

-- The peers have their turns in a circle: with at most 256 peers, and the first one's turn at the start, after `n` switches it is the
-- turn of the peer number `n` modulo the number of peers, which is the number returned, and the peers stay as they are.
switch_to_next_peer-turns :
    (n : ℕ) (m : PeerManager)
    → 0 < length m.peers
    → length m.peers ≤ 256
    → m.next_peer ≡ 0
    → (turns n m ≡ record m { next_peer = n % length m.peers })
      × ((switch_to_next_peer (turns n m)).1 ≡ suc n % length m.peers)
switch_to_next_peer-turns n m some_peer small start =
    let eq = turns-next_peer n m some_peer small start in
    (eq, ap (λ x. (switch_to_next_peer x).1) eq ∙ switch-mod n m some_peer small)
