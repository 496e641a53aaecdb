-- ===== src/Tunnel/Buffer.antt =====
-- The one buffer of lab8/lab_tun/dist/tunvpn.pub.cpp, which keeps the end of longer packets.
use inp.Common.{
  ℕ, zero, suc, ◌≤◌, ◌<◌, ◌≡◌, refl, ap, [], ◌∷◌, ◌++◌, arith, get_or, take, drop, length,
}
use inp.Common.Bytes.{Bytes}
use inp.Tunnel.{receive, received, daddr, word_at, buf_size}

take_all : (n : ℕ) (xs : Bytes) → length xs ≤ n → take n xs ≡ xs
take_all zero [] h = refl
take_all zero (x ∷ xs) h = absurd (omega arith)
take_all (suc n) [] h = refl
take_all (suc n) (x ∷ xs) h = ap (λ t. x ∷ t) (take_all n xs (omega arith))

take_front : (xs ys : Bytes) → take (length xs) (xs ++ ys) ≡ xs
take_front [] ys = refl
take_front (x ∷ xs) ys = ap (λ t. x ∷ t) (take_front xs ys)

get_or_front : (xs ys : Bytes) (i : ℕ) → i < length xs → get_or (xs ++ ys) i 0 ≡ get_or xs i 0
get_or_front [] ys i h = absurd (omega arith)
get_or_front (x ∷ xs) ys zero h = refl
get_or_front (x ∷ xs) ys (suc i) h = get_or_front xs ys i (omega arith)

past_end : (xs : Bytes) (i : ℕ) → length xs ≤ i → get_or (xs ++ []) i 0 ≡ 0
past_end [] i h = refl
past_end (x ∷ xs) zero h = absurd (omega arith)
past_end (x ∷ xs) (suc i) h = past_end xs i (omega arith)

get_or_back :
    (xs ys : Bytes) (i : ℕ) → length xs ≤ i → get_or (xs ++ drop (length xs) ys) i 0 ≡ get_or ys i 0
get_or_back [] ys i h = refl
get_or_back (x ∷ xs) [] zero h = absurd (omega arith)
get_or_back (x ∷ xs) (y ∷ ys) zero h = absurd (omega arith)
get_or_back (x ∷ xs) (y ∷ ys) (suc i) h = get_or_back xs ys i (omega arith)
get_or_back (x ∷ xs) [] (suc i) h = past_end xs i (omega arith)

-- A packet that fits.
pub received_all : (packet : Bytes) → length packet ≤ buf_size → received packet ≡ length packet
received_all packet h = ap length (take_all buf_size packet h)

pub take-receive :
    (packet buffer : Bytes)
    → length packet ≤ buf_size
    → take (received packet) (receive packet buffer) ≡ packet
unfolding receive
take-receive packet buffer h =
    rw (take_all buf_size packet h) (take_front packet (drop (length packet) buffer))

pub daddr-receive :
    (packet buffer : Bytes)
    → length packet ≤ buf_size
    → 20 ≤ length packet
    → daddr (receive packet buffer) ≡ daddr packet
unfolding receive daddr
daddr-receive packet buffer h long = ground (
  arith,
  take_all buf_size packet h,
  get_or_front packet (drop (length packet) buffer) 16 (omega arith),
  get_or_front packet (drop (length packet) buffer) 17 (omega arith),
  get_or_front packet (drop (length packet) buffer) 18 (omega arith),
  get_or_front packet (drop (length packet) buffer) 19 (omega arith),
)

pub daddr-receive_short :
    (packet buffer : Bytes) → length packet ≤ 16 → daddr (receive packet buffer) ≡ daddr buffer
unfolding receive daddr
daddr-receive_short packet buffer h = ground (
  arith,
  take_all buf_size packet (omega arith),
  get_or_back packet buffer 16 (omega arith),
  get_or_back packet buffer 17 (omega arith),
  get_or_back packet buffer 18 (omega arith),
  get_or_back packet buffer 19 (omega arith),
)

pub word_at-receive :
    (packet buffer : Bytes)
    → length packet ≡ 4
    → word_at 0 (receive packet buffer) ≡ word_at 0 packet
unfolding receive
word_at-receive packet buffer h = ground (
  arith,
  take_all buf_size packet (omega arith),
  get_or_front packet (drop (length packet) buffer) 0 (omega arith),
  get_or_front packet (drop (length packet) buffer) 1 (omega arith),
  get_or_front packet (drop (length packet) buffer) 2 (omega arith),
  get_or_front packet (drop (length packet) buffer) 3 (omega arith),
)
