-- ===== src/Tunnel/Address.antt =====
-- The virtual addresses of lab8/lab_tun/dist/tunvpn.pub.cpp.
use inp.Common.{ℕ, ◌+◌, ◌/◌, ◌%◌, ◌^◌, ◌<◌, ◌≡◌, ◌≢◌, arith}
use inp.Tunnel.{htonl, word_at, bytes_of, my_addr, addr_base}

pub htonl_lt : (n : ℕ) → htonl n < 2 ^ 32
unfolding htonl
htonl_lt n = omega arith

-- `htonl` loses nothing of a `uint32_t`.
pub htonl_cancel : (a b : ℕ) → a < 2 ^ 32 → b < 2 ^ 32 → htonl a ≡ htonl b → a ≡ b
unfolding htonl
htonl_cancel a b p q e =
    let e₀ : a % 256 ≡ b % 256 = omega arith in
    let e₁ : a / 256 % 256 ≡ b / 256 % 256 = omega arith in
    let e₂ : a / 2 ^ 16 % 256 ≡ b / 2 ^ 16 % 256 = omega arith in
    let e₃ : a / 2 ^ 24 % 256 ≡ b / 2 ^ 24 % 256 = omega arith in omega arith

pub word_at-bytes_of : (n : ℕ) → n < 2 ^ 32 → word_at 0 (bytes_of n) ≡ n
word_at-bytes_of n h = omega arith

-- The address of the client number `j`, from 0.
abbrev pub ip_of : ℕ → ℕ
ip_of j = htonl ((addr_base + j) % 2 ^ 32)

pub ip_of_cancel : (i j : ℕ) → i < 2 ^ 31 → j < 2 ^ 31 → ip_of i ≡ ip_of j → i ≡ j
ip_of_cancel i j p q e =
    let k =
      htonl_cancel ((addr_base + i) % 2 ^ 32) ((addr_base + j) % 2 ^ 32) (omega arith) (omega arith)
        e in
    omega arith

pub ip_of-my_addr : (j : ℕ) → j < 2 ^ 31 → j ≢ 244 → ip_of j ≢ htonl my_addr
ip_of-my_addr j p h e =
    let k = htonl_cancel ((addr_base + j) % 2 ^ 32) my_addr (omega arith) (omega arith) e in
    omega arith
