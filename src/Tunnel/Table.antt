-- ===== src/Tunnel/Table.antt =====
-- The address table of the server of lab8/lab_tun/dist/tunvpn.pub.cpp over a run: each request gets
-- the next address, and the table leads from the address to who asked.
use inp.Common.{
  ℕ, zero, suc, ◌+◌, ◌^◌, ◌<◌, ◌≡◌, ◌≢◌, refl, ap, sym, ◌∙◌, List, [], ◌∷◌, ◌++◌, some, arith, ◌==◌,
  get_elem?, length, length-append, Bool-cases, ◌⊎◌, inl, inr,
}
use inp.Common.Maps.{lookup, lookup-insert}
use inp.Tunnel.{Sockaddr, Server, next_ip, assign}
use inp.Tunnel.Address.{ip_of, ip_of_cancel}

-- The table after requests of `askers`, the first first.
pub record Serves (askers : List Sockaddr) (s : Server) : Type 0 where
  pub num : s.client_num ≡ length askers
  pub each :
      (j : ℕ) (a : Sockaddr) → get_elem? askers j ≡ some a → lookup (ip_of j) s.client_addr ≡ some a
  pub only :
      (k : ℕ) (a : Sockaddr)
      → lookup k s.client_addr ≡ some a
      → (j : ℕ) × (j < length askers) × (k ≡ ip_of j)

get_elem?-end :
    (xs : List Sockaddr) (x y : Sockaddr) (j : ℕ)
    → get_elem? (xs ++ x ∷ []) j ≡ some y
    → ((j ≡ length xs) × (x ≡ y)) ⊎ ((j < length xs) × (get_elem? xs j ≡ some y))
get_elem?-end [] x y zero h = inl (refl, ground arith)
get_elem?-end [] x y (suc j) h = absurd (ground arith)
get_elem?-end (z ∷ xs) x y zero h = inr (omega arith, h)
get_elem?-end (z ∷ xs) x y (suc j) h = elim (get_elem?-end xs x y j h) [
  | inl (e, same) ↦ inl (omega arith, same)
  | inr (lt, same) ↦ inr (omega arith, same)
]

pub assign-Serves :
    (askers : List Sockaddr) (client : Sockaddr) (s : Server)
    → length askers + 1 < 2 ^ 31
    → Serves askers s
    → Serves (askers ++ client ∷ []) (assign client s).0
unfolding assign next_ip
assign-Serves askers client s small v =
    let n = length askers in
    let ip = ip_of s.client_num in
    let more = length-append askers (client ∷ []) in
    let read = (λ (k : ℕ). lookup-insert ip k client s.client_addr) in
    record {
      num = omega (arith, v.num);
      each = λ j a h. elim (get_elem?-end askers client a j h) [
        | inl (e, same) ↦
            let k : s.client_num ≡ j = v.num ∙ sym e in
            let hit : ip ≡ ip_of j = ap ip_of k in ground (arith, read (ip_of j))
        | inr (lt, old) ↦
            let miss : ip ≢ ip_of j = λ e. absurd (
              omega (
                arith,
                v.num,
                ip_of_cancel s.client_num j (omega (arith, v.num)) (omega arith) e,
              )) in
            ground (arith, read (ip_of j), v.each j a old)
      ];
      only = λ k a h. elim (Bool-cases (ip == k)) [
        | inl e ↦ let hit : ip ≡ k = ground arith in (s.client_num, omega (arith, v.num), sym hit)
        | inr e ↦ let (j, lt, same) = v.only k a (ground (arith, read k)) in (j, omega arith, same)
      ];
    }
