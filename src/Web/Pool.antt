-- ===== src/Web/Pool.antt =====
-- homework1/demo/server.c: the array `client_infos` that `main` grows, and the threads that read from it.
use inp.Common.{
  ℕ, zero, suc, ◌+◌, ◌*◌, ◌≤◌, ◌<◌, ◌≡◌, ◌⊎◌, inl, inr, refl, Bool, true, false, List, [], ◌∷◌,
  ◌++◌, Option, none, some, leb, ◌==◌, if◌then◌else◌, length, get_elem?, length-append, All,
  All-map, arith, Bool-cases,
}

-- `(void *)&client_info->socket`: a place in the memory block that the array had then, and the socket
-- that was put there.
pub record Argument : Type 0 where
  pub block : ℕ
  pub place : ℕ
  pub given : ℕ

-- The three globals, the block that `client_infos` points to, and the threads started.
pub record Pool : Type 0 where
  pub block : ℕ
  pub client_infos : List ℕ
  pub client_capacity : ℕ
  pub threads : List Argument

abbrev pub start_pool : Pool
start_pool = record { block = 0; client_infos = []; client_capacity = 10; threads = [] }

-- `realloc` with the capacity doubled; it may move the array to another block.
unfoldable pub grow : Bool → Pool → Pool
grow moves pool = record {
  block = if moves then suc pool.block else pool.block;
  client_infos = pool.client_infos;
  client_capacity = pool.client_capacity * 2;
  threads = pool.threads;
}

-- The new element and the thread that is given its address.
unfoldable pub add_client : ℕ → Pool → Pool
add_client client_fd pool = record {
  block = pool.block;
  client_infos = pool.client_infos ++ client_fd ∷ [];
  client_capacity = pool.client_capacity;
  threads =
      record { block = pool.block; place = length pool.client_infos; given = client_fd }
      ∷ pool.threads;
}

-- A turn of the loop of `main` on what `accept` gives; none is -1.
unfoldable pub accept_client : Bool → Option ℕ → Pool → Pool
accept_client moves none pool = pool
accept_client moves (some client_fd) pool =
    add_client client_fd
      (if leb pool.client_capacity (length pool.client_infos) then grow moves pool else pool)

-- `*(int *)arg` in `handle_client`: none if the block was freed.
unfoldable pub read_argument : Pool → Argument → Option ℕ
read_argument pool a = if a.block == pool.block then get_elem? pool.client_infos a.place else none

unfoldable pub accept_all : List (Bool × Option ℕ) → Pool → Pool
accept_all [] pool = pool
accept_all (x ∷ xs) pool = accept_all xs (accept_client x.0 x.1 pool)

-- The array has place for the clients, and is at most twice as long as they need.
unfoldable pub IsSized : Pool → Type 0
IsSized pool =
    (length pool.client_infos ≤ pool.client_capacity)
    × (10 ≤ pool.client_capacity)
    × (pool.client_capacity ≤ 10 + 2 * length pool.client_infos)

-- Every thread's argument stands in an older block or reads the thread's own socket.
unfoldable pub ReadsOwn : Pool → Argument → Type 0
ReadsOwn pool a =
    (a.block < pool.block)
    ⊎ ((a.block ≡ pool.block) × (get_elem? pool.client_infos a.place ≡ some a.given))

unfoldable pub IsPool : Pool → Type 0
IsPool pool = IsSized pool × All (ReadsOwn pool) pool.threads

accept_client-IsSized :
    (moves : Bool) (client : Option ℕ) (pool : Pool)
    → IsSized pool
    → IsSized (accept_client moves client pool)
unfolding accept_client grow add_client IsSized
accept_client-IsSized moves none pool h = h
accept_client-IsSized moves (some fd) pool h =
    ground (arith, h, length-append pool.client_infos (fd ∷ []))

get_elem?-append :
    (xs ys : List ℕ) (i v : ℕ) → get_elem? xs i ≡ some v → get_elem? (xs ++ ys) i ≡ some v
get_elem?-append [] ys i v h = ground (arith, h)
get_elem?-append (x ∷ xs) ys zero v h = h
get_elem?-append (x ∷ xs) ys (suc i) v h = get_elem?-append xs ys i v h

get_elem?-last : (xs : List ℕ) (v : ℕ) → get_elem? (xs ++ v ∷ []) (length xs) ≡ some v
get_elem?-last [] v = refl
get_elem?-last (x ∷ xs) v = get_elem?-last xs v

grow-ReadsOwn :
    (moves : Bool) (pool : Pool) (a : Argument) → ReadsOwn pool a → ReadsOwn (grow moves pool) a
unfolding grow ReadsOwn
grow-ReadsOwn true pool a (inl old) = inl (omega arith)
grow-ReadsOwn true pool a (inr own) = inl (omega (arith, own.0))
grow-ReadsOwn false pool a h = h

grow-threads :
    (moves : Bool) (pool : Pool)
    → All (ReadsOwn pool) pool.threads
    → All (ReadsOwn (grow moves pool)) (grow moves pool).threads
unfolding grow
grow-threads moves pool h =
    All-map (ReadsOwn pool) (ReadsOwn (grow moves pool)) pool.threads
      (λ a. grow-ReadsOwn moves pool a) h

add_client-ReadsOwn :
    (fd : ℕ) (pool : Pool) (a : Argument) → ReadsOwn pool a → ReadsOwn (add_client fd pool) a
unfolding add_client ReadsOwn
add_client-ReadsOwn fd pool a (inl old) = inl old
add_client-ReadsOwn fd pool a (inr own) =
    inr (own.0, get_elem?-append pool.client_infos (fd ∷ []) a.place a.given own.1)

add_client-threads :
    (fd : ℕ) (pool : Pool)
    → All (ReadsOwn pool) pool.threads
    → All (ReadsOwn (add_client fd pool)) (add_client fd pool).threads
unfolding add_client ReadsOwn
add_client-threads fd pool h = (
  inr (refl, get_elem?-last pool.client_infos fd),
  All-map (ReadsOwn pool) (ReadsOwn (add_client fd pool)) pool.threads
      (λ a. add_client-ReadsOwn fd pool a) h,
)

accept_client-threads :
    (moves : Bool) (client : Option ℕ) (pool : Pool)
    → All (ReadsOwn pool) pool.threads
    → All (ReadsOwn (accept_client moves client pool)) (accept_client moves client pool).threads
unfolding accept_client
accept_client-threads moves none pool h = h
accept_client-threads moves (some fd) pool h =
    elim (Bool-cases (leb pool.client_capacity (length pool.client_infos))) [
      | inl full ↦ rw full (add_client-threads fd (grow moves pool) (grow-threads moves pool h))
      | inr room ↦ rw room (add_client-threads fd pool h)
    ]

accept_client-IsPool :
    (moves : Bool) (client : Option ℕ) (pool : Pool)
    → IsPool pool
    → IsPool (accept_client moves client pool)
unfolding IsPool
accept_client-IsPool moves client pool h =
    (accept_client-IsSized moves client pool h.0, accept_client-threads moves client pool h.1)

-- Through any run of the loop the array has place for the clients that it counts, and takes at most
-- ten places more than twice their number; and every thread's argument either reads the socket that
-- the thread was started for, or stands in a block that `realloc` has freed.
pub accept_all-IsPool :
    (clients : List (Bool × Option ℕ)) (pool : Pool)
    → IsPool pool
    → IsPool (accept_all clients pool)
unfolding accept_all
accept_all-IsPool [] pool h = h
accept_all-IsPool ((moves, client) ∷ clients) pool h =
    accept_all-IsPool clients (accept_client moves client pool)
      (accept_client-IsPool moves client pool h)
