-- ===== src/Transfer/Arrival.antt =====
-- The server of lab6/src/server.cpp over a whole run: what it writes are the client's files, and it
-- writes each one that has come.
use inp.Common.{
  ℕ, ◌<◌, ◌≡◌, refl, sym, subst, Bool, true, false, List, [], ◌∷◌, arith, ◌==◌, get_or, Bool-cases,
  ◌⊎◌, ◌↔◌, inl, inr, All,
}
use inp.Common.Bytes.{Bytes}
use inp.Transfer.{Packet, packet_crc, Store, expand, store_packet, save, receive}
use inp.Transfer.Server.{row_of}
use inp.Transfer.Files.{Has}
use inp.Transfer.Filling.{Honest}
use inp.Transfer.Complete.{Sound, IsHonest, receive-Sound, receive-Has, receive-saved, better}
use inp.Transfer.Window.{Window, set_window_lem}
use inp.Transfer.Loop.{
  Place, outer, inner, finished, Received, timed_out, no_bytes, got, send_acks, on_packet, serve,
  run,
}

-- The server is right, and has sent FINISH only with all files saved.
pub record Running (files : ℕ → Bytes) (place : Place) (s : Store) : Type 0 where
  pub sound : Sound files s
  pub window : Window s
  pub over : place ≡ finished → (f : ℕ) → f < 1000 → get_or s.file_saved f false ≡ true

-- The datagram is a packet of the file, with its number, and its checksum fits.
abbrev pub Brings : ℕ → ℕ → Received → Type 0
Brings f i timed_out = ⊥
Brings f i no_bytes = ⊥
Brings f i (got p) = (p.file_number ≡ f) × (p.packet_number ≡ i) × (p.checksum ≡ packet_crc p)

-- One of the datagrams is.
abbrev pub Arrives : ℕ → ℕ → List Received → Type 0
Arrives f i [] = ⊥
Arrives f i (received ∷ rest) = Brings f i received ⊎ Arrives f i rest

expand-start : (p : Packet) (s : Store) → (expand p s).start_file ≡ s.start_file
unfolding expand
expand-start p s = ground arith

store_packet-start : (p : Packet) (s : Store) → (store_packet p s).start_file ≡ s.start_file
unfolding store_packet
store_packet-start p s = ground arith

save-start : (f : ℕ) (s : Store) → (save f s).start_file ≡ s.start_file
unfolding save
save-start f s = refl

receive-start : (p : Packet) (s : Store) → (receive p s).1.start_file ≡ s.start_file
unfolding receive
receive-start p s = ground (
  arith,
  expand-start p s,
  store_packet-start p (expand p s),
  save-start p.file_number (store_packet p (expand p s)),
)

inner_not : inner ≡ finished → ⊥
inner_not h = ground arith

outer_not : outer ≡ finished → ⊥
outer_not h = ground arith

module _ (files : ℕ → Bytes) (beyond : ℕ → Bool) where
  module _ (s : Store) (ok : Sound files s) (w : Window s) where
    moved : (k : ℕ) → Sound files (record s { start_file = k; end_file = 1000 })
    moved k = record {
      sized = record {
        stored = ok.sized.stored;
        datas = ok.sized.datas;
        expanded = ok.sized.expanded;
        saved = ok.sized.saved;
      };
      rows = ok.rows;
      last = ok.last;
    }

    send_acks-Running : Running files (send_acks beyond s).0 (send_acks beyond s).1
    unfolding send_acks
    send_acks-Running =
        let (k, same, hk, free, all) = set_window_lem s ok.last w in
        elim (Bool-cases (k == 1000)) [
          | inl e ↦
              rw (same, e)
                (record {
                  sound = moved k;
                  window = record { bound = hk; behind = all };
                  over = λ _ f h. all f (ground arith);
                })
          | inr e ↦
              rw (same, e)
                (record {
                  sound = moved k;
                  window = record { bound = hk; behind = all };
                  over = λ h. absurd (outer_not h);
                })
        ]

    pub send_acks-finished :
        ((send_acks beyond s).0 ≡ finished)
        ↔ ((f : ℕ) → f < 1000 → get_or s.file_saved f false ≡ true)
    unfolding send_acks
    send_acks-finished =
        let (k, same, hk, free, all) = set_window_lem s ok.last w in
        elim (Bool-cases (k == 1000)) [
          | inl e ↦ rw (same, e) (λ _ f h. all f (ground arith), λ _. refl)
          | inr e ↦
              rw (same, e) (λ h. absurd (outer_not h), λ each. absurd (ground (arith, each k)))
        ]

    send_acks-rows : (f : ℕ) → row_of f (send_acks beyond s).1 ≡ row_of f s
    unfolding send_acks
    send_acks-rows f =
        let (k, same, hk, free, all) = set_window_lem s ok.last w in
        elim (Bool-cases (k == 1000)) [ inl e ↦ rw (same, e) refl | inr e ↦ rw (same, e) refl ]

  -- One datagram.
  pub record Steps (received : Received) (s : Store) (place : Place) (s' : Store) : Type 0 where
    pub running : Running files place s'
    pub keeps : (f i : ℕ) → Has i (row_of f s) → Has i (row_of f s')
    pub takes : (f i : ℕ) → f < 1000 → Brings f i received → Has i (row_of f s')

  received-Window :
      (p : Packet) (s : Store)
      → Sound files s
      → p.file_number < 1000
      → Honest (files p.file_number) p
      → Window s
      → Window (receive p s).1
  received-Window p s ok inside honest w = record {
    bound = rw (receive-start p s) w.bound;
    behind = λ f h.
        receive-saved files p s ok inside honest f (w.behind f (rw (receive-start p s) at h));
  }

  on_packet-Steps :
      (p : Packet) (s : Store)
      → Sound files s
      → Window s
      → IsHonest files (got p)
      → Steps (got p) s (on_packet beyond p s).0 (on_packet beyond p s).1
  unfolding on_packet
  on_packet-Steps p s ok w (inside, honest) =
      let ok' = receive-Sound files p s ok inside honest in
      let w' = received-Window p s ok inside honest w in
      let taken = (λ (f i : ℕ) (b : Brings f i (got p)).
        subst (λ k. Has k (row_of f (receive p s).1)) b.1
          (subst (λ k. Has p.packet_number (row_of k (receive p s).1)) b.0
            ((better files p s ok inside honest).takes b.2))) in
      elim (Bool-cases (receive p s).0) [
        | inl again ↦ rw again (record {
          running = record { sound = ok'; window = w'; over = λ h. absurd (inner_not h) };
          keeps = receive-Has files p s ok inside honest;
          takes = λ f i hf b. taken f i b;
        })
        | inr stop ↦ rw stop (record {
          running = send_acks-Running (receive p s).1 ok' w';
          keeps = λ f i h.
              subst (Has i) (sym (send_acks-rows (receive p s).1 ok' w' f))
                (receive-Has files p s ok inside honest f i h);
          takes = λ f i hf b.
              subst (Has i) (sym (send_acks-rows (receive p s).1 ok' w' f)) (taken f i b);
        })
      ]

  send-Steps :
      (received : Received) (s : Store)
      → ((f i : ℕ) → Brings f i received → ⊥)
      → Sound files s
      → Window s
      → Steps received s (send_acks beyond s).0 (send_acks beyond s).1
  send-Steps received s none_in ok w = record {
    running = send_acks-Running s ok w;
    keeps = λ f i h. subst (Has i) (sym (send_acks-rows s ok w f)) h;
    takes = λ f i hf b. absurd (none_in f i b);
  }

  pub serve-Steps :
      (received : Received) (place : Place) (s : Store)
      → IsHonest files received
      → Running files place s
      → Steps received s (serve beyond received (place, s)).0 (serve beyond received (place, s)).1
  unfolding serve
  serve-Steps received finished s h r = record {
    running = r;
    keeps = λ f i k. k;
    takes = λ f i hf b. inl (r.over refl f hf);
  }
  serve-Steps timed_out outer s h r = record {
    running = r;
    keeps = λ f i k. k;
    takes = λ f i hf b. absurd b;
  }
  serve-Steps no_bytes outer s h r = send-Steps no_bytes s (λ f i b. b) r.sound r.window
  serve-Steps (got p) outer s h r = on_packet-Steps p s r.sound r.window h
  serve-Steps timed_out inner s h r = send-Steps timed_out s (λ f i b. b) r.sound r.window
  serve-Steps no_bytes inner s h r = send-Steps no_bytes s (λ f i b. b) r.sound r.window
  serve-Steps (got p) inner s h r = on_packet-Steps p s r.sound r.window h

  -- A run.
  pub run-Running :
      (inputs : List Received) (place : Place) (s : Store)
      → All (IsHonest files) inputs
      → Running files place s
      → Running files (run beyond inputs (place, s)).0 (run beyond inputs (place, s)).1
  unfolding run
  run-Running [] place s h r = r
  run-Running (received ∷ rest) place s (h, hs) r =
      let step = serve-Steps received place s h r in
      run-Running rest (serve beyond received (place, s)).0 (serve beyond received (place, s)).1 hs
        step.running

  pub run-keeps :
      (inputs : List Received) (place : Place) (s : Store)
      → All (IsHonest files) inputs
      → Running files place s
      → (f i : ℕ) → f < 1000
      → Has i (row_of f s) ⊎ Arrives f i inputs
      → Has i (row_of f (run beyond inputs (place, s)).1)
  unfolding run
  run-keeps [] place s h r f i hf (inl k) = k
  run-keeps [] place s h r f i hf (inr k) = absurd k
  run-keeps (received ∷ rest) place s (h, hs) r f i hf k =
      let step = serve-Steps received place s h r in
      run-keeps rest (serve beyond received (place, s)).0 (serve beyond received (place, s)).1 hs
        step.running f i hf
        (elim k [
          | inl old ↦ inl (step.keeps f i old)
          | inr (inl now) ↦ inl (step.takes f i hf now)
          | inr (inr later) ↦ inr later
        ])
