-- ===== src/Transfer/Delivered.antt =====
-- What a run of lab6/src/server.cpp leaves on the disk.
use inp.Common.{
  ℕ, ◌<◌, ◌≡◌, refl, sym, ◌∙◌, Bool, true, false, List, [], some, none, arith, get_or,
  length-replicate, ◌⊎◌, ◌↔◌, inl, inr, All,
}
use inp.Common.Bytes.{Bytes}
use inp.Common.Maps.{lookup}
use inp.Transfer.{Store, initial_store}
use inp.Transfer.Server.{Row, row_of}
use inp.Transfer.Files.{total_of, all-save_flg, RowOk, Has}
use inp.Transfer.Filling.{get_or-replicate, not-Fresh}
use inp.Transfer.Complete.{IsHonest}
use inp.Transfer.Loop.{Place, outer, finished, Received, send_acks, run}
use inp.Transfer.Arrival.{Running, Arrives, send_acks-finished, run-Running, run-keeps}

abbrev no_bits : List Bool
no_bits = []

abbrev no_pieces : List Bytes
no_pieces = []

pub initial-row :
    (f : ℕ)
    → f < 1000
    → row_of f initial_store
      ≡ record { expanded = false; saved = false; stored = []; datas = []; disk = none }
unfolding initial_store lookup
initial-row f hf = λ i. record {
  expanded = get_or-replicate 1000 f false i;
  saved = get_or-replicate 1001 f false i;
  stored = get_or-replicate 1000 f no_bits i;
  datas = get_or-replicate 1000 f no_pieces i;
  disk = none;
}

pub initial-Running : (files : ℕ → Bytes) → Running files outer initial_store
unfolding initial_store lookup
initial-Running files = record {
  sound = record {
    sized = record {
      stored = length-replicate 1000 no_bits;
      datas = length-replicate 1000 no_pieces;
      expanded = length-replicate 1000 false;
      saved = length-replicate 1001 false;
    };
    rows = λ f hf. inl (record {
      expanded = get_or-replicate 1000 f false;
      saved = get_or-replicate 1001 f false;
      stored = get_or-replicate 1000 f no_bits;
      datas = get_or-replicate 1000 f no_pieces;
      disk = refl;
    });
    last = get_or-replicate 1001 1000 false;
  };
  window = record { bound = omega arith; behind = λ f h. absurd (omega arith) };
  over = λ h. absurd (ground arith);
}

-- A file of which the server has all the packets.
pub all-disk :
    (file : Bytes) (r : Row)
    → RowOk file r
    → ((i : ℕ) → i < total_of file → Has i r)
    → r.disk ≡ some file
all-disk file r (inl fresh) has = absurd (not-Fresh r fresh 0 (has 0 (omega arith)))
all-disk file r (inr (inr done)) has = done.disk
all-disk file r (inr (inl (part, e))) has =
    let full = all-save_flg r.stored λ i p. elim (has i (omega (arith, part.stored))) [
      | inl saved ↦ absurd (ground (arith, part.saved))
      | inr bit ↦ bit
    ] in
    absurd (ground arith)

none-some : {x : Bytes} → none ≡ some x → ⊥
none-some h = ground arith

abbrev pub after : (ℕ → Bool) → List Received → Place × Store
after beyond inputs = run beyond inputs (outer, initial_store)

module _ (files : ℕ → Bytes) (beyond : ℕ → Bool) (inputs : List Received)
    (honest : All (IsHonest files) inputs) (f : ℕ) (hf : f < 1000) where
  pub running : Running files (after beyond inputs).0 (after beyond inputs).1
  running = run-Running files beyond inputs outer initial_store honest (initial-Running files)

  -- Whatever results `recvfrom` gives the server from its start, in any order, with losses, copies and
  -- wrong packets, as long as each packet names one of the thousand files and is a piece of that file
  -- as the client cuts it whenever its checksum fits, a file is on the disk exactly when `file_saved`
  -- says so, and then it is the client's file.
  pub after-saved :
      ((get_or (after beyond inputs).1.file_saved f false ≡ true)
        × (lookup f (after beyond inputs).1.files ≡ some (files f)))
      ⊎ ((get_or (after beyond inputs).1.file_saved f false ≡ false)
          × (lookup f (after beyond inputs).1.files ≡ none))
  after-saved = elim (running.sound.rows f hf) [
    | inl fresh ↦ inr (fresh.saved, fresh.disk)
    | inr (inl (part, e)) ↦ inr (part.saved, part.disk)
    | inr (inr done) ↦ inl (done.saved, done.disk)
  ]

  -- When the server gets every packet of a file, each at least once and with a checksum that fits,
  -- among any packets that name one of the thousand files and are pieces of it where their checksum
  -- fits, the file is on the disk, and it is the client's file.
  pub after-Arrives :
      ((i : ℕ) → i < total_of (files f) → Arrives f i inputs)
      → lookup f (after beyond inputs).1.files ≡ some (files f)
  after-Arrives come =
      let has = (λ (i : ℕ) (p : i < total_of (files f)).
        run-keeps files beyond inputs outer initial_store honest (initial-Running files) f i hf
          (inr (come i p))) in
      all-disk (files f) (row_of f (after beyond inputs).1) (running.sound.rows f hf) has

-- After any packets that name one of the thousand files and are pieces of it where their checksum
-- fits, when the server goes on to acknowledge, it goes into the loop that sends FINISH exactly when
-- all thousand files of the client are on the disk.
pub send_acks-finish :
    (files : ℕ → Bytes) (beyond : ℕ → Bool) (inputs : List Received)
    → All (IsHonest files) inputs
    → ((send_acks beyond (after beyond inputs).1).0 ≡ finished)
      ↔ ((f : ℕ) → f < 1000 → lookup f (after beyond inputs).1.files ≡ some (files f))
send_acks-finish files beyond inputs honest =
    let r = run-Running files beyond inputs outer initial_store honest (initial-Running files) in
    let (there, back) = send_acks-finished files beyond (after beyond inputs).1 r.sound r.window in
    (
      λ h f hf. elim (after-saved files beyond inputs honest f hf) [
        | inl (_, disk) ↦ disk
        | inr (unsaved, _) ↦ absurd (ground (arith, there h f hf))
      ],
      λ each. back λ f hf. elim (after-saved files beyond inputs honest f hf) [
        | inl (saved, _) ↦ saved
        | inr (_, none_there) ↦ absurd (none-some (sym none_there ∙ each f hf))
      ],
    )
