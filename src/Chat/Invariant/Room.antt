-- ===== src/Chat/Invariant/Room.antt =====
-- The invariant under the changes that the handlers of chat rooms make.
use inp.Common.{
  ℕ, ◌≤◌, ◌≡◌, refl, ◌⊎◌, inl, inr, true, false, List, [], ◌∷◌, ◌++◌, none, some, contains,
  contains-append, contains-erase_first, contains-erase_first_ne, erase_first,
  erase_first-IsDistinct, append-IsDistinct, IsDistinct, arith, ◌==◌, if◌then◌else◌, Bool-cases,
}
use inp.Common.Maps.{Map, lookup, insert, erase, lookup-insert, lookup-erase}
use inp.Chat.Filter.{filter_words}
use inp.Chat.State.{ChatRoom, Server, set_room, touch_room, room_at}
use inp.Chat.Room.{join_room, erase_all, drop_room, leave_room}
use inp.Chat.Invariant.{Inv}

-- A socket with a user and without a room is added to the end of a room's list.
pub join_room-Inv :
    (s : Server) (fd n p : ℕ) (room : ChatRoom)
    → Inv s
    → lookup fd s.clients ≡ some p
    → lookup fd s.client_in_chat_room ≡ none
    → (1 ≤ n) × (n ≤ 100)
    → IsDistinct room.clients × (room.filter_list ≡ filter_words)
    → ((old : ChatRoom) → lookup n s.chat_rooms ≡ some old → old.clients ≡ room.clients)
    → ((g : ℕ) → contains g room.clients ≡ true → lookup g s.client_in_chat_room ≡ some n)
    → Inv (join_room s fd n room)
unfolding join_room
join_room-Inv s fd n p room v here outside bounds tidy old back = record {
  allocated = v.allocated;
  named = v.named;
  session = v.session;
  single = v.single;
  owned = v.owned;
  seated = λ g m h. seat g m (Bool-cases (fd == g)) h;
  listed = λ g m r l c. ground (
    arith,
    lookup-insert n m grown s.chat_rooms,
    lookup-insert fd g n s.client_in_chat_room,
    contains-append g room.clients (fd ∷ []),
    back g,
    v.listed g m r,
  );
  tidy = λ m r l. ground (
    arith,
    lookup-insert n m grown s.chat_rooms,
    v.tidy m r,
    append-IsDistinct fd room.clients tidy.0,
    back fd,
  );
}
  where
    grown : ChatRoom
    grown = record room { clients = room.clients ++ fd ∷ [] }

    seat :
        (g m : ℕ)
        → ((fd == g) ≡ true) ⊎ ((fd == g) ≡ false)
        → lookup g (insert fd n s.client_in_chat_room) ≡ some m
        → (q : ℕ) × (r : ChatRoom) × (lookup g s.clients ≡ some q)
          × (lookup m (insert n grown s.chat_rooms) ≡ some r)
          × (contains g r.clients ≡ true)
    seat g m (inl e) h = (
      p,
      grown,
      ground arith,
      ground
          (arith, lookup-insert n m grown s.chat_rooms, lookup-insert fd g n s.client_in_chat_room),
      ground (arith, contains-append g room.clients (fd ∷ [])),
    )
    seat g m (inr e) h =
        let (q, r, l, at, c) =
          v.seated g m (ground (arith, lookup-insert fd g n s.client_in_chat_room)) in
        elim (Bool-cases (n == m)) [
          | inl same ↦ (
            q,
            grown,
            l,
            ground (arith, lookup-insert n m grown s.chat_rooms),
            ground (arith, contains-append g room.clients (fd ∷ []), old r),
          )
          | inr other ↦ (q, r, l, ground (arith, lookup-insert n m grown s.chat_rooms), c)
        ]

-- A socket is taken off its room's list.
pub leave_room-Inv :
    (s : Server) (fd n : ℕ) (room : ChatRoom)
    → Inv s
    → lookup fd s.client_in_chat_room ≡ some n
    → lookup n s.chat_rooms ≡ some room
    → Inv (leave_room s fd n room)
unfolding leave_room
leave_room-Inv s fd n room v inside here = record {
  allocated = v.allocated;
  named = v.named;
  session = v.session;
  single = v.single;
  owned = v.owned;
  seated = λ g m h.
      let (q, r, l, at, c) =
        v.seated g m (ground (arith, lookup-erase fd g s.client_in_chat_room)) in
      elim (Bool-cases (n == m)) [
        | inl same ↦ (
          q,
          left,
          l,
          ground (arith, lookup-insert n m left s.chat_rooms),
          ground (
            arith,
            lookup-erase fd g s.client_in_chat_room,
            contains-erase_first_ne g fd room.clients,
          ),
        )
        | inr other ↦ (q, r, l, ground (arith, lookup-insert n m left s.chat_rooms), c)
      ];
  listed = λ g m r l c. ground (
    arith,
    lookup-insert n m left s.chat_rooms,
    lookup-erase fd g s.client_in_chat_room,
    contains-erase_first fd room.clients,
    contains-erase_first_ne g fd room.clients,
    v.tidy n room here,
    v.listed g n room here,
    v.listed g m r,
  );
  tidy = λ m r l. ground (
    arith,
    lookup-insert n m left s.chat_rooms,
    v.tidy m r,
    v.tidy n room here,
    erase_first-IsDistinct fd room.clients,
  );
}
  where
    left : ChatRoom
    left = record room { clients = erase_first fd room.clients }

pub lookup-erase_all :
    (g : ℕ) (cs : List ℕ) (m : Map ℕ)
    → lookup g (erase_all cs m) ≡ (if contains g cs then none else lookup g m)
unfolding erase_all
lookup-erase_all g [] m = refl
lookup-erase_all g (c ∷ cs) m =
    ground (arith, lookup-erase_all g cs (erase c m), lookup-erase c g m)

-- A room is closed, and all its sockets are out.
pub drop_room-Inv :
    (s : Server) (n : ℕ) (room : ChatRoom)
    → Inv s
    → lookup n s.chat_rooms ≡ some room
    → Inv (drop_room s n room)
unfolding drop_room
drop_room-Inv s n room v here = record {
  allocated = v.allocated;
  named = v.named;
  session = v.session;
  single = v.single;
  owned = v.owned;
  seated = λ g m h.
      let (q, r, l, at, c) =
        v.seated g m (ground (arith, lookup-erase_all g room.clients s.client_in_chat_room)) in
      (
        q,
        r,
        l,
        ground (
          arith,
          lookup-erase n m s.chat_rooms,
          lookup-erase_all g room.clients s.client_in_chat_room,
        ),
        c,
      );
  listed = λ g m r l c. ground (
    arith,
    lookup-erase n m s.chat_rooms,
    lookup-erase_all g room.clients s.client_in_chat_room,
    v.listed g m r,
    v.listed g n room here,
  );
  tidy = λ m r l. ground (arith, lookup-erase n m s.chat_rooms, v.tidy m r);
}

-- A room is changed in other things than its sockets and its filtered words.
pub edit_room-Inv :
    (s : Server) (n : ℕ) (room room' : ChatRoom)
    → Inv s
    → lookup n s.chat_rooms ≡ some room
    → room'.clients ≡ room.clients
    → room'.filter_list ≡ room.filter_list
    → Inv (set_room s n room')
unfolding set_room
edit_room-Inv s n room room' v here cs fs = record {
  allocated = v.allocated;
  named = v.named;
  session = v.session;
  single = v.single;
  owned = v.owned;
  seated = λ g m h.
      let (q, r, l, at, c) = v.seated g m h in
      elim (Bool-cases (n == m)) [
        | inl same ↦
            (q, room', l, ground (arith, lookup-insert n m room' s.chat_rooms), ground arith)
        | inr other ↦ (q, r, l, ground (arith, lookup-insert n m room' s.chat_rooms), c)
      ];
  listed = λ g m r l c.
      ground (arith, lookup-insert n m room' s.chat_rooms, v.listed g m r, v.listed g n room here);
  tidy = λ m r l. elim (Bool-cases (n == m)) [
    | inl same ↦
        let e : r ≡ room' = ground (arith, lookup-insert n m room' s.chat_rooms) in
        let at : n ≡ m = ground arith in let old = v.tidy n room here in rw (e, cs, fs, ← at) old
    | inr other ↦ v.tidy m r (ground (arith, lookup-insert n m room' s.chat_rooms))
  ];
}

pub room_at-some :
    (s : Server) (n : ℕ) (room : ChatRoom) → lookup n s.chat_rooms ≡ some room → room_at s n ≡ room
unfolding room_at
room_at-some s n room h = rw h

-- Where the room exists, `chatRooms[n]` makes none.
pub touch_room-some :
    (s : Server) (n : ℕ) (room : ChatRoom) → lookup n s.chat_rooms ≡ some room → touch_room s n ≡ s
unfolding touch_room
touch_room-some s n room h = rw h
