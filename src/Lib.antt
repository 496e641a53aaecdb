-- ===== src/Lib.antt =====
-- Network programs of the course repository, modelled and verified.
--
-- homework2/ is a chat server: `handleCommand` of homework2/server.cpp takes a line of a client to a
-- handler of accounts, sessions or chat rooms, and the main loop of homework2/hw2_chat_server.cpp
-- accepts, reads and closes sockets.
--
-- Common/Text.antt: the routines of the C and C++ libraries that the programs call.
-- Chat/Filter.antt: the loops that mask filtered words (`setPinMessage`, `sendMessage`); each word
--   gets the message's length plus one as fuel, which is enough since a round masks at least one byte
--   that is no star.
-- Chat/State.antt: homework2/header.hpp and homework2/chatroom.cpp. A `User *` is a number, and
--   `heap` holds what it points to; a `std::map<int, T>` is an association list.
-- Chat/Account.antt, Chat/Room.antt, Chat/Message.antt: the handlers, each a function from the server
--   to its new state, its response and what it has sent; Chat/Dispatch.antt: `handleCommand`.
-- Chat/Loop.antt: a round of the main loop. What `accept` and `read` give is an argument.
-- Chat/Invariant.antt and its children, Chat/Delivery.antt, Chat/Sessions.antt, Chat/Listing.antt,
--   Chat/Crash.antt, Chat/Loop/Safe.antt and Chat/Loop/Stale.antt: the proofs.
--
-- A socket is a natural number, and so is a room number; a negative one is no room. An `int` that is
-- parsed keeps its range. Printing to the terminal and setting up the sockets are not modelled.
--
-- lab7/src/solver.cpp completes a board of queens that it gets from a server.
--
-- Queens.antt: `checkqueen`, `solveNQueen`, and the loops of `main` that split the board, mark it and
--   send its queens, for a board of any size `n` where the program has 30. The recursion is on the rows
--   and columns to go, so it needs no fuel. Queens/Board.antt, Queens/Check.antt, Queens/State.antt,
--   Queens/Sound.antt, Queens/Complete.antt and Queens/Solve.antt: the search; Queens/Start.antt,
--   Queens/Marks.antt and Queens/Begin.antt: the marks it starts from; Queens/Moves.antt: the moves.
--
-- lab6/src/ sends a thousand files over UDP that loses, repeats and damages packets.
--
-- Transfer.antt: lab6/src/header.hpp and the body of the inner loop of lab6/src/server.cpp on a packet;
--   Transfer/Loop.antt: both loops, as a step on each result of `recvfrom`; Transfer/Client.antt:
--   `send_file`, `init_send` and the reaction to an acknowledgement of lab6/src/client.cpp. A `Packet`
--   is what the variable holds after `recvfrom`, with all 1200 bytes of its data. What a vector or an
--   array holds out of its range is an argument, and a write there changes nothing in the model; the
--   theorems on packets exclude packets that name such a place. What stands in memory behind a packet,
--   which a wrong length makes the server read, is a part of the `Packet`.
-- Transfer/Crc.antt, Transfer/Damage.antt: the checksum. Transfer/Server.antt and Transfer/Rows.antt:
--   the vectors seen file by file. Transfer/Files.antt, Transfer/Filling.antt, Transfer/Complete.antt,
--   Transfer/Window.antt, Transfer/Arrival.antt, Transfer/Delivered.antt: a run of the server.
--   Transfer/Resend.antt, Transfer/Answer.antt: client and server together.
--
-- lab8/lab_tun/dist/tunvpn.pub.cpp is a tunnel: the server gives each client a virtual address and
-- passes IP packets on between the clients' tun devices and its own.
--
-- Tunnel.antt: a turn of `tunvpn_server` and the two branches of `tunvpn_client`. Addresses are numbers
--   in network order, as a little-endian host reads them. What `select`, `recvfrom` and `read` give is
--   an argument; a failed call ends the program and is not modelled, nor are lab8/lab_tun/dist/utils.cpp
--   and the set-up of devices. Tunnel/Buffer.antt, Tunnel/Address.antt, Tunnel/Table.antt,
--   Tunnel/Run.antt, Tunnel/Route.antt: the proofs.
--
-- lab4/lab4.cpp and lab4/lab4_internal.cpp fetch a one-time password over HTTP and send it back.
--
-- Otp.antt: the loops that extract the password from the response; Otp/Extract.antt: the proofs.
--
-- homework1/demo/ has two web servers that answer GET requests with the files of a directory.
--
-- Web.antt: what utils.c and utils_https.c both hold. The file system is a parameter, a function from
--   paths to what they name, and stays as it is during a request; what `write`, `SSL_write` and `recv`
--   give, and what the memory held before, are arguments. `malloc` is taken to succeed. A request that
--   no zero ends within its buffer of 1024 bytes is a crash, since the code goes beyond the arrays.
-- Web/Plain.antt: utils.c and `handle_client` of server.c; Web/Pool.antt: the loop of server.c and the
--   array that it grows. Web/Secure.antt: utils_https.c and the handling of a connection in
--   server_https.c; Web/Epoll.antt: its event loop as a step relation, with the backlogs that the
--   kernel keeps. The set-up of sockets and of OpenSSL is not modelled.
-- Web/Decode.antt, Web/Request.antt, Web/Get.antt, Web/Site.antt, Web/Mime.antt, Web/Serve.antt,
--   Web/Answered.antt, Web/Same.antt, Web/Faults.antt: the proofs. Web/Site.antt says what
--   homework1/README.md asks for, and Web/Mime.antt where the code finds the same type of a file.
--
-- lab2/lab2.c reads a file of data blocks with checksums and prints the words that its flags name.
--
-- Binflag.antt: the program over the bytes of the file. What fresh memory holds is an argument, and a
--   copy or a read outside of the data has no result. Binflag/Image.antt: the files and what their
--   data is. Binflag/Endian.antt, Binflag/Blocks.antt, Binflag/Flags.antt, Binflag/Damage.antt: the
--   proofs.
--
-- lab6/others/Star/src/ is another team's transfer: all files go in one stream compressed by zstd.
--
-- Star.antt: client.cpp; Star/Server.antt: server.cpp. zstd is a pair of functions, of which the
--   theorems ask that decompressing undoes compressing. The cutting loop has the length of the stream
--   as fuel, and the unpacking loop the length of what it reads: each round takes at least a byte. A
--   write or a read outside of a buffer has no result, but a bit outside of a bitset reads as unset
--   and is not set: the theorems exclude streams with more chunks than a packet has bits. The times
--   of the acknowledgements and the last loop of the server, which answers every packet with FIN, are
--   not modelled.
-- Star/Pack.antt, Star/Entries.antt, Star/Assemble.antt, Star/Deliver.antt, Star/Saved.antt,
--   Star/Complete.antt, Star/Rounds.antt, Star/Bits.antt, Star/Acks.antt, Star/Delivered.antt: the
--   proofs.
--
-- lab6/others/KJL/ is a variant of it that sends batches of fifty files without compressing them.
--
-- Kjl.antt: what differs from Star.antt. Kjl/Padding.antt, Kjl/Saving.antt and Kjl/Batch.antt: the
--   proofs. The loop over the batches is not modelled, as the client leaves its vector in the second.
--
-- lab6/others/Sean/ squeezes seventeen printable characters into fourteen bytes.
--
-- Sean.antt: the codec of a chunk, in client.cpp and server.cpp, with the loops' own counts as fuel;
--   Sean/Codec.antt: the proofs. The sending rounds, the table that leads from the chunks to the files
--   and the loop of the server are not modelled.
--
-- The other programs of the repository are not modelled: those in Python, lab5 and the course's
-- examples.
pub mod Common
pub mod Chat
pub mod Queens
pub mod Transfer
pub mod Tunnel
pub mod Otp
pub mod Web
pub mod Binflag
pub mod Star
pub mod Kjl
pub mod Sean
