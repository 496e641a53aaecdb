-- ===== src/Kjl.antt =====
-- lab6/others/KJL: a variant of lab6/others/Star that sends the files in batches of fifty, without
-- compressing them. The sending rounds, the receiving loop and the cutting into chunks are those of
-- Star.antt and Star/Server.antt; this module has what differs.
pub mod Padding
pub mod Saving
pub mod Batch
mod Tests
use inp.Common.{
  ℕ, zero, suc, ◌+◌, ◌-◌, ◌*◌, ◌^◌, Bool, true, false, List, [], ◌∷◌, ◌++◌, Option, none, some, ltb,
  leb, ◌==◌, if◌then◌else◌, length, get_elem?, set, take, replicate,
}
use Prim.Native.Nat.{min}
use inp.Common.Bytes.{Bytes}
use inp.Common.Text.{replace}
use inp.Common.Maps.{Map, insert}
use inp.Star.{chunk_size, Packet, pack, client}
use inp.Star.Server.{Server, start, collect, buffer_size, unpack}

-- `SUB_SIZE`
abbrev pub sub_size : ℕ
sub_size = 50

-- The loop over `idx` that reads the files of a batch: none where a file cannot be opened, or where
-- `files[idx]` is behind the vector.
abbrev pub put_file : List Bytes → ℕ → Option Bytes → Option (List Bytes)
put_file files idx none = none
put_file files idx (some data_of) =
    if ltb idx (length files) then some (set files idx data_of) else none

abbrev pub and_then : Option (List Bytes) → (List Bytes → Option (List Bytes)) → Option (List Bytes)
and_then none f = none
and_then (some files) f = f files

unfoldable pub read_files : ℕ → ℕ → List Bytes → List Bytes → Option (List Bytes)
read_files zero idx disk files = some files
read_files (suc left) idx disk files =
    and_then (put_file files idx (get_elem? disk idx)) (λ next. read_files left (suc idx) disk next)

-- The batch that starts at `st`: the files, in a vector that holds those of the batch before.
unfoldable pub read_batch : ℕ → List Bytes → List Bytes → Option (List Bytes)
read_batch st disk files = read_files sub_size st disk files

-- What the client sends of a batch.
unfoldable pub send_batch : List (List Packet) → ℕ → List Bytes → List Packet
send_batch turns st files = client turns (pack st files)

-- What the server's loop has of a batch.
unfoldable pub receive_batch : List Packet → Server
receive_batch packets = collect packets start

-- The loop of `save_to_file` over `data`, with `std::min` and `std::copy`: none where `size - start_index`
-- wraps around.
unfoldable pub copy_chunks : Bytes → Map Bytes → Option Bytes
copy_chunks comp_data [] = some comp_data
copy_chunks comp_data ((seq, data_frag) ∷ rest) =
    let start_index = (seq - 1) * chunk_size in
    let copy_size = min chunk_size (length comp_data - start_index) in
    let next =
      copy_chunks (replace comp_data start_index copy_size (take copy_size data_frag)) rest in
    if seq == 0
    then copy_chunks comp_data rest
    else if leb start_index (length comp_data)
    then next
    else none

abbrev pub unpack_whole : Option Bytes → Option (List (ℕ × Bytes))
unpack_whole none = none
unpack_whole (some comp_data) = unpack (length comp_data) comp_data

-- `save_to_file`: the files that are written, in their order; the loop goes through all of `comp_data`.
unfoldable pub save_to_file : Server → Option (List (ℕ × Bytes))
save_to_file s = unpack_whole (copy_chunks (replicate (buffer_size s.comp_size) 0) s.data_map)

-- The directory after the files have been written.
unfoldable pub written_files : List (ℕ × Bytes) → Map Bytes → Map Bytes
written_files [] disk = disk
written_files ((filename, data_of) ∷ files) disk =
    written_files files (insert filename data_of disk)
