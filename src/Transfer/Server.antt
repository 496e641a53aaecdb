-- ===== src/Transfer/Server.antt =====
-- The body of the inner loop of lab6/src/server.cpp, file by file: a packet changes what the server
-- keeps of its own file, and nothing else.
use inp.Common.{
  ℕ, ◌≡◌, Bool, true, false, List, [], Option, some, ◌==◌, if◌then◌else◌, get_or, set, length,
}
use inp.Common.Bytes.{Bytes}
use inp.Common.Maps.{lookup}
use inp.Transfer.{
  Packet, packet_crc, text_of, Store, resize, stored_of, datas_of, save_flg, file_bytes, is_empty,
}

-- What the server keeps of one file.
pub record Row : Type 0 where
  pub expanded : Bool
  pub saved : Bool
  pub stored : List Bool
  pub datas : List Bytes
  pub disk : Option Bytes

abbrev pub row_of : ℕ → Store → Row
row_of f s = record {
  expanded = get_or s.expanded f false;
  saved = get_or s.file_saved f false;
  stored = stored_of s f;
  datas = datas_of s f;
  disk = lookup f s.files;
}

-- The vectors have the lengths that the program gives them.
pub record Sized (s : Store) : Type 0 where
  pub stored : length s.stored_packet ≡ 1000
  pub datas : length s.datas ≡ 1000
  pub expanded : length s.expanded ≡ 1000
  pub saved : length s.file_saved ≡ 1001

unfoldable pub row_expand : Packet → Row → Row
unfolding resize
row_expand packet r = if r.expanded then r else record r {
  stored = resize packet.total_packets false r.stored;
  datas = resize packet.total_packets [] r.datas;
  expanded = true;
}

unfoldable pub row_store : Packet → Row → Row
row_store packet r = if get_or r.stored packet.packet_number false then r else record r {
  datas = set r.datas packet.packet_number (text_of packet);
  stored = set r.stored packet.packet_number true;
}

unfoldable pub row_save : Row → Row
unfolding file_bytes
row_save r = record r { disk = some (file_bytes r.datas); stored = []; datas = []; saved = true }

unfoldable pub row_receive : Packet → Row → Bool × Row
row_receive packet r =
    if packet.checksum == packet_crc packet
    then (let r₁ = row_expand packet r in
        if is_empty r₁.stored
        then (false, r₁)
        else (let r₂ = row_store packet r₁ in
            if save_flg r₂.stored then (false, row_save r₂) else (true, r₂)))
    else (false, r)
