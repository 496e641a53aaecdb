-- ===== src/Common/Fields.antt =====
-- Numbers in the memory of a little-endian host.
use inp.Common.{ℕ, ◌+◌, ◌*◌, get_or}
use inp.Common.Bytes.{Bytes}

-- A `uint16_t` and a `uint32_t` of a structure in memory, as a little-endian host loads them.
unfoldable pub field_u16 : Bytes → ℕ → ℕ
field_u16 s at = get_or s at 0 + get_or s (at + 1) 0 * 256

unfoldable pub field_u32 : Bytes → ℕ → ℕ
field_u32 s at =
    get_or s at 0
    + get_or s (at + 1) 0 * 256
    + get_or s (at + 2) 0 * 65536
    + get_or s (at + 3) 0 * 16777216
