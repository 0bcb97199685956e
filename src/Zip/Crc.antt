-- ===== src/Zip/Crc.antt =====
-- `CRC32_TABLE` and `crc32`. JavaScript's signed results of `^` are held as their unsigned 32 bits.
use Prim.Native.Nat.{bit_xor}
use dymaxion.Prelude.{
  ℕ, zero, suc, ◌+◌, ◌/◌, ◌%◌, ◌==◌, if◌then◌else◌, List, [], ◌∷◌, get_elem?, get_or_else,
}

-- One round of the inner loop
unfoldable pub crc_bit : ℕ → ℕ
crc_bit crc = bit_xor (crc / 2) (if (crc % 2) == 1 then 0xedb88320 else 0)

unfoldable pub crc_bits : ℕ → ℕ → ℕ
crc_bits zero crc = crc
crc_bits (suc n) crc = crc_bits n (crc_bit crc)

-- The entries of the table from `index` on, `count` of them
unfoldable pub crc_entries : ℕ → ℕ → List ℕ
crc_entries zero index = []
crc_entries (suc count) index = crc_bits 8 index ∷ crc_entries count (index + 1)

unfoldable pub crc_table : List ℕ
unfolding crc_entries crc_bits crc_bit
crc_table = crc_entries 256 0

unfoldable pub crc_byte : ℕ → ℕ → ℕ
crc_byte crc byte =
    bit_xor (crc / 256) (get_or_else (get_elem? crc_table (bit_xor crc byte % 256)) 0)

unfoldable pub crc_loop : ℕ → List ℕ → ℕ
crc_loop crc [] = crc
crc_loop crc (b ∷ bs) = crc_loop (crc_byte crc b) bs

unfoldable pub crc32 : List ℕ → ℕ
crc32 bs = bit_xor (crc_loop 0xffffffff bs) 0xffffffff % 4294967296
