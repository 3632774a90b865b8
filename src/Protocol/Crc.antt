-- ===== src/Protocol/Crc.antt =====
-- base/crc32c.cc: CRC-32C as `Crc32cSoftware` computes it, eight bytes at a time from tables. The
-- instructions that compute it on some processors are not modelled.
pub mod Linear
pub mod Slices
pub mod Damage
use Prim.Native.Nat.{bit_and, bit_xor}
use pulse_log.Base.{ℕ, zero, suc, ◌+◌, ◌-◌, ◌/◌, ◌%◌, [], ◌∷◌, length, take, drop}
use pulse_log.Base.Keys.{Bytes}
use pulse_log.Protocol.Codec.{load_le}

-- The reflected polynomial, `kPoly`.
abbrev pub poly : ℕ
poly = 0x82f63b78

abbrev pub word : ℕ
word = 4294967296

-- `~x` on 32 bits.
abbrev pub complement : ℕ → ℕ
complement x = word - 1 - x

-- The lowest bit, taken as a mask, chooses the polynomial.
unfoldable pub table_bit : ℕ → ℕ
table_bit crc = bit_xor (crc / 2) (bit_and poly ((complement (crc % 2) + 1) % word))

unfoldable pub table_bits : ℕ → ℕ → ℕ
table_bits zero crc = crc
table_bits (suc bits) crc = table_bits bits (table_bit crc)

-- `kTables[slice][i]`
unfoldable pub table : ℕ → ℕ → ℕ
table zero i = table_bits 8 i
table (suc slice) i = let crc = table slice i in bit_xor (table_bits 8 (crc % 256)) (crc / 256)

-- One turn of the loop over blocks, with the two words of the block.
unfoldable pub block_step : ℕ → ℕ → ℕ → ℕ
block_step crc first next =
    let mixed = bit_xor crc first in
    bit_xor
      (bit_xor
        (bit_xor
          (bit_xor
            (bit_xor
              (bit_xor (bit_xor (table 7 (mixed % 256)) (table 6 (mixed / 256 % 256)))
                (table 5 (mixed / 65536 % 256)))
              (table 4 (mixed / 16777216 % 256)))
            (table 3 (next % 256)))
          (table 2 (next / 256 % 256)))
        (table 1 (next / 65536 % 256)))
      (table 0 (next / 16777216 % 256))

-- The loop over the bytes that remain.
unfoldable pub byte_step : ℕ → ℕ → ℕ
byte_step crc byte = bit_xor (table 0 (bit_xor crc byte % 256)) (crc / 256)

unfoldable pub byte_loop : ℕ → Bytes → ℕ
byte_loop crc [] = crc
byte_loop crc (byte ∷ bytes) = byte_loop (byte_step crc byte) bytes

-- The loop while eight bytes remain, and the one after it.
unfoldable pub block_loop : ℕ → ℕ → Bytes → ℕ
block_loop zero crc input = byte_loop crc input
block_loop (suc blocks) crc input =
    block_loop blocks (block_step crc (load_le (take 4 input)) (load_le (take 4 (drop 4 input))))
      (drop 8 input)

-- `Crc32cSoftware`
unfoldable pub crc32c_from : ℕ → Bytes → ℕ
crc32c_from seed input = complement (block_loop (length input / 8) (complement seed) input)

-- `Crc32c` from the start.
unfoldable pub crc32c : Bytes → ℕ
crc32c input = crc32c_from 0 input
