-- ===== src/Crc32/Reference.antt =====
-- The CRC by the table is the CRC bit by bit.
use Prim.Native.Nat.{bit_xor}
use undervest.Prelude.{ℕ, ◌/◌, ◌%◌, ◌<◌, ◌≡◌, refl, sym, ap, ◌∙◌, [], ◌∷◌, Bytes, All, arith}
use undervest.Prelude.Xor.{xor_assoc, xor_comm, xor_exchange, xor-bytes, xor-zero, xor-itself}
use undervest.Crc32.{add_byte, add_bytes, crc_32}
use undervest.Crc32.Bitwise.{times, crc_byte, crc_bytes, bitwise_crc, times-byte}
use undervest.Crc32.Table.{entry-times}

abbrev ones : ℕ
ones = 0xFFFFFFFF

-- twice the same takes itself away
xor-twice : (a b : ℕ) → bit_xor (bit_xor a b) b ≡ a
xor-twice a b = xor_assoc a b b ∙ ap (bit_xor a) (xor-itself b) ∙ xor-zero a

-- the index into the table, complemented, is the byte of the bitwise CRC
index : (crc c : ℕ) → bit_xor (bit_xor (bit_xor crc ones) c % 256) 255 ≡ bit_xor crc c % 256
index crc c =
    ap (λ (x : ℕ). bit_xor x 255)
      ((xor-bytes (bit_xor crc ones) c).0
        ∙ ap (λ (x : ℕ). bit_xor x (c % 256)) ((xor-bytes crc ones).0)
        ∙ xor_assoc (crc % 256) 255 (c % 256)
        ∙ ap (bit_xor (crc % 256)) (xor_comm 255 (c % 256))
        ∙ sym (xor_assoc (crc % 256) (c % 256) 255))
    ∙ xor-twice (bit_xor (crc % 256) (c % 256)) 255
    ∙ sym ((xor-bytes crc c).0)

above : (crc c : ℕ) → c < 256 → bit_xor crc c / 256 ≡ crc / 256
above crc c l =
    (xor-bytes crc c).1 ∙ ap (bit_xor (crc / 256)) {y = 0} (omega arith) ∙ xor-zero (crc / 256)

-- The complement of the CRC is kept from byte to byte.
add_byte-complement :
    (crc c : ℕ) → c < 256 → add_byte (bit_xor crc ones) c ≡ bit_xor (crc_byte crc c) ones
unfolding add_byte
add_byte-complement crc c l =
    ap (λ (x : ℕ). bit_xor x (bit_xor crc ones / 256))
      (entry-times (bit_xor (bit_xor crc ones) c % 256) (omega arith)
        ∙ ap (λ (x : ℕ). bit_xor (times 8 x) 0xFF000000) (index crc c))
    ∙ ap (bit_xor (bit_xor (times 8 (bit_xor crc c % 256)) 0xFF000000)) ((xor-bytes crc ones).1)
    ∙ xor_exchange (times 8 (bit_xor crc c % 256)) 0xFF000000 (crc / 256) 0xFFFFFF
    ∙ ap (λ (x : ℕ). bit_xor x ones)
        (ap (bit_xor (times 8 (bit_xor crc c % 256))) (sym (above crc c l))
          ∙ sym (times-byte (bit_xor crc c)))

add_bytes-complement :
    (crc : ℕ) (p : Bytes)
    → All (λ c. c < 256) p
    → add_bytes (bit_xor crc ones) p ≡ bit_xor (crc_bytes crc p) ones
unfolding add_bytes
add_bytes-complement crc [] h = refl
add_bytes-complement crc (c ∷ p) h =
    ap (λ (x : ℕ). add_bytes x p) (add_byte-complement crc c h.0)
    ∙ add_bytes-complement (crc_byte crc c) p h.1

-- The CRC by the table, from 0 on and without a complement at its end, is the CRC that the comment in
-- include/crc32.h describes bit by bit, of every list of bytes.
pub crc_32-bitwise : (p : Bytes) → All (λ c. c < 256) p → crc_32 p ≡ bitwise_crc p
unfolding crc_32
crc_32-bitwise p h = add_bytes-complement ones p h
