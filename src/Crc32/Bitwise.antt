-- ===== src/Crc32/Bitwise.antt =====
-- The algorithm that the comment of include/crc32.h gives, bit by bit, and how it takes the bits above a
-- byte along.
use Prim.Native.Nat.{bit_xor}
use undervest.Prelude.{
  ℕ, zero, suc, ◌+◌, ◌*◌, ◌/◌, ◌%◌, ◌≡◌, refl, sym, ap, ◌∙◌, [], ◌∷◌, Bytes, arith,
}
use undervest.Prelude.Xor.{
  xor_assoc, xor_comm, xor-half, xor-parity, xor_parts, xor-zero, zero-xor, shifted,
}

-- XOR of the polynomial if the carry is set
abbrev pub polynomial : ℕ → ℕ
polynomial zero = 0
polynomial (suc _) = 0xEDB88320

-- `Shift CRC right, putting leftover rightmost bit in carry, if carry is set, XOR POLY to CRC`
abbrev pub shift_right : ℕ → ℕ
shift_right crc = bit_xor (crc / 2) (polynomial (crc % 2))

abbrev pub times : ℕ → ℕ → ℕ
times zero crc = crc
times (suc n) crc = times n (shift_right crc)

-- `XOR byte to low CRC byte, do 8 times`
abbrev pub crc_byte : ℕ → ℕ → ℕ
crc_byte crc c = times 8 (bit_xor crc c)

abbrev pub crc_bytes : ℕ → Bytes → ℕ
crc_bytes crc [] = crc
crc_bytes crc (c ∷ p) = crc_bytes (crc_byte crc c) p

-- `Initialize CRC to 0xFFFFFFFF`, and `return the 1's complement of CRC`.
abbrev pub bitwise_crc : Bytes → ℕ
bitwise_crc p = bit_xor (crc_bytes 0xFFFFFFFF p) 0xFFFFFFFF

-- an even part is shifted along
shift_right-even : (a b : ℕ) → shift_right (bit_xor a (2 * b)) ≡ bit_xor (shift_right a) b
shift_right-even a b =
    ap (λ (x : ℕ). bit_xor x (polynomial (bit_xor a (2 * b) % 2)))
      (xor-half a (2 * b) ∙ ap (bit_xor (a / 2)) {y = b} (omega arith))
    ∙ ap (λ (x : ℕ). bit_xor (bit_xor (a / 2) b) (polynomial x)) {y = a % 2}
        (omega (arith, xor-parity a (2 * b)))
    ∙ xor_assoc (a / 2) b (polynomial (a % 2))
    ∙ ap (bit_xor (a / 2)) (xor_comm b (polynomial (a % 2)))
    ∙ sym (xor_assoc (a / 2) (polynomial (a % 2)) b)

times-shifted : (k a b : ℕ) → times k (bit_xor a (shifted k b)) ≡ bit_xor (times k a) b
times-shifted zero a b = refl
times-shifted (suc k) a b =
    ap (times k) (shift_right-even a (shifted k b)) ∙ times-shifted k (shift_right a) b

bytes_apart : (x : ℕ) → bit_xor (x % 256) (shifted 8 (x / 256)) ≡ x
bytes_apart x =
    ap (λ (r : ℕ). bit_xor r (shifted 8 (x / 256))) {y = x % 256 + shifted 8 0} (omega arith)
    ∙ ap (bit_xor (x % 256 + shifted 8 0)) {y = 0 + shifted 8 (x / 256)} (omega arith)
    ∙ (xor_parts 8 (x % 256) 0 0 (x / 256) (omega arith) (omega arith)).0
    ∙ omega (arith, xor-zero (x % 256), zero-xor (x / 256))

-- Eight rounds depend on the lowest byte, and shift the others.
pub times-byte : (x : ℕ) → times 8 x ≡ bit_xor (times 8 (x % 256)) (x / 256)
times-byte x = ap (times 8) (sym (bytes_apart x)) ∙ times-shifted 8 (x % 256) (x / 256)
