-- ===== src/Crc32/Table.antt =====
-- The table holds what eight rounds make of a byte, complemented on both sides.
use Prim.Native.Nat.{bit_xor}
use undervest.Prelude.{ℕ, zero, suc, ◌<◌, ◌≡◌, refl, Bool, true, ◌&&◌, ◌==◌, ==_iff, arith}
use undervest.Crc32.{xortable, entry}
use undervest.Crc32.Bitwise.{times}

-- a test of every number below a bound
all_below : ℕ → (ℕ → Bool) → Bool
all_below zero p = true
all_below (suc n) p = p n && all_below n p

all_below-true : (n : ℕ) (p : ℕ → Bool) (x : ℕ) → all_below n p ≡ true → x < n → p x ≡ true
unfolding all_below
all_below-true zero p x h l = absurd (omega arith)
all_below-true (suc n) p x h l = ground (arith, all_below-true n p x)

every_entry :
    all_below 256 (λ i. entry xortable i == bit_xor (times 8 (bit_xor i 255)) 0xFF000000) ≡ true
unfolding all_below entry
every_entry = refl

pub entry-times :
    (i : ℕ) → i < 256 → entry xortable i ≡ bit_xor (times 8 (bit_xor i 255)) 0xFF000000
entry-times i l = (==_iff (entry xortable i) (bit_xor (times 8 (bit_xor i 255)) 0xFF000000)).0 (
    all_below-true 256 (λ j. entry xortable j == bit_xor (times 8 (bit_xor j 255)) 0xFF000000) i
      every_entry l)
