-- ===== src/Slices/Ngram.antt =====
-- The n-grams of a text: all its windows of the n-gram size, or the whole text if it is shorter.
use undervest.Prelude.{
  ℕ, zero, suc, ◌+◌, ◌-◌, ◌%◌, ◌≤◌, ◌<◌, ◌≡◌, refl, ap, Bool, true, Bytes, arith, length, drop,
}
use undervest.Slices.{windows, ngram_slice, ngram_fits}

length-windows : (j n : ℕ) (s : Bytes) → length (windows j s n) ≡ j
unfolding windows
length-windows zero n s = refl
length-windows (suc j) n s = ap suc (length-windows j n (drop 1 s))

pub length-ngram_slice-le :
    (size : ℕ) (s : Bytes) (indexing : Bool) → length (ngram_slice size s indexing) ≤ length s + 1
unfolding ngram_slice
length-ngram_slice-le size s indexing = ground (
  arith,
  length-windows (length s % 4294967296 - size + 1) size s,
  length-windows (length s % 4294967296 - length s % 4294967296 + 1) (length s % 4294967296) s,
  length-windows 1 (18446744069414584320 + length s % 4294967296) s,
)

-- A text of less than 2 ^ 31 - 1 characters is cut without overflow, and within its bounds.
pub ngram_fits-short : (size : ℕ) (s : Bytes) → length s < 2147483647 → ngram_fits size s ≡ true
unfolding ngram_fits
ngram_fits-short size s h =
    let m : length s % 4294967296 ≡ length s = omega arith in rw m (ground arith)
