-- ===== src/Tests/Checksums.antt =====
-- Checksums and searches in texts at concrete inputs.
use undervest.Prelude.{ℕ, suc, ◌≡◌, refl, true, false, Option, some, codes, arith}
use undervest.Stringlib.{mem}
use undervest.Crc32
use undervest.Crc32.{crc_32}
use undervest.Crc32.Bitwise.{bitwise_crc}
use undervest.Crc32.Reference.{crc_32-bitwise}
use undervest.Substring
use undervest.Substring.Search.{
  find, rfind, search, char_at, Loop, returned, running, find_first_of, find_first_not_of,
}
use undervest.Substring.Places.{IsFirst, IsLast, find_exact, stays}

-- the check value of the CRC
check_value : crc_32 (codes "123456789") ≡ 0xCBF43926
unfolding crc_32 Crc32.add_bytes Crc32.add_byte Crc32.entry
check_value = refl

crc_32-bitwise_example : crc_32 (codes "abc") ≡ bitwise_crc (codes "abc")
crc_32-bitwise_example =
    crc_32-bitwise (codes "abc") (omega arith, (omega arith, (omega arith, tt)))

both_ends :
    ◌≡◌ {A = Option ℕ × Option ℕ}
      (find (codes "abcab") (codes "ab"), rfind (codes "abcab") (codes "ab"))
      (some 0, some 3)
unfolding find rfind search Substring.Search.search_back Substring.Search.same char_at
    Substring.traits_compare
both_ends = refl

find_exact_example :
    IsFirst 6 (codes "ab") (codes "abcab") (find (codes "abcab") (codes "ab"))
    × IsLast (codes "ab") (codes "abcab") (rfind (codes "abcab") (codes "ab"))
find_exact_example = find_exact (codes "abcab") b'a' (codes "b")

stays_example :
    (mem (char_at (codes "abc") 1) (codes "b") ≡ true
      → ((f : ℕ) → find_first_of (suc f) (codes "abc") (codes "b") 1 ≡ returned (some 1))
        × ((f : ℕ) → find_first_not_of f (codes "abc") (codes "b") 1 ≡ running))
    × (mem (char_at (codes "abc") 1) (codes "b") ≡ false
        → ((f : ℕ) → find_first_of f (codes "abc") (codes "b") 1 ≡ running)
          × ((f : ℕ) → find_first_not_of (suc f) (codes "abc") (codes "b") 1 ≡ returned (some 1)))
stays_example = stays (codes "abc") (codes "b") 1 (omega arith)
