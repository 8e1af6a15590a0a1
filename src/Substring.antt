-- ===== src/Substring.antt =====
-- include/substring.h: comparison and search of `basic_substring`, on contents.
pub mod Order
pub mod Places
pub mod Search
use undervest.Prelude.{
  ℕ, zero, suc, ◌+◌, ◌-◌, ◌^◌, min, Bool, true, false, List, [], ◌∷◌, ltb, leb, ◌==◌, if◌then◌else◌,
  Bytes, length,
}
use undervest.Prelude.Int.{ℤ, pos, negsuc, sub_ℕ, ltb_ℤ}

-- `traits_type::compare` of `n` characters, -1, 0 or 1; both texts hold `n` characters.
unfoldable pub traits_compare : ℕ → Bytes → Bytes → ℤ
traits_compare (suc n) (x ∷ xs) (y ∷ ys) =
    if ltb x y then negsuc 0 else if ltb y x then pos 1 else traits_compare n xs ys
traits_compare _ _ _ = pos 0

-- The difference of two sizes, clamped to an `int`. Sizes of objects lie below 2 ^ 63, so the
-- conversion to `difference_type` is exact.
unfoldable pub compare_size : ℕ → ℕ → ℤ
compare_size n1 n2 =
    let d = sub_ℕ n1 n2 in
    if ltb_ℤ (pos (2 ^ 31 - 1)) d
    then pos (2 ^ 31 - 1)
    else if ltb_ℤ d (negsuc (2 ^ 31 - 1))
    then negsuc (2 ^ 31 - 1)
    else d

abbrev is_zero : ℤ → Bool
is_zero (pos zero) = true
is_zero _ = false

unfoldable pub compare : Bytes → Bytes → ℤ
compare s str =
    let r = traits_compare (min (length s) (length str)) s str in
    if is_zero r then compare_size (length s) (length str) else r

-- `operator<`.
unfoldable pub less : Bytes → Bytes → Bool
less s y = ltb_ℤ (compare s y) (pos 0)

-- `operator==`.
unfoldable pub equal : Bytes → Bytes → Bool
equal s y = is_zero (compare s y)
