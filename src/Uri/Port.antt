-- ===== src/Uri/Port.antt =====
-- The port that `parse` reads: the loop adds the character behind the host, which is the colon.
use undervest.Prelude.{
  ℕ, zero, suc, ◌+◌, ◌*◌, ◌≤◌, ◌<◌, ◌≡◌, refl, true, false, some, [], ◌∷◌, ◌++◌, ltb, if◌then◌else◌,
  Bytes, arith, All, length,
}
use undervest.Uri.{is_in_set, digit, at}
use undervest.Uri.Reader.{Uri, at_place, give_up, add_digit, read_port, parse_port}

-- The port for so many digits, and 65536 or more if there are too many.
abbrev pub tens : ℕ → ℕ → ℕ
tens prt zero = prt
tens prt (suc n) = tens (if ltb prt 65536 then prt * 10 + 10 else prt) n

add_digit-colon : (prt : ℕ) → add_digit b':' prt ≡ (if ltb prt 65536 then prt * 10 + 10 else prt)
unfolding add_digit
add_digit-colon prt = ground arith

read_port-tens :
    (prt : ℕ) (ds s : Bytes)
    → All (λ c. is_in_set digit c ≡ some true) ds
    → is_in_set digit (at s 0) ≡ some false
    → read_port b':' prt (ds ++ s) ≡ some (tens prt (length ds), s)
unfolding read_port at
read_port-tens prt [] [] h e = refl
read_port-tens prt [] (c ∷ s) h e = rw (e, read_port) refl
read_port-tens prt (d ∷ ds) s h e =
    rw (h.0, read_port)
      (rw (add_digit-colon prt)
        (read_port-tens (if ltb prt 65536 then prt * 10 + 10 else prt) ds s h.1 e))

full : (n : ℕ) → tens 111110 n ≡ 111110
full zero = refl
full (suc n) = full n

-- 10, 110, 1110 and 11110 for one to four digits
abbrev pub tens_of : ℕ → ℕ
tens_of zero = 0
tens_of (suc n) = tens_of n * 10 + 10

few_digits : (n : ℕ) → n < 5 → (tens 0 n ≡ tens_of n) × (ltb (tens_of n) 65536 ≡ true)
few_digits zero l = (refl, refl)
few_digits (suc zero) l = (refl, refl)
few_digits (suc (suc zero)) l = (refl, refl)
few_digits (suc (suc (suc zero))) l = (refl, refl)
few_digits (suc (suc (suc (suc zero)))) l = (refl, refl)
few_digits (suc (suc (suc (suc (suc n))))) l = absurd (omega arith)

many_digits : (n : ℕ) → 5 ≤ n → tens 0 n ≡ 111110
many_digits zero l = absurd (omega arith)
many_digits (suc zero) l = absurd (omega arith)
many_digits (suc (suc zero)) l = absurd (omega arith)
many_digits (suc (suc (suc zero))) l = absurd (omega arith)
many_digits (suc (suc (suc (suc zero)))) l = absurd (omega arith)
many_digits (suc (suc (suc (suc (suc n))))) l = full n

-- Behind a host, `parse` reads digits up to a character that is none, where there is one digit more
-- for each digit: with less than five of them, the port is the number that has a 1 for each digit
-- and a 0 behind these, whatever the digits are, and with more it gives up.
port_of_digits :
    (u : Uri) (ds s : Bytes)
    → All (λ c. is_in_set digit c ≡ some true) ds
    → is_in_set digit (at s 0) ≡ some false
    → (length ds < 5
        → parse_port u (b':' ∷ (ds ++ s))
          ≡ some (at_place (record u { port = tens_of (length ds) }) s))
      × (5 ≤ length ds
          → parse_port u (b':' ∷ (ds ++ s))
            ≡ some (give_up (record u { scheme = []; userinfo = []; host = [] })))
unfolding parse_port at
port_of_digits u ds s h e = (few, many)
  where
    read : read_port b':' 0 (ds ++ s) ≡ some (tens 0 (length ds), s)
    read = read_port-tens 0 ds s h e

    few :
        length ds < 5
        → parse_port u (b':' ∷ (ds ++ s))
          ≡ some (at_place (record u { port = tens_of (length ds) }) s)
    few l = let (a, b) = few_digits (length ds) l in rw read (rw a (rw b refl))

    many :
        5 ≤ length ds
        → parse_port u (b':' ∷ (ds ++ s))
          ≡ some (give_up (record u { scheme = []; userinfo = []; host = [] }))
    many l = rw read (rw (many_digits (length ds) l) refl)
