-- ===== src/Prelude/Xor.antt =====
-- The exclusive or of native numbers, digit by digit.
use Prim.Native.Nat.{
  ℕ, zero, suc, ◌+◌, ◌*◌, ◌/◌, ◌%◌, ◌≤◌, ◌<◌, bit_xor, differ, digits, bit_xor-bitwise,
}
use mathlib.Core.Path.{◌≡◌, refl, sym, ap, ◌∙◌}
use native.Mathlib.Omega.{arith}

differ-digits : (x y : ℕ) → x < 2 → y < 2 → differ x y ≡ (x + y) % 2
differ-digits zero y p q = omega arith
differ-digits (suc zero) zero p q = refl
differ-digits (suc zero) (suc zero) p q = refl
differ-digits (suc zero) (suc (suc y)) p q = absurd (omega arith)
differ-digits (suc (suc x)) y p q = absurd (omega arith)

-- the count of digits makes no difference once it is enough
digits_enough :
    (n m a b : ℕ) → a ≤ n → a ≤ m → digits (λ b. b) differ n a b ≡ digits (λ b. b) differ m a b
digits_enough zero zero a b p q = refl
digits_enough zero (suc m) zero b p q = refl
digits_enough zero (suc m) (suc a) b p q = absurd (omega arith)
digits_enough (suc n) zero zero b p q = refl
digits_enough (suc n) zero (suc a) b p q = absurd (omega arith)
digits_enough (suc n) (suc m) zero b p q = refl
digits_enough (suc n) (suc m) (suc a) b p q =
    omega (arith, digits_enough n m (suc a / 2) (b / 2) (omega arith) (omega arith))

pub zero-xor : (b : ℕ) → bit_xor 0 b ≡ b
zero-xor b = bit_xor-bitwise 0 b

pub xor_law : (a b : ℕ) → bit_xor a b ≡ bit_xor (a / 2) (b / 2) * 2 + (a + b) % 2
xor_law zero b = omega (arith, zero-xor b, zero-xor (b / 2))
xor_law (suc a) b = omega (
  arith,
  bit_xor-bitwise (suc a) b,
  bit_xor-bitwise (suc a / 2) (b / 2),
  digits_enough a (suc a / 2) (suc a / 2) (b / 2) (omega arith) (omega arith),
  differ-digits (suc a % 2) (b % 2) (omega arith) (omega arith),
)

pub xor-half : (a b : ℕ) → bit_xor a b / 2 ≡ bit_xor (a / 2) (b / 2)
xor-half a b = omega (arith, xor_law a b)

pub xor-parity : (a b : ℕ) → bit_xor a b % 2 ≡ (a + b) % 2
xor-parity a b = omega (arith, xor_law a b)

comm_below : (n a b : ℕ) → a ≤ n → b ≤ n → bit_xor a b ≡ bit_xor b a
comm_below zero zero zero p q = refl
comm_below zero (suc a) b p q = absurd (omega arith)
comm_below zero zero (suc b) p q = absurd (omega arith)
comm_below (suc n) a b p q =
    omega
      (arith, xor_law a b, xor_law b a, comm_below n (a / 2) (b / 2) (omega arith) (omega arith))

pub xor_comm : (a b : ℕ) → bit_xor a b ≡ bit_xor b a
xor_comm a b = comm_below (a + b) a b (omega arith) (omega arith)

pub xor-zero : (a : ℕ) → bit_xor a 0 ≡ a
xor-zero a = xor_comm a 0 ∙ zero-xor a

left_law :
    (a b c : ℕ)
    → bit_xor (bit_xor a b) c ≡ bit_xor (bit_xor (a / 2) (b / 2)) (c / 2) * 2 + (a + b + c) % 2
left_law a b c =
    xor_law (bit_xor a b) c
    ∙ ap (λ (x : ℕ). bit_xor x (c / 2) * 2 + (bit_xor a b + c) % 2) (xor-half a b)
    ∙ omega (arith, xor-parity a b)

right_law :
    (a b c : ℕ)
    → bit_xor a (bit_xor b c) ≡ bit_xor (a / 2) (bit_xor (b / 2) (c / 2)) * 2 + (a + b + c) % 2
right_law a b c =
    xor_law a (bit_xor b c)
    ∙ ap (λ (x : ℕ). bit_xor (a / 2) x * 2 + (a + bit_xor b c) % 2) (xor-half b c)
    ∙ omega (arith, xor-parity b c)

assoc_below :
    (n a b c : ℕ) → a ≤ n → b ≤ n → c ≤ n → bit_xor (bit_xor a b) c ≡ bit_xor a (bit_xor b c)
assoc_below zero a b c p q r =
    ap (λ (x : ℕ). bit_xor (bit_xor x b) c) {y = 0} (omega arith)
    ∙ ap (λ (x : ℕ). bit_xor x c) (zero-xor b)
    ∙ sym (zero-xor (bit_xor b c))
    ∙ ap (λ (x : ℕ). bit_xor x (bit_xor b c)) {y = a} (omega arith)
assoc_below (suc n) a b c p q r = omega (
  arith,
  left_law a b c,
  right_law a b c,
  assoc_below n (a / 2) (b / 2) (c / 2) (omega arith) (omega arith) (omega arith),
)

pub xor_assoc : (a b c : ℕ) → bit_xor (bit_xor a b) c ≡ bit_xor a (bit_xor b c)
xor_assoc a b c = assoc_below (a + b + c) a b c (omega arith) (omega arith) (omega arith)

itself_below : (n a : ℕ) → a ≤ n → bit_xor a a ≡ 0
itself_below zero zero p = refl
itself_below zero (suc a) p = absurd (omega arith)
itself_below (suc n) a p = omega (arith, xor_law a a, itself_below n (a / 2) (omega arith))

pub xor-itself : (a : ℕ) → bit_xor a a ≡ 0
xor-itself a = itself_below a a (omega arith)

-- the two middle ones change places
pub xor_exchange :
    (a b c d : ℕ) → bit_xor (bit_xor a b) (bit_xor c d) ≡ bit_xor (bit_xor a c) (bit_xor b d)
xor_exchange a b c d =
    xor_assoc a b (bit_xor c d)
    ∙ ap (bit_xor a)
        (sym (xor_assoc b c d) ∙ ap (λ (x : ℕ). bit_xor x d) (xor_comm b c) ∙ xor_assoc c b d)
    ∙ sym (xor_assoc a c (bit_xor b d))

-- `k` zeros behind the digits
abbrev pub shifted : ℕ → ℕ → ℕ
shifted zero b = b
shifted (suc k) b = 2 * shifted k b

no_digits : (a b : ℕ) → bit_xor (0 + a) (0 + b) ≡ bit_xor 0 0 + bit_xor a b
no_digits a b =
    ap (λ (x : ℕ). bit_xor x (0 + b)) {y = a} (omega arith)
    ∙ ap (bit_xor a) {y = b} (omega arith)
    ∙ omega (arith, zero-xor 0)

-- the lowest `k` digits and those above them apart
pub xor_parts :
    (k r s a b : ℕ)
    → r < shifted k 1
    → s < shifted k 1
    → (bit_xor (r + shifted k a) (s + shifted k b) ≡ bit_xor r s + shifted k (bit_xor a b))
      × (bit_xor r s < shifted k 1)
xor_parts zero zero zero a b p q = (no_digits a b, omega (arith, zero-xor 0))
xor_parts zero (suc r) s a b p q = absurd (omega arith)
xor_parts zero zero (suc s) a b p q = absurd (omega arith)
xor_parts (suc k) r s a b p q =
    let (e, l) = xor_parts k (r / 2) (s / 2) a b (omega arith) (omega arith) in
    (omega (arith, both, xor_law r s, e), omega (arith, xor_law r s, l))
  where
    both :
        bit_xor (r + 2 * shifted k a) (s + 2 * shifted k b)
        ≡ bit_xor (r / 2 + shifted k a) (s / 2 + shifted k b) * 2 + (r + s) % 2
    both =
        xor_law (r + 2 * shifted k a) (s + 2 * shifted k b)
        ∙ ap
            (λ (x : ℕ).
              bit_xor x ((s + 2 * shifted k b) / 2) * 2
              + (r + 2 * shifted k a + (s + 2 * shifted k b)) % 2)
            {y = r / 2 + shifted k a} (omega arith)
        ∙ ap
            (λ (x : ℕ).
              bit_xor (r / 2 + shifted k a) x * 2
              + (r + 2 * shifted k a + (s + 2 * shifted k b)) % 2)
            {y = s / 2 + shifted k b} (omega arith)
        ∙ omega arith

-- Bytes and what is above them.
pub xor-bytes :
    (x y : ℕ)
    → (bit_xor x y % 256 ≡ bit_xor (x % 256) (y % 256))
      × (bit_xor x y / 256 ≡ bit_xor (x / 256) (y / 256))
xor-bytes x y =
    let (e, l) = xor_parts 8 (x % 256) (y % 256) (x / 256) (y / 256) (omega arith) (omega arith) in
    (omega (arith, e, l, whole), omega (arith, e, l, whole))
  where
    whole : bit_xor x y ≡ bit_xor (x % 256 + shifted 8 (x / 256)) (y % 256 + shifted 8 (y / 256))
    whole =
        ap (λ (u : ℕ). bit_xor u y) {y = x % 256 + shifted 8 (x / 256)} (omega arith)
        ∙ ap (bit_xor (x % 256 + shifted 8 (x / 256))) {y = y % 256 + shifted 8 (y / 256)}
            (omega arith)
