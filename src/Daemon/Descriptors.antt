-- ===== src/Daemon/Descriptors.antt =====
-- `close_all` of include/daemon.h: the file descriptors of the process. The table of descriptors is the
-- system's, an interface here.
use undervest.Prelude.{
  ℕ, zero, suc, ◌≤◌, ◌<◌, ◌≡◌, ◌≢◌, Bool, true, false, not, ◌&&◌, ◌||◌, Option, none, some, ltb,
  leb, ◌==◌, if◌then◌else◌, min,
}
use undervest.Daemon.{Daemon}

-- `close`, `open` of the null device and `dup`, which give a descriptor unless they fail.
pub record Table (K : Type 0) : Type 0 where
  pub is_open : K → ℕ → Bool
  pub close : ℕ → K → K
  pub open_null : K → Option ℕ × K
  pub dup : ℕ → K → Option ℕ × K

-- `for (fd = getdtablesize(); --fd > fileno(stderr);)`, from the last descriptor of the table on.
unfoldable pub close_high : {K : Type 0} → Table K → ℕ → K → K
close_high t zero k = k
close_high t (suc m) k =
    let rest = close_high t m (t.close (suc m) k) in if ltb 2 (suc m) then rest else k

-- `while (fd--)`
unfoldable pub close_low : {K : Type 0} → Table K → ℕ → K → K
close_low t zero k = k
close_low t (suc m) k = close_low t m (t.close m k)

-- The loop that opens the null device, on fuel: `none` if it takes more rounds.
unfoldable pub open_nulls : {K : Type 0} → Table K → ℕ → Option ℕ × K → Option K
open_nulls t zero r = none
open_nulls t (suc f) (none, k) = some k
open_nulls t (suc f) (some fd, k) =
    let rest = open_nulls t f (t.dup fd k) in
    if leb 2 fd then some (if ltb 2 fd then t.close fd k else k) else rest

-- `close_all`, for a table whose last descriptor is `last`. Three rounds of the last loop are enough.
unfoldable pub close_all : {K : Type 0} → Table K → Daemon → ℕ → Bool → K → Option K
close_all t d last close_stderr k =
    let fd = min last 2 in
    let high = close_high t last k in
    let behind = if close_stderr && not d.log_to_stderr then t.close fd high else high in
    open_nulls t 3 (t.open_null (close_low t fd behind))

-- A new descriptor is the least that is free; a call that fails opens none.
abbrev pub Allocated : {K : Type 0} → Table K → K → Option ℕ × K → Type 0
Allocated t k (none, l) = (m : ℕ) → t.is_open l m ≡ t.is_open k m
Allocated t k (some n, l) =
    (t.is_open k n ≡ false)
    × ((m : ℕ) → m < n → t.is_open k m ≡ true)
    × ((m : ℕ) → t.is_open l m ≡ (m == n || t.is_open k m))

-- What POSIX says of these calls, where the null device exists: they fail only if the table is full.
pub record IsTable {K : Type 0} (t : Table K) (last : ℕ) : Type 0 where
  pub closes : (n m : ℕ) (k : K) → t.is_open (t.close n k) m ≡ (not (m == n) && t.is_open k m)
  pub opens : (k : K) → Allocated t k (t.open_null k)
  pub dups : (n : ℕ) (k : K) → Allocated t k (t.dup n k)
  pub open_some : (n : ℕ) (k : K) → n ≤ last → t.is_open k n ≡ false → (t.open_null k).0 ≢ none
  pub dup_some :
      (n m : ℕ) (k : K)
      → n ≤ last
      → t.is_open k n ≡ false
      → t.is_open k m ≡ true
      → (t.dup m k).0 ≢ none
