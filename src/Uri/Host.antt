-- ===== src/Uri/Host.antt =====
-- src/milter/uri.cpp: which texts are hosts.
use undervest.Prelude.{
  ℕ, suc, ◌+◌, ◌*◌, ◌-◌, Bool, true, false, not, ◌&&◌, ◌||◌, Option, none, some, [], ◌∷◌, ltb, leb,
  ◌==◌, if◌then◌else◌, Bytes, ◌>>=◌, length, take, drop, ◌++◌,
}
use undervest.Uri.{
  is_in_set, digit, hex, hexdigit, at, and_then, or_else, skip_char_set, check_char_set, is_end,
  regname_char, future_char,
}

-- The variables of `valid_ipv4`, and what a round does: `return false`, or it goes on.
pub record Octets : Type 0 where
  pub v : ℕ
  pub n : ℕ
  pub first : Bool

unfoldable pub round_ipv4 : Octets → ℕ → Option (Option Octets)
round_ipv4 o c = do
  decimal ← is_in_set digit c
  if decimal
      then (let v = o.v * 10 + c - b'0' in
          some (
            if leb 256 v || (o.first && (v == 0))
            then none
            else some (record o { v = v; first = false })))
      else (if c == b'.'
          then some (
              if o.first || leb 4 (suc o.n)
              then none
              else some (record { v = 0; n = suc o.n; first = true }))
          else some none)

unfoldable pub octets_from : Octets → Bytes → Option Bool
octets_from o [] = some (not o.first && (suc o.n == 4))
octets_from o (c ∷ s) = elim (round_ipv4 o c) [
  | none ↦ none
  | some none ↦ some false
  | some (some o') ↦ octets_from o' s
]

unfoldable pub valid_ipv4 : Bytes → Option Bool
valid_ipv4 s = octets_from (record { v = 0; n = 0; first = true }) s

unfoldable pub valid_registered_name : Bytes → Option Bool
valid_registered_name s = check_char_set s regname_char

-- The variables of `valid_ipv6`: `q` is the text from the group's first character on.
pub record Groups : Type 0 where
  pub v : ℕ
  pub n : ℕ
  pub skip : Bool
  pub q : Bytes

-- What a round does: `return false`, `break`, or it goes on.
pub data Turn : Type 0 where
  refuse : Turn
  leave : Groups → Turn
  go_on : Groups → Turn

-- A group with a `:` at its end.
unfoldable pub round_colon : Groups → Bytes → Turn
round_colon g p =
    if ltb (length p) (length g.q)
    then (if leb 8 (suc g.n) then refuse else go_on (record g { v = 0; n = suc g.n; q = drop 1 p }))
    else (if g.skip then refuse else go_on (record g { v = 0; skip = true; q = drop 1 p }))

-- `tail` is what is cut from the end of the text.
unfoldable pub round_ipv6 : Bytes → Groups → Bytes → Option Turn
round_ipv6 tail g p = do
  inside ← is_in_set hex (at p 0)
  if inside
      then (if leb 4096 g.v
          then some refuse
          else (do x ← hexdigit (at p 0); some (go_on (record g { v = g.v * 16 + x }))))
      else (if at p 0 == b':'
          then some (round_colon g p)
          else (if not (at p 0 == b'.') then some refuse else (do
            embedded ← valid_ipv4 (g.q ++ tail)
            some (if not embedded then refuse else leave (record g { n = suc g.n })))))

-- What is behind the loop.
unfoldable pub finish_ipv6 : Groups → Bytes → Bool
finish_ipv6 g p =
    not (ltb 8 (suc g.n)) && (g.skip || (suc g.n == 8)) && not (length p == length g.q)

unfoldable pub groups_from : Bytes → Groups → Bytes → Option Bool
groups_from tail g [] = some (finish_ipv6 g [])
groups_from tail g (c ∷ s) = elim (round_ipv6 tail g (c ∷ s)) [
  | none ↦ none
  | some refuse ↦ some false
  | some (leave g') ↦ some (finish_ipv6 g' (c ∷ s))
  | some (go_on g') ↦ groups_from tail g' s
]

unfoldable pub starts_colons : Bytes → Bool
starts_colons s = leb 2 (length s) && (at s 0 == b':') && (at s 1 == b':')

unfoldable pub ends_colons : Bytes → Bool
ends_colons s = leb 2 (length s) && starts_colons (drop (length s - 2) s)

abbrev from_groups : Bytes → Bool → Bytes → Option Bool
from_groups tail skip p =
    groups_from tail (record { v = 0; n = if skip then 1 else 0; skip = skip; q = p }) p

unfoldable pub valid_ipv6 : Bytes → Option Bool
valid_ipv6 s =
    let skip = starts_colons s in
    let p = if skip then drop 2 s else s in
    if ends_colons p
    then (if skip then some false else from_groups (b':' ∷ b':' ∷ []) true (take (length p - 2) p))
    else from_groups [] skip p

unfoldable pub valid_future : Bytes → Option Bool
valid_future s = if not (at s 0 == b'v') then some false else (do
  versioned ← is_in_set hex (at s 1)
  if not versioned then some false else (do
    p ← skip_char_set (drop 2 s) hex
    if not (at p 0 == b'.')
        then some false
        else and_then (some (not (is_end (drop 1 p)))) (check_char_set (drop 1 p) future_char)))

unfoldable pub valid_host : Bytes → Option Bool
valid_host hst = or_else (some (is_end hst)) (
    or_else (valid_ipv4 hst)
      (or_else (valid_ipv6 hst) (or_else (valid_future hst) (valid_registered_name hst))))
