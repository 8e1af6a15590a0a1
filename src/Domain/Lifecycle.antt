-- ===== src/Domain/Lifecycle.antt =====
-- src/milter/domain.cpp: how a domain is made, copied, loaded and refreshed. What a loader gives for
-- a source is a parameter.
use undervest.Prelude.{
  ℕ, zero, suc, ◌+◌, ◌-◌, ◌%◌, ◌^◌, Bool, true, false, Option, none, some, List, [], ◌∷◌, ltb, ◌==◌,
  if◌then◌else◌, Bytes, get_elem?,
}
use undervest.Prelude.Int.{ℤ, pos, negsuc, ltb_ℤ, pos_part}
use undervest.Matcher.{empty}
use undervest.Source
use undervest.Source.{Source, Failure, Reading, already_logged}
use undervest.Domain.{Domain, is_zero, add_recipients, rebuild}

-- -2, the failure count of a disabled domain.
abbrev pub is_disabled : ℤ → Bool
is_disabled (negsuc (suc zero)) = true
is_disabled _ = false

-- A number as a `short`.
unfoldable pub to_short : ℕ → ℤ
to_short n = let m = n % 2 ^ 16 in if ltb m (2 ^ 15) then pos m else negsuc (2 ^ 16 - 1 - m)

-- `assign`: `d` is `*this`, and `s` another object.
unfoldable pub assign : Domain → Domain → Domain
assign d s =
    let copy : Domain = record {
      name = s.name;
      sources = s.sources;
      recipients = d.recipients;
      ngram_match = empty;
      word_match = empty;
      ngram_threshold = s.ngram_threshold;
      word_threshold = s.word_threshold;
      refresh_sec = s.refresh_sec;
      retry_sec = s.retry_sec;
      retries = s.retries;
      failure_count = negsuc 0;
      ngram_size = s.ngram_size;
      matcher_ngram_size = s.ngram_size;
      fix_recipient = s.fix_recipient;
    } in
    if is_zero s.failure_count
    then record (add_recipients (record copy { recipients = s.recipients }) s.recipients) {
      failure_count = pos 0;
    }
    else if ltb_ℤ s.failure_count (negsuc 0)
    then record copy { failure_count = s.failure_count }
    else copy

-- A new domain with the configuration of `d`, as `refresh` makes it. The constructor leaves both
-- matchers empty, the one for n-grams with the size 3.
unfoldable pub clone : Domain → Domain
clone d = record {
  name = d.name;
  sources = d.sources;
  recipients = [];
  ngram_match = empty;
  word_match = empty;
  ngram_threshold = d.ngram_threshold;
  word_threshold = d.word_threshold;
  refresh_sec = d.refresh_sec;
  retry_sec = d.retry_sec;
  retries = d.retries;
  failure_count = d.failure_count;
  ngram_size = d.ngram_size;
  matcher_ngram_size = 3;
  fix_recipient = d.fix_recipient;
}

-- The period to wait after failure number `cnt`.
unfoldable pub retry_time : Domain → ℕ → ℕ
retry_time d cnt = elim (get_elem? d.retries cnt) [ none ↦ d.retry_sec | some t ↦ t ]

-- `failure_count < 0? 0: failure_count`
unfoldable pub failures : ℤ → ℕ
failures n = pos_part n

-- The result of `refresh`: the domain to use from then on, or what is thrown and the old domain with
-- its new failure count; and when the next refresh of that domain is scheduled, if it is.
pub data Refreshed : Type 0 where
  renewed : Domain → Option ℕ → Refreshed
  failed : Domain → Failure → Option ℕ → Refreshed

-- `if (t) schedule(...)`
abbrev pub after : ℕ → Option ℕ
after t = if t == 0 then none else some t

module _ (read : Source → Reading) where
  -- The loop over the sources: the first one that throws ends it.
  unfoldable pub load_sources : Bytes → List Source → List Bytes → List Bytes × Option Failure
  load_sources domname [] rs = (rs, none)
  load_sources domname (s ∷ ss) rs =
      let r = Source.load_data domname rs (read s) in
      elim r.1 [ none ↦ load_sources domname ss r.0 | some f ↦ (r.0, some f) ]

  abbrev pub loaded : Domain → List Bytes × Option Failure → Domain × Option Failure
  loaded d (rs, none) =
      (record (rebuild (record d { recipients = rs })) { failure_count = pos 0 }, none)
  loaded d (rs, some f) = (record d { recipients = rs }, some f)

  -- `Domain::load_data`, and what it throws.
  unfoldable pub load_data : Domain → Domain × Option Failure
  load_data d =
      if is_disabled d.failure_count
      then (d, none)
      else loaded d (load_sources d.name d.sources d.recipients)

  -- From the `try` on.
  unfoldable pub settle : Domain → Domain × Option Failure → Refreshed
  settle d (d', none) = renewed d' (after d.refresh_sec)
  settle d (d', some f) =
      let cnt = failures d.failure_count in
      failed (record d { failure_count = to_short (cnt + 1) }) f (after (retry_time d cnt))

  -- `Domain::refresh`
  unfoldable pub refresh : Domain → Refreshed
  refresh d =
      if is_disabled d.failure_count
      then failed d already_logged none
      else settle d (load_data (clone d))
