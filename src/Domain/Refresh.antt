-- ===== src/Domain/Refresh.antt =====
-- Copying and refreshing keep a domain usable: what is renewed is loaded, and what failed lets every
-- address pass and is tried again.
use undervest.Prelude.{
  ℕ, ◌<◌, ◌≡◌, refl, sym, ap, ◌∙◌, Bool, true, false, Option, none, some, List, [], if◌then◌else◌,
  Bytes, get_elem?,
}
use undervest.Prelude.Int.{ℤ, pos, negsuc}
use undervest.Matcher.{Matcher, empty}
use undervest.Matcher.Exact.{add_all}
use undervest.Slices.{ngram_slice}
use undervest.Source.{Source, Failure, Reading, already_logged}
use undervest.Domain.{Domain, is_zero, recipient}
use undervest.Domain.Recipient.{IsLoaded}
use undervest.Domain.Load.{rebuild-add_all, add_recipients-add_all}
use undervest.Domain.Lifecycle.{
  assign, clone, after, is_disabled, load_sources, loaded, load_data, renewed, failed, settle,
  refresh,
}

record_same :
    (s : Domain) (m w : Matcher) (n : ℕ) (k : ℤ)
    → m ≡ s.ngram_match
    → w ≡ s.word_match
    → n ≡ s.matcher_ngram_size
    → k ≡ s.failure_count
    → record s { ngram_match = m; word_match = w; matcher_ngram_size = n; failure_count = k } ≡ s
record_same s m w n k p q r o = λ i. record s {
  ngram_match = p i;
  word_match = q i;
  matcher_ngram_size = r i;
  failure_count = o i;
}

-- A copy of a loaded domain is the same domain.
pub assign-loaded :
    (d s : Domain) → IsLoaded s → s.matcher_ngram_size ≡ s.ngram_size → assign d s ≡ s
unfolding assign
assign-loaded d s h e =
    rw (h.no_failure, assign)
      (ap (λ (x : Domain). record x { failure_count = pos 0 })
          (add_recipients-add_all
            (record s {
              ngram_match = empty;
              word_match = empty;
              failure_count = negsuc 0;
              matcher_ngram_size = s.ngram_size;
            })
            s.recipients)
        ∙ record_same (record s { failure_count = pos 0 }) _ _ _ _
            (ap (λ (n : ℕ). add_all (ngram_slice n) empty s.recipients) (sym e) ∙ sym h.ngrams)
            (sym h.words) (sym e) refl)

pub recipient-passes :
    (d : Domain) (s : Bytes) → is_zero d.failure_count ≡ false → recipient d s ≡ some (some s)
unfolding recipient
recipient-passes d s e = rw e refl

-- The period to wait: that of the list, or the continuous one behind its end; 0 stands for never.
pub record IsDue (d : Domain) (n : ℕ) (t : Option ℕ) : Type 0 where
  pub listed : (p : ℕ) → get_elem? d.retries n ≡ some p → 0 < p → t ≡ some p
  pub continuous : get_elem? d.retries n ≡ none → 0 < d.retry_sec → t ≡ some d.retry_sec
  pub zero_listed : get_elem? d.retries n ≡ some 0 → t ≡ none
  pub zero_continuous : get_elem? d.retries n ≡ none → d.retry_sec ≡ 0 → t ≡ none

-- All that a domain is configured with is the same.
pub record HasSettings (d d' : Domain) : Type 0 where
  pub name : d'.name ≡ d.name
  pub sources : d'.sources ≡ d.sources
  pub ngram_threshold : d'.ngram_threshold ≡ d.ngram_threshold
  pub word_threshold : d'.word_threshold ≡ d.word_threshold
  pub refresh_sec : d'.refresh_sec ≡ d.refresh_sec
  pub retry_sec : d'.retry_sec ≡ d.retry_sec
  pub retries : d'.retries ≡ d.retries
  pub ngram_size : d'.ngram_size ≡ d.ngram_size
  pub matcher_ngram_size : d'.matcher_ngram_size ≡ d.ngram_size
  pub fix_recipient : d'.fix_recipient ≡ d.fix_recipient

module _ (read : Source → Reading) (d : Domain) where
  loaded-IsLoaded : (rs : List Bytes) → IsLoaded (loaded read (clone d) (rs, none)).0
  loaded-IsLoaded rs =
      rw (rebuild-add_all (record (clone d) { recipients = rs }))
        (record { no_failure = refl; ngrams = refl; words = refl })

  loaded-recipients : (rs : List Bytes) → (loaded read (clone d) (rs, none)).0.recipients ≡ rs
  loaded-recipients rs =
      ap (λ (x : Domain). x.recipients) (rebuild-add_all (record (clone d) { recipients = rs }))

  loaded-HasSettings : (rs : List Bytes) → HasSettings d (loaded read (clone d) (rs, none)).0
  unfolding clone
  loaded-HasSettings rs = rw (rebuild-add_all (record (clone d) { recipients = rs })) (record {
    name = refl;
    sources = refl;
    ngram_threshold = refl;
    word_threshold = refl;
    refresh_sec = refl;
    retry_sec = refl;
    retries = refl;
    ngram_size = refl;
    matcher_ngram_size = refl;
    fix_recipient = refl;
  })

  settle-renewed :
      (o : List Bytes × Option Failure) (d' : Domain) (t : Option ℕ)
      → settle read d (loaded read (clone d) o) ≡ renewed d' t
      → IsLoaded d'
        × HasSettings d d'
        × (d'.recipients ≡ o.0)
        × (o.1 ≡ none)
        × (t ≡ after d.refresh_sec)
  unfolding settle
  settle-renewed (rs, none) d' t e =
      let p : (loaded read (clone d) (rs, none)).0 ≡ d' = cc in
      let q : after d.refresh_sec ≡ t = cc in
      (
        rw (← p) (loaded-IsLoaded rs),
        rw (← p) (loaded-HasSettings rs),
        ap (λ (x : Domain). x.recipients) (sym p) ∙ loaded-recipients rs,
        refl,
        sym q,
      )
  settle-renewed (rs, some f) d' t e = absurd cc

  -- what a refresh that succeeds gives
  pub refresh-loaded :
      (d' : Domain) (t : Option ℕ)
      → refresh read d ≡ renewed d' t
      → IsLoaded d'
        × HasSettings d d'
        × (load_sources read d.name d.sources [] ≡ (d'.recipients, none))
        × (t ≡ after d.refresh_sec)
  unfolding refresh load_data clone
  refresh-loaded d' t e = go (is_disabled d.failure_count) e
    where
      o : List Bytes × Option Failure
      o = load_sources read d.name d.sources []

      go :
          (b : Bool)
          → (if b
              then failed d already_logged none
              else settle read d (if b then (clone d, none) else loaded read (clone d) o))
            ≡ renewed d' t
          → IsLoaded d' × HasSettings d d' × (o ≡ (d'.recipients, none)) × (t ≡ after d.refresh_sec)
      go true q = absurd cc
      go false q = let (l, k, r, n, a) = settle-renewed o d' t q in (l, k, λ i. (sym r i, n i), a)
