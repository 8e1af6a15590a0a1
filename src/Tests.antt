-- ===== src/Tests.antt =====
-- Concrete runs of the definitions, and the theorems at concrete inputs.
pub mod Milter
pub mod Aliases
pub mod Arguments
pub mod Callbacks
pub mod Checksums
pub mod Loading
pub mod Paths
pub mod Processes
pub mod Servers
pub mod Timers
pub mod Uris
use mathlib.Core.List.{Perm}
use undervest.Prelude.{
  ℕ, ◌+◌, ◌*◌, ◌/◌, ◌≤◌, ◌<◌, ◌≡◌, ◌↔◌, ◌⊎◌, refl, true, false, some, List, [], ◌∷◌, Bytes, codes,
  count, beq, length, All, arith,
}
use undervest.Prelude.Int.{pos}
use undervest.Scaled.{at_least, narrow, of_ulong, div_assign}
use undervest.Substring
use undervest.Substring.{less, equal, compare}
use undervest.Substring.Order.{less_order}
use undervest.Matcher
use undervest.Matcher.{Matcher, MatchResult, empty, u16, score, match}
use undervest.Matcher.Exact.{score_exact, candidates, add_all}
use undervest.Matcher.Results.{IsDescending, match_exact}
use undervest.Slices.{
  windows, ngram_slice, ngram_fits, words, word_slice, is_alpha, is_digit, letters, behind_letters,
  mark,
}
use undervest.Slices.Word.{Words, word_slice-Words}
use undervest.Domain
use undervest.Domain.{Domain, recipient, rebuild}
use undervest.Domain.Recipient.{IsLoaded, IsModest}
use undervest.Domain.Load.{rebuild-IsLoaded}
use undervest.Domain.Perfect.{recipient_known, recipient_sound}

abbrev pub john : Bytes
john = codes "john.doe"

abbrev pub mary : Bytes
mary = codes "mary"

-- the default thresholds 0.8 and 0.5
abbrev pub home : Domain
home = rebuild (record {
  name = codes "example.com";
  sources = [];
  recipients = john ∷ mary ∷ [];
  ngram_match = empty;
  word_match = empty;
  ngram_threshold = 52428;
  word_threshold = 32767;
  refresh_sec = 3600;
  retry_sec = 600;
  retries = [];
  failure_count = pos 0;
  ngram_size = 3;
  matcher_ngram_size = 3;
  fix_recipient = true;
})

pub home-IsLoaded : IsLoaded home
home-IsLoaded = rebuild-IsLoaded _ refl

pub home-IsModest : (s : Bytes) → length s < 2147483647 → IsModest home s
unfolding rebuild Domain.add_recipients
home-IsModest s h = record {
  few = omega arith;
  short = (omega arith, (omega arith, tt));
  tested_short = h;
}

score_example : score 2 (u16 3) 4 ≡ 37448
unfolding score of_ulong div_assign narrow
score_example = refl

score_exact_example :
    (score 2 (u16 3) 4 ≡ 2 * 2 * 65535 / (3 + 4))
    × (score 2 (u16 3) 4 ≤ 65535)
    × ((score 2 (u16 3) 4 ≡ 65535) ↔ ((◌≡◌ {A = ℕ} 2 3) × (◌≡◌ {A = ℕ} 2 4)))
score_exact_example = score_exact 2 3 4 (omega arith) (omega arith) (omega arith) (omega arith)

match_exact_example :
    (rs : List MatchResult) × (match
        (ngram_slice 3)
        (add_all (ngram_slice 3) empty (john ∷ mary ∷ []))
        (codes "jon.doe")
      ≡ some rs)
    × Perm rs (candidates (ngram_slice 3) (john ∷ mary ∷ []) (codes "jon.doe"))
    × IsDescending rs
unfolding ngram_slice windows Matcher.or_empty
match_exact_example =
    match_exact (ngram_slice 3) (john ∷ mary ∷ []) (codes "jon.doe") (omega arith)
      (omega arith, (omega arith, tt)) (omega arith)

fixed : recipient home (codes "jon.doe") ≡ some (some john)
unfolding recipient rebuild Domain.add_recipients Domain.choose at_least match Matcher.add
    Matcher.or_empty Matcher.add_slices Matcher.add_slice Matcher.bump Matcher.sort Matcher.insert
    Matcher.tally Matcher.runs Matcher.flush Matcher.find Matcher.add_common Matcher.add_at
    Matcher.collect score of_ulong div_assign narrow Matcher.sort_results Matcher.insert_result less
    equal compare Substring.traits_compare Substring.compare_size ngram_slice ngram_fits windows
    Domain.match_words word_slice words is_alpha behind_letters is_digit letters
fixed = refl

recipient_known_example : recipient home mary ≡ some (some mary)
unfolding rebuild Domain.add_recipients count beq
recipient_known_example =
    recipient_known home mary home-IsLoaded (home-IsModest mary (omega arith)) (omega arith)

recipient_sound_example : (john ≡ codes "jon.doe") ⊎ (0 < count john home.recipients)
recipient_sound_example =
    recipient_sound home (codes "jon.doe") john home-IsLoaded
      (home-IsModest (codes "jon.doe") (omega arith)) fixed

word_slice-Words_example : Words true (codes "ab1.c") (word_slice (codes "ab1.c") true)
word_slice-Words_example = word_slice-Words (codes "ab1.c") true

less_order_example :
    (less john john ≡ false)
    × (less john mary ≡ true → less mary [] ≡ true → less john [] ≡ true)
    × (less john mary ≡ false → less mary john ≡ false → john ≡ mary)
    × ((equal john mary ≡ true) ↔ (john ≡ mary))
less_order_example = less_order john mary []
