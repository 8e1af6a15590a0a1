-- ===== src/Domain/Load.antt =====
-- Matchers built anew hold the recipients, in the order of the set.
use undervest.Prelude.{◌≡◌, refl, List, [], ◌∷◌, Bytes}
use undervest.Prelude.Int.{pos}
use undervest.Matcher.{empty, add}
use undervest.Matcher.Exact.{add_all}
use undervest.Slices.{ngram_slice, word_slice}
use undervest.Domain.{Domain, add_recipients, rebuild}
use undervest.Domain.Recipient.{IsLoaded}

pub add_recipients-add_all :
    (d : Domain) (rs : List Bytes)
    → add_recipients d rs ≡ record d {
      ngram_match = add_all (ngram_slice d.matcher_ngram_size) d.ngram_match rs;
      word_match = add_all word_slice d.word_match rs;
    }
unfolding add_recipients add_all
add_recipients-add_all d [] = refl
add_recipients-add_all d (r ∷ rs) =
    add_recipients-add_all
      (record d {
        ngram_match = add (ngram_slice d.matcher_ngram_size) d.ngram_match r;
        word_match = add word_slice d.word_match r;
      })
      rs

-- the matchers of `rebuild`, field by field
pub rebuild-add_all :
    (d : Domain)
    → rebuild d ≡ record d {
      matcher_ngram_size = d.ngram_size;
      ngram_match = add_all (ngram_slice d.ngram_size) empty d.recipients;
      word_match = add_all word_slice empty d.recipients;
    }
unfolding rebuild
rebuild-add_all d =
    add_recipients-add_all
      (record d { ngram_match = empty; matcher_ngram_size = d.ngram_size; word_match = empty })
      d.recipients

pub rebuild-IsLoaded : (d : Domain) → d.failure_count ≡ pos 0 → IsLoaded (rebuild d)
rebuild-IsLoaded d e =
    rw (rebuild-add_all d) (record { no_failure = e; ngrams = refl; words = refl })
