-- ===== src/Tests/Loading.antt =====
-- Loading, copying and refreshing domains at concrete inputs.
use undervest.Prelude.{
  ℕ, length, ◌<◌, ◌≡◌, ◌↔◌, ◌⊎◌, refl, Bool, true, false, Option, none, some, List, [], ◌∷◌, Bytes,
  codes, count, beq, All, arith, if◌then◌else◌,
}
use undervest.Prelude.Int.{ℤ, pos, negsuc}
use undervest.Configuration.Retries
use undervest.Configuration.Retries.{
  positives, retries_of, running, distinct, sort_periods, retries_exact,
}
use undervest.Stringlib
use undervest.Reload.{Globals, TimedRefresh, find_entry, domain_refresher}
use undervest.Reload.Refresher.{after_event, find_entry-domain_refresher}
use undervest.Source.Loader
use undervest.Source.Loader.{load_loader}
use undervest.Source
use undervest.Source.{
  Source, Failure, Reading, already_logged, exception, open_throws, gives, load_entries,
}
use undervest.Source.Entries.{Offers, load_entries-count}
use undervest.Matcher.{empty}
use undervest.Domain
use undervest.Domain.{Domain}
use undervest.Domain.Lifecycle
use undervest.Domain.Lifecycle.{assign, clone, after, load_sources, load_data, renewed, refresh}
use undervest.Domain.Renewed.{IsRenewed, refresh-renewed}
use undervest.Tests.{home}

abbrev aliases : List Bytes
aliases = codes "Bob@EXAMPLE.com" ∷ codes "eve@elsewhere.net" ∷ codes "Ann" ∷ [] ∷ codes "late" ∷ []

-- of the five strings, two give a recipient
aliases_loaded :
    load_entries (codes "example.com") [] aliases none ≡ (codes "ann" ∷ codes "bob" ∷ [], none)
unfolding load_entries Source.emplace Source.local_part Stringlib.find_char count Source.same_name
    beq Stringlib.strtolower Source.c_str Stringlib.lower
aliases_loaded = refl

load_entries-count_example :
    (0 < count (codes "bob") (load_entries (codes "example.com") [] aliases none).0)
    ↔ (Offers (codes "example.com") (codes "bob") aliases ⊎ (0 < count (codes "bob") []))
load_entries-count_example = load_entries-count (codes "example.com") (codes "bob") [] aliases none

abbrev village : Domain
village = record {
  name = codes "example.com";
  sources = record { uri = codes "/etc/aliases"; loader = codes "sendmail" } ∷ [];
  recipients = [];
  ngram_match = empty;
  word_match = empty;
  ngram_threshold = 52428;
  word_threshold = 32767;
  refresh_sec = 3600;
  retry_sec = 900;
  retries = 30 ∷ 270 ∷ [];
  failure_count = negsuc 0;
  ngram_size = 3;
  matcher_ngram_size = 3;
  fix_recipient = true;
}

abbrev reads : Source → Reading
reads _ = gives aliases none

abbrev breaks : Source → Reading
breaks _ = open_throws already_logged

home-sizes : home.matcher_ngram_size ≡ home.ngram_size
unfolding Domain.rebuild Domain.add_recipients
home-sizes = refl

village-renewed : refresh reads village ≡ renewed (load_data reads (clone village)).0 (some 3600)
unfolding refresh Lifecycle.settle load_data clone load_sources Source.load_data load_entries
village-renewed = refl

village_short : All (λ r. length r < 2147483647) (load_data reads (clone village)).0.recipients
unfolding load_data clone load_sources Source.load_data load_entries Source.emplace
    Source.local_part Stringlib.find_char count Source.same_name beq Stringlib.strtolower
    Source.c_str Stringlib.lower Domain.rebuild Domain.add_recipients
village_short = (omega arith, (omega arith, tt))

refresh-renewed_example : IsRenewed reads village (load_data reads (clone village)).0 (some 3600)
refresh-renewed_example =
    refresh-renewed reads village (load_data reads (clone village)).0 (some 3600) village-renewed
      village_short

-- 60 is configured twice, and -5 is ignored
abbrev periods : List ℤ
periods = pos 60 ∷ pos 300 ∷ negsuc 4 ∷ pos 60 ∷ []

retries_exact_example :
    (0 < length (positives periods)
      → (ds : List ℕ) × (retries_of periods ≡ some ds)
        × (running 0 ds ≡ distinct (sort_periods (positives periods))))
    × (length (positives periods) ≡ 0 → 1 < length periods → retries_of periods ≡ none)
retries_exact_example = retries_exact periods

two_retries : retries_of periods ≡ some (60 ∷ 240 ∷ [])
unfolding retries_of positives sort_periods Retries.insert_period Retries.relative_periods
two_retries = refl

-- A linker that knows two libraries, of which one is no loader.
abbrev two_libraries : Bytes → Option (Bytes → Bool)
two_libraries path =
    if beq path (codes "/opt/ldap.so")
    then some (λ name. false)
    else if beq path (codes "/usr/lib/libldap.so")
    then some (λ name. true)
    else none

abbrev two_places : List Bytes
two_places = codes "/opt" ∷ codes "/usr/lib/" ∷ []

found_by_name :
    load_loader two_libraries two_places (codes "ldap") ≡ some (codes "/usr/lib/libldap.so")
unfolding load_loader Loader.search_loader Loader.search_names Loader.search_path Loader.open_loader
    Loader.directory Loader.ends_in_slash Loader.is_absolute beq
found_by_name = refl

abbrev one_name : Source → Reading
one_name s = gives (codes "ann" ∷ []) none

abbrev in_use : Globals
in_use = record {
  generation = 3;
  domains = (codes "example.com", record { serial = 7; domain = home }) ∷ [];
  fresh = 9;
  scheduled = [];
  logged = [];
}

abbrev home_event : TimedRefresh
home_event = record { generation = 3; name = codes "example.com"; serial = 7 }

find_entry-domain_refresher_example :
    find_entry (codes "example.com") (domain_refresher one_name in_use home_event).domains
    ≡ after_event one_name in_use home_event
        (codes "example.com")
        (find_entry (codes "example.com") in_use.domains)
find_entry-domain_refresher_example =
    find_entry-domain_refresher one_name in_use home_event (codes "example.com")

-- an event that is older than the configuration
old_event : domain_refresher one_name in_use (record home_event { generation = 2 }) ≡ in_use
unfolding domain_refresher
old_event = refl
