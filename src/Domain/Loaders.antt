-- ===== src/Domain/Loaders.antt =====
-- `load_loaders` of src/milter/domain.cpp. What it prints of the recipients is left out.
use undervest.Prelude.{◌≡◌, refl, Bool, true, false, Option, none, some, List, [], ◌∷◌, Bytes}
use undervest.Prelude.Int.{negsuc}
use undervest.Source.{Source, Reading, Failure, already_logged}
use undervest.Source.Loader.{load_loader}
use undervest.Domain.{Domain}
use undervest.Domain.Lifecycle.{failed, refresh}

-- The loop over the sources: whether each of them has its loader.
unfoldable pub have_loaders : (Bytes → Option (Bytes → Bool)) → List Bytes → List Source → Bool
have_loaders dlopen dirs [] = true
have_loaders dlopen dirs (s ∷ ss) =
    let rest = have_loaders dlopen dirs ss in
    elim (load_loader dlopen dirs s.loader) [ none ↦ false | some path ↦ rest ]

unfoldable pub loaders_found : Domain → Bool → Domain × Option Failure
loaders_found d true = (d, none)
loaders_found d false = (record d { failure_count = negsuc 1 }, some already_logged)

-- `load_loaders`: the domain afterwards, and what is thrown.
unfoldable pub load_loaders :
    (Bytes → Option (Bytes → Bool)) → List Bytes → Domain → Domain × Option Failure
load_loaders dlopen dirs d = loaders_found d (have_loaders dlopen dirs d.sources)

-- A domain with a source without a loader is disabled: a refresh reads none of its sources.
refresh-loaders_found :
    (read : Source → Reading) (d : Domain)
    → refresh read (loaders_found d false).0
      ≡ failed (record d { failure_count = negsuc 1 }) already_logged none
unfolding refresh loaders_found
refresh-loaders_found read d = refl
