-- ===== src/Domain/Renewed.antt =====
-- What `Domain::refresh` of src/milter/domain.cpp leaves when it succeeds.
use undervest.Prelude.{
  ◌<◌, ◌≡◌, ◌↔◌, ◌⊎◌, inl, inr, refl, ap, ℕ, Option, none, some, List, [], ◌∷◌, Bytes, All, count,
  length, arith,
}
use undervest.Source
use undervest.Source.{
  Source, Failure, already_logged, exception, Reading, open_throws, gives, load_entries, rethrow,
}
use undervest.Source.Entries.{Offers, load_entries-count}
use undervest.Domain.{Domain}
use undervest.Domain.Recipient.{IsLoaded}
use undervest.Domain.Lifecycle.{load_sources, renewed, refresh}
use undervest.Domain.Refresh.{HasSettings, refresh-loaded}

-- The strings end with the empty one, not with an exception.
abbrev pub EndsWell : List Bytes → Option Failure → Type 0
EndsWell [] f = f ≡ none
EndsWell ([] ∷ es) f = Unit {0}
EndsWell ((c ∷ e) ∷ es) f = EndsWell es f

abbrev pub Succeeds : Reading → Type 0
Succeeds (open_throws f) = ⊥
Succeeds (gives es f) = EndsWell es f

abbrev pub Gives : Bytes → Bytes → Reading → Type 0
Gives domname r (open_throws f) = ⊥
Gives domname r (gives es f) = Offers domname r es

-- One of the sources gives the recipient `r`.
abbrev pub Given : (Source → Reading) → Bytes → Bytes → List Source → Type 0
Given read domname r [] = ⊥
Given read domname r (s ∷ ss) = Gives domname r (read s) ⊎ Given read domname r ss

load_entries-EndsWell :
    (domname : Bytes) (es rs : List Bytes) (f : Option Failure)
    → (load_entries domname rs es f).1 ≡ none
    → EndsWell es f
unfolding load_entries
load_entries-EndsWell domname [] rs f e = e
load_entries-EndsWell domname ([] ∷ es) rs f e = tt
load_entries-EndsWell domname ((c ∷ e) ∷ es) rs f h = load_entries-EndsWell domname es _ f h

rethrow-none : (o : Option Failure) → rethrow o ≡ none → o ≡ none
rethrow-none none e = refl
rethrow-none (some already_logged) e = absurd cc
rethrow-none (some (exception msg)) e = absurd cc

load_data-Succeeds :
    (domname : Bytes) (rs : List Bytes) (reading : Reading)
    → (Source.load_data domname rs reading).1 ≡ none
    → Succeeds reading
      × ((r : Bytes)
          → (0 < count r (Source.load_data domname rs reading).0)
            ↔ (Gives domname r reading ⊎ (0 < count r rs)))
unfolding Source.load_data
load_data-Succeeds domname rs (open_throws already_logged) e = absurd cc
load_data-Succeeds domname rs (open_throws (exception msg)) e = absurd cc
load_data-Succeeds domname rs (gives es f) e = (
  load_entries-EndsWell domname es rs f (rethrow-none _ e),
  λ r. load_entries-count domname r rs es f,
)

module _ (read : Source → Reading) (domname : Bytes) where
  load_sources-next :
      (s : Source) (ss : List Source) (rs rs' : List Bytes)
      → load_sources read domname (s ∷ ss) rs ≡ (rs', none)
      → ((Source.load_data domname rs (read s)).1 ≡ none)
        × (load_sources read domname ss (Source.load_data domname rs (read s)).0 ≡ (rs', none))
  unfolding load_sources
  load_sources-next s ss rs rs' e = go (Source.load_data domname rs (read s)) e
    where
      go :
          (r : List Bytes × Option Failure)
          → (elim r.1 as (λ _. List Bytes × Option Failure) [
            | none ↦ load_sources read domname ss r.0
            | some f ↦ (r.0, some f)
          ])
            ≡ (rs', none)
          → (r.1 ≡ none) × (load_sources read domname ss r.0 ≡ (rs', none))
      go (xs, none) h = (refl, h)
      go (xs, some f) h = absurd (let k = ap (λ (p : List Bytes × Option Failure). p.1) h in cc)

  load_sources-Succeeds :
      (ss : List Source) (rs rs' : List Bytes)
      → load_sources read domname ss rs ≡ (rs', none)
      → All (λ s. Succeeds (read s)) ss
        × ((r : Bytes) → (0 < count r rs') ↔ (Given read domname r ss ⊎ (0 < count r rs)))
  load_sources-Succeeds [] rs rs' e = (
    tt,
    λ r.
        let same : rs ≡ rs' =
          unfold load_sources in ap (λ (p : List Bytes × Option Failure). p.0) e in
        rw (← same) (inr, λ h. elim h [ inl k ↦ elim k [ ] | inr k ↦ k ]),
  )
  load_sources-Succeeds (s ∷ ss) rs rs' e =
      let (first, rest) = load_sources-next s ss rs rs' e in
      let (well, here) = load_data-Succeeds domname rs (read s) first in
      let (all, there) =
        load_sources-Succeeds ss (Source.load_data domname rs (read s)).0 rs' rest in
      ((well, all), λ r. joined (there r) (here r))
    where
      joined : {A B C D E : Type 0} → A ↔ (B ⊎ C) → C ↔ (D ⊎ E) → A ↔ ((D ⊎ B) ⊎ E)
      joined h k = (
        λ a. elim (h.0 a) [
          | inl b ↦ inl (inr b)
          | inr c ↦ elim (k.0 c) [ inl d ↦ inl (inl d) | inr x ↦ inr x ]
        ],
        λ x. elim x [
          | inl y ↦ elim y [ inl d ↦ h.1 (inr (k.1 (inl d))) | inr b ↦ h.1 (inl b) ]
          | inr y ↦ h.1 (inr (k.1 (inr y)))
        ],
      )

pub record IsRenewed (read : Source → Reading) (d d' : Domain) (t : Option ℕ) : Type 0 where
  pub loaded : IsLoaded d'
  pub settings : HasSettings d d'
  pub all_read : All (λ s. Succeeds (read s)) d.sources
  pub recipients : (r : Bytes) → (0 < count r d'.recipients) ↔ Given read d.name r d.sources
  pub next : 0 < d.refresh_sec → t ≡ some d.refresh_sec
  pub never : d.refresh_sec ≡ 0 → t ≡ none

-- If a refresh succeeds, and the recipients have less than 2 ^ 31 - 1 characters, then no source failed
-- to open, and none ended with an exception; the domain it gives is loaded, with the configuration of
-- the old one and an n-gram matcher of the configured size; its recipients are exactly the local parts
-- that its sources give for it in front of their first empty string, and no earlier one; and the next
-- refresh is due after the refresh period, or never if that is 0.
pub refresh-renewed :
    (read : Source → Reading) (d d' : Domain) (t : Option ℕ)
    → refresh read d ≡ renewed d' t
    → All (λ r. length r < 2147483647) d'.recipients
    → IsRenewed read d d' t
refresh-renewed read d d' t e short =
    let (is_loaded, same, read_all, due) = refresh-loaded read d d' t e in
    let (all, known) = load_sources-Succeeds read d.name d.sources [] d'.recipients read_all in
    record {
      loaded = is_loaded;
      settings = same;
      all_read = all;
      recipients = λ r. (
        λ h. elim ((known r).0 h) [ inl g ↦ g | inr n ↦ absurd (unfold count in omega (arith, n)) ],
        λ g. (known r).1 (inl g),
      );
      next = λ h. ground arith;
      never = λ h. ground arith;
    }
