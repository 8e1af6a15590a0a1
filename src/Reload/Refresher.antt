-- ===== src/Reload/Refresher.antt =====
-- Which domains the refresher of src/milter/domain.cpp changes.
use undervest.Prelude.{
  ◌≡◌, refl, sym, ap, ◌∙◌, Bool, true, false, ◌&&◌, Option, none, some, List, [], ◌∷◌, ◌==◌,
  if◌then◌else◌, Bytes, beq, beq_iff, Bool-cases, Option-cases, inl, inr,
}
use undervest.Source.{Source, Reading}
use undervest.Domain.Lifecycle.{refresh}
use undervest.Reload.{
  Entry, TimedRefresh, Globals, find_entry, replace_entry, entry_after, put_back, refresh_found,
  domain_refresher,
}

abbrev replaced : Bool → Entry → Option Entry → Option Entry
replaced b y none = none
replaced b y (some x) = some (if b then y else x)

put_first :
    (b : Bool) (x y : Entry) (r : Option Entry)
    → (if b then some y else r) ≡ replaced b y (if b then some x else r)
put_first true x y r = refl
put_first false x y none = refl
put_first false x y (some z) = refl

others : (k name n : Bytes) → beq n name ≡ false → beq n k ≡ true → beq name k ≡ false
others k name n e a = elim (Bool-cases (beq name k)) [
  | inl b ↦
      let p = (beq_iff n k).0 a in
      let q = (beq_iff name k).0 b in let z = (beq_iff n name).1 (p ∙ sym q) in absurd cc
  | inr b ↦ b
]

find_entry-replace_entry :
    (k name : Bytes) (y : Entry) (ds : List (Bytes × Entry))
    → find_entry k (replace_entry name y ds) ≡ replaced (beq name k) y (find_entry k ds)
unfolding find_entry replace_entry
find_entry-replace_entry k name y [] = refl
find_entry-replace_entry k name y ((n, x) ∷ ds) = elim (Bool-cases (beq n name)) [
  | inl e ↦ rw e (
      put_first (beq n k) x y (find_entry k ds)
      ∙ ap (λ (z : Bytes). replaced (beq z k) y (if beq n k then some x else find_entry k ds))
          ((beq_iff n name).0 e))
  | inr e ↦ elim (Bool-cases (beq n k)) [
    | inl a ↦ rw e (rw a (rw (others k name n e a) refl))
    | inr a ↦ rw e (rw a (find_entry-replace_entry k name y ds))
  ]
]

-- The entry of a name after an event: the refreshed one if it is the entry that the event is for, in
-- the configuration that the event is for.
abbrev pub after_event :
    (Source → Reading) → Globals → TimedRefresh → Bytes → Option Entry → Option Entry
after_event read g e k none = none
after_event read g e k (some x) = some (
    if beq e.name k && (e.generation == g.generation && x.serial == e.serial)
    then entry_after g.fresh x (refresh read x.domain)
    else x)

abbrev is_for : Globals → TimedRefresh → Bytes → Entry → Bool
is_for g e k x = beq e.name k && (e.generation == g.generation && x.serial == e.serial)

untouched :
    (read : Source → Reading) (g : Globals) (e : TimedRefresh) (k : Bytes) (o : Option Entry)
    → ((x : Entry) → o ≡ some x → is_for g e k x ≡ false)
    → o ≡ after_event read g e k o
untouched read g e k none h = refl
untouched read g e k (some x) h = rw (h x refl) refl

absent :
    (g : Globals) (e : TimedRefresh) (k : Bytes) (o : Option Entry) (x : Entry) (b : Bool)
    → (beq e.name k ≡ true → o ≡ none)
    → o ≡ some x
    → (beq e.name k && b) ≡ false
absent g e k o x b h q = elim (Bool-cases (beq e.name k)) [
  | inl a ↦ absurd (let z : none ≡ some x = sym (h a) ∙ q in cc)
  | inr a ↦ rw a refl
]

stale : (b c d : Bool) → c ≡ false → (b && (c && d)) ≡ false
stale true c d h = rw h refl
stale false c d h = refl

other_serial : (b c d : Bool) → (b ≡ true → d ≡ false) → (b && (c && d)) ≡ false
other_serial true true d h = h refl
other_serial true false d h = refl
other_serial false c d h = refl

-- where the event is for the entry that is there
current :
    (read : Source → Reading) (g : Globals) (e : TimedRefresh) (k : Bytes) (x : Entry) (b : Bool)
    (o : Option Entry)
    → (e.generation == g.generation) ≡ true
    → (x.serial == e.serial) ≡ true
    → beq e.name k ≡ b
    → (b ≡ true → o ≡ some x)
    → replaced b (entry_after g.fresh x (refresh read x.domain)) o ≡ after_event read g e k o
current read g e k x b none c s q h = refl
current read g e k x true (some z) c s q h =
    let p : z ≡ x = (let w : some z ≡ some x = h refl in cc) in rw (q, c, p, s) refl
current read g e k x false (some z) c s q h = rw q refl

-- An event of the refresher changes the domain for which it was scheduled, and no other: and not even
-- that if the configuration or the domain has been replaced since.
pub find_entry-domain_refresher :
    (read : Source → Reading) (g : Globals) (e : TimedRefresh) (k : Bytes)
    → find_entry k (domain_refresher read g e).domains
      ≡ after_event read g e k (find_entry k g.domains)
unfolding domain_refresher refresh_found put_back
find_entry-domain_refresher read g e k = elim (Bool-cases (e.generation == g.generation)) [
  | inr c ↦ rw c (untouched read g e k (find_entry k g.domains) (λ x q. stale (beq e.name k) _ _ c))
  | inl c ↦ elim (Option-cases (find_entry e.name g.domains)) [
    | inl n ↦ rw c (
        rw n (
          untouched read g e k (find_entry k g.domains)
            (λ x q. absent g e k (find_entry k g.domains) x _ (λ a. sym (same a) ∙ n) q)))
    | inr (y, n) ↦ rw c (
        rw n (elim (Bool-cases (y.serial == e.serial)) [
          | inl s ↦ rw s (
              find_entry-replace_entry k e.name (entry_after g.fresh y (refresh read y.domain))
                g.domains
              ∙ current read g e k y (beq e.name k) (find_entry k g.domains) c s refl
                  (λ a. sym (same a) ∙ n))
          | inr s ↦ rw s (
              untouched read g e k (find_entry k g.domains) (λ x q.
                other_serial (beq e.name k) _ _ (λ a. serial_of x y (sym q ∙ sym (same a) ∙ n) s)))
        ]))
  ]
]
  where
    serial_of :
        (x y : Entry)
        → some x ≡ some y
        → (y.serial == e.serial) ≡ false
        → (x.serial == e.serial) ≡ false
    serial_of x y p s = let q : x ≡ y = cc in ap (λ (z : Entry). z.serial == e.serial) q ∙ s

    same : beq e.name k ≡ true → find_entry e.name g.domains ≡ find_entry k g.domains
    same a = ap (λ (z : Bytes). find_entry z g.domains) ((beq_iff e.name k).0 a)
