-- ===== src/Configuration/Decision.antt =====
-- What `Configuration::recipient` decides, and what it leaves as it is.
use undervest.Prelude.{
  ◌<◌, ◌≡◌, refl, ap, ◌∙◌, Bool, false, Option, none, some, List, [], Bytes, arith, count,
}
use undervest.Stringlib.{blanks, trim}
use undervest.Domain
use undervest.Domain.{Domain}
use undervest.Domain.Recipient.{IsLoaded, IsModest}
use undervest.Domain.Perfect.{recipient_known}
use undervest.Configuration
use undervest.Configuration.{
  Configuration, Answer, find_domain, has_lt_gt, bare, split, whole, warn_luser, ask, unchanged,
  with_domain, with_parts, domain_log, log,
}
use undervest.Configuration.Address.{IsPlain, split-joined, trim-whole, has_lt_gt-whole, bare-whole}

-- What a domain says of a recipient, as an address.
unfoldable pub replied :
    Bool → Bytes → Domain → Option (Option Bytes) → Option (Bytes × Option Bool)
replied lt_gt domain d none = none
replied lt_gt domain d (some none) = some ([], none)
replied lt_gt domain d (some (some t)) = some (whole lt_gt t domain, some d.fix_recipient)

abbrev decide_domain : Bytes → Bool → Bytes → Bytes → Option Domain → Option (Bytes × Option Bool)
decide_domain s lt_gt r domain none = some (s, none)
decide_domain s lt_gt r domain (some d) = replied lt_gt domain d (Domain.recipient d r)

abbrev decide_parts :
    List (Bytes × Domain) → Bytes → Bool → Option (Bytes × Bytes) → Option (Bytes × Option Bool)
decide_parts ds s lt_gt none = some (s, none)
decide_parts ds s lt_gt (some (r, domain)) = decide_domain s lt_gt r domain (find_domain domain ds)

-- The address and the flag for `s`, from the domains alone.
unfoldable pub decision : List (Bytes × Domain) → Bytes → Option (Bytes × Option Bool)
decision ds s = decide_parts ds s (has_lt_gt (trim s blanks)) (split (bare (trim s blanks)))

-- Nothing but the log and the flag of the warning differs.
pub record SameRules (c c' : Configuration) : Type 0 where
  pub domains : c'.domains ≡ c.domains
  pub status : c'.smtp_status ≡ c.smtp_status
  pub extended : c'.smtp_extended ≡ c.smtp_extended
  pub message : c'.smtp_message ≡ c.smtp_message
  pub min_level : c'.minloglevel ≡ c.minloglevel
  pub max_level : c'.maxloglevel ≡ c.maxloglevel

same : (c : Configuration) → SameRules c c
same c = record {
  domains = refl;
  status = refl;
  extended = refl;
  message = refl;
  min_level = refl;
  max_level = refl;
}

warn_luser-SameRules :
    (c : Configuration) (d : Domain) (in_error : Bool) → SameRules c (warn_luser c d in_error)
unfolding warn_luser domain_log log
warn_luser-SameRules c d in_error = record {
  domains = ground arith;
  status = ground arith;
  extended = ground arith;
  message = ground arith;
  min_level = ground arith;
  max_level = ground arith;
}

ask-replied :
    (c : Configuration) (lt_gt : Bool) (d : Domain) (r domain : Bytes) (a : Answer)
    → ask c lt_gt d r domain ≡ some a
    → (replied lt_gt domain d (Domain.recipient d r) ≡ some (a.address, a.fixit)) × (a.config ≡ c)
unfolding ask replied
ask-replied c lt_gt d r domain a e = ground arith

module _ (c : Configuration) (s : Bytes) (in_error : Bool) (a : Answer) where
  unchanged-SameRules :
      unchanged c s ≡ some a
      → (decide_parts [] s false none ≡ some (a.address, a.fixit)) × SameRules c a.config
  unchanged-SameRules e = let q : a.config ≡ c = cc in (cc, rw q (same c))

  with_domain-decide :
      (lt_gt : Bool) (r domain : Bytes) (o : Option Domain)
      → with_domain c s in_error lt_gt r domain o ≡ some a
      → (decide_domain s lt_gt r domain o ≡ some (a.address, a.fixit)) × SameRules c a.config
  unfolding with_domain
  with_domain-decide lt_gt r domain none e = unchanged-SameRules e
  with_domain-decide lt_gt r domain (some d) e =
      let (replies, q) = ask-replied (warn_luser c d in_error) lt_gt d r domain a e in
      (replies, rw q (warn_luser-SameRules c d in_error))

  with_parts-decide :
      (lt_gt : Bool) (o : Option (Bytes × Bytes))
      → with_parts c s in_error lt_gt o ≡ some a
      → (decide_parts c.domains s lt_gt o ≡ some (a.address, a.fixit)) × SameRules c a.config
  unfolding with_parts
  with_parts-decide lt_gt none e = unchanged-SameRules e
  with_parts-decide lt_gt (some (r, domain)) e =
      with_domain-decide lt_gt r domain (find_domain domain c.domains) e

  -- Every answer of `recipient` is the decision of the domains of the configuration, whatever the
  -- mailer, the log and the earlier warnings, and it leaves all settings as they were.
  pub recipient-decision :
      Configuration.recipient c s in_error ≡ some a
      → (decision c.domains s ≡ some (a.address, a.fixit)) × SameRules c a.config
  unfolding Configuration.recipient decision
  recipient-decision e =
      with_parts-decide (has_lt_gt (trim s blanks)) (split (bare (trim s blanks))) e

-- An address of a recipient of a loaded domain is answered as it is, in brackets or not, and the
-- configuration is that after the warning that is due.
pub known_address :
    (c : Configuration) (d : Domain) (u domain : Bytes) (lt_gt in_error : Bool)
    → find_domain domain c.domains ≡ some d
    → IsLoaded d
    → IsModest d u
    → 0 < count u d.recipients
    → IsPlain u domain
    → Configuration.recipient c (whole lt_gt u domain) in_error
      ≡ some (record {
        address = whole lt_gt u domain;
        fixit = some d.fix_recipient;
        config = warn_luser c d in_error;
      })
unfolding Configuration.recipient
known_address c d u domain lt_gt in_error found loaded modest known plain =
    ap (λ (t : Bytes). with_parts c w in_error (has_lt_gt t) (split (bare t)))
      (trim-whole u domain plain lt_gt)
    ∙ ap (λ (b : Bool). with_parts c w in_error b (split (bare w)))
        (has_lt_gt-whole u domain plain lt_gt)
    ∙ ap (λ (t : Bytes). with_parts c w in_error lt_gt (split t)) (bare-whole u domain plain lt_gt)
    ∙ ap (with_parts c w in_error lt_gt) (split-joined u domain plain)
    ∙ unfold with_parts in
      ap (with_domain c w in_error lt_gt u domain) found
      ∙ unfold with_domain ask in rw (recipient_known d u loaded modest known, ask) refl
  where
    w : Bytes
    w = whole lt_gt u domain
