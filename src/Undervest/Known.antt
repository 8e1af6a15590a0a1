-- ===== src/Undervest/Known.antt =====
-- What one callback answers: known recipients pass, and a rejection changes nothing.
use undervest.Prelude.{
  ℕ, ◌<◌, ◌≡◌, refl, sym, ap, ◌∙◌, Bool, true, false, Option, none, some, List, [], ◌∷◌, Bytes,
  codes, beq, beq_iff, arith, count, leb, length, length-append,
}
use undervest.Stringlib.{strtolower}
use undervest.Domain.{Domain}
use undervest.Domain.Recipient.{IsLoaded, IsModest}
use undervest.Configuration
use undervest.Configuration.{
  Configuration, Answer, find_domain, split, bare, has_lt_gt, whole, warn_luser, with_domain,
  with_parts, ask, unchanged,
}
use undervest.Configuration.Address.{IsPlain}
use undervest.Configuration.Decision.{decision, SameRules, recipient-decision, known_address}
use undervest.Undervest.{
  Undervest, proceed, reject, trace, note, respond, respond_to, envelope_recipient,
}

respond_to_same :
    (u : Undervest) (s : Bytes) (argv : List Bytes) (a : Answer)
    → 0 < length s
    → u.debug < 2
    → a.config ≡ u.conf
    → respond_to u s false argv a s ≡ (proceed, u)
unfolding respond_to note trace
respond_to_same u [] argv a some_s quiet same = absurd (omega arith)
respond_to_same u (c ∷ s) argv a some_s quiet same =
    rw (same, ltb_debug, (beq_iff (c ∷ s) (c ∷ s)).1 refl) refl
  where
    ltb_debug : leb 2 u.debug ≡ false
    ltb_debug = ground arith

whole_pos : (lt_gt : Bool) (r domain : Bytes) → 0 < length (whole lt_gt r domain)
unfolding whole
whole_pos false r domain = omega (arith, length-append r (b'@' ∷ domain))
whole_pos true r domain = omega arith

-- For an address that, in lower case, is that of a recipient of a loaded domain, in brackets or
-- not, and a mailer other than `error`, the callback lets it pass and records nothing, below the
-- debug level that logs it.
pub known_passes :
    (u : Undervest) (d : Domain) (r domain address mailer : Bytes) (argv : List Bytes)
    (lt_gt : Bool)
    → find_domain domain u.conf.domains ≡ some d
    → IsLoaded d
    → IsModest d r
    → 0 < count r d.recipients
    → IsPlain r domain
    → strtolower address ≡ whole lt_gt r domain
    → beq mailer (codes "error") ≡ false
    → u.debug < 2
    → envelope_recipient u address argv mailer ≡ some (proceed, u)
unfolding envelope_recipient respond warn_luser
known_passes u d r domain address mailer argv lt_gt found loaded modest known plain lower ok quiet =
    ap (λ (s : Bytes). respond u s in_error argv (Configuration.recipient u.conf s in_error)) lower
    ∙ ap (λ (b : Bool). respond u w b argv (Configuration.recipient u.conf w b)) ok
    ∙ ap (respond u w false argv)
        (known_address u.conf d r domain lt_gt false found loaded modest known plain)
    ∙ ap some (respond_to_same u w argv _ (whole_pos lt_gt r domain) quiet refl)
  where
    w : Bytes
    w = whole lt_gt r domain

    in_error : Bool
    in_error = beq mailer (codes "error")

reject_to :
    (u u' : Undervest) (s : Bytes) (in_error : Bool) (argv : List Bytes) (a : Answer) (m : Bytes)
    (status : ℕ) (extended message : Bytes)
    → SameRules u.conf a.config
    → respond_to u s in_error argv a m ≡ (reject status extended message, u')
    → (m ≡ [])
      × (status ≡ u.conf.smtp_status)
      × (extended ≡ u.conf.smtp_extended)
      × (message ≡ u.conf.smtp_message)
      × (u'.rejected ≡ u.rejected)
      × (u'.added ≡ u.added)
      × (u'.maybe ≡ u.maybe)
unfolding respond_to
reject_to u u' s in_error argv a [] status extended message rules e =
    let p : a.config.smtp_status ≡ status = cc in
    let q : a.config.smtp_extended ≡ extended = cc in
    let r : a.config.smtp_message ≡ message = cc in
    let w : record u { conf = a.config } ≡ u' = cc in
    (
      refl,
      sym p ∙ rules.status,
      sym q ∙ rules.extended,
      sym r ∙ rules.message,
      ap (λ (x : Undervest). x.rejected) (sym w),
      ap (λ (x : Undervest). x.added) (sym w),
      ap (λ (x : Undervest). x.maybe) (sym w),
    )
reject_to u u' s in_error argv a (c ∷ m) status extended message rules e = absurd cc

-- A rejection has the status, the extended status and the message of the configuration, comes only
-- of an address that the domains decide against, and records nothing.
pub reject_records_nothing :
    (u u' : Undervest) (address mailer : Bytes) (argv : List Bytes) (status : ℕ)
    (extended message : Bytes)
    → envelope_recipient u address argv mailer ≡ some (reject status extended message, u')
    → ((f : Option Bool) × (decision u.conf.domains (strtolower address) ≡ some ([], f)))
      × (status ≡ u.conf.smtp_status)
      × (extended ≡ u.conf.smtp_extended)
      × (message ≡ u.conf.smtp_message)
      × (u'.rejected ≡ u.rejected)
      × (u'.added ≡ u.added)
      × (u'.maybe ≡ u.maybe)
unfolding envelope_recipient
reject_records_nothing u u' address mailer argv status extended message e =
    go (Configuration.recipient u.conf s in_error) refl e
  where
    s : Bytes
    s = strtolower address

    in_error : Bool
    in_error = beq mailer (codes "error")

    go :
        (o : Option Answer)
        → Configuration.recipient u.conf s in_error ≡ o
        → respond u s in_error argv o ≡ some (reject status extended message, u')
        → ((f : Option Bool) × (decision u.conf.domains s ≡ some ([], f)))
          × (status ≡ u.conf.smtp_status)
          × (extended ≡ u.conf.smtp_extended)
          × (message ≡ u.conf.smtp_message)
          × (u'.rejected ≡ u.rejected)
          × (u'.added ≡ u.added)
          × (u'.maybe ≡ u.maybe)
    go none p q = absurd (unfold respond in cc)
    go (some a) p q =
        let (decided, rules) = recipient-decision u.conf s in_error a p in
        let (nil, st, ex, me, re, ad, ma) =
          reject_to u u' s in_error argv a a.address status extended message rules
            (unfold respond in cc) in
        ((a.fixit, rw (← nil) decided), st, ex, me, re, ad, ma)
