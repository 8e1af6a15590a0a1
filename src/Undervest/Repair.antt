-- ===== src/Undervest/Repair.antt =====
-- No message loses a recipient: each one that is deleted has its replacement added.
use undervest.Prelude.{
  leb, ◌≡◌, ◌≢◌, inl, inr, refl, sym, ap, ◌∙◌, Bool, true, false, not, ◌||◌, Option, none, some,
  List, [], ◌∷◌, if◌then◌else◌, Bytes, codes, beq, beq_iff, All, arith, Bool-cases, count, ◌==◌,
}
use undervest.Stringlib.{strtolower, implode}
use undervest.Domain.{Domain}
use undervest.Configuration
use undervest.Configuration.{Configuration, Answer, log}
use undervest.Configuration.Decision.{decision, recipient-decision}
use undervest.Undervest.{
  Undervest, Verdict, Action, delete_recipient, add_recipient, us_emplace, um_emplace, has_key,
  or_false, trace, note, respond, respond_to, clear, envelope_from, envelope_recipient,
  reject_actions, maybe_actions, end_of_message,
}
use undervest.Undervest.Actions.{
  Occurs, Occurs-append, Occurs-append_right, deleted_All, maybe_deletes_none, added_deletes_none,
  has_key-Occurs,
}
use undervest.Undervest.Session.{Command, session, message}

abbrev pub Domains : Type 0
Domains = List (Bytes × Domain)

-- The domains fix the address `s` to `m`, which is another one.
pub record Fixes (ds : Domains) (s m : Bytes) : Type 0 where
  pub decided : decision ds s ≡ some (m, some true)
  pub changed : m ≢ s

abbrev Replaced : Domains → List (Bytes × Bytes) → Bytes → Type 0
Replaced ds added s = (m : Bytes) × Fixes ds s m × (has_key m added ≡ true)

-- Each deleted address has its replacement among the added ones.
record IsRepaired (ds : Domains) (u : Undervest) : Type 0 where
  same_domains : u.conf.domains ≡ ds
  replaced : All (Replaced ds u.added) u.rejected

um_emplace-key : (m : List (Bytes × Bytes)) (k v : Bytes) → has_key k (um_emplace m k v) ≡ true
unfolding um_emplace has_key
um_emplace-key m k v = ground (arith, beq_iff k k)

um_emplace-keeps :
    (m : List (Bytes × Bytes)) (k v j : Bytes)
    → has_key j m ≡ true
    → has_key j (um_emplace m k v) ≡ true
unfolding um_emplace has_key
um_emplace-keeps m k v j h = ground arith

Replaced-grow :
    (ds : Domains) (m : List (Bytes × Bytes)) (k v : Bytes) (ss : List Bytes)
    → All (Replaced ds m) ss
    → All (Replaced ds (um_emplace m k v)) ss
Replaced-grow ds m k v [] h = tt
Replaced-grow ds m k v (s ∷ ss) ((t, fixes, there), h) =
    ((t, fixes, um_emplace-keeps m k v t there), Replaced-grow ds m k v ss h)

us_emplace-All :
    (ds : Domains) (m : List (Bytes × Bytes)) (ss : List Bytes) (s : Bytes)
    → All (Replaced ds m) ss
    → Replaced ds m s
    → All (Replaced ds m) (us_emplace ss s)
unfolding us_emplace
us_emplace-All ds m ss s h k = elim (Bool-cases (count s ss == 0)) [
  | inl e ↦ rw (e, us_emplace) (k, h)
  | inr e ↦ rw (e, us_emplace) h
]

trace-IsRepaired :
    (ds : Domains) (u : Undervest) (s m : Bytes) (b : Bool)
    → IsRepaired ds u
    → IsRepaired ds (trace u s m b)
unfolding trace log
trace-IsRepaired ds u s m b h = elim (Bool-cases (leb 2 u.debug)) [
  | inl e ↦ rw (e, trace) (record { same_domains = h.same_domains; replaced = h.replaced })
  | inr e ↦ rw (e, trace) h
]

note-IsRepaired :
    (ds : Domains) (u : Undervest) (s m : Bytes) (fixit in_error : Bool) (argv : List Bytes)
    → (fixit ≡ true → decision ds s ≡ some (m, some true))
    → IsRepaired ds u
    → IsRepaired ds (note u s m fixit in_error argv)
unfolding note
note-IsRepaired ds u s m fixit in_error argv decided h = elim (Bool-cases (beq m s || not fixit)) [
  | inl e ↦ rw (e, note) (record { same_domains = h.same_domains; replaced = readded in_error })
  | inr e ↦
      rw (e, note)
        (record {
          same_domains = h.same_domains;
          replaced =
              us_emplace-All ds (um_emplace u.added m args) u.rejected s
                (Replaced-grow ds u.added m args u.rejected h.replaced)
                (m, fixes e, um_emplace-key u.added m args);
        })
]
  where
    args : Bytes
    args = implode (codes " ") argv

    fixes : (beq m s || not fixit) ≡ false → Fixes ds s m
    fixes e = record {
      decided = decided (ground arith);
      changed = λ p. ground (arith, e, (beq_iff m s).1 p);
    }

    readded :
        (b : Bool) → All (Replaced ds (if b then um_emplace u.added s args else u.added)) u.rejected
    readded false = h.replaced
    readded true = Replaced-grow ds u.added s args u.rejected h.replaced

or_false-true : (o : Option Bool) → or_false o ≡ true → o ≡ some true
or_false-true none h = cc
or_false-true (some b) h = ap some h

respond_to-IsRepaired :
    (ds : Domains) (u : Undervest) (s : Bytes) (in_error : Bool) (argv : List Bytes) (a : Answer)
    (m : Bytes)
    → decision ds s ≡ some (m, a.fixit)
    → a.config.domains ≡ ds
    → IsRepaired ds u
    → IsRepaired ds (respond_to u s in_error argv a m).1
unfolding respond_to
respond_to-IsRepaired ds u s in_error argv a [] e same h = record {
  same_domains = same;
  replaced = h.replaced;
}
respond_to-IsRepaired ds u s in_error argv a (c ∷ m) e same h =
    note-IsRepaired ds (trace (record u { conf = a.config }) s (c ∷ m) (or_false a.fixit)) s (c ∷ m)
      (or_false a.fixit) in_error argv (λ q. rw (← or_false-true a.fixit q) e)
      (trace-IsRepaired ds (record u { conf = a.config }) s (c ∷ m) (or_false a.fixit)
        (record { same_domains = same; replaced = h.replaced }))

respond-IsRepaired :
    (ds : Domains) (u u' : Undervest) (s : Bytes) (in_error : Bool) (argv : List Bytes)
    (v : Verdict) (o : Option Answer)
    → Configuration.recipient u.conf s in_error ≡ o
    → IsRepaired ds u
    → respond u s in_error argv o ≡ some (v, u')
    → IsRepaired ds u'
unfolding respond
respond-IsRepaired ds u u' s in_error argv v none p h q = absurd cc
respond-IsRepaired ds u u' s in_error argv v (some a) p h q =
    let (decided, rules) = recipient-decision u.conf s in_error a p in
    let out : (respond_to u s in_error argv a a.address).1 ≡ u' = cc in
    rw (← out) (
      respond_to-IsRepaired ds u s in_error argv a a.address
        (ap (λ (d : Domains). decision d s) (sym h.same_domains) ∙ decided)
        (rules.domains ∙ h.same_domains) h)

envelope_recipient-IsRepaired :
    (ds : Domains) (u u' : Undervest) (c : Command) (v : Verdict)
    → IsRepaired ds u
    → envelope_recipient u c.address c.argv c.mailer ≡ some (v, u')
    → IsRepaired ds u'
unfolding envelope_recipient
envelope_recipient-IsRepaired ds u u' c v h e =
    respond-IsRepaired ds u u' (strtolower c.address) (beq c.mailer (codes "error")) c.argv v _ refl
      h e

session-IsRepaired :
    (ds : Domains) (u u' : Undervest) (cs : List Command)
    → IsRepaired ds u
    → session u cs ≡ some u'
    → IsRepaired ds u'
unfolding session
session-IsRepaired ds u u' [] h e = let q : u ≡ u' = cc in rw (← q) h
session-IsRepaired ds u u' (c ∷ cs) h e =
    go (λ w. session-IsRepaired ds w u' cs) (envelope_recipient u c.address c.argv c.mailer) refl e
  where
    go :
        ((w : Undervest) → IsRepaired ds w → session w cs ≡ some u' → IsRepaired ds u')
        → (o : Option (Verdict × Undervest)) → envelope_recipient u c.address c.argv c.mailer ≡ o
        → (elim o [ none ↦ none | some (v, w) ↦ session w cs ]) ≡ some u'
        → IsRepaired ds u'
    go rest none p q = absurd cc
    go rest (some (v, w)) p q = rest w (envelope_recipient-IsRepaired ds u w c v h p) q

end_of_message-Replaced :
    (ds : Domains) (u : Undervest) (s : Bytes)
    → IsRepaired ds u
    → Occurs (delete_recipient s) (end_of_message u)
    → (m args : Bytes) × Occurs (add_recipient m args) (end_of_message u) × Fixes ds s m
unfolding end_of_message
end_of_message-Replaced ds u s h k =
    elim (Occurs-append (delete_recipient s) (reject_actions u.rejected) _ k) [
      | inl r ↦
          let (m, fixes, there) = deleted_All (Replaced ds u.added) s u.rejected h.replaced r in
          let (v, o) = has_key-Occurs m u.added there in
          (
            m,
            v,
            Occurs-append_right (add_recipient m v) (reject_actions u.rejected) _
                (Occurs-append_right (add_recipient m v) (maybe_actions u.maybe) _ o),
            fixes,
          )
      | inr r ↦ elim (Occurs-append (delete_recipient s) (maybe_actions u.maybe) _ r) [
        | inl p ↦ absurd (maybe_deletes_none s u.maybe p)
        | inr p ↦ absurd (added_deletes_none s u.added p)
      ]
    ]

-- Whatever the recipients of a message are: for each address that is deleted at its end, the
-- replacement that the configured domains decide on, another address, is added.
pub deleted_is_replaced :
    (u : Undervest) (cs : List Command) (actions : List Action) (s : Bytes)
    → message u cs ≡ some actions
    → Occurs (delete_recipient s) actions
    → (m args : Bytes) × Occurs (add_recipient m args) actions × Fixes u.conf.domains s m
unfolding message
deleted_is_replaced u cs actions s e k = out (session (envelope_from u) cs) refl e
  where
    begun : IsRepaired u.conf.domains (envelope_from u)
    begun = unfold envelope_from clear in record { same_domains = refl; replaced = tt }

    out :
        (o : Option Undervest)
        → session (envelope_from u) cs ≡ o
        → (elim o [ none ↦ none | some w ↦ some (end_of_message w) ]) ≡ some actions
        → (m args : Bytes) × Occurs (add_recipient m args) actions × Fixes u.conf.domains s m
    out none p q = absurd cc
    out (some w) p q =
        let r : end_of_message w ≡ actions = cc in
        rw (← r) (
          end_of_message-Replaced u.conf.domains w s
            (session-IsRepaired u.conf.domains (envelope_from u) w cs begun p) (rw r k))
