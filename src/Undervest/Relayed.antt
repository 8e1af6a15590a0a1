-- ===== src/Undervest/Relayed.antt =====
-- A message through the callbacks of include/milter.h: what they add up to.
use undervest.Prelude.{
  ℕ, ◌≡◌, refl, sym, ap, ◌∙◌, Bool, Option, none, some, List, [], ◌∷◌, ◌++◌, map, Bytes, codes,
  append_assoc, append-nil, Option-cases, inl, inr,
}
use undervest.Configuration.{Configuration}
use undervest.Milter.{Handlers, Link, Call, settle, relay_to, relay, envfrom, envrcpt, eom}
use undervest.Milter.Callbacks.{Callback, mail_from, rcpt_to, message_ends, handle, handle_all}
use undervest.Undervest.{
  Undervest, Verdict, Action, envelope_from, envelope_recipient, end_of_message,
}
use undervest.Undervest.Session.{Command, session, message}
use undervest.Undervest.Callbacks.{call_of, verdict_calls, recipient_handled, recipient_by, methods}

-- The replies for the recipients that are rejected.
abbrev pub refusals : Undervest → List Command → List Call
refusals u [] = []
refusals u (c ∷ cs) = elim (envelope_recipient u c.address c.argv c.mailer) [
  | none ↦ []
  | some (v, u') ↦ verdict_calls v ++ refusals u' cs
]

-- The recipients of an envelope with the mailers that are chosen for them.
abbrev pub commands : (Bytes → List Bytes → Bytes) → List (Bytes × List Bytes) → List Command
commands mailer [] = []
commands mailer ((address, argv) ∷ rs) =
    record { address = address; argv = argv; mailer = mailer address argv } ∷ commands mailer rs

abbrev pub recipients : List (Bytes × List Bytes) → List Callback
recipients [] = []
recipients ((address, argv) ∷ rs) = rcpt_to address argv ∷ recipients rs

handle_all-append :
    {C : Type 0} (h : Handlers C) (fresh : C) (setpriv : Bool) (es fs : List Callback) (l : Link C)
    → handle_all h fresh setpriv (es ++ fs) l
      ≡ handle_all h fresh setpriv fs (handle_all h fresh setpriv es l)
unfolding handle_all
handle_all-append h fresh setpriv [] fs l = refl
handle_all-append h fresh setpriv (e ∷ es) fs l =
    handle_all-append h fresh setpriv es fs (handle h fresh setpriv e l).1

-- The macro has a value.
abbrev pub known : (Bytes → List Bytes → Bytes) → Bytes → List Bytes → Option Bytes
known mailer address argv = some (mailer address argv)

module _ (debug : ℕ) (conf : Configuration) (mailer : Bytes → List Bytes → Bytes)
    (what : Option Bytes) (fresh : Undervest) (setpriv : Bool) where
  -- what a recipient that is answered leaves
  after_recipient :
      (l : Link Undervest) (u u' : Undervest) (v : Verdict) (address : Bytes) (argv : List Bytes)
      → l.priv ≡ some u
      → envelope_recipient u address argv (mailer address argv) ≡ some (v, u')
      → (handle (methods debug conf (known mailer) what) fresh setpriv (rcpt_to address argv) l).1
        ≡ record l { priv = some u'; calls = l.calls ++ verdict_calls v }
  unfolding handle envrcpt relay relay_to methods settle recipient_handled recipient_by
  after_recipient l u u' v address argv q e =
      ap
        (λ (o : Option Undervest).
          (relay_to (codes "envelopeRecipient")
            ((methods debug conf (known mailer) what).on_envelope_recipient address argv) l o).1)
        q
      ∙ ap
          (λ (r : Option (Verdict × Undervest)).
            (settle (codes "envelopeRecipient") l (recipient_handled what u r)).1)
          e

  pub session_next :
      (c : Command) (cs : List Command) (u u' : Undervest) (v : Verdict)
      → envelope_recipient u c.address c.argv c.mailer ≡ some (v, u')
      → (session u (c ∷ cs) ≡ session u' cs)
        × (refusals u (c ∷ cs) ≡ verdict_calls v ++ refusals u' cs)
  unfolding session
  session_next c cs u u' v n = (rw (n, session) refl, rw (n, refusals) refl)

  session_stops :
      (c : Command) (cs : List Command) (u : Undervest)
      → envelope_recipient u c.address c.argv c.mailer ≡ none
      → session u (c ∷ cs) ≡ none
  unfolding session
  session_stops c cs u n = rw (n, session) refl

  after_recipients :
      (rs : List (Bytes × List Bytes)) (l : Link Undervest) (u w : Undervest)
      → l.priv ≡ some u
      → session u (commands mailer rs) ≡ some w
      → ((handle_all (methods debug conf (known mailer) what) fresh setpriv (recipients rs) l).priv
          ≡ some w)
        × ((handle_all
              (methods debug conf (known mailer) what)
              fresh
              setpriv
              (recipients rs)
              l).calls
            ≡ l.calls ++ refusals u (commands mailer rs))
  unfolding handle_all session
  after_recipients [] l u w q e = (q ∙ e, sym (append-nil l.calls))
  after_recipients ((address, argv) ∷ rs) l u w q e =
      let first : Command = record {
        address = address;
        argv = argv;
        mailer = mailer address argv;
      } in
      elim (Option-cases (envelope_recipient u address argv (mailer address argv))) [
        | inl n ↦
            let stop = session_stops first (commands mailer rs) u n in
            absurd (let z : none ≡ some w = sym stop ∙ e in cc)
        | inr ((v, u'), n) ↦
            let (next, calls) = session_next first (commands mailer rs) u u' v n in
            let step = after_recipient l u u' v address argv q n in
            let m =
              (handle (methods debug conf (known mailer) what) fresh setpriv (rcpt_to address argv)
                l).1 in
            let (p, c) =
              after_recipients rs m u' w (ap (λ (x : Link Undervest). x.priv) step)
                (sym next ∙ e) in
            (
              p,
              c
                  ∙ ap (λ (x : Link Undervest). x.calls ++ refusals u' (commands mailer rs)) step
                  ∙ append_assoc l.calls (verdict_calls v) (refusals u' (commands mailer rs))
                  ∙ ap (λ (cs : List Call). l.calls ++ cs) (sym calls),
            )
      ]

  pub after_from :
      (l : Link Undervest) (u : Undervest) (address : Bytes) (argv : List Bytes)
      → l.priv ≡ some u
      → (handle (methods debug conf (known mailer) what) fresh setpriv (mail_from address argv) l).1
        ≡ record l { priv = some (envelope_from u); calls = l.calls ++ [] }
  unfolding handle envfrom relay relay_to methods settle
  after_from l u address argv q =
      ap
        (λ (o : Option Undervest).
          (relay_to (codes "envelopeFrom")
            ((methods debug conf (known mailer) what).on_envelope_from address argv) l o).1)
        q

  after_message :
      (l : Link Undervest) (u : Undervest)
      → l.priv ≡ some u
      → (handle (methods debug conf (known mailer) what) fresh setpriv message_ends l).1
        ≡ record l { priv = some u; calls = l.calls ++ map call_of (end_of_message u) }
  unfolding handle eom relay relay_to methods settle
  after_message l u q =
      ap
        (λ (o : Option Undervest).
          (relay_to (codes "endOfMessage")
            (methods debug conf (known mailer) what).on_end_of_message l o).1)
        q

  pub session_ends : (u : Undervest) → session u [] ≡ some u
  unfolding session
  session_ends u = refl

  pub message_sent :
      (u : Undervest) (cs : List Command) (w : Undervest)
      → session (envelope_from u) cs ≡ some w
      → message u cs ≡ some (end_of_message w)
  unfolding message
  message_sent u cs w n = rw (n, message) refl

  message_ok :
      (u : Undervest) (cs : List Command) (actions : List Action)
      → message u cs ≡ some actions
      → (w : Undervest) × (session (envelope_from u) cs ≡ some w) × (end_of_message w ≡ actions)
  unfolding message
  message_ok u cs actions h = elim (Option-cases (session (envelope_from u) cs)) [
    | inl n ↦ absurd (
        let z : message u cs ≡ none = rw (n, message) refl in
        let y : none ≡ some actions = sym z ∙ h in cc)
    | inr (w, n) ↦
        let z : message u cs ≡ some (end_of_message w) = rw (n, message) refl in
        (w, n, let y : some (end_of_message w) ≡ some actions = sym z ∙ h in cc)
  ]

  -- the callbacks for a message, on a connection that has a context
  pub handle_all-message :
      (l : Link Undervest) (u : Undervest) (sender : Bytes) (argv : List Bytes)
      (rs : List (Bytes × List Bytes)) (actions : List Action)
      → l.priv ≡ some u
      → message u (commands mailer rs) ≡ some actions
      → (handle_all
          (methods debug conf (known mailer) what)
          fresh
          setpriv
          (mail_from sender argv ∷ (recipients rs ++ (message_ends ∷ [])))
          l).calls
        ≡ l.calls ++ (refusals (envelope_from u) (commands mailer rs) ++ map call_of actions)
  unfolding handle_all
  handle_all-message l u sender argv rs actions q h =
      let H = methods debug conf (known mailer) what in
      let start = (handle H fresh setpriv (mail_from sender argv) l).1 in
      let from = after_from l u sender argv q in
      let (w, s, e) = message_ok u (commands mailer rs) actions h in
      let (p, c) =
        after_recipients rs start (envelope_from u) w (ap (λ (x : Link Undervest). x.priv) from)
          s in
      let last = handle_all H fresh setpriv (recipients rs) start in
      ap (λ (x : Link Undervest). x.calls)
        (handle_all-append H fresh setpriv (recipients rs) (message_ends ∷ []) start)
      ∙ ap (λ (x : Link Undervest). x.calls) (after_message last w p)
      ∙ ap (λ (cs : List Call). cs ++ map call_of (end_of_message w)) c
      ∙ ap
          (λ (cs : List Call).
            cs ++ refusals (envelope_from u) (commands mailer rs) ++ map call_of (end_of_message w))
          (ap (λ (x : Link Undervest). x.calls) from ∙ append-nil l.calls)
      ∙ append_assoc l.calls (refusals (envelope_from u) (commands mailer rs))
          (map call_of (end_of_message w))
      ∙ ap
          (λ (acts : List Action).
            l.calls ++ (refusals (envelope_from u) (commands mailer rs) ++ map call_of acts))
          e
