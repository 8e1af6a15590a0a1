-- ===== src/Undervest/Delivered.antt =====
-- A message through the callbacks of include/milter.h.
use undervest.Prelude.{
  ℕ, ◌≡◌, refl, ap, ◌∙◌, Bool, true, false, Option, some, List, [], ◌∷◌, ◌++◌, map, leb,
  if◌then◌else◌, Bytes, codes, beq, count, append-nil, Bool-cases, inl, inr,
}
use undervest.Stringlib.{strtolower, implode}
use undervest.FilePath.{is_nil}
use undervest.Source.{c_str}
use undervest.Uri.Writer.{decimal}
use undervest.Configuration
use undervest.Configuration.{Configuration, Answer}
use undervest.Configuration.Decision.{SameRules, recipient-decision}
use undervest.Milter
use undervest.Milter.{
  Handlers, Link, Status, continue_on, Call, setreply, addheader, addrcpt, addrcpt_par, delrcpt,
  settle, relay_to, relay, envfrom, envrcpt, eom,
}
use undervest.Milter.Service
use undervest.Milter.Callbacks.{mail_from, rcpt_to, message_ends, handle, handle_all}
use undervest.Undervest.{
  Undervest, Verdict, clear, or_false, trace, note, um_emplace, us_emplace, has_key, respond,
  respond_to, reject_actions, maybe_actions, add_actions, envelope_from, envelope_recipient,
  end_of_message,
}
use undervest.Undervest.Session.{Command}
use undervest.Undervest.Relayed.{
  known, handle_all-message, after_from, session_next, session_ends, message_sent,
}
use undervest.Undervest.Callbacks.{
  call_of, verdict_status, verdict_calls, recipient_handled, recipient_by, methods,
}

abbrev addrcpt_with : Bytes → Bytes → Call
addrcpt_with r args =
    if is_nil (c_str args) then addrcpt (c_str r) else addrcpt_par (c_str r) (c_str args)

abbrev readded : Bool → Bytes → Bytes → List Call
readded in_error s args = if in_error then addrcpt_with s args ∷ [] else []

-- The calls of libmilter for a message to one recipient `s`, with the answer for it: refused, accepted as
-- it is, replaced, or accepted with a hint. The mailer `error` has the recipient added again.
abbrev pub delivered : Configuration → Bytes → Bool → Bytes → Bytes → Bool → List Call
delivered conf s in_error args [] fixit =
    setreply (c_str (decimal conf.smtp_status)) (c_str conf.smtp_extended) (c_str conf.smtp_message)
    ∷ []
delivered conf s in_error args (c ∷ m) fixit =
    if beq (c ∷ m) s
    then readded in_error s args
    else if fixit
    then addheader (codes "X-undervest-original-recipient") (c_str s)
      ∷ delrcpt (c_str s)
      ∷ addrcpt_with (c ∷ m) args
      ∷ []
    else addheader (codes "X-undervest-maybe-to") (c_str (c ∷ m)) ∷ readded in_error s args

abbrev pub answered_with : Bytes → Status
answered_with [] = Milter.reject
answered_with (c ∷ m) = continue_on

abbrev calls_at : Undervest → List Call
calls_at u = map call_of (end_of_message u)

noted :
    (debug : ℕ) (conf conf' : Configuration) (s m : Bytes) (fixit in_error : Bool)
    (argv : List Bytes) (c : ℕ)
    → calls_at (
        note
          (record { rejected = []; added = []; maybe = []; debug = debug; conf = conf })
          s
          (c ∷ m)
          fixit
          in_error
          argv)
      ≡ delivered conf' s in_error (implode (codes " ") argv) (c ∷ m) fixit
unfolding note end_of_message reject_actions maybe_actions add_actions call_of um_emplace us_emplace
    has_key count Service.add_header Service.delete_recipient Service.add_recipient c_str
noted debug conf conf' s m true true argv c = elim (Bool-cases (beq (c ∷ m) s)) [
  | inl e ↦ rw e refl
  | inr e ↦ rw e refl
]
noted debug conf conf' s m true false argv c = elim (Bool-cases (beq (c ∷ m) s)) [
  | inl e ↦ rw e refl
  | inr e ↦ rw e refl
]
noted debug conf conf' s m false true argv c = elim (Bool-cases (beq (c ∷ m) s)) [
  | inl e ↦ rw e refl
  | inr e ↦ rw e refl
]
noted debug conf conf' s m false false argv c = elim (Bool-cases (beq (c ∷ m) s)) [
  | inl e ↦ rw e refl
  | inr e ↦ rw e refl
]

-- what is left of an answer, and what is replied
responded :
    (debug : ℕ) (conf : Configuration) (s : Bytes) (in_error : Bool) (argv : List Bytes)
    (a : Answer) (m : Bytes)
    → let r =
        respond_to
          (record { rejected = []; added = []; maybe = []; debug = debug; conf = conf })
          s
          in_error
          argv
          a
          m in
      (verdict_calls r.0 ++ calls_at r.1
        ≡ delivered a.config s in_error (implode (codes " ") argv) m (or_false a.fixit))
      × (verdict_status r.0 ≡ answered_with m)
unfolding respond_to verdict_calls verdict_status
responded debug conf s in_error argv a [] = (
  unfold end_of_message reject_actions maybe_actions add_actions Service.reply_number
        Service.reply in
      refl,
  refl,
)
responded debug conf s in_error argv a (c ∷ m) = (
  unfold trace in
      elim (Bool-cases (leb 2 debug)) [
        | inl e ↦ rw e (noted debug _ a.config s m (or_false a.fixit) in_error argv c)
        | inr e ↦ rw e (noted debug a.config a.config s m (or_false a.fixit) in_error argv c)
      ],
  refl,
)

responded_from :
    (u : Undervest) (s : Bytes) (in_error : Bool) (argv : List Bytes) (a : Answer) (m : Bytes)
    → (verdict_calls (respond_to (envelope_from u) s in_error argv a m).0
          ++ calls_at (respond_to (envelope_from u) s in_error argv a m).1
        ≡ delivered a.config s in_error (implode (codes " ") argv) m (or_false a.fixit))
      × (verdict_status (respond_to (envelope_from u) s in_error argv a m).0 ≡ answered_with m)
unfolding envelope_from clear
responded_from u s in_error argv a m = responded u.debug u.conf s in_error argv a m

delivered_same :
    (conf conf' : Configuration) (s : Bytes) (in_error : Bool) (args m : Bytes) (fixit : Bool)
    → SameRules conf conf'
    → delivered conf' s in_error args m fixit ≡ delivered conf s in_error args m fixit
delivered_same conf conf' s in_error args [] fixit same = λ i.
    setreply (c_str (decimal (same.status i))) (c_str (same.extended i)) (c_str (same.message i))
    ∷ []
delivered_same conf conf' s in_error args (c ∷ m) fixit same = refl

module _ (debug : ℕ) (conf : Configuration) (mailer : Bytes → List Bytes → Bytes)
    (what : Option Bytes) (fresh : Undervest) (setpriv : Bool) where
  abbrev pub answering : Handlers Undervest
  answering = methods debug conf (known mailer) what

  -- behind the sender
  abbrev pub begun : Link Undervest → Bytes → List Bytes → Link Undervest
  begun l sender argv = (handle answering fresh setpriv (mail_from sender argv) l).1

  rcpt_status :
      (l : Link Undervest) (u u' : Undervest) (v : Verdict) (address : Bytes) (argv : List Bytes)
      → l.priv ≡ some u
      → envelope_recipient u address argv (mailer address argv) ≡ some (v, u')
      → (handle answering fresh setpriv (rcpt_to address argv) l).0 ≡ verdict_status v
  unfolding handle envrcpt relay relay_to methods settle recipient_handled recipient_by
  rcpt_status l u u' v address argv q e =
      ap
        (λ (o : Option Undervest).
          (relay_to (codes "envelopeRecipient") (answering.on_envelope_recipient address argv) l
            o).0)
        q
      ∙ ap
          (λ (r : Option (Verdict × Undervest)).
            (settle (codes "envelopeRecipient") l (recipient_handled what u r)).0)
          e

  -- A message to one recipient, on a connection whose context may still hold what earlier messages left,
  -- where the macro `{rcpt_mailer}` has a value and the configuration answers for the address in lower
  -- case. If the answer is empty, the recipient is refused, and the one call of libmilter for the message
  -- is the reply with the status and the texts of the configuration. Otherwise the mailer goes on, and
  -- the calls are those at the end of the message: for the address itself, none; for another address that
  -- is to be fixed, a header with the original recipient, its deletion, and the new recipient with the
  -- arguments; for another address that is not to be fixed, a header with the hint. Where the recipient
  -- is not replaced, the mailer `error` has it added again, with the arguments.
  pub message-delivered :
      (l : Link Undervest) (u : Undervest) (sender : Bytes) (sender_argv : List Bytes)
      (address : Bytes) (argv : List Bytes) (a : Answer)
      → l.priv ≡ some u
      → Configuration.recipient u.conf
          (strtolower address)
          (beq (mailer address argv) (codes "error"))
        ≡ some a
      → ((handle_all answering fresh setpriv
            (mail_from sender sender_argv ∷ rcpt_to address argv ∷ message_ends ∷ [])
            l).calls
          ≡ l.calls
            ++ delivered u.conf
                (strtolower address)
                (beq (mailer address argv) (codes "error"))
                (implode (codes " ") argv)
                a.address
                (or_false a.fixit))
        × ((handle answering fresh setpriv (rcpt_to address argv) (begun l sender sender_argv)).0
            ≡ answered_with a.address)
  message-delivered l u sender sender_argv address argv a q e =
      let s = strtolower address in
      let in_error = beq (mailer address argv) (codes "error") in
      let r = respond_to (envelope_from u) s in_error argv a a.address in
      let (calls, status) = responded_from u s in_error argv a a.address in
      let rules = (recipient-decision u.conf s in_error a e).1 in
      let found : envelope_recipient (envelope_from u) address argv (mailer address argv) ≡ some r =
        unfold envelope_recipient envelope_from clear respond in rw e refl in
      let one : Command = record { address = address; argv = argv; mailer = mailer address argv } in
      let (next, refused) =
        session_next debug conf mailer what fresh setpriv one [] (envelope_from u) r.1 r.0 found in
      let sent =
        message_sent debug conf mailer what fresh setpriv u (one ∷ []) r.1
          (next ∙ session_ends debug conf mailer what fresh setpriv r.1) in
      let from = after_from debug conf mailer what fresh setpriv l u sender sender_argv q in
      (
        handle_all-message debug conf mailer what fresh setpriv l u sender sender_argv
              ((address, argv) ∷ []) (end_of_message r.1) q sent
            ∙ ap (λ (cs : List Call). l.calls ++ (cs ++ calls_at r.1))
                (refused ∙ append-nil (verdict_calls r.0))
            ∙ ap (λ (cs : List Call). l.calls ++ cs)
                (calls ∙ delivered_same u.conf a.config s in_error _ a.address _ rules),
        rcpt_status _ (envelope_from u) r.1 r.0 address argv
              (ap (λ (x : Link Undervest). x.priv) from) found
            ∙ status,
      )
