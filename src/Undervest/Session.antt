-- ===== src/Undervest/Session.antt =====
-- One message: the callbacks that libmilter makes for it, in their order.
use undervest.Prelude.{Option, none, some, List, [], ◌∷◌, Bytes}
use undervest.Undervest.{Undervest, Action, envelope_from, envelope_recipient, end_of_message}

-- An envelope recipient: its address, its arguments, and the mailer chosen for it.
pub record Command : Type 0 where
  pub address : Bytes
  pub argv : List Bytes
  pub mailer : Bytes

-- The recipients one after the other, a rejected one being skipped by the mailer.
unfoldable pub session : Undervest → List Command → Option Undervest
session u [] = some u
session u (c ∷ cs) = elim (envelope_recipient u c.address c.argv c.mailer) [
  | none ↦ none
  | some (v, u') ↦ session u' cs
]

-- What is done at the end of a message.
unfoldable pub message : Undervest → List Command → Option (List Action)
message u cs = elim (session (envelope_from u) cs) [
  | none ↦ none
  | some u' ↦ some (end_of_message u')
]
