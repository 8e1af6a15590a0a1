-- ===== src/Tests/Callbacks.antt =====
-- Callbacks of libmilter on concrete connections.
use undervest.Prelude.{ℕ, suc, ◌≡◌, refl, true, false, none, some, List, [], ◌∷◌, codes, beq}
use undervest.Milter
use undervest.Milter.{
  Handlers, Handled, returns, throws, defaults, Link, Status, continue_on, tempfail, close,
}
use undervest.Milter.Setup
use undervest.Milter.Callbacks.{
  Callback, connects, rcpt_to, message_ends, handle, handle_all, new_link,
}
use undervest.Milter.Balance.{IsBalanced, contexts_freed}
use undervest.FilePath
use undervest.Prelude.Int.{ℤ, pos}

-- A context counts its recipients, and throws at each of them.
abbrev counting : Handlers ℕ
counting = record defaults {
  on_envelope_recipient = λ address argv n. throws (some address) (suc n) [];
}

abbrev two_recipients : List Callback
two_recipients = connects (codes "host") ∷ rcpt_to (codes "a") [] ∷ rcpt_to (codes "b") [] ∷ []

contexts_freed_example :
    IsBalanced (handle_all counting 0 true two_recipients new_link)
    × ((close counting (handle_all counting 0 true two_recipients new_link)).1.created
        ≡ (close counting (handle_all counting 0 true two_recipients new_link)).1.deleted)
    × ((close counting (handle_all counting 0 true two_recipients new_link)).1.priv ≡ none)
unfolding Milter.continues
contexts_freed_example = contexts_freed counting 0 two_recipients (λ p. tt)

-- two recipients in a row
two_messages :
    (handle_all counting 0 true two_recipients new_link).logged
    ≡ codes "An uncatched exception occured in milter::envelopeRecipient(): a"
      ∷ codes "An uncatched exception occured in milter::envelopeRecipient(): b"
      ∷ []
unfolding handle_all handle Milter.connect Milter.enter Milter.enter_with Milter.settle
    Milter.continues Milter.envrcpt Milter.relay Milter.relay_to Milter.uncatched
two_messages = refl

-- no context, where there is no memory of one
no_context :
    ◌≡◌ {A = Status × Link ℕ} (handle counting 0 false message_ends new_link) (tempfail, new_link)
unfolding handle Milter.eom Milter.relay Milter.relay_to
no_context = refl

abbrev all_work : Setup.SetupCall → ℤ
all_work c = pos 0

-- the socket that is chosen for a filter without one
default_path : Setup.default_socket (codes "undervest") ≡ some (codes "/var/run/undervest.sock")
unfolding Setup.default_socket FilePath.plus_text FilePath.plus FilePath.of_text FilePath.assign
    FilePath.normalize FilePath.starts_relative FilePath.split_from FilePath.component
    FilePath.behind_component FilePath.skip_delims FilePath.walk FilePath.step FilePath.up
    FilePath.filename FilePath.back_or FilePath.get FilePath.get_from FilePath.is_nil
    FilePath.delim_after beq
default_path = refl
