-- ===== src/Tests/Milter.antt =====
-- Concrete messages, and the theorems about addresses and callbacks at concrete inputs.
use undervest.Prelude.{
  ◌<◌, ◌≡◌, refl, inl, inr, Bool, true, false, Option, none, some, List, [], ◌∷◌, ◌++◌, Bytes,
  codes, count, beq, arith,
}
use undervest.Stringlib
use undervest.Stringlib.{blanks, trim, strtolower, implode}
use undervest.Scaled
use undervest.Substring
use undervest.Matcher
use undervest.Slices
use undervest.Domain
use undervest.Domain.{Domain}
use undervest.Configuration
use undervest.Configuration.{
  Configuration, Answer, whole, find_domain, warn_luser, bare, split, has_lt_gt, clamp,
}
use undervest.Configuration.Literals
use undervest.Configuration.Literals.{get_log_level, names, log_levels}
use undervest.Configuration.Total.{recipient_answers}
use undervest.Configuration.Address.{IsPlain}
use undervest.Configuration.Decision.{decision, SameRules, recipient-decision}
use undervest.Milter
use undervest.Milter.{Link, continue_on, tempfail}
use undervest.Milter.Callbacks.{mail_from, rcpt_to, message_ends, handle, handle_all}
use undervest.Undervest.Callbacks
use undervest.Undervest.Callbacks.{methods}
use undervest.Undervest.Relayed.{known}
use undervest.Undervest.Delivered.{delivered, begun, message-delivered}
use undervest.Undervest
use undervest.Undervest.{
  Undervest, Verdict, Action, proceed, reject, add_header, delete_recipient, add_recipient,
  envelope_recipient,
}
use undervest.Undervest.Session.{Command, session, message}
use undervest.Undervest.Actions.{Occurs}
use undervest.Undervest.Repair.{Fixes, deleted_is_replaced}
use undervest.Undervest.Known.{known_passes, reject_records_nothing}
use undervest.Tests.{mary, home, home-IsLoaded, home-IsModest}

abbrev example_com : Bytes
example_com = codes "example.com"

abbrev office : Configuration
office = record {
  domains = (example_com, home) ∷ [];
  smtp_status = 550;
  smtp_extended = codes "5.1.1";
  smtp_message = codes "User unknown";
  minloglevel = 7;
  maxloglevel = 0;
  luser_warned = false;
  logged = [];
}

abbrev idle : Undervest
idle = record { rejected = []; added = []; maybe = []; debug = 0; conf = office }

office-found : find_domain example_com office.domains ≡ some home
unfolding find_domain beq
office-found = refl

mary-IsPlain : IsPlain mary example_com
mary-IsPlain = record {
  some_recipient = omega arith;
  some_domain = omega arith;
  no_at = refl;
  no_blank = refl;
  no_bracket = refl;
  no_blank_end = refl;
}

mary-known : 0 < count mary home.recipients
unfolding Domain.rebuild Domain.add_recipients count beq
mary-known = omega arith

known_passes_example :
    envelope_recipient idle (codes "<Mary@Example.com>") [] (codes "local") ≡ some (proceed, idle)
unfolding strtolower Stringlib.lower whole beq
known_passes_example =
    known_passes idle home mary example_com (codes "<Mary@Example.com>") (codes "local") [] true
      office-found home-IsLoaded (home-IsModest mary (omega arith)) mary-known mary-IsPlain refl
      refl (omega arith)

abbrev fixed_actions : List Action
fixed_actions =
    add_header (codes "X-undervest-original-recipient") (codes "<jon.doe@example.com>")
    ∷ delete_recipient (codes "<jon.doe@example.com>")
    ∷ add_recipient (codes "<john.doe@example.com>") (codes "SIZE=1 BODY=8")
    ∷ []

abbrev to_jon : List Command
to_jon =
    record {
      address = codes "<Jon.Doe@example.com>";
      argv = codes "SIZE=1" ∷ codes "BODY=8" ∷ [];
      mailer = codes "local";
    }
    ∷ []

-- a misspelled recipient is replaced
jon_is_fixed : message idle to_jon ≡ some fixed_actions
unfolding message session Undervest.envelope_from Undervest.clear Undervest.end_of_message
    Undervest.reject_actions Undervest.maybe_actions Undervest.add_actions envelope_recipient
    Undervest.respond Undervest.respond_to Undervest.note Undervest.trace Undervest.um_emplace
    Undervest.us_emplace Undervest.has_key strtolower Stringlib.lower count Stringlib.implode
    Stringlib.implode_rest Configuration.recipient Configuration.with_parts split
    Stringlib.find_char bare has_lt_gt trim Stringlib.ltrim Stringlib.find_first_not_of
    Stringlib.rtrim Stringlib.find_last_not_of Configuration.with_domain find_domain beq
    Configuration.ask warn_luser whole Domain.recipient Domain.rebuild Domain.add_recipients
    Domain.choose Domain.match_words Scaled.at_least Matcher.match Matcher.add Matcher.or_empty
    Matcher.add_slices Matcher.add_slice Matcher.bump Matcher.sort Matcher.insert Matcher.tally
    Matcher.runs Matcher.flush Matcher.find Matcher.add_common Matcher.add_at Matcher.collect
    Matcher.score Scaled.of_ulong Scaled.div_assign Scaled.narrow Matcher.sort_results
    Matcher.insert_result Substring.less Substring.equal Substring.compare Substring.traits_compare
    Substring.compare_size Slices.ngram_slice Slices.ngram_fits Slices.windows Slices.word_slice
    Slices.words Slices.is_alpha Slices.behind_letters Slices.is_digit Slices.letters
jon_is_fixed = refl

deleted_is_replaced_example :
    (m args : Bytes) × Occurs (add_recipient m args) fixed_actions
    × Fixes office.domains (codes "<jon.doe@example.com>") m
deleted_is_replaced_example =
    deleted_is_replaced idle to_jon fixed_actions (codes "<jon.doe@example.com>") jon_is_fixed
      (inr (inl refl))

-- an unknown recipient is rejected
xyz_is_rejected :
    envelope_recipient idle (codes "xyz@example.com") [] (codes "local")
    ≡ some (reject 550 (codes "5.1.1") (codes "User unknown"), idle)
unfolding envelope_recipient Undervest.respond Undervest.respond_to Undervest.note Undervest.trace
    Undervest.um_emplace Undervest.us_emplace Undervest.has_key strtolower Stringlib.lower count
    Stringlib.implode Stringlib.implode_rest Configuration.recipient Configuration.with_parts split
    Stringlib.find_char bare has_lt_gt trim Stringlib.ltrim Stringlib.find_first_not_of
    Stringlib.rtrim Stringlib.find_last_not_of Configuration.with_domain find_domain beq
    Configuration.ask warn_luser whole Domain.recipient Domain.rebuild Domain.add_recipients
    Domain.choose Domain.match_words Scaled.at_least Matcher.match Matcher.add Matcher.or_empty
    Matcher.add_slices Matcher.add_slice Matcher.bump Matcher.sort Matcher.insert Matcher.tally
    Matcher.runs Matcher.flush Matcher.find Matcher.add_common Matcher.add_at Matcher.collect
    Matcher.score Scaled.of_ulong Scaled.div_assign Scaled.narrow Matcher.sort_results
    Matcher.insert_result Substring.less Substring.equal Substring.compare Substring.traits_compare
    Substring.compare_size Slices.ngram_slice Slices.ngram_fits Slices.windows Slices.word_slice
    Slices.words Slices.is_alpha Slices.behind_letters Slices.is_digit Slices.letters
xyz_is_rejected = refl

reject_records_nothing_example :
    ((f : Option Bool) × (decision office.domains (strtolower (codes "xyz@example.com"))
        ≡ some ([], f)))
    × (550 ≡ office.smtp_status)
    × (codes "5.1.1" ≡ office.smtp_extended)
    × (codes "User unknown" ≡ office.smtp_message)
    × (idle.rejected ≡ idle.rejected)
    × (idle.added ≡ idle.added)
    × (idle.maybe ≡ idle.maybe)
reject_records_nothing_example =
    reject_records_nothing idle idle (codes "xyz@example.com") (codes "local") [] 550
      (codes "5.1.1") (codes "User unknown") xyz_is_rejected

-- an address of another domain is left alone
elsewhere :
    Configuration.recipient office (codes "a@b") true
    ≡ some (record { address = codes "a@b"; fixit = none; config = office })
unfolding Configuration.recipient Configuration.with_parts split Stringlib.find_char bare has_lt_gt
    trim Stringlib.ltrim Stringlib.find_first_not_of Stringlib.rtrim Stringlib.find_last_not_of
    Configuration.with_domain find_domain beq
elsewhere = refl

recipient-decision_example :
    (decision office.domains (codes "a@b") ≡ some (codes "a@b", none)) × SameRules office office
recipient-decision_example =
    recipient-decision office (codes "a@b") true
      (record { address = codes "a@b"; fixit = none; config = office }) elsewhere

debug_level : get_log_level (codes "Debug") ≡ some 7
unfolding get_log_level Literals.get_literal Literals.same_token strtolower Stringlib.lower beq
debug_level = refl

recipient_answers_example :
    (a : Answer) × (Configuration.recipient office (codes "<jon.doe@example.com>") true ≡ some a)
recipient_answers_example =
    recipient_answers office (codes "<jon.doe@example.com>") true
      (inr (home-IsLoaded, home-IsModest), tt) (omega arith)

abbrev answering : Link Undervest
answering = record { priv = some idle; created = 1; deleted = 0; calls = []; logged = [] }

abbrev local_mailer : Bytes → List Bytes → Bytes
local_mailer address argv = codes "local"

-- the answer for a misspelled recipient
abbrev corrected : Answer
corrected = record { address = codes "<john.doe@example.com>"; fixit = some true; config = office }

jon_is_answered :
    Configuration.recipient office
      (strtolower (codes "<Jon.Doe@example.com>"))
      (beq (codes "local") (codes "error"))
    ≡ some corrected
unfolding strtolower Stringlib.lower beq Stringlib.implode Stringlib.implode_rest
    Configuration.recipient Configuration.with_parts split Stringlib.find_char bare has_lt_gt trim
    Stringlib.ltrim Stringlib.find_first_not_of Stringlib.rtrim Stringlib.find_last_not_of
    Configuration.with_domain find_domain Configuration.ask warn_luser whole Domain.recipient
    Domain.rebuild Domain.add_recipients Domain.choose Domain.match_words Scaled.at_least
    Matcher.match Matcher.add Matcher.or_empty Matcher.add_slices Matcher.add_slice Matcher.bump
    Matcher.sort Matcher.insert Matcher.tally Matcher.runs Matcher.flush Matcher.find
    Matcher.add_common Matcher.add_at Matcher.collect Matcher.score Scaled.of_ulong
    Scaled.div_assign Scaled.narrow Matcher.sort_results Matcher.insert_result Substring.less
    Substring.equal Substring.compare Substring.traits_compare Substring.compare_size
    Slices.ngram_slice Slices.ngram_fits Slices.windows Slices.word_slice Slices.words
    Slices.is_alpha Slices.behind_letters Slices.is_digit Slices.letters
jon_is_answered = refl

message-delivered_example :
    ((handle_all
        (methods 0 office (known local_mailer) none)
        idle
        true
        (mail_from (codes "<a@example.com>") []
          ∷ rcpt_to (codes "<Jon.Doe@example.com>") (codes "SIZE=1" ∷ codes "BODY=8" ∷ [])
          ∷ message_ends
          ∷ [])
        answering).calls
      ≡ []
        ++ delivered office
            (strtolower (codes "<Jon.Doe@example.com>"))
            (beq (codes "local") (codes "error"))
            (implode (codes " ") (codes "SIZE=1" ∷ codes "BODY=8" ∷ []))
            (codes "<john.doe@example.com>")
            true)
    × ((handle
          (methods 0 office (known local_mailer) none)
          idle
          true
          (rcpt_to (codes "<Jon.Doe@example.com>") (codes "SIZE=1" ∷ codes "BODY=8" ∷ []))
          (begun 0 office local_mailer none idle true answering (codes "<a@example.com>") [])).0
        ≡ continue_on)
message-delivered_example =
    message-delivered 0 office local_mailer none idle true answering idle (codes "<a@example.com>")
      [] (codes "<Jon.Doe@example.com>") (codes "SIZE=1" ∷ codes "BODY=8" ∷ []) corrected refl
      jon_is_answered

-- without a value of the macro, the constructor of the text throws
no_macro :
    (handle
      (methods 0 office (λ address argv. none) none)
      idle
      true
      (rcpt_to (codes "<mary@example.com>") [])
      answering).0
    ≡ tempfail
unfolding handle Milter.envrcpt Milter.relay Milter.relay_to methods Callbacks.recipient_by
    Milter.settle
no_macro = refl
