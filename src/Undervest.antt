-- ===== src/Undervest.antt =====
-- src/milter/undervest.cpp, include/undervest.h: the callbacks of the milter for one connection.
-- The value of the macro `{rcpt_mailer}`, from libmilter, is an argument; what is printed to the
-- standard error when debugging is left out.
pub mod Session
pub mod Actions
pub mod Repair
pub mod Known
pub mod Callbacks
pub mod Relayed
pub mod Delivered
use undervest.Prelude.{
  ℕ, ◌+◌, Bool, true, false, ◌&&◌, ◌||◌, not, Option, none, some, List, [], ◌∷◌, ◌++◌, map, ltb,
  leb, ◌==◌, if◌then◌else◌, Bytes, codes, beq, count, length,
}
use undervest.Stringlib.{strtolower, implode}
use undervest.Configuration
use undervest.Configuration.{Configuration, Answer, log, log_err}

-- `debug` is the debug level of `glob`; `conf` is what the shared configuration holds.
pub record Undervest : Type 0 where
  pub rejected : List Bytes
  pub added : List (Bytes × Bytes)
  pub maybe : List Bytes
  pub debug : ℕ
  pub conf : Configuration

-- `clear`
unfoldable pub clear : Undervest → Undervest
clear u = record u { rejected = []; maybe = []; added = [] }

-- `connect`
unfoldable pub connect : ℕ → Configuration → Undervest → Undervest
connect debug conf u = record u { debug = debug; conf = conf }

-- `envelopeFrom`
unfoldable pub envelope_from : Undervest → Undervest
envelope_from u = clear u

-- `us_emplace`
unfoldable pub us_emplace : List Bytes → Bytes → List Bytes
us_emplace xs x = if count x xs == 0 then x ∷ xs else xs

unfoldable pub has_key : Bytes → List (Bytes × Bytes) → Bool
has_key k [] = false
has_key k ((j, v) ∷ m) = beq k j || has_key k m

-- `um_emplace`: a key that is there keeps its value.
unfoldable pub um_emplace : List (Bytes × Bytes) → Bytes → Bytes → List (Bytes × Bytes)
um_emplace m k v = if has_key k m then m else (k, v) ∷ m

-- SMFIS_CONTINUE, or SMFIS_REJECT with the arguments of `reply`.
pub data Verdict : Type 0 where
  proceed : Verdict
  reject : ℕ → Bytes → Bytes → Verdict

abbrev pub or_false : Option Bool → Bool
or_false none = false
or_false (some b) = b

unfoldable pub trace : Undervest → Bytes → Bytes → Bool → Undervest
trace u s mapped fixit =
    if leb 2 u.debug
    then record u {
      conf =
          log u.conf
            (codes "orig=\""
              ++ (s
                  ++ (codes "\", fixed=\""
                      ++ (mapped
                          ++ (codes "\", fix=" ++ (if fixit then codes "1" else codes "0"))))))
            log_err;
    }
    else u

-- What `envelopeRecipient` records for an address that has an answer.
unfoldable pub note : Undervest → Bytes → Bytes → Bool → Bool → List Bytes → Undervest
note u s mapped fixit in_error argv =
    if beq mapped s || not fixit
    then record u {
      added = if in_error then um_emplace u.added s (implode (codes " ") argv) else u.added;
      maybe = if beq mapped s then u.maybe else us_emplace u.maybe mapped;
    }
    else record u {
      added = um_emplace u.added mapped (implode (codes " ") argv);
      rejected = us_emplace u.rejected s;
    }

-- From the test of `mapped` on.
unfoldable pub respond_to :
    Undervest → Bytes → Bool → List Bytes → Answer → Bytes → Verdict × Undervest
respond_to u s in_error argv a [] = (
  reject a.config.smtp_status a.config.smtp_extended a.config.smtp_message,
  record u { conf = a.config },
)
respond_to u s in_error argv a (c ∷ m) =
    let fixit = or_false a.fixit in
    (
      proceed,
      note (trace (record u { conf = a.config }) s (c ∷ m) fixit) s (c ∷ m) fixit in_error argv,
    )

unfoldable pub respond :
    Undervest → Bytes → Bool → List Bytes → Option Answer → Option (Verdict × Undervest)
respond u s in_error argv none = none
respond u s in_error argv (some a) = some (respond_to u s in_error argv a a.address)

-- `envelopeRecipient`
unfoldable pub envelope_recipient :
    Undervest → Bytes → List Bytes → Bytes → Option (Verdict × Undervest)
envelope_recipient u address argv mailer =
    let s = strtolower address in
    let in_error = beq mailer (codes "error") in
    respond u s in_error argv (Configuration.recipient u.conf s in_error)

-- The calls back into the mailer.
pub data Action : Type 0 where
  add_header : Bytes → Bytes → Action
  delete_recipient : Bytes → Action
  add_recipient : Bytes → Bytes → Action

unfoldable pub reject_actions : List Bytes → List Action
reject_actions [] = []
reject_actions (s ∷ ss) =
    add_header (codes "X-undervest-original-recipient") s ∷ delete_recipient s ∷ reject_actions ss

unfoldable pub maybe_actions : List Bytes → List Action
maybe_actions [] = []
maybe_actions (s ∷ ss) = add_header (codes "X-undervest-maybe-to") s ∷ maybe_actions ss

unfoldable pub add_actions : List (Bytes × Bytes) → List Action
add_actions [] = []
add_actions ((k, v) ∷ m) = add_recipient k v ∷ add_actions m

-- `endOfMessage`
unfoldable pub end_of_message : Undervest → List Action
end_of_message u = reject_actions u.rejected ++ (maybe_actions u.maybe ++ add_actions u.added)
