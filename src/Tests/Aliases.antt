-- ===== src/Tests/Aliases.antt =====
-- An alias file at a concrete text.
use undervest.Prelude.{◌≡◌, refl, [], ◌∷◌, ◌++◌, Bytes, codes}
use undervest.Sendmail
use undervest.Sendmail.{Opened, file, recipients_from, open_source}

abbrev aliases : Bytes
aliases =
    codes "# local" ++ (10 ∷ codes "root: mary") ++ (10 ∷ codes "no name") ++ (10 ∷ codes "bob:x")

two_names : recipients_from 33 aliases ≡ codes "root" ∷ codes "bob" ∷ []
unfolding recipients_from Sendmail.get_recipient Sendmail.alias Sendmail.first_mark Sendmail.line_of
    Sendmail.behind_line
two_names = refl
