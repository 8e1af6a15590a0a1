-- ===== src/Tests/Paths.antt =====
-- Paths at concrete inputs.
use undervest.Prelude.{◌≡◌, ◌++◌, arith, All, codes, inl, refl, false, some, [], ◌∷◌, Bytes, beq}
use undervest.Stringlib.{mem}
use undervest.FilePath
use undervest.FilePath.{
  FilePath, dotdot, normalize, relative_from, plus, get, of_text, assign, common_prefix,
  common_prefix_length, shift, parent_count,
}
use undervest.FilePath.Normal.{IsName, IsNormal, normalize_lem}
use undervest.FilePath.Relative.{relative_from-plus}
use undervest.FilePath.Pieces.{IsClean}
use undervest.FilePath.Text.{get-of_text}

abbrev etc : Bytes
etc = codes "etc"

abbrev mail : Bytes
mail = codes "mail"

abbrev log : Bytes
log = codes "log"

abbrev slash : Bytes
slash = b'/' ∷ []

-- `/etc/mail` and `/etc/log`
abbrev etc_mail : FilePath
etc_mail = record { relative = false; components = etc ∷ mail ∷ [] }

abbrev etc_log : FilePath
etc_log = record { relative = false; components = etc ∷ log ∷ [] }

-- `/etc/log/../mail`
abbrev by_log : FilePath
by_log = record { relative = false; components = etc ∷ log ∷ dotdot ∷ [] }

etc-IsName : IsName etc
unfolding beq
etc-IsName = (refl, refl)

mail-IsName : IsName mail
unfolding beq
mail-IsName = (refl, refl)

log-IsName : IsName log
unfolding beq
log-IsName = (refl, refl)

etc_mail-IsNormal : IsNormal etc_mail
etc_mail-IsNormal = inl (mail-IsName, inl (etc-IsName, tt))

etc_log-IsNormal : IsNormal etc_log
etc_log-IsNormal = inl (log-IsName, inl (etc-IsName, tt))

normalize_lem_example :
    IsNormal (normalize by_log)
    × (IsNormal by_log → normalize by_log ≡ by_log)
    × (normalize (record by_log { components = (normalize by_log).components ++ (mail ∷ []) })
        ≡ normalize (record by_log { components = by_log.components ++ (mail ∷ []) }))
normalize_lem_example = normalize_lem by_log (mail ∷ [])

-- `/etc/log/..` is `/etc`
up_again : normalize by_log ≡ record { relative = false; components = etc ∷ [] }
unfolding normalize FilePath.walk FilePath.step FilePath.up beq
up_again = refl

relative_from-plus_example :
    (q : FilePath) × (relative_from etc_mail etc_log ≡ some q) × (plus etc_log q ≡ some etc_mail)
unfolding parent_count beq
relative_from-plus_example =
    relative_from-plus etc_mail etc_log etc_mail-IsNormal etc_log-IsNormal refl (omega arith)

etc_mail-IsClean : All (IsClean slash) etc_mail.components
unfolding mem
etc_mail-IsClean = ((refl, (refl, (refl, tt))), ((refl, (refl, (refl, (refl, tt)))), tt))

get-of_text_example : of_text (get etc_mail false b'/') slash ≡ etc_mail
unfolding mem
get-of_text_example = get-of_text etc_mail b'/' slash etc_mail-IsNormal etc_mail-IsClean refl refl

-- the text of `/etc/mail`
written : get etc_mail false b'/' ≡ codes "/etc/mail"
unfolding get FilePath.get_from
written = refl
