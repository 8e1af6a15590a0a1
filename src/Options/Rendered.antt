-- ===== src/Options/Rendered.antt =====
-- A command line for given settings is read as these settings.
use mathlib.Core.Path.{subst}
use undervest.Prelude.{
  ℕ, zero, suc, ◌+◌, ◌≤◌, ◌≡◌, refl, ap, ◌∙◌, Bool, true, false, none, some, List, [], ◌∷◌, Bytes,
  arith,
}
use undervest.Options.{
  Settings, defaults, option_of, letters_of, option_letters, socket_of, parse_from, count_args,
  parse_arguments,
}

-- `-x` and its argument, and `-x` where it is set.
abbrev valued : ℕ → Bytes → List Bytes → List Bytes
valued x a args = (b'-' ∷ x ∷ []) ∷ a ∷ args

abbrev flag : ℕ → Bool → List Bytes → List Bytes
flag x true args = (b'-' ∷ x ∷ []) ∷ args
flag x false args = args

abbrev levels : ℕ → List Bytes → List Bytes
levels zero args = args
levels (suc n) args = (b'-' ∷ b'd' ∷ []) ∷ levels n args

-- A command line for these settings and this socket.
abbrev pub rendered : Settings → Bytes → List Bytes
rendered o socket = valued b'c' o.config (
    valued b'u' o.user (
      valued b'g' o.group (
        valued b'j' o.jail (
          flag b'e' o.stderr_only
            (flag b'l' o.logstd (flag b'n' o.nodaemon (levels o.debuglvl (socket ∷ []))))))))

-- With `k` rounds or more, the arguments are read as these settings and this socket.
Reads : ℕ → Settings → List Bytes → Settings × Bytes → Type 0
Reads k o args r = (f : ℕ) → k ≤ f → parse_from f o args ≡ some r

abbrev Step : Settings → Settings → ℕ → Bytes → Type 0
Step o o' x a = (args : List Bytes) → letters_of o (x ∷ []) (a ∷ args) ≡ some (o', args)

Reads-valued :
    (k : ℕ) (o o' : Settings) (x : ℕ) (a : Bytes) (args : List Bytes) (r : Settings × Bytes)
    → Step o o' x a
    → Reads k o' args r
    → Reads (suc k) o (valued x a args) r
unfolding Reads parse_from option_letters
Reads-valued k o o' x a args r e h zero l = absurd (omega arith)
Reads-valued k o o' x a args r e h (suc f) l = rw (e args) (h f (omega arith))

Reads-flag :
    (k : ℕ) (o o' : Settings) (x : ℕ) (b : Bool) (args : List Bytes) (r : Settings × Bytes)
    → (b ≡ true → letters_of o (x ∷ []) args ≡ some (o', args))
    → (b ≡ false → o' ≡ o)
    → Reads k o' args r
    → Reads (suc k) o (flag x b args) r
unfolding Reads parse_from option_letters
Reads-flag k o o' x b args r e n h zero l = absurd (omega arith)
Reads-flag k o o' x true args r e n h (suc f) l = rw (e refl) (h f (omega arith))
Reads-flag k o o' x false args r e n h (suc f) l =
    subst (λ (p : Settings). parse_from (suc f) p args ≡ some r) (n refl) (h (suc f) (omega arith))

Reads-levels :
    (k m n : ℕ) (o : Settings) (args : List Bytes) (r : Settings × Bytes)
    → Reads k (record o { debuglvl = m + n }) args r
    → Reads (n + k) (record o { debuglvl = m }) (levels n args) r
unfolding Reads parse_from option_letters letters_of option_of
Reads-levels k m zero o args r h f l =
    ap (λ (d : ℕ). parse_from f (record o { debuglvl = d }) args) {y = m + 0} (omega arith)
    ∙ h f (omega arith)
Reads-levels k m (suc n) o args r h zero l = absurd (omega arith)
Reads-levels k m (suc n) o args r h (suc f) l =
    Reads-levels k (suc m) n o args r
      (λ g q.
        ap (λ (d : ℕ). parse_from g (record o { debuglvl = d }) args) {y = m + suc n} (omega arith)
        ∙ h g q)
      f (omega arith)

Reads-socket :
    (o : Settings) (socket : Bytes)
    → option_letters socket ≡ none
    → Reads 1 o (socket ∷ []) (o, socket)
unfolding Reads parse_from socket_of
Reads-socket o socket h zero l = absurd (omega arith)
Reads-socket o socket h (suc f) l = rw (h, parse_from) refl

count-levels : (n : ℕ) (args : List Bytes) → count_args (levels n args) ≡ n + count_args args
count-levels zero args = omega arith
count-levels (suc n) args = omega (arith, count-levels n args)

count-flag : (x : ℕ) (b : Bool) (args : List Bytes) → count_args args ≤ count_args (flag x b args)
count-flag x true args = omega arith
count-flag x false args = omega arith

Reads-rendered :
    (name : Bytes) (o : Settings) (socket : Bytes)
    → option_letters socket ≡ none
    → Reads
        (suc (suc (suc (suc (suc (suc (suc (o.debuglvl + 1))))))))
        (defaults name)
        (rendered o socket)
        (o, socket)
unfolding letters_of option_of
Reads-rendered name o socket h =
    Reads-valued _ (defaults name) s1 b'c' o.config _ _ (λ args. refl)
      (Reads-valued _ s1 s2 b'u' o.user _ _ (λ args. refl)
        (Reads-valued _ s2 s3 b'g' o.group _ _ (λ args. refl)
          (Reads-valued _ s3 s4 b'j' o.jail _ _ (λ args. refl)
            (Reads-flag _ s4 s5 b'e' o.stderr_only _ _ (λ e. rw e refl) (λ e. rw e refl)
              (Reads-flag _ s5 s6 b'l' o.logstd _ _ (λ e. rw e refl) (λ e. rw e refl)
                (Reads-flag _ s6 s7 b'n' o.nodaemon _ _ (λ e. rw e refl) (λ e. rw e refl)
                  (Reads-levels 1 0 o.debuglvl s7 (socket ∷ []) (o, socket)
                    (subst
                      (λ (d : ℕ). Reads 1 (record o { debuglvl = d }) (socket ∷ []) (o, socket))
                      (omega arith) (Reads-socket o socket h)))))))))
  where
    s1 : Settings
    s1 = record (defaults name) { config = o.config }

    s2 : Settings
    s2 = record s1 { user = o.user }

    s3 : Settings
    s3 = record s2 { group = o.group }

    s4 : Settings
    s4 = record s3 { jail = o.jail }

    s5 : Settings
    s5 = record s4 { stderr_only = o.stderr_only }

    s6 : Settings
    s6 = record s5 { logstd = o.logstd }

    s7 : Settings
    s7 = record s6 { nodaemon = o.nodaemon }

-- A command line that gives each setting by its option, with `-d` as often as the debug level says,
-- and then a socket that is not an option, is read as these settings and this socket.
pub rendered-parse :
    (name : Bytes) (o : Settings) (socket : Bytes)
    → option_letters socket ≡ none
    → parse_arguments (defaults name) (rendered o socket) ≡ some (o, socket)
unfolding parse_arguments Reads
rendered-parse name o socket h =
    Reads-rendered name o socket h (suc (count_args (rendered o socket))) enough
  where
    tail : List Bytes
    tail = levels o.debuglvl (socket ∷ [])

    enough :
        suc (suc (suc (suc (suc (suc (suc (o.debuglvl + 1)))))))
        ≤ suc (count_args (rendered o socket))
    enough = omega (
      arith,
      count-flag b'e' o.stderr_only (flag b'l' o.logstd (flag b'n' o.nodaemon tail)),
      count-flag b'l' o.logstd (flag b'n' o.nodaemon tail),
      count-flag b'n' o.nodaemon tail,
      count-levels o.debuglvl (socket ∷ []),
    )
