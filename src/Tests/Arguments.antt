-- ===== src/Tests/Arguments.antt =====
-- Arguments of the program at concrete values.
use undervest.Prelude.{◌≡◌, refl, true, false, some, [], ◌∷◌, codes}
use undervest.Options
use undervest.Options.{Settings, defaults, option_letters, parse_arguments}
use undervest.Options.Rendered.{rendered, rendered-parse}

abbrev chosen : Settings
chosen = record {
  config = codes "/tmp/c";
  user = codes "mail";
  group = codes "mail";
  jail = [];
  debuglvl = 2;
  stderr_only = true;
  logstd = false;
  nodaemon = true;
}

rendered-parse_example :
    parse_arguments (defaults (codes "/etc/u")) (rendered chosen (codes "inet:1"))
    ≡ some (chosen, codes "inet:1")
unfolding option_letters
rendered-parse_example = rendered-parse (codes "/etc/u") chosen (codes "inet:1") refl

-- letters behind one dash, of which the last has an argument
bundled :
    parse_arguments (defaults []) (codes "-eddc" ∷ codes "x" ∷ codes "s" ∷ [])
    ≡ some (record (defaults (codes "x")) { stderr_only = true; debuglvl = 2 }, codes "s")
unfolding parse_arguments Options.parse_from option_letters Options.letters_of Options.option_of
    Options.socket_of
bundled = refl
