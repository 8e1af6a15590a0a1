-- ===== src/Source/Loader.antt =====
-- `load_loader` of src/milter/source.cpp: the shared library of a source. The dynamic linker is a
-- parameter: whether a file can be opened, and which names it has then.
use undervest.Prelude.{
  Bool, true, false, ◌&&◌, Option, none, some, List, [], ◌∷◌, ◌++◌, if◌then◌else◌, ◌==◌, Bytes,
  codes,
}
use undervest.Stringlib.{mem}

-- `open_loader`, where no library is open: the path of the library that is open afterwards.
unfoldable pub open_loader : (Bytes → Option (Bytes → Bool)) → Bytes → Option Bytes
open_loader dlopen path = elim (dlopen path) [
  | none ↦ none
  | some symbol ↦
      if symbol (codes "openSource")
        && (symbol (codes "getRecipient") && symbol (codes "closeSource"))
      then some path
      else none
]

unfoldable pub ends_in_slash : Bytes → Bool
ends_in_slash [] = true
ends_in_slash (c ∷ []) = c == b'/'
ends_in_slash (c ∷ d ∷ s) = ends_in_slash (d ∷ s)

-- `if (s.length() && s[s.length() - 1] != '/') s += '/'`
unfoldable pub directory : Bytes → Bytes
directory s = if ends_in_slash s then s else s ++ codes "/"

abbrev pub or_else : Option Bytes → Option Bytes → Option Bytes
or_else none r = r
or_else (some p) r = some p

-- The loop over `loader_path`, and what follows it.
unfoldable pub search_path : (Bytes → Option (Bytes → Bool)) → List Bytes → Bytes → Option Bytes
search_path dlopen [] name = open_loader dlopen name
search_path dlopen (d ∷ dirs) name =
    or_else (open_loader dlopen (directory d ++ name)) (search_path dlopen dirs name)

-- `loader[0] == '/'`
unfoldable pub is_absolute : Bytes → Bool
is_absolute [] = false
is_absolute (c ∷ s) = c == b'/'

unfoldable pub search_loader :
    (Bytes → Option (Bytes → Bool)) → List Bytes → Bytes → Bytes → Bytes → Option Bytes
search_loader dlopen dirs loader prefix suffix =
    if is_absolute loader
    then open_loader dlopen loader
    else search_path dlopen dirs (prefix ++ (loader ++ suffix))

-- The searches for a loader that may be a name.
unfoldable pub search_names : (Bytes → Option (Bytes → Bool)) → List Bytes → Bytes → Option Bytes
search_names dlopen dirs loader =
    if mem b'/' loader
    then none
    else or_else (search_loader dlopen dirs loader [] (codes ".so")) (
        or_else (search_loader dlopen dirs loader (codes "lib") [])
          (search_loader dlopen dirs loader (codes "lib") (codes ".so")))

-- `load_loader`: the library that is open, or `none` where `log_throw` is called.
unfoldable pub load_loader : (Bytes → Option (Bytes → Bool)) → List Bytes → Bytes → Option Bytes
load_loader dlopen dirs loader =
    or_else (search_loader dlopen dirs loader [] []) (search_names dlopen dirs loader)

-- The text with which `log_throw` is called.
unfoldable pub loader_message : Bytes → Bytes
loader_message loader = codes "No suitable loader found: " ++ loader

-- A name in each directory, and as it is.
abbrev pub places : List Bytes → Bytes → List Bytes
places [] name = name ∷ []
places (d ∷ dirs) name = (directory d ++ name) ∷ places dirs name

-- The files that may be the loader, the best one first.
abbrev pub candidates : List Bytes → Bytes → List Bytes
candidates dirs loader =
    if is_absolute loader
    then loader ∷ []
    else if mem b'/' loader
    then places dirs loader
    else (places dirs loader
        ++ (places dirs (loader ++ codes ".so")
            ++ (places dirs (codes "lib" ++ loader)
                ++ places dirs (codes "lib" ++ (loader ++ codes ".so")))))

-- The first file that is a loader.
abbrev pub first_loader : (Bytes → Option (Bytes → Bool)) → List Bytes → Option Bytes
first_loader dlopen [] = none
first_loader dlopen (p ∷ ps) = or_else (open_loader dlopen p) (first_loader dlopen ps)
