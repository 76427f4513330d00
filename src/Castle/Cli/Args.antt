-- ===== src/Castle/Cli/Args.antt =====
-- crates/rusty-castle/src/main.rs: what the arguments say, without a loop over two variables.
use rusty_castle.Prelude.{
  ◌≡◌, refl, sym, ap, Bool, true, false, ◌||◌, Option, none, some, List, [], ◌∷◌, ◌++◌,
  if◌then◌else◌, Result, ok, err, Bool-cases, inl, inr,
}
use rusty_castle.Str.{Str, codes, str_eq}
use rusty_castle.Castle.Mp4.{IoError}
use rusty_castle.Castle.Cli.{ParsedArgs, serve, version, parse_args, parse_loop}

abbrev is_version : Str → Bool
is_version arg = str_eq arg (codes "--version") || str_eq arg (codes "-V")

abbrev is_web_ui : Str → Bool
is_web_ui arg = str_eq arg (codes "--web-ui")

-- The arguments before the first that asks for the version, and whether there is one.
unfoldable pub before_version : List Str → List Str
before_version [] = []
before_version (arg ∷ args) =
    let rest = before_version args in if is_version arg then [] else arg ∷ rest

unfoldable pub asks_version : List Str → Bool
asks_version [] = false
asks_version (arg ∷ args) = is_version arg || asks_version args

unfoldable pub has_web_ui : List Str → Bool
has_web_ui [] = false
has_web_ui (arg ∷ args) = is_web_ui arg || has_web_ui args

unfoldable pub names : List Str → List Str
names [] = []
names (arg ∷ args) = let rest = names args in if is_web_ui arg then rest else arg ∷ rest

-- What is asked for, by the names that are given.
unfoldable pub requested : Bool → Bool → List Str → Result IoError ParsedArgs
requested web_ui true [] = ok (record { action = version; web_ui_enabled = web_ui })
requested web_ui true (name ∷ []) = ok (record { action = version; web_ui_enabled = web_ui })
requested web_ui false [] = ok (record { action = serve none; web_ui_enabled = web_ui })
requested web_ui false (name ∷ []) =
    ok (record { action = serve (some name); web_ui_enabled = web_ui })
requested web_ui asked (name ∷ other ∷ more) = err (codes "expected at most one media directory")

abbrev named : Option Str → List Str
named none = []
named (some name) = name ∷ []

or_true : (b : Bool) → (b || true) ≡ true
or_true true = refl
or_true false = refl

or_false : (b : Bool) → (b || false) ≡ b
or_false true = refl
or_false false = refl

requested_once :
    (web_ui : Bool) (media_dir : Option Str)
    → requested (web_ui || false) true (named media_dir ++ [])
      ≡ ok (record { action = version; web_ui_enabled = web_ui })
unfolding requested
requested_once web_ui none =
    ap (λ b. ok (record { action = version; web_ui_enabled = b })) (or_false web_ui)
requested_once web_ui (some n) =
    ap (λ b. ok (record { action = version; web_ui_enabled = b })) (or_false web_ui)

requested_none :
    (web_ui : Bool) (media_dir : Option Str)
    → requested (web_ui || false) false (named media_dir ++ [])
      ≡ ok (record { action = serve media_dir; web_ui_enabled = web_ui })
unfolding requested
requested_none web_ui none =
    ap (λ b. ok (record { action = serve none; web_ui_enabled = b })) (or_false web_ui)
requested_none web_ui (some n) =
    ap (λ b. ok (record { action = serve (some n); web_ui_enabled = b })) (or_false web_ui)

requested_twice :
    (web_ui asked : Bool) (a b : Str) (more : List Str)
    → requested web_ui asked (a ∷ b ∷ more) ≡ err (codes "expected at most one media directory")
unfolding requested
requested_twice web_ui true a b more = refl
requested_twice web_ui false a b more = refl

name_lem :
    (web_ui : Bool) (media_dir : Option Str) (arg : Str) (args : List Str)
    → (parse_loop web_ui (some arg) args
        ≡ requested
            (web_ui || has_web_ui (before_version args))
            (asks_version args)
            (arg ∷ names (before_version args)))
    → (elim media_dir [
      | none ↦ parse_loop web_ui (some arg) args
      | some _ ↦ err (codes "expected at most one media directory")
    ])
      ≡ requested
          (web_ui || has_web_ui (before_version args))
          (asks_version args)
          (named media_dir ++ arg ∷ names (before_version args))
name_lem web_ui none arg args h = h
name_lem web_ui (some name) arg args h = sym (requested_twice _ _ name arg _)

parse_loop_lem :
    (web_ui : Bool) (media_dir : Option Str) (args : List Str)
    → parse_loop web_ui media_dir args
      ≡ requested
          (web_ui || has_web_ui (before_version args))
          (asks_version args)
          (named media_dir ++ names (before_version args))
unfolding parse_loop before_version asks_version has_web_ui names
parse_loop_lem web_ui media_dir [] = sym (requested_none web_ui media_dir)
parse_loop_lem web_ui media_dir (arg ∷ args) = elim (Bool-cases (is_version arg)) [
  | inl v ↦ rw v (sym (requested_once web_ui media_dir))
  | inr o ↦ elim (Bool-cases (is_web_ui arg)) [
    | inl w ↦ rw (o, w, or_true web_ui) (parse_loop_lem true media_dir args)
    | inr n ↦ rw (o, n) (name_lem web_ui media_dir arg args (parse_loop_lem web_ui (some arg) args))
  ]
]

-- The arguments are refused exactly if two names, which are no flags, stand before the first that
-- asks for the version. Otherwise the version is asked for if an argument does, else the media directory is the one name
-- or none; and the web interface is enabled if its flag stands before that first argument.
pub parse_args_lem :
    (args : List Str)
    → parse_args args
      ≡ requested
          (has_web_ui (before_version args))
          (asks_version args)
          (names (before_version args))
unfolding parse_args
parse_args_lem args = parse_loop_lem false none args
