-- ===== src/Castle/Cli/Tests.antt =====
-- Runs of the command line and of the time stamps, those of the source's tests among them.
use rusty_castle.Prelude.{◌*◌, ◌^◌, ◌≡◌, refl, true, false, some, List, [], ◌∷◌, ok, err}
use rusty_castle.Str.{Str, codes, str_eq}
use rusty_castle.Str.Decimal.{emit, show}
use rusty_castle.Castle.Cli.{serve, version, parse_args, parse_level, format_timestamp, warn}
use rusty_castle.Castle.Cli.Args.{
  asks_version, before_version, has_web_ui, names, parse_args_lem, requested,
}
use rusty_castle.Castle.Cli.Civil.{civil_from_days, pos, negsuc}

with_web_ui :
    parse_args (codes "--web-ui" ∷ codes "/media" ∷ [])
    ≡ ok (record { action = serve (some (codes "/media")); web_ui_enabled = true })
unfolding parse_args str_eq
with_web_ui = refl

version_last :
    parse_args (codes "/media" ∷ codes "-V" ∷ codes "/more" ∷ [])
    ≡ ok (record { action = version; web_ui_enabled = false })
unfolding parse_args str_eq
version_last = refl

two_directories :
    parse_args (codes "/a" ∷ codes "/b" ∷ codes "-V" ∷ [])
    ≡ err (codes "expected at most one media directory")
unfolding parse_args str_eq
two_directories = refl

last_level : parse_level (codes "hyper=debug,rusty_castle= Warning ") ≡ some warn
unfolding parse_level str_eq
last_level = refl

unix_epoch : format_timestamp (ok 0) ≡ codes "1970-01-01T00:00:00.000Z"
unfolding format_timestamp show emit
unix_epoch = refl

with_milliseconds :
    format_timestamp (ok (1704067202345 * 10 ^ 6)) ≡ codes "2024-01-01T00:00:02.345Z"
unfolding format_timestamp show emit
with_milliseconds = refl

before_epoch : format_timestamp (err (10 ^ 6)) ≡ codes "1969-12-31T23:59:59.999Z"
unfolding format_timestamp show emit
before_epoch = refl

leap_day : civil_from_days (pos 19782) ≡ (pos 2024, 2, 29)
unfolding civil_from_days
leap_day = refl

before_era : civil_from_days (negsuc 719468) ≡ (pos 0, 2, 29)
unfolding civil_from_days
before_era = refl

abbrev three_arguments : List Str
three_arguments = codes "/media" ∷ codes "--web-ui" ∷ codes "-V" ∷ []

parse_args_example :
    parse_args three_arguments
    ≡ requested
        (has_web_ui (before_version three_arguments))
        (asks_version three_arguments)
        (names (before_version three_arguments))
parse_args_example = parse_args_lem three_arguments
