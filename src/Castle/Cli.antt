-- ===== src/Castle/Cli.antt =====
-- crates/rusty-castle/src/main.rs: the arguments, the configuration that they and the environment
-- give, and the level and the time stamps of the log. Arguments that are not UTF-8 are left out. A
-- duration is in nanoseconds.
pub mod Args
pub mod Civil
pub mod Tests
use rusty_castle.Prelude.{
  ℕ, suc, ◌+◌, ◌*◌, ◌/◌, ◌%◌, ◌^◌, ◌||◌, Bool, true, false, Option, none, some, List, [], ◌∷◌, ◌++◌,
  map, if◌then◌else◌, Result, ok, err,
}
use rusty_castle.Str.{Str, codes, str_eq, trim, to_ascii_lowercase, split}
use rusty_castle.Castle.Mp4.{IoError, padded}
use rusty_castle.Castle.State.{RuntimeConfig}
use rusty_castle.Castle.Cli.Civil.{ℤ, pos, negsuc, neg, div_euclid, rem_euclid, civil_from_days}

pub data StartupAction : Type 0 where
  version : StartupAction
  serve : Option Str → StartupAction

pub record ParsedArgs : Type 0 where
  pub action : StartupAction
  pub web_ui_enabled : Bool

-- The loop of `parse_args`, with its two variables.
unfoldable pub parse_loop : Bool → Option Str → List Str → Result IoError ParsedArgs
parse_loop web_ui media_dir [] = ok (record { action = serve media_dir; web_ui_enabled = web_ui })
parse_loop web_ui media_dir (arg ∷ args) =
    let flagged = parse_loop true media_dir args in
    let named = parse_loop web_ui (some arg) args in
    if str_eq arg (codes "--version") || str_eq arg (codes "-V")
    then ok (record { action = version; web_ui_enabled = web_ui })
    else if str_eq arg (codes "--web-ui")
    then flagged
    else elim media_dir [
      | none ↦ named
      | some _ ↦ err (codes "expected at most one media directory")
    ]

unfoldable pub parse_args : List Str → Result IoError ParsedArgs
unfolding parse_loop
parse_args args = parse_loop false none args

-- `env::var`, with the value that stands in for a variable that is not set.
abbrev unwrap_or : Str → Option Str → Str
unwrap_or s none = s
unwrap_or s (some t) = t

-- What `main` makes of the environment and of the arguments.
unfoldable pub main_config : (Str → Option Str) → ParsedArgs → RuntimeConfig
main_config var args =
    let host = unwrap_or (codes "127.0.0.1") (var (codes "RUSTY_CASTLE_HOST")) in
    record {
      public_base_url = codes "http://" ++ host ++ codes ":49152/";
      uuid =
          unwrap_or (codes "550e8400-e29b-41d4-a716-446655440000")
            (var (codes "RUSTY_CASTLE_UUID"));
      friendly_name = unwrap_or (codes "Rusty Castle") (var (codes "RUSTY_CASTLE_NAME"));
      web_ui_enabled = args.web_ui_enabled;
    }

pub data LevelFilter : Type 0 where
  off error warn info debug trace : LevelFilter

-- `next_back` of a splitting
abbrev last_part : Str → List Str → Str
last_part s [] = s
last_part s (t ∷ ts) = last_part t ts

unfoldable pub parse_level : Str → Option LevelFilter
unfolding split trim to_ascii_lowercase str_eq
parse_level value =
    let part = last_part value (split b',' value) in
    let level = map to_ascii_lowercase (trim (last_part part (split b'=' part))) in
    if str_eq level (codes "off")
    then some off
    else if str_eq level (codes "error")
    then some error
    else if str_eq level (codes "warn") || str_eq level (codes "warning")
    then some warn
    else if str_eq level (codes "info")
    then some info
    else if str_eq level (codes "debug")
    then some debug
    else if str_eq level (codes "trace")
    then some trace
    else none

-- The seconds of a `Duration` are a `u64`, so that the `i128` does not saturate.
unfoldable duration_to_millis : ℕ → ℕ
duration_to_millis duration = duration / 10 ^ 9 * 1000 + duration % 10 ^ 9 / 10 ^ 6

-- `{year:04}`, where a sign counts as a digit.
unfoldable year_text : ℤ → Str
unfolding padded
year_text (pos n) = padded 4 n
year_text (negsuc n) = b'-' ∷ padded 3 (suc n)

-- `now` is the duration since the Unix epoch, or as an error the duration until it.
unfoldable pub format_timestamp : Result ℕ ℕ → Str
unfolding duration_to_millis padded year_text civil_from_days div_euclid rem_euclid
format_timestamp now =
    let millis = millis_since_epoch now in
    let seconds = div_euclid millis 1000 in
    let seconds_of_day = rem_euclid seconds 86400 in
    stamp (civil_from_days (div_euclid seconds 86400)) (seconds_of_day / 3600)
      (seconds_of_day % 3600 / 60) (seconds_of_day % 60) (rem_euclid millis 1000)
  where
    millis_since_epoch : Result ℕ ℕ → ℤ
    millis_since_epoch (ok d) = pos (duration_to_millis d)
    millis_since_epoch (err d) = neg (pos (duration_to_millis d))

    stamp : ℤ × ℕ × ℕ → ℕ → ℕ → ℕ → ℕ → Str
    stamp (year, month, day) hour minute second milliseconds =
        year_text year
        ++ b'-' ∷ padded 2 month
        ++ b'-' ∷ padded 2 day
        ++ b'T' ∷ padded 2 hour
        ++ b':' ∷ padded 2 minute
        ++ b':' ∷ padded 2 second
        ++ b'.' ∷ padded 3 milliseconds
        ++ codes "Z"
