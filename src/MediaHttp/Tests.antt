-- ===== src/MediaHttp/Tests.antt =====
-- Runs of the media server's plans on concrete requests.
use rusty_castle.Prelude.{
  false, ℕ, ◌+◌, ◌≤◌, ◌<◌, ◌≡◌, refl, ◌≢◌, ◌↔◌, ◌⊎◌, true, none, some, arith, ok, err,
}
use rusty_castle.Str.{codes}
use rusty_castle.Dlna.{sony_mp4}
use rusty_castle.MediaHttp.Range.{
  from, suffix, SatisfiableRange, range_len, parse_range_header, apply, unsatisfiable,
}
use rusty_castle.MediaHttp.Range.Apply.{
  Selects, Covers, IsWellFormed, apply_sound, apply_unsatisfiable,
}
use rusty_castle.MediaHttp.Range.Parse.{Fits, print, parse_range_header_sound, parse-print}
use rusty_castle.MediaHttp.Response.{
  get, head, MediaHeadersRef, plan_media_response, partial_content, range_not_satisfiable,
}
use rusty_castle.MediaHttp.Response.Plan.{
  IsConsistent, plan-IsConsistent, plan-print, send_body_iff,
}

abbrev movie : MediaHeadersRef
movie = record { len = 1000; content_type = codes "video/mp4"; protocol_info = sony_mp4 }

abbrev last_ten : SatisfiableRange
last_ten = record { start = 990; end = 999 }

plan-IsConsistent_example :
    IsConsistent 1000 (plan_media_response get movie (some (codes "bytes=990-")))
plan-IsConsistent_example = plan-IsConsistent get movie (some (codes "bytes=990-"))

plan-print_example :
    ((r : SatisfiableRange) × ((plan_media_response get movie (some (print (from 990 none)))).status
        ≡ partial_content)
      × ((plan_media_response get movie (some (print (from 990 none)))).send_body ≡ true)
      × ((plan_media_response get movie (some (print (from 990 none)))).body_range ≡ some r)
      × ((p : ℕ) → Covers r p ↔ Selects (from 990 none) 1000 p))
    ⊎ (((plan_media_response get movie (some (print (from 990 none)))).status
          ≡ range_not_satisfiable)
        × ((plan_media_response get movie (some (print (from 990 none)))).send_body ≡ false)
        × ((plan_media_response get movie (some (print (from 990 none)))).body_range ≡ none)
        × ((p : ℕ) → ¬ Selects (from 990 none) 1000 p))
plan-print_example = plan-print get movie (from 990 none) tt (omega arith)

send_body_iff_example :
    ((plan_media_response head movie (some (codes "bytes=0-1"))).send_body ≡ true) ↔ (
      (head ≡ get)
      × ((plan_media_response head movie (some (codes "bytes=0-1"))).status
          ≢ range_not_satisfiable))
send_body_iff_example = send_body_iff head movie (some (codes "bytes=0-1"))

apply-last_ten : apply (suffix 10) 1000 ≡ ok last_ten
unfolding apply
apply-last_ten = refl

apply_sound_example :
    ((p : ℕ) → Covers last_ten p ↔ Selects (suffix 10) 1000 p)
    × (990 ≤ 999)
    × (999 < 1000)
    × (990 + range_len last_ten ≡ 1000)
apply_sound_example = apply_sound (suffix 10) 1000 last_ten (omega arith) apply-last_ten

apply_unsatisfiable_example :
    (apply (from 1000 none) 1000 ≡ err unsatisfiable)
    ↔ ((p : ℕ) → ¬ Selects (from 1000 none) 1000 p)
apply_unsatisfiable_example = apply_unsatisfiable (from 1000 none) 1000 tt

parse_range_header_sound_example : IsWellFormed (from 5 (some 9)) × Fits (from 5 (some 9))
parse_range_header_sound_example =
    parse_range_header_sound (print (from 5 (some 9))) (from 5 (some 9))
      (parse-print (from 5 (some 9)) (omega arith) (omega arith, omega arith))

parse-print_example : parse_range_header (print (from 5 (some 9))) ≡ ok (from 5 (some 9))
parse-print_example = parse-print (from 5 (some 9)) (omega arith) (omega arith, omega arith)
