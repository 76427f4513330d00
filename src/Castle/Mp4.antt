-- ===== src/Castle/Mp4.antt =====
-- crates/rusty-castle/src/runtime.rs: the duration of an MP4 file. A file is its bytes, which do not
-- change while it is read; a `u64` is a natural number at most `u64_max`.
pub mod Search
use rusty_castle.Prelude.{
  ℕ, zero, suc, ◌+◌, ◌-◌, ◌*◌, ◌/◌, ◌%◌, min, true, false, ◌||◌, Option, none, some, [], ◌∷◌, ◌++◌,
  ltb, leb, ◌==◌, if◌then◌else◌, Result, ok, err, ◌>>=◌, ok_or, length, take, drop, replicate,
}
use rusty_castle.Str.{Str, Bytes, codes, str_eq}
use rusty_castle.Str.Decimal.{show}
use rusty_castle.MediaHttp.Range.{u64_max}

-- The error of `std::io`, as its text.
abbrev pub IoError : Type 0
IoError = Str

-- `read_exact` of `n` bytes behind a `seek` to `pos`
unfoldable pub read_at : Bytes → ℕ → ℕ → Option Bytes
read_at file pos n = if leb (pos + n) (length file) then some (take n (drop pos file)) else none

unfoldable pub read_exact_at : Bytes → ℕ → ℕ → Result IoError Bytes
unfolding read_at
read_exact_at file pos n = ok_or (read_at file pos n) (codes "failed to fill whole buffer")

-- `from_be_bytes`
unfoldable pub be : ℕ → Bytes → ℕ
be n [] = n
be n (b ∷ bytes) = be (n * 256 + b) bytes

-- The bytes `[from..to]` of a header.
abbrev pub slice : ℕ → ℕ → Bytes → Bytes
slice from to bytes = take (to - from) (drop from bytes)

-- The fields of version 0, and of version 1, behind the version and the flags.
unfoldable pub mvhd_fields : Bytes → ℕ → ℕ → ℕ → Result IoError (Option (ℕ × ℕ))
unfolding read_exact_at be
mvhd_fields file payload_start payload_end version =
    if version == 0
    then (read_exact_at file (payload_start + 4) 16 >>= λ fields.
        ok (some (be 0 (slice 8 12 fields), be 0 (slice 12 16 fields))))
    else if version == 1
    then (if ltb (payload_end - payload_start) 32
        then ok none
        else (read_exact_at file (payload_start + 4) 28 >>= λ fields.
            ok (some (be 0 (slice 16 20 fields), be 0 (slice 20 28 fields)))))
    else ok none

unfoldable pub read_mvhd : Bytes → ℕ → ℕ → Result IoError (Option (ℕ × ℕ))
unfolding read_exact_at mvhd_fields be
read_mvhd file payload_start payload_end =
    if ltb (payload_end - payload_start) 20
    then ok none
    else (read_exact_at file payload_start 4 >>= λ version_and_flags.
        mvhd_fields file payload_start payload_end (be 0 (take 1 version_and_flags)))

-- `(box_size, header_len)` of the box at `start`
unfoldable pub box_extent : Bytes → ℕ → ℕ → ℕ → Result IoError (ℕ × ℕ)
unfolding read_exact_at be
box_extent file start end size32 =
    if size32 == 0
    then ok (end - start, 8)
    else if size32 == 1
    then (read_exact_at file (start + 8) 8 >>= λ large_size. ok (be 0 large_size, 16))
    else ok (size32, 8)

pub record Mp4Box : Type 0 where
  pub box_type : Bytes
  pub payload_start : ℕ
  pub payload_end : ℕ

-- The box with the extent, unless it does not fit.
abbrev pub checked_box : Bytes → ℕ → ℕ → ℕ × ℕ → Option Mp4Box
checked_box header start end extent =
    if ltb extent.0 extent.1 || ltb end (min (start + extent.0) u64_max)
    then none
    else some record {
      box_type = slice 4 8 header;
      payload_start = start + extent.1;
      payload_end = start + extent.0;
    }

-- The box at `start`: `ok none` where `find_mp4_mvhd` returns `Ok(None)` before it looks at the type.
unfoldable pub box_at : Bytes → ℕ → ℕ → Result IoError (Option Mp4Box)
unfolding read_at box_extent be
box_at file start end =
    if leb (start + 8) end
    then (elim (read_at file start 8) [
      | none ↦ ok none
      | some header ↦ box_extent file start end (be 0 (slice 0 4 header)) >>= λ extent.
          ok (checked_box header start end extent)
    ])
    else ok none

-- What `find_mp4_mvhd` returns; the outer `none` is a lack of fuel.
abbrev pub Found : Type 0
Found = Option (Result IoError (Option (ℕ × ℕ)))

-- The duration found inside of a box, or the search behind it.
abbrev or_later : Found → Found → Found
or_later none later = none
or_later (some (err e)) later = some (err e)
or_later (some (ok (some d))) later = some (ok (some d))
or_later (some (ok none)) later = later

unfoldable pub find_mp4_mvhd : ℕ → Bytes → ℕ → ℕ → Found
unfolding box_at read_mvhd str_eq
find_mp4_mvhd zero file start end = none
find_mp4_mvhd (suc fuel) file start end = elim (box_at file start end) [
  | err e ↦ some (err e)
  | ok none ↦ some (ok none)
  | ok (some b) ↦ elim (str_eq b.box_type (codes "mvhd")) [
    | true ↦ some (read_mvhd file b.payload_start b.payload_end)
    | false ↦ elim (str_eq b.box_type (codes "moov")) [
      | true ↦
          or_later (find_mp4_mvhd fuel file b.payload_start b.payload_end)
            (find_mp4_mvhd fuel file b.payload_end end)
      | false ↦ find_mp4_mvhd fuel file b.payload_end end
    ]
  ]
]

-- `{:02}` and `{:03}`
unfoldable pub padded : ℕ → ℕ → Str
padded width n = replicate (width - length (show n)) b'0' ++ show n

abbrev total_ms : ℕ → ℕ → ℕ
total_ms duration timescale =
    min (min (duration * 1000) u64_max + timescale / 2) u64_max / timescale

unfoldable pub format_dlna_duration : ℕ → ℕ → Str
unfolding padded
format_dlna_duration duration timescale =
    let ms = total_ms duration timescale in
    let s = ms / 1000 in
    let clock = show (s / 3600) ++ b':' ∷ padded 2 (s % 3600 / 60) ++ b':' ∷ padded 2 (s % 60) in
    if ms % 1000 == 0 then clock else clock ++ b'.' ∷ padded 3 (ms % 1000)

abbrev pub duration_text : Result IoError (Option (ℕ × ℕ)) → Result IoError (Option Str)
duration_text (err e) = err e
duration_text (ok none) = ok none
duration_text (ok (some (timescale, duration))) =
    if timescale == 0 then ok none else ok (some (format_dlna_duration duration timescale))

-- `mp4_duration` of an open file. The fuel is enough, since each box takes at least eight bytes.
unfoldable pub mp4_duration : Bytes → Option (Result IoError (Option Str))
unfolding find_mp4_mvhd format_dlna_duration
mp4_duration file = elim (find_mp4_mvhd (suc (length file)) file 0 (length file)) [
  | none ↦ none
  | some r ↦ some (duration_text r)
]
