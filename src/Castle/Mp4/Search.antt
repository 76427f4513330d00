-- ===== src/Castle/Mp4/Search.antt =====
-- crates/rusty-castle/src/runtime.rs: the search for the `mvhd` box of an MP4 file.
use rusty_castle.Prelude.{
  ℕ, zero, suc, ◌+◌, ◌-◌, ◌≤◌, ◌<◌, min, ◌≡◌, refl, subst, inl, inr, Bool, true, false, ◌||◌,
  Option, none, some, arith, ltb, leb, if◌then◌else◌, Bool-cases, Option-cases, Result, ok, err,
  ◌>>=◌, Result-cases, >>=_inverse, length,
}
use rusty_castle.Str.{Str, Bytes, codes, str_eq}
use rusty_castle.MediaHttp.Range.{u64_max}
use rusty_castle.Castle.Mp4.{
  IoError, duration_text, slice, checked_box, Mp4Box, Found, read_at, be, box_extent, box_at,
  read_mvhd, find_mp4_mvhd, or_later, mp4_duration,
}

extent-header :
    (file : Bytes) (start end n size head : ℕ)
    → box_extent file start end n ≡ ok (size, head)
    → 8 ≤ head
unfolding box_extent
extent-header file start end n size head h = ground arith

-- A box that the search looks at lies in the part of the file that is searched, behind a header of
-- eight bytes or more.
pub record IsBoxIn (start end : ℕ) (b : Mp4Box) : Type 0 where
  pub head : start + 8 ≤ b.payload_start
  pub payload : b.payload_start ≤ b.payload_end
  pub inside : b.payload_end ≤ end

kept : (t : Bool) (x b : Mp4Box) → (if t then none else some x) ≡ some b → (t ≡ false) × (x ≡ b)
kept true x b h = cc
kept false x b h = ground arith

checked_box-IsBoxIn :
    (header : Bytes) (start end : ℕ) (extent : ℕ × ℕ) (b : Mp4Box)
    → end < u64_max
    → 8 ≤ extent.1
    → checked_box header start end extent ≡ some b
    → IsBoxIn start end b
checked_box-IsBoxIn header start end (size, head) b fits h8 h =
    let (t, e) = kept (ltb size head || ltb end (min (start + size) u64_max)) _ b h in
    subst (IsBoxIn start end) e
      record { head = omega arith; payload = ground (arith, t); inside = ground (arith, t) }

pub box_at-IsBoxIn :
    (file : Bytes) (start end : ℕ) (b : Mp4Box)
    → end < u64_max
    → box_at file start end ≡ ok (some b)
    → IsBoxIn start end b
unfolding box_at
box_at-IsBoxIn file start end b fits h = elim (Bool-cases (leb (start + 8) end)) [
  | inr e ↦ absurd (ground (arith, e))
  | inl e ↦ elim (Option-cases (read_at file start 8)) [
    | inl e' ↦ absurd (ground (arith, e, e'))
    | inr (header, e') ↦
        let h' : (box_extent file start end (be 0 (slice 0 4 header)) >>= λ extent.
        ok (checked_box header start end extent))
            ≡ ok (some b) =
          ground (arith, h, e, e') in
        let (extent, x, y) =
          >>=_inverse (box_extent file start end (be 0 (slice 0 4 header)))
            (λ extent. ok (checked_box header start end extent)) h' in
        checked_box-IsBoxIn header start end extent b fits
          (extent-header file start end (be 0 (slice 0 4 header)) extent.0 extent.1 x)
          (ground (arith, y))
  ]
]

or_later-some :
    (a b : Found) {x y : Result IoError (Option (ℕ × ℕ))}
    → a ≡ some x
    → b ≡ some y
    → (z : Result IoError (Option (ℕ × ℕ))) × (or_later a b ≡ some z)
or_later-some (some (err e)) b p q = (err e, refl)
or_later-some (some (ok (some d))) b p q = (ok (some d), refl)
or_later-some (some (ok none)) b {x} {y} p q = (y, q)
or_later-some none b p q = cc

-- In a part of a file that ends below 2 ^ 64 - 1, with more fuel than the part has bytes, the
-- search returns.
find-returns :
    (fuel : ℕ) (file : Bytes) (start end : ℕ)
    → end < u64_max
    → end - start < fuel
    → (r : Result IoError (Option (ℕ × ℕ))) × (find_mp4_mvhd fuel file start end ≡ some r)
unfolding find_mp4_mvhd
find-returns zero file start end fits f = absurd (omega arith)
find-returns (suc fuel) file start end fits f = elim (Result-cases (box_at file start end)) [
  | inr (e, h) ↦ rw (h, find_mp4_mvhd) (err e, refl)
  | inl (none, h) ↦ rw (h, find_mp4_mvhd) (ok none, refl)
  | inl (some b, h) ↦
      let i = box_at-IsBoxIn file start end b fits h in
      let (later, l) =
        find-returns fuel file b.payload_end end fits
          (omega (arith, i.head, i.payload, i.inside)) in
      let (inner, n) =
        find-returns fuel file b.payload_start b.payload_end (omega (arith, i.inside))
          (omega (arith, i.head, i.payload, i.inside)) in
      elim (Bool-cases (str_eq b.box_type (codes "mvhd"))) [
        | inl e ↦ rw (h, find_mp4_mvhd) (rw e (read_mvhd file b.payload_start b.payload_end, refl))
        | inr e ↦ elim (Bool-cases (str_eq b.box_type (codes "moov"))) [
          | inl e' ↦ rw (h, find_mp4_mvhd) (rw e (rw e' (or_later-some _ _ n l)))
          | inr e' ↦ rw (h, find_mp4_mvhd) (rw e (rw e' (later, l)))
        ]
      ]
]

-- For a file shorter than 2 ^ 64 - 1 bytes, the search for its duration ends: it returns an error
-- of the file system, no duration, or a duration.
pub mp4_duration-returns :
    (file : Bytes)
    → length file < u64_max
    → (r : Result IoError (Option Str)) × (mp4_duration file ≡ some r)
unfolding mp4_duration
mp4_duration-returns file fits =
    let (r, h) = find-returns (suc (length file)) file 0 (length file) fits (omega arith) in
    rw (h, mp4_duration) (duration_text r, refl)
