-- ===== src/MediaHttp/Range/Apply.antt =====
-- What `ByteRangeSpec::apply` selects.
use rusty_castle.Prelude.{ℕ, ◌+◌, ◌-◌, ◌≤◌, ◌<◌, ◌≡◌, ◌≢◌, ◌↔◌, none, some, ok, err, arith}
use rusty_castle.MediaHttp.Range.{
  ByteRangeSpec, from, suffix, SatisfiableRange, range_len, invalid, unsatisfiable, apply,
}

-- The byte at `p` of a representation of `total` bytes is asked for by the range.
abbrev pub Selects : ByteRangeSpec → ℕ → ℕ → Type 0
Selects (from first none) total p = (first ≤ p) × (p < total)
Selects (from first (some last)) total p = (first ≤ p) × (p ≤ last) × (p < total)
Selects (suffix len) total p = (total ≤ p + len) × (p < total)

-- What the parser accepts: a range that is not empty.
abbrev pub IsWellFormed : ByteRangeSpec → Type 0
IsWellFormed (from first none) = Unit {0}
IsWellFormed (from first (some last)) = first ≤ last
IsWellFormed (suffix len) = 0 < len

abbrev pub Covers : SatisfiableRange → ℕ → Type 0
Covers r p = (r.start ≤ p) × (p ≤ r.end)

-- A range that `apply` returns for a range that is not empty covers the bytes that are asked for,
-- and no others; it is not empty and lies within the representation, and its length is that of the
-- bytes from its start to its end.
pub apply_sound :
    (spec : ByteRangeSpec) (total : ℕ) (r : SatisfiableRange)
    → IsWellFormed spec
    → apply spec total ≡ ok r
    → ((p : ℕ) → Covers r p ↔ Selects spec total p)
      × (r.start ≤ r.end)
      × (r.end < total)
      × (r.start + range_len r ≡ r.end + 1)
unfolding apply range_len
apply_sound (from first none) total r w h =
    (λ p. ground arith, ground arith, ground arith, ground arith)
apply_sound (from first (some last)) total r w h =
    (λ p. ground arith, ground arith, ground arith, ground arith)
apply_sound (suffix len) total r w h = (λ p. ground arith, ground arith, ground arith, ground arith)

-- For a range that is not empty, apply fails as unsatisfiable exactly when no byte is asked for.
pub apply_unsatisfiable :
    (spec : ByteRangeSpec) (total : ℕ)
    → IsWellFormed spec
    → (apply spec total ≡ err unsatisfiable) ↔ ((p : ℕ) → ¬ Selects spec total p)
unfolding apply
apply_unsatisfiable (from first none) total w =
    (λ h p s. ground arith, λ h. ground (arith, h first))
apply_unsatisfiable (from first (some last)) total w =
    (λ h p s. ground arith, λ h. ground (arith, h first))
apply_unsatisfiable (suffix len) total w =
    (λ h p s. ground arith, λ h. ground (arith, h (total - 1)))

pub apply-ne-invalid : (spec : ByteRangeSpec) (total : ℕ) → apply spec total ≢ err invalid
unfolding apply
apply-ne-invalid (from first last) total = ground arith
apply-ne-invalid (suffix len) total = ground arith
