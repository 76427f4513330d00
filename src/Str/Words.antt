-- ===== src/Str/Words.antt =====
-- The operations of `str` that read a text from its ends or word by word.
use rusty_castle.Prelude.{
  ℕ, Bool, false, Option, none, some, [], ◌∷◌, ◌==◌, if◌then◌else◌, is_empty,
}
use rusty_castle.Str.{Str, is_ascii_whitespace, trim_start_matches}

-- `s.starts_with(c)` and `s.ends_with(c)` for a character
unfoldable pub starts_with : ℕ → Str → Bool
starts_with d [] = false
starts_with d (c ∷ s) = c == d

unfoldable pub ends_with : ℕ → Str → Bool
ends_with d [] = false
ends_with d (c ∷ []) = c == d
ends_with d (c ∷ e ∷ s) = ends_with d (e ∷ s)

-- `s.rsplit_once(d)` for a character: the parts around the last `d`.
unfoldable pub rsplit_once : ℕ → Str → Option (Str × Str)
rsplit_once d [] = none
rsplit_once d (c ∷ s) = elim (rsplit_once d s) [
  | none ↦ if c == d then some ([], s) else none
  | some (a, b) ↦ some (c ∷ a, b)
]

unfoldable pub take_word : Str → Str
unfolding is_ascii_whitespace
take_word [] = []
take_word (c ∷ s) = let rest = take_word s in if is_ascii_whitespace c then [] else c ∷ rest

-- `s.split_ascii_whitespace().next()`
unfoldable pub first_word : Str → Option Str
unfolding take_word trim_start_matches is_ascii_whitespace
first_word s =
    let word = take_word (trim_start_matches is_ascii_whitespace s) in
    if is_empty word then none else some word
