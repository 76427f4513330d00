-- ===== src/Ssdp/IndexMap.antt =====
-- `heapless::FnvIndexMap` with texts as keys. It is not part of the repository: its operations are
-- parameters, with the behaviour that its documentation states. A map is seen as the list of its
-- entries in the order of iteration, which the operations may change.
pub mod Lists
use rusty_castle.Prelude.{
  ℕ, ◌≤◌, ◌≡◌, ◌↔◌, Option, none, some, List, [], ◌∷◌, if◌then◌else◌, length,
}
use rusty_castle.Str.{Str, str_eq}

abbrev pub Entries : Type 0 → Type 0
Entries V = List (Str × V)

-- `get`
unfoldable pub find : {V : Type 0} → Str → Entries V → Option V
find k [] = none
find k ((j, v) ∷ es) = if str_eq j k then some v else find k es

-- No key has two entries.
abbrev pub IsMap : {V : Type 0} → Entries V → Type 0
IsMap [] = Unit {0}
IsMap ((k, v) ∷ es) = (find k es ≡ none) × IsMap es

pub record IndexMap : Type 1 where
  -- `insert`: `none` is `Err`, for a new key in a full map.
  pub insert : {V : Type 0} → ℕ → Str → V → Entries V → Option (Entries V)
  pub insert-none :
      {V : Type 0} (cap : ℕ) (k : Str) (v : V) (es : Entries V)
      → (insert cap k v es ≡ none) ↔ ((find k es ≡ none) × (cap ≤ length es))
  pub insert-find :
      {V : Type 0} (cap : ℕ) (k j : Str) (v : V) (es es' : Entries V)
      → insert cap k v es ≡ some es'
      → find j es' ≡ (if str_eq k j then some v else find j es)
  pub insert-IsMap :
      {V : Type 0} (cap : ℕ) (k : Str) (v : V) (es es' : Entries V)
      → insert cap k v es ≡ some es'
      → IsMap es
      → IsMap es'
  -- `remove`, and what is left.
  pub remove : {V : Type 0} → Str → Entries V → Entries V
  pub remove-find :
      {V : Type 0} (k j : Str) (es : Entries V)
      → IsMap es
      → find j (remove k es) ≡ (if str_eq k j then none else find j es)
  pub remove-IsMap : {V : Type 0} (k : Str) (es : Entries V) → IsMap es → IsMap (remove k es)
