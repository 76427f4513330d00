-- ===== src/Ssdp/IndexMap/Lists.antt =====
-- The documented behaviour of the map by lists, for the examples.
use rusty_castle.Prelude.{
  ℕ, ◌≤◌, ◌≡◌, refl, ap, subst, ◌∙◌, ◌↔◌, inl, inr, false, Option, none, some, [], ◌∷◌, arith, ltb,
  if◌then◌else◌, Bool-cases, Option-cases, length,
}
use rusty_castle.Str.{Str, str_eq}
use rusty_castle.Str.Search.{str_eq_refl, str_eq_sound}
use rusty_castle.Ssdp.IndexMap.{IndexMap, Entries, IsMap, find}

unfoldable pub drop_key : {V : Type 0} → Str → Entries V → Entries V
drop_key k [] = []
drop_key k ((j, w) ∷ es) = if str_eq j k then es else (j, w) ∷ drop_key k es

abbrev pub put : {V : Type 0} → ℕ → Str → V → Entries V → Option V → Option (Entries V)
put cap k v es none = if ltb (length es) cap then some ((k, v) ∷ es) else none
put cap k v es (some w) = some ((k, v) ∷ drop_key k es)

pub find-drop_key :
    {V : Type 0} (k j : Str) (es : Entries V)
    → IsMap es
    → find j (drop_key k es) ≡ (if str_eq k j then none else find j es)
unfolding find drop_key
find-drop_key k j [] m = ground arith
find-drop_key k j ((i, w) ∷ es) (u, m) = elim (Bool-cases (str_eq i k)) [
  | inl s ↦
      let same = str_eq_sound i k s in
      elim (Bool-cases (str_eq k j)) [
        | inl t ↦ ground (arith, s, t, subst (λ x. find x es ≡ none) (same ∙ str_eq_sound k j t) u)
        | inr t ↦ ground (arith, s, t, ap (λ x. str_eq x j) same ∙ t)
      ]
  | inr s ↦ elim (Bool-cases (str_eq k j)) [
    | inl t ↦
        let other : str_eq i j ≡ false = subst (λ x. str_eq i x ≡ false) (str_eq_sound k j t) s in
        ground (arith, s, t, other, find-drop_key k j es m)
    | inr t ↦ ground (arith, s, t, find-drop_key k j es m)
  ]
]

pub drop_key-IsMap : {V : Type 0} (k : Str) (es : Entries V) → IsMap es → IsMap (drop_key k es)
unfolding drop_key
drop_key-IsMap k [] m = m
drop_key-IsMap k ((i, w) ∷ es) (u, m) = elim (Bool-cases (str_eq i k)) [
  | inl s ↦ rw s m
  | inr s ↦ rw s (find-drop_key k i es m ∙ ground (arith, u), drop_key-IsMap k es m)
]

find-drop_other :
    {V : Type 0} (k j : Str) (es : Entries V)
    → str_eq k j ≡ false
    → find j (drop_key k es) ≡ find j es
unfolding find drop_key
find-drop_other k j [] n = refl
find-drop_other k j ((i, w) ∷ es) n = elim (Bool-cases (str_eq i k)) [
  | inl s ↦ ground (arith, s, ap (λ x. str_eq x j) (str_eq_sound i k s) ∙ n)
  | inr s ↦ ground (arith, s, find-drop_other k j es n)
]

pub put-none :
    {V : Type 0} (cap : ℕ) (k : Str) (v : V) (es : Entries V)
    → (put cap k v es (find k es) ≡ none) ↔ ((find k es ≡ none) × (cap ≤ length es))
put-none cap k v es = elim (Option-cases (find k es)) [
  | inl e ↦ rw e (λ h. (refl, ground arith), λ h. ground arith)
  | inr (w, e) ↦ rw e (λ h. absurd (ground arith), λ h. absurd (ground arith))
]

pub put-find :
    {V : Type 0} (cap : ℕ) (k j : Str) (v : V) (es es' : Entries V) (o : Option V)
    → put cap k v es o ≡ some es'
    → find j es' ≡ (if str_eq k j then some v else find j es)
unfolding find
put-find cap k j v es es' none h = ground arith
put-find cap k j v es es' (some w) h = elim (Bool-cases (str_eq k j)) [
  | inl s ↦ ground (arith, s)
  | inr s ↦ ground (arith, s, find-drop_other k j es s)
]

pub put-IsMap :
    {V : Type 0} (cap : ℕ) (k : Str) (v : V) (es es' : Entries V)
    → put cap k v es (find k es) ≡ some es'
    → IsMap es
    → IsMap es'
put-IsMap cap k v es es' h m = elim (Option-cases (find k es)) [
  | inl e ↦ ground (arith, e, m)
  | inr (w, e) ↦
      let p : some ((k, v) ∷ drop_key k es) ≡ some es' =
        subst (λ o. put cap k v es o ≡ some es') e h in
      let q : (k, v) ∷ drop_key k es ≡ es' = cc p in
      subst IsMap q (find-drop_key k k es m ∙ rw (str_eq_refl k) refl, drop_key-IsMap k es m)
]

abbrev pub list_map : IndexMap
list_map = record {
  insert = λ {V} cap k v es. put cap k v es (find k es);
  insert-none = λ {V} cap k v es. put-none cap k v es;
  insert-find = λ {V} cap k j v es es' h. put-find cap k j v es es' (find k es) h;
  insert-IsMap = λ {V} cap k v es es' h m. put-IsMap cap k v es es' h m;
  remove = λ {V} k es. drop_key k es;
  remove-find = λ {V} k j es m. find-drop_key k j es m;
  remove-IsMap = λ {V} k es m. drop_key-IsMap k es m;
}
