-- ===== src/Str/Search.antt =====
-- Laws of the searches and of trimming: what they return on a text put together from parts.
use rusty_castle.Prelude.{
  ℕ, ◌≡◌, ◌≢◌, refl, true, false, ◌||◌, [], ◌∷◌, ◌++◌, some, arith, All, ==_refl, none,
}
use rusty_castle.Str.{
  Str, trim, trim_start_matches, trim_end_matches, is_whitespace, strip_prefix, contains,
  split_once, str_eq,
}

abbrev pub Lacks : ℕ → Str → Type 0
Lacks d = All (λ c. c ≢ d)

-- No white space anywhere.
abbrev pub IsSolid : Str → Type 0
IsSolid = All (λ c. is_whitespace c ≡ false)

trim_start-solid : (s : Str) → IsSolid s → trim_start_matches is_whitespace s ≡ s
unfolding trim_start_matches
trim_start-solid [] h = refl
trim_start-solid (c ∷ s) (h, _) = rw h

trim_end-solid : (s : Str) → IsSolid s → trim_end_matches is_whitespace s ≡ s
unfolding trim_end_matches
trim_end-solid [] h = refl
trim_end-solid (c ∷ s) (h, hs) = ground (arith, trim_end-solid s hs)

pub trim-solid : (s : Str) → IsSolid s → trim s ≡ s
unfolding trim
trim-solid s h = rw (trim_start-solid s h) (trim_end-solid s h)

pub strip_prefix-append : (p s : Str) → strip_prefix p (p ++ s) ≡ some s
unfolding strip_prefix
strip_prefix-append [] s = refl
strip_prefix-append (d ∷ p) s = rw (==_refl d) (strip_prefix-append p s)

pub contains-append : (d : ℕ) (a b : Str) → contains d (a ++ b) ≡ (contains d a || contains d b)
unfolding contains
contains-append d [] b = refl
contains-append d (c ∷ a) b = ground (arith, contains-append d a b)

pub contains-Lacks : (d : ℕ) (s : Str) → Lacks d s → contains d s ≡ false
unfolding contains
contains-Lacks d [] h = refl
contains-Lacks d (c ∷ s) (h, hs) = ground (arith, contains-Lacks d s hs)

pub split_once-append : (d : ℕ) (a b : Str) → Lacks d a → split_once d (a ++ d ∷ b) ≡ some (a, b)
unfolding split_once
split_once-append d [] b h = rw (==_refl d)
split_once-append d (c ∷ a) b (h, hs) = ground (arith, split_once-append d a b hs)

pub split_once-Lacks : (d : ℕ) (s : Str) → Lacks d s → split_once d s ≡ none
unfolding split_once
split_once-Lacks d [] h = refl
split_once-Lacks d (c ∷ s) (h, hs) = ground (arith, split_once-Lacks d s hs)

pub str_eq_refl : (s : Str) → str_eq s s ≡ true
unfolding str_eq
str_eq_refl [] = refl
str_eq_refl (c ∷ s) = rw (==_refl c, str_eq_refl s)

pub str_eq_sound : (s t : Str) → str_eq s t ≡ true → s ≡ t
unfolding str_eq
str_eq_sound [] [] h = refl
str_eq_sound [] (d ∷ t) h = cc
str_eq_sound (c ∷ s) [] h = cc
str_eq_sound (c ∷ s) (d ∷ t) h = ground (arith, str_eq_sound s t)

pub All-map {κ λ'} :
    {P : ℕ → Type κ} {Q : ℕ → Type λ'} → ((c : ℕ) → P c → Q c) → (s : Str) → All P s → All Q s
All-map f [] h = tt
All-map f (c ∷ s) (h, hs) = (f c h, All-map f s hs)
