-- ===== src/Castle/Scenario/RoundTrip.antt =====
-- crates/rusty-castle/src/scenario.rs: a reader of the strings of the JSON lines.
use rusty_castle.Prelude.{
  ℕ, zero, suc, ◌+◌, ◌-◌, ◌*◌, ◌/◌, ◌%◌, ◌<◌, ◌≡◌, refl, ap, subst, ◌∙◌, inl, inr, true, false,
  ◌&&◌, ◌||◌, Option, none, some, [], ◌∷◌, ◌++◌, append_assoc, arith, ltb, leb, ◌==◌, if◌then◌else◌,
  Bool-cases, length, drop,
}
use rusty_castle.Str.{Str}
use rusty_castle.Dlna.{hex_digit}
use rusty_castle.Castle.Scenario.{is_control, hex4, json_char, json_chars, json_string}

-- Where a reader of JSON is in a string: between characters, behind a backslash, or with `k + 1`
-- digits of a `\u` escape to go.
pub data Mode : Type 0 where
  plain behind_backslash : Mode
  hex : ℕ → ℕ → Mode

hex_value : ℕ → Option ℕ
hex_value c =
    if leb b'0' c && leb c b'9'
    then some (c - b'0')
    else if leb b'a' c && leb c b'f'
    then some (c - b'a' + 10)
    else none

-- The character of a short escape.
unescape : ℕ → Option ℕ
unescape c =
    if c == 0x22 || c == 0x5C || c == b'/'
    then some c
    else if c == b'n'
    then some 10
    else if c == b'r'
    then some 13
    else if c == b't'
    then some 9
    else if c == b'b'
    then some 8
    else if c == b'f'
    then some 12
    else none

abbrev pub push : ℕ → Option (Str × Str) → Option (Str × Str)
push c none = none
push c (some (s, rest)) = some (c ∷ s, rest)

abbrev push_known : Option ℕ → Option (Str × Str) → Option (Str × Str)
push_known none r = none
push_known (some c) r = push c r

-- The string up to its closing quote, and what is behind it. Control characters may not stand in it.
unfoldable pub read_string : Mode → Str → Option (Str × Str)
unfolding hex_value unescape is_control
read_string m [] = none
read_string plain (c ∷ s) =
    let next = read_string plain s in
    let escape = read_string behind_backslash s in
    if c == 0x22
    then some ([], s)
    else if c == 0x5C
    then escape
    else if ltb c 0x20
    then none
    else push c next
read_string behind_backslash (c ∷ s) =
    let next = read_string plain s in
    let digits = read_string (hex 3 0) s in
    if c == b'u' then digits else push_known (unescape c) next
read_string (hex zero n) (c ∷ s) =
    let next = read_string plain s in
    elim (hex_value c) [ none ↦ none | some v ↦ push (n * 16 + v) next ]
read_string (hex (suc k) n) (c ∷ s) = elim (hex_value c) [
  | none ↦ none
  | some v ↦ read_string (hex k (n * 16 + v)) s
]

hex_value-hex_digit : (d : ℕ) → d < 16 → hex_value (hex_digit d) ≡ some d
unfolding hex_value
hex_value-hex_digit d h = ground arith

read_digit :
    (k n c v : ℕ) (s : Str)
    → hex_value c ≡ some v
    → read_string (hex (suc k) n) (c ∷ s) ≡ read_string (hex k (n * 16 + v)) s
unfolding read_string
read_digit k n c v s h = rw (h, read_string) refl

read_last :
    (n c v : ℕ) (s : Str)
    → hex_value c ≡ some v
    → read_string (hex zero n) (c ∷ s) ≡ push (n * 16 + v) (read_string plain s)
unfolding read_string
read_last n c v s h = rw (h, read_string) refl

read_hex4 :
    (c : ℕ) (t : Str)
    → c < 0x10000
    → read_string (hex 3 0) (hex4 c ++ t) ≡ push c (read_string plain t)
read_hex4 c t h =
    read_digit 2 0 _ (c / 0x1000 % 16) _ (hex_value-hex_digit (c / 0x1000 % 16) (omega arith))
    ∙ read_digit 1 _ _ (c / 0x100 % 16) _ (hex_value-hex_digit (c / 0x100 % 16) (omega arith))
    ∙ read_digit 0 _ _ (c / 0x10 % 16) _ (hex_value-hex_digit (c / 0x10 % 16) (omega arith))
    ∙ read_last _ _ (c % 16) t (hex_value-hex_digit (c % 16) (omega arith))
    ∙ ap (λ n. push n (read_string plain t)) (omega arith)

Reads : Str → ℕ → Type 0
Reads t c = read_string plain (json_char c ++ t) ≡ push c (read_string plain t)

is : (c d : ℕ) → (c == d) ≡ true → d ≡ c
is c d h = ground (arith, h)

control_small : (c : ℕ) → is_control c ≡ true → c < 0x10000
unfolding is_control
control_small c h = ground (arith, h)

long :
    (c : ℕ)
    → (c == 0x22) ≡ false
    → (c == 0x5C) ≡ false
    → (c == 10) ≡ false
    → (c == 13) ≡ false
    → (c == 9) ≡ false
    → (c == 8) ≡ false
    → (c == 12) ≡ false
    → json_char c ≡ (if is_control c then 0x5C ∷ b'u' ∷ hex4 c else c ∷ [])
unfolding json_char
long c a b d e f g h = rw (a, json_char) (rw b (rw d (rw e (rw f (rw g (rw h refl))))))

read_plain :
    (c : ℕ) (t : Str)
    → (c == 0x22) ≡ false
    → (c == 0x5C) ≡ false
    → is_control c ≡ false
    → read_string plain (c ∷ t) ≡ push c (read_string plain t)
unfolding read_string is_control
read_plain c t a b e =
    let d : ltb c 0x20 ≡ false = ground (arith, e) in rw (a, read_string) (rw b (rw d refl))

read_json_char : (t : Str) (c : ℕ) → Reads t c
unfolding Reads read_string json_char is_control unescape
read_json_char t c = elim (Bool-cases (c == 0x22)) [
  | inl e ↦ subst (Reads t) (is c 0x22 e) refl
  | inr e1 ↦ elim (Bool-cases (c == 0x5C)) [
    | inl e ↦ subst (Reads t) (is c 0x5C e) refl
    | inr e2 ↦ elim (Bool-cases (c == 10)) [
      | inl e ↦ subst (Reads t) (is c 10 e) refl
      | inr e3 ↦ elim (Bool-cases (c == 13)) [
        | inl e ↦ subst (Reads t) (is c 13 e) refl
        | inr e4 ↦ elim (Bool-cases (c == 9)) [
          | inl e ↦ subst (Reads t) (is c 9 e) refl
          | inr e5 ↦ elim (Bool-cases (c == 8)) [
            | inl e ↦ subst (Reads t) (is c 8 e) refl
            | inr e6 ↦ elim (Bool-cases (c == 12)) [
              | inl e ↦ subst (Reads t) (is c 12 e) refl
              | inr e7 ↦ elim (Bool-cases (is_control c)) [
                | inl e ↦
                    (ap (λ w. read_string plain (w ++ t))
                        (long c e1 e2 e3 e4 e5 e6 e7
                          ∙ ap (λ b. if b then 0x5C ∷ b'u' ∷ hex4 c else c ∷ []) e)
                      ∙ read_hex4 c t (control_small c e))
                | inr e ↦
                    (ap (λ w. read_string plain (w ++ t))
                        (long c e1 e2 e3 e4 e5 e6 e7
                          ∙ ap (λ b. if b then 0x5C ∷ b'u' ∷ hex4 c else c ∷ []) e)
                      ∙ read_plain c t e1 e2 e)
              ]
            ]
          ]
        ]
      ]
    ]
  ]
]

read_json_chars : (s t : Str) → read_string plain (json_chars s ++ 0x22 ∷ t) ≡ some (s, t)
unfolding read_string json_chars Reads
read_json_chars [] t = refl
read_json_chars (c ∷ s) t =
    ap (read_string plain) (append_assoc (json_char c) (json_chars s) (0x22 ∷ t))
    ∙ read_json_char (json_chars s ++ 0x22 ∷ t) c
    ∙ ap (push c) (read_json_chars s t)

drop-behind : (out : Str) (c : ℕ) (s : Str) → drop (suc (length out)) (out ++ c ∷ s) ≡ s
drop-behind [] c s = refl
drop-behind (d ∷ out) c s = drop-behind out c s

-- What is written for a string is a quote, and then a text in which a reader of JSON finds the
-- string, whatever it holds, and what is written behind it.
pub read_string-json_string :
    (out value rest : Str)
    → read_string plain (drop (suc (length out)) (json_string out value ++ rest))
      ≡ some (value, rest)
unfolding json_string
read_string-json_string out value rest =
    ap (λ w. read_string plain (drop (suc (length out)) w))
      (ap (λ w. w ++ rest) (append_assoc out (0x22 ∷ json_chars value) (0x22 ∷ []))
        ∙ append_assoc out (0x22 ∷ json_chars value ++ 0x22 ∷ []) rest)
    ∙ ap (read_string plain) (
        drop-behind out 0x22 (json_chars value ++ 0x22 ∷ [] ++ rest)
        ∙ append_assoc (json_chars value) (0x22 ∷ []) rest)
    ∙ read_json_chars value rest
