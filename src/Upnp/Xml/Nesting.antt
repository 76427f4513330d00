-- ===== src/Upnp/Xml/Nesting.antt =====
-- A reader of tags, and when a text is nested: a description of the documents that does not look at
-- how they are written. Attribute values stand in double quotes, and no element is self-closing.
use rusty_castle.Prelude.{
  ℕ, ◌≡◌, refl, sym, ap, ◌∙◌, ◌≢◌, Bool, true, false, not, ◌&&◌, ◌||◌, List, [], ◌∷◌, ◌++◌,
  append_assoc, append-nil, arith, leb, ◌==◌, if◌then◌else◌, is_empty, all, All, All-append,
}
use rusty_castle.Str.{Str, codes, str_eq, is_ascii_whitespace}
use rusty_castle.Str.Search.{str_eq_refl, All-map}
use rusty_castle.Str.Decimal.{show, IsDigit, show-IsDigit}
use rusty_castle.Upnp.Xml.{
  escape_char, write_escaped_text, write_text_element, write_display_element,
}

-- Where the reader is, with the names of the open elements, the innermost first: in text, in the
-- name of a tag, behind it, in an attribute's value, or behind something that is not nested.
pub data Reading : Type 0 where
  text : List Str → Reading
  naming tagged quoted : List Str → Str → Reading
  broken : Reading

-- The tag `name` ends.
unfoldable pub opened : List Str → Str → Reading
opened open_names [] = broken
opened open_names (c ∷ name) = if c == b'?' then text open_names else text ((c ∷ name) ∷ open_names)

unfoldable pub closed : List Str → Str → Reading
unfolding str_eq
closed [] name = broken
closed (top ∷ open_names) name = if str_eq top name then text open_names else broken

-- A tag without attributes ends.
unfoldable pub ended : List Str → Str → Reading
unfolding opened closed
ended open_names [] = broken
ended open_names (c ∷ name) =
    if c == b'/' then closed open_names name else opened open_names (c ∷ name)

unfoldable pub read_char : Reading → ℕ → Reading
unfolding opened ended is_ascii_whitespace
read_char (text os) c = if c == b'<' then naming os [] else if c == b'>' then broken else text os
read_char (naming os name) c =
    if c == b'>'
    then ended os name
    else if c == b'<' || c == 0x22
    then broken
    else if is_ascii_whitespace c
    then tagged os name
    else naming os (name ++ c ∷ [])
read_char (tagged os name) c =
    if c == b'>'
    then opened os name
    else if c == 0x22
    then quoted os name
    else if c == b'<' || c == b'/'
    then broken
    else tagged os name
read_char (quoted os name) c =
    if c == 0x22 then tagged os name else if c == b'<' then broken else quoted os name
read_char broken c = broken

unfoldable pub read_all : Reading → Str → Reading
unfolding read_char
read_all r [] = r
read_all r (c ∷ s) = read_all (read_char r c) s

-- Where the reader is behind what is written so far.
pub record At (w : Str) (r : Reading) : Type 0 where
  pub here : read_all (text []) w ≡ r

-- What is written so far is nested, and these elements are open.
abbrev pub Inside : Str → List Str → Type 0
Inside w os = At w (text os)

-- A document: every element that is opened is closed, the innermost first.
abbrev pub IsNested : Str → Type 0
IsNested w = Inside w []

pub read_all-append : (r : Reading) (s t : Str) → read_all r (s ++ t) ≡ read_all (read_all r s) t
unfolding read_all
read_all-append r [] t = refl
read_all-append r (c ∷ s) t = read_all-append (read_char r c) s t

-- No character of a tag.
pub record IsText (s : Str) : Type 0 where
  pub plain : All (λ c. (c ≢ b'<') × (c ≢ b'>')) s

pub read_all-text : (os : List Str) (s : Str) → IsText s → read_all (text os) s ≡ text os
unfolding read_all
read_all-text os s h = over s h.plain
  where
    over : (s : Str) → All (λ c. (c ≢ b'<') × (c ≢ b'>')) s → read_all (text os) s ≡ text os
    over [] h = refl
    over (c ∷ s) ((l, g), hs) = ground (arith, over s hs)

-- No character that ends an attribute's value.
abbrev pub IsValue : Str → Type 0
IsValue = All (λ c. (c ≢ 0x22) × (c ≢ b'<'))

pub read_all-quoted :
    (os : List Str) (name s : Str) → IsValue s → read_all (quoted os name) s ≡ quoted os name
unfolding read_all
read_all-quoted os name [] h = refl
read_all-quoted os name (c ∷ s) ((q, l), hs) = ground (arith, read_all-quoted os name s hs)

-- Letters, digits and `:`, `_`, `-` and `.`.
abbrev pub is_name_char : ℕ → Bool
is_name_char c =
    (leb b'a' c && leb c b'z')
    || (leb b'A' c && leb c b'Z')
    || (leb b'0' c && leb c b':')
    || c == b'_'
    || c == b'-'
    || c == b'.'

abbrev pub IsName : Str → Type 0
IsName name = all is_name_char name && not (is_empty name) ≡ true

all-append :
    (a b : Str)
    → all is_name_char a ≡ true
    → all is_name_char b ≡ true
    → all is_name_char (a ++ b) ≡ true
all-append [] b h k = k
all-append (c ∷ a) b h k = ground (arith, all-append a b)

pub IsName-append : (a b : Str) → IsName a → IsName b → IsName (a ++ b)
IsName-append [] b h k = cc
IsName-append (c ∷ a) b h k = ground (arith, all-append (c ∷ a) b)

naming_char :
    (os : List Str) (done : Str) (c : ℕ)
    → is_name_char c ≡ true
    → read_char (naming os done) c ≡ naming os (done ++ c ∷ [])
unfolding read_char
naming_char os done c h = ground arith

and_split : (a b : Bool) → a && b ≡ true → (a ≡ true) × (b ≡ true)
and_split true b h = (refl, h)
and_split false b h = cc

naming_on :
    (os : List Str) (done name rest : Str)
    → all is_name_char name ≡ true
    → read_all (naming os done) (name ++ rest) ≡ read_all (naming os (done ++ name)) rest
unfolding read_all
naming_on os done [] rest h = rw (append-nil done) refl
naming_on os done (c ∷ name) rest h =
    let (hc, hs) = and_split (is_name_char c) (all is_name_char name) h in
    ap (λ r. read_all r (name ++ rest)) (naming_char os done c hc)
    ∙ naming_on os (done ++ c ∷ []) name rest hs
    ∙ ap (λ n. read_all (naming os n) rest) (append_assoc done (c ∷ []) name)

ended_name :
    (os : List Str) (c : ℕ) (name : Str)
    → is_name_char c ≡ true
    → ended os (c ∷ name) ≡ text ((c ∷ name) ∷ os)
unfolding ended
ended_name os c name h = ground arith

pub ended_lem : (os : List Str) (name : Str) → IsName name → ended os name ≡ text (name ∷ os)
ended_lem os [] h = cc
ended_lem os (c ∷ name) h =
    let (hs, _) = and_split (all is_name_char (c ∷ name)) true h in
    ended_name os c name (and_split (is_name_char c) (all is_name_char name) hs).0

pub read_name :
    (os : List Str) (done name : Str)
    → IsName name
    → read_all (naming os done) name ≡ naming os (done ++ name)
unfolding read_all
read_name os done name h =
    let (hs, _) = and_split (all is_name_char name) (not (is_empty name)) h in
    ap (read_all (naming os done)) (sym (append-nil name)) ∙ naming_on os done name [] hs

pub closed_name : (os : List Str) (name : Str) → closed (name ∷ os) name ≡ text os
unfolding closed
closed_name os name = rw (str_eq_refl name)

pub write : (w s : Str) {r r' : Reading} → At w r → read_all r s ≡ r' → At (w ++ s) r'
write w s h k = record { here = read_all-append (text []) w s ∙ ap (λ r. read_all r s) h.here ∙ k }

pub open_tag :
    (w name : Str) {os : List Str}
    → IsName name
    → Inside w os
    → Inside (w ++ b'<' ∷ name ++ b'>' ∷ []) (name ∷ os)
unfolding read_all
open_tag w name {os} n h =
    write (w ++ b'<' ∷ name) (b'>' ∷ []) (write w (b'<' ∷ name) h (read_name os [] name n))
      (ended_lem os name n)

pub close_tag :
    (w name : Str) {os : List Str}
    → IsName name
    → Inside w (name ∷ os)
    → Inside (w ++ codes "</" ++ name ++ b'>' ∷ []) os
unfolding read_all
close_tag w name {os} n h =
    write (w ++ codes "</" ++ name) (b'>' ∷ [])
      (write (w ++ codes "</") name (write w (codes "</") h refl)
        (read_name (name ∷ os) (b'/' ∷ []) name n))
      (closed_name os name)

-- The escaped form of a text.
unfoldable pub escaped : Str → Str
unfolding escape_char
escaped [] = []
escaped (c ∷ s) = escape_char c ++ escaped s

pub write_escaped_text-append : (w s : Str) → write_escaped_text w s ≡ w ++ escaped s
unfolding write_escaped_text escaped
write_escaped_text-append w [] = sym (append-nil w)
write_escaped_text-append w (c ∷ s) =
    write_escaped_text-append (w ++ escape_char c) s ∙ append_assoc w (escape_char c) (escaped s)

escape_char-plain : (c : ℕ) → All (λ d. (d ≢ b'<') × (d ≢ b'>')) (escape_char c)
unfolding escape_char
escape_char-plain c = ground arith

escaped-plain : (s : Str) → All (λ d. (d ≢ b'<') × (d ≢ b'>')) (escaped s)
unfolding escaped
escaped-plain [] = tt
escaped-plain (c ∷ s) =
    All-append (λ d. (d ≢ b'<') × (d ≢ b'>')) (escape_char c) (escaped s) (escape_char-plain c)
      (escaped-plain s)

pub escaped-IsText : (s : Str) → IsText (escaped s)
escaped-IsText s = record { plain = escaped-plain s }

pub write_escaped_text-Inside :
    (w s : Str) {os : List Str} → Inside w os → Inside (write_escaped_text w s) os
write_escaped_text-Inside w s {os} h =
    rw (write_escaped_text-append w s)
      (write w (escaped s) h (read_all-text os (escaped s) (escaped-IsText s)))

pub write_text_element-Inside :
    (w name value : Str) {os : List Str}
    → IsName name
    → Inside w os
    → Inside (write_text_element w name value) os
unfolding write_text_element
write_text_element-Inside w name value {os} n h =
    let w1 = w ++ b'<' ∷ name ++ b'>' ∷ [] in
    close_tag (write_escaped_text w1 value) name n
      (write_escaped_text-Inside w1 value {os = name ∷ os} (open_tag w name n h))

pub write_display_element-Inside :
    (w name value : Str) {os : List Str}
    → IsName name
    → IsText value
    → Inside w os
    → Inside (write_display_element w name value) os
unfolding write_display_element read_all
write_display_element-Inside w name value {os} n v h =
    close_tag (w ++ b'<' ∷ name ++ b'>' ∷ value) name n (
      write (w ++ b'<' ∷ name) (b'>' ∷ value) (write w (b'<' ∷ name) h (read_name os [] name n))
        (ap (λ r. read_all r value) (ended_lem os name n) ∙ read_all-text (name ∷ os) value v))

digit-IsText : (c : ℕ) → IsDigit c → (c ≢ b'<') × (c ≢ b'>')
digit-IsText c h = ground arith

pub show-IsText : (n : ℕ) → IsText (show n)
show-IsText n = record { plain = All-map digit-IsText (show n) (show-IsDigit n) }

pub write_text : (w s : Str) {os : List Str} → IsText s → Inside w os → Inside (w ++ s) os
write_text w s {os} t h = write w s h (read_all-text os s t)

pub write_show : (w : Str) (n : ℕ) {os : List Str} → Inside w os → Inside (w ++ show n) os
write_show w n h = write_text w (show n) (show-IsText n) h

pub IsText-append : (a b : Str) → IsText a → IsText b → IsText (a ++ b)
IsText-append a b h k = record {
  plain = All-append (λ c. (c ≢ b'<') × (c ≢ b'>')) a b h.plain k.plain;
}

plain-literal :
    (s : Str)
    → all (λ c. not (c == b'<') && not (c == b'>')) s ≡ true
    → All (λ c. (c ≢ b'<') × (c ≢ b'>')) s
plain-literal [] h = tt
plain-literal (c ∷ s) h = ground (arith, plain-literal s)

-- A literal, whose characters are tested.
pub IsText-literal : (s : Str) → all (λ c. not (c == b'<') && not (c == b'>')) s ≡ true → IsText s
IsText-literal s h = record { plain = plain-literal s h }

pub IsValue-literal : (s : Str) → all (λ c. not (c == 0x22) && not (c == b'<')) s ≡ true → IsValue s
IsValue-literal [] h = tt
IsValue-literal (c ∷ s) h = ground (arith, IsValue-literal s)
