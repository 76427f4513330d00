-- ===== src/Upnp/Xml.antt =====
-- crates/upnp-core/src/xml.rs. The writer is a `String`, whose writes do not fail; `w` is what it
-- holds so far, and each function returns what it holds afterwards.
pub mod Nesting
use rusty_castle.Prelude.{ℕ, [], ◌∷◌, ◌++◌, ◌==◌, if◌then◌else◌}
use rusty_castle.Str.{Str, codes}

-- What `write_escaped_text` writes for one character.
unfoldable pub escape_char : ℕ → Str
escape_char c =
    if c == b'&'
    then codes "&amp;"
    else if c == b'<'
    then codes "&lt;"
    else if c == b'>'
    then codes "&gt;"
    else if c == 0x22
    then codes "&quot;"
    else if c == 0x27
    then codes "&apos;"
    else c ∷ []

unfoldable pub write_escaped_text : Str → Str → Str
unfolding escape_char
write_escaped_text w [] = w
write_escaped_text w (c ∷ value) = write_escaped_text (w ++ escape_char c) value

unfoldable pub write_text_element : Str → Str → Str → Str
unfolding write_escaped_text
write_text_element w name value =
    write_escaped_text (w ++ b'<' ∷ name ++ b'>' ∷ []) value ++ codes "</" ++ name ++ b'>' ∷ []

-- `value` is the text of the value's `Display`.
unfoldable pub write_display_element : Str → Str → Str → Str
write_display_element w name value =
    w ++ b'<' ∷ name ++ b'>' ∷ value ++ codes "</" ++ name ++ b'>' ∷ []
