-- ===== src/Av/ContentDirectory.antt =====
-- crates/upnp-av-core/src/content_directory.rs: the ContentDirectory service's messages.
pub mod Numbers
use rusty_castle.Prelude.{
  ℕ, zero, suc, ◌+◌, ◌/◌, ◌%◌, true, false, Option, none, some, [], ◌∷◌, ltb, if◌then◌else◌, ◌>>=?◌,
  length, drop, replicate,
}
use rusty_castle.Str.{Str, Bytes, codes, str_eq}
use rusty_castle.Str.Utf8.{from_utf8}
use rusty_castle.Upnp.Ids.{ServiceTypeRef}
use rusty_castle.Upnp.Soap.{ResponseArgumentRef, write_action_response}

abbrev pub content_directory_service : ServiceTypeRef
content_directory_service = record {
  domain = codes "schemas-upnp-org";
  kind = codes "ContentDirectory";
  version = 1;
}

pub data BrowseFlag : Type 0 where
  metadata direct_children : BrowseFlag

unfoldable pub parse_browse_flag : Str → Option BrowseFlag
unfolding str_eq
parse_browse_flag value =
    if str_eq value (codes "BrowseMetadata")
    then some metadata
    else if str_eq value (codes "BrowseDirectChildren")
    then some direct_children
    else none

pub record BrowseRequestRef : Type 0 where
  pub object_id : Str
  pub flag : BrowseFlag
  pub filter : Str
  pub starting_index : ℕ
  pub requested_count : ℕ
  pub sort_criteria : Str

pub record BrowseResponseRef : Type 0 where
  pub result : Str
  pub number_returned : ℕ
  pub total_matches : ℕ
  pub update_id : ℕ

pub record U32Display : Type 0 where
  pub buf : Bytes
  pub start : ℕ

-- `this.buf[this.start] = byte`
unfoldable pub put_byte : ℕ → ℕ → Bytes → Bytes
put_byte i byte [] = []
put_byte zero byte (b ∷ buf) = byte ∷ buf
put_byte (suc i) byte (b ∷ buf) = b ∷ put_byte i byte buf

-- `while value > 0`; `none` where `this.start -= 1` or the write behind it panics. A `u32` has ten
-- digits, so the fuel of eleven turns is enough.
unfoldable pub digit_loop : ℕ → ℕ → U32Display → Option U32Display
unfolding put_byte
digit_loop zero value this = none
digit_loop (suc fuel) zero this = some this
digit_loop (suc fuel) (suc n) this = elim this.start [
  | zero ↦ none
  | suc i ↦ elim (ltb i (length this.buf)) [
    | false ↦ none
    | true ↦
        let byte = b'0' + suc n % 10 in
        digit_loop fuel (suc n / 10) record { buf = put_byte i byte this.buf; start = i }
  ]
]

unfoldable pub u32_display : ℕ → Option U32Display
unfolding digit_loop put_byte
u32_display zero = some record { buf = put_byte 9 b'0' (replicate 10 0); start = 9 }
u32_display (suc n) = digit_loop 11 (suc n) record { buf = replicate 10 0; start = 10 }

unfoldable pub display_as_str : U32Display → Str
unfolding from_utf8
display_as_str this = elim (from_utf8 (drop this.start this.buf)) [ none ↦ codes "0" | some s ↦ s ]

-- `U32Display::new(value).as_str()`
unfoldable pub u32_text : ℕ → Option Str
unfolding u32_display display_as_str
u32_text value = elim (u32_display value) [ none ↦ none | some this ↦ some (display_as_str this) ]

unfoldable pub write_browse_response : Str → BrowseResponseRef → Option Str
unfolding u32_text write_action_response
write_browse_response w response = u32_text response.number_returned >>=? λ number_returned.
    u32_text response.total_matches >>=? λ total_matches.
    u32_text response.update_id >>=? λ update_id. some (
      write_action_response w content_directory_service (codes "Browse") (
        record { name = codes "Result"; value = response.result }
        ∷ record { name = codes "NumberReturned"; value = number_returned }
        ∷ record { name = codes "TotalMatches"; value = total_matches }
        ∷ record { name = codes "UpdateID"; value = update_id }
        ∷ []))

unfoldable pub write_system_update_id_response : Str → ℕ → Option Str
unfolding u32_text write_action_response
write_system_update_id_response w update_id = u32_text update_id >>=? λ text. some (
    write_action_response w content_directory_service (codes "GetSystemUpdateID")
      (record { name = codes "Id"; value = text } ∷ []))
