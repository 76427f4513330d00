-- ===== src/Dlna.antt =====
-- crates/dlna-core/src/protocol_info.rs: the DLNA `protocolInfo` value and the texts written of it.
-- The writer is a `String`, whose writes do not fail; `w` is what it holds so far.
pub mod Values
use rusty_castle.Prelude.{
  ℕ, zero, suc, ◌+◌, ◌-◌, ◌/◌, ◌%◌, ◌≡◌, refl, Bool, true, false, [], ◌∷◌, ◌++◌, Option, none, some,
  ltb, if◌then◌else◌, not, ◌&&◌, ◌==◌,
}
use rusty_castle.Str.{Str, codes, str_eq}

pub data DlnaProfile : Type 0 where
  avc_mp4_bl_cif15_aac520 mpeg_ps_pal mpeg_ps_ntsc : DlnaProfile

unfoldable pub profile_str : DlnaProfile → Str
profile_str avc_mp4_bl_cif15_aac520 = codes "AVC_MP4_BL_CIF15_AAC_520"
profile_str mpeg_ps_pal = codes "MPEG_PS_PAL"
profile_str mpeg_ps_ntsc = codes "MPEG_PS_NTSC"

pub record DlnaOp : Type 0 where
  pub range : Bool
  pub time_seek : Bool

abbrev pub range_only : DlnaOp
range_only = record { range = true; time_seek = false }

abbrev pub no_op : DlnaOp
no_op = record { range = false; time_seek = false }

abbrev code_of : Bool → Bool → Str
code_of false false = codes "00"
code_of false true = codes "01"
code_of true false = codes "10"
code_of true true = codes "11"

unfoldable pub op_code : DlnaOp → Str
op_code op = code_of op.time_seek op.range

pub record DlnaFlags : Type 0 where
  pub bits : ℕ

abbrev pub streaming_transfer_mode : DlnaFlags
streaming_transfer_mode = record { bits = 0x01700000 }

pub record ProtocolInfoRef : Type 0 where
  pub protocol : Str
  pub network : Str
  pub content_format : Str
  pub profile : Option DlnaProfile
  pub op : Option DlnaOp
  pub flags : Option DlnaFlags

abbrev pub sony_mp4 : ProtocolInfoRef
sony_mp4 = record {
  protocol = codes "http-get";
  network = codes "*";
  content_format = codes "video/mp4";
  profile = some avc_mp4_bl_cif15_aac520;
  op = some range_only;
  flags = some streaming_transfer_mode;
}

abbrev pub sony_mpeg_ps : Str → ProtocolInfoRef
sony_mpeg_ps format = record {
  protocol = codes "http-get";
  network = codes "*";
  content_format = format;
  profile = some mpeg_ps_ntsc;
  op = some range_only;
  flags = some streaming_transfer_mode;
}

-- A digit of `{:x}`.
abbrev pub hex_digit : ℕ → ℕ
hex_digit d = if ltb d 10 then b'0' + d else b'a' + (d - 10)

-- `{:08x}` of a `u32`: the digits of the value, the last first, padded to eight.
hex_loop : ℕ → ℕ → Str → Str
hex_loop zero n out = out
hex_loop (suc k) n out = hex_loop k (n / 16) (hex_digit (n % 16) ∷ out)

unfoldable pub hex8 : ℕ → Str
unfolding hex_loop
hex8 n = hex_loop 8 n []

-- `if wrote { w.write_char(';') }`
abbrev separated : Bool → Str → Str
separated wrote w = if wrote then w ++ b';' ∷ [] else w

-- The three parts of `write_additional_info`; each returns the text and `wrote`.
write_profile : Str → Option DlnaProfile → Str × Bool
write_profile w none = (w, false)
write_profile w (some profile) = (w ++ codes "DLNA.ORG_PN=" ++ profile_str profile, true)

write_op : Str × Bool → Option DlnaOp → Str × Bool
write_op (w, wrote) none = (w, wrote)
write_op (w, wrote) (some op) = (separated wrote w ++ codes "DLNA.ORG_OP=" ++ op_code op, true)

write_flags : Str × Bool → Option DlnaFlags → Str
write_flags (w, wrote) none = w
write_flags (w, wrote) (some flags) =
    separated wrote w
    ++ codes "DLNA.ORG_FLAGS="
    ++ hex8 flags.bits
    ++ codes "000000000000000000000000"

unfoldable pub write_additional_info : Str → ProtocolInfoRef → Str
unfolding write_profile write_op write_flags
write_additional_info w v = write_flags (write_op (write_profile w v.profile) v.op) v.flags

unfoldable pub write_content_features : Str → ProtocolInfoRef → Str
write_content_features w v = write_additional_info w v

unfoldable pub write_protocol_info : Str → ProtocolInfoRef → Str
write_protocol_info w v =
    write_additional_info
      (w ++ v.protocol ++ b':' ∷ v.network ++ b':' ∷ v.content_format ++ b':' ∷ []) v

sony_mp4_info :
    write_protocol_info [] sony_mp4
    ≡ codes
        "http-get:*:video/mp4:DLNA.ORG_PN=AVC_MP4_BL_CIF15_AAC_520;DLNA.ORG_OP=01;DLNA.ORG_FLAGS=01700000000000000000000000000000"
unfolding write_protocol_info write_additional_info hex8 profile_str op_code
sony_mp4_info = refl

-- The derived equality of `ProtocolInfoRef` and its parts.
unfoldable pub profile_eq : DlnaProfile → DlnaProfile → Bool
profile_eq avc_mp4_bl_cif15_aac520 avc_mp4_bl_cif15_aac520 = true
profile_eq avc_mp4_bl_cif15_aac520 mpeg_ps_pal = false
profile_eq avc_mp4_bl_cif15_aac520 mpeg_ps_ntsc = false
profile_eq mpeg_ps_pal avc_mp4_bl_cif15_aac520 = false
profile_eq mpeg_ps_pal mpeg_ps_pal = true
profile_eq mpeg_ps_pal mpeg_ps_ntsc = false
profile_eq mpeg_ps_ntsc avc_mp4_bl_cif15_aac520 = false
profile_eq mpeg_ps_ntsc mpeg_ps_pal = false
profile_eq mpeg_ps_ntsc mpeg_ps_ntsc = true

abbrev bool_eq : Bool → Bool → Bool
bool_eq true b = b
bool_eq false b = not b

abbrev option_eq {ℓ} : {A : Type ℓ} → (A → A → Bool) → Option A → Option A → Bool
option_eq eq none none = true
option_eq eq none (some b) = false
option_eq eq (some a) none = false
option_eq eq (some a) (some b) = eq a b

unfoldable pub protocol_info_eq : ProtocolInfoRef → ProtocolInfoRef → Bool
unfolding profile_eq str_eq
protocol_info_eq a b =
    str_eq a.protocol b.protocol
    && str_eq a.network b.network
    && str_eq a.content_format b.content_format
    && option_eq profile_eq a.profile b.profile
    && option_eq (λ x y. bool_eq x.range y.range && bool_eq x.time_seek y.time_seek) a.op b.op
    && option_eq (λ x y. x.bits == y.bits) a.flags b.flags
