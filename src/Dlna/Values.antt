-- ===== src/Dlna/Values.antt =====
-- crates/dlna-core/src/protocol_info.rs: the characters of a `protocolInfo`.
use rusty_castle.Prelude.{
  ℕ, zero, suc, ◌/◌, ◌%◌, ◌≡◌, refl, sym, ap, ◌∙◌, ◌≢◌, Bool, true, false, not, ◌&&◌, Option, none,
  some, [], ◌∷◌, ◌++◌, append_assoc, append-nil, arith, ◌==◌, all, All, All-append,
}
use rusty_castle.Str.{Str, codes}
use rusty_castle.Dlna.{
  DlnaFlags, DlnaOp, DlnaProfile, ProtocolInfoRef, code_of, hex8, hex_loop, hex_digit, op_code,
  profile_str, separated, write_additional_info, write_flags, write_op, write_profile,
  write_protocol_info, avc_mp4_bl_cif15_aac520, mpeg_ps_pal, mpeg_ps_ntsc,
}

-- No double quote and no `<`.
abbrev IsPlain : Str → Type 0
IsPlain = All (λ c. (c ≢ 0x22) × (c ≢ b'<'))

-- `w'` is `w` with a text behind it that is plain.
record Appends (w w' : Str) : Type 0 where
  tail : Str
  grown : w' ≡ w ++ tail
  plain : IsPlain tail

more : (w w' s : Str) → Appends w w' → IsPlain s → Appends w (w' ++ s)
more w w' s a h = record {
  tail = a.tail ++ s;
  grown = ap (λ v. v ++ s) a.grown ∙ append_assoc w a.tail s;
  plain = All-append (λ c. (c ≢ 0x22) × (c ≢ b'<')) a.tail s a.plain h;
}

literal : (s : Str) → all (λ c. not (c == 0x22) && not (c == b'<')) s ≡ true → IsPlain s
literal [] h = tt
literal (c ∷ s) h = ground (arith, literal s)

profile-IsPlain : (p : DlnaProfile) → IsPlain (profile_str p)
unfolding profile_str
profile-IsPlain avc_mp4_bl_cif15_aac520 = literal (codes "AVC_MP4_BL_CIF15_AAC_520") refl
profile-IsPlain mpeg_ps_pal = literal (codes "MPEG_PS_PAL") refl
profile-IsPlain mpeg_ps_ntsc = literal (codes "MPEG_PS_NTSC") refl

code-IsPlain : (a b : Bool) → IsPlain (code_of a b)
code-IsPlain true true = literal (codes "11") refl
code-IsPlain true false = literal (codes "10") refl
code-IsPlain false true = literal (codes "01") refl
code-IsPlain false false = literal (codes "00") refl

hex_loop-IsPlain : (k n : ℕ) (out : Str) → IsPlain out → IsPlain (hex_loop k n out)
unfolding hex_loop
hex_loop-IsPlain zero n out h = h
hex_loop-IsPlain (suc k) n out h =
    hex_loop-IsPlain k (n / 16) (hex_digit (n % 16) ∷ out) ((ground arith, ground arith), h)

write_profile-Appends :
    (w x : Str) (p : Option DlnaProfile) → Appends w x → Appends w (write_profile x p).0
unfolding write_profile
write_profile-Appends w x none a = a
write_profile-Appends w x (some p) a =
    more w _ (profile_str p)
      (more w x (codes "DLNA.ORG_PN=") a (literal (codes "DLNA.ORG_PN=") refl)) (profile-IsPlain p)

separated-Appends : (w x : Str) (wrote : Bool) → Appends w x → Appends w (separated wrote x)
separated-Appends w x true a = more w x (b';' ∷ []) a (literal (b';' ∷ []) refl)
separated-Appends w x false a = a

write_op-Appends :
    (w : Str) (r : Str × Bool) (op : Option DlnaOp) → Appends w r.0 → Appends w (write_op r op).0
unfolding write_op op_code
write_op-Appends w (x, wrote) none a = a
write_op-Appends w (x, wrote) (some op) a =
    more w _ (op_code op)
      (more w _ (codes "DLNA.ORG_OP=") (separated-Appends w x wrote a)
        (literal (codes "DLNA.ORG_OP=") refl))
      (code-IsPlain op.time_seek op.range)

write_flags-Appends :
    (w : Str) (r : Str × Bool) (flags : Option DlnaFlags)
    → Appends w r.0
    → Appends w (write_flags r flags)
unfolding write_flags hex8
write_flags-Appends w (x, wrote) none a = a
write_flags-Appends w (x, wrote) (some flags) a =
    more w _ (codes "000000000000000000000000")
      (more w _ (hex8 flags.bits)
        (more w _ (codes "DLNA.ORG_FLAGS=") (separated-Appends w x wrote a)
          (literal (codes "DLNA.ORG_FLAGS=") refl))
        (hex_loop-IsPlain 8 flags.bits [] tt))
      (literal (codes "000000000000000000000000") refl)

-- With a protocol, a network and a format that are plain, what is written is plain.
pub write_protocol_info-IsPlain :
    (v : ProtocolInfoRef)
    → IsPlain v.protocol
    → IsPlain v.network
    → IsPlain v.content_format
    → (w : Str) → (t : Str) × (write_protocol_info w v ≡ w ++ t) × IsPlain t
unfolding write_protocol_info write_additional_info
write_protocol_info-IsPlain v p n f w =
    let start : Appends w w = record { tail = []; grown = sym (append-nil w); plain = tt } in
    let colon = literal (b':' ∷ []) refl in
    let a1 = more w _ (b':' ∷ v.network) (more w w v.protocol start p) (colon.0, n) in
    let a2 = more w _ (b':' ∷ []) (more w _ (b':' ∷ v.content_format) a1 (colon.0, f)) colon in
    let a =
      write_flags-Appends w _ v.flags
        (write_op-Appends w _ v.op (write_profile-Appends w _ v.profile a2)) in
    (a.tail, a.grown, a.plain)
