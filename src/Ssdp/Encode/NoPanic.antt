-- ===== src/Ssdp/Encode/NoPanic.antt =====
-- No encoder panics on a message whose numbers are `u32` values.
use rusty_castle.Prelude.{ℕ, ◌≤◌, ◌≢◌, Option, none, some, [], ◌∷◌, arith, ok, err, ◌>>=◌}
use rusty_castle.Str.{Str, Bytes, codes}
use rusty_castle.Ssdp.Header.Value.{u32_max, nts_str}
use rusty_castle.Ssdp.Header.Target.{
  TargetRef, all_targets, root_device, uuid, device_type, service_type,
}
use rusty_castle.Ssdp.Header.Usn.{UsnRef}
use rusty_castle.Ssdp.Time.{Duration}
use rusty_castle.Ssdp.Message.{NotifyRef, SearchResponseRef}
use rusty_castle.Ssdp.Encode.{
  BufWriter, Write, panicked, new, write_bytes, copy_to_slice, write_str, write_crlf, crlf,
  write_header, write_u32, write_target, encode_target, write_embedded, encode_usn, opt_header,
  opt_number, opt_age, age_secs, encode_notify, encode_response,
}
use rusty_castle.Ssdp.Encode.Numbers.{u32_to_str-show}
use rusty_castle.Ssdp.Encode.Written.{HasU32}

-- The write succeeds or finds too little room.
abbrev pub IsCalm : Write → Type 0
IsCalm r = r ≢ err panicked

abbrev pub Calm : (BufWriter → Write) → Type 0
Calm f = (w : BufWriter) → IsCalm (f w)

pub then-Calm : (r : Write) (g : BufWriter → Write) → IsCalm r → Calm g → IsCalm (r >>= g)
then-Calm (ok w) g c h = h w
then-Calm (err e) g c h = c

write_bytes-Calm : (src : Bytes) → Calm (write_bytes src)
unfolding write_bytes copy_to_slice
write_bytes-Calm src w = ground arith

write_str-Calm : (s : Str) → Calm (write_str s)
unfolding write_str
write_str-Calm s w = write_bytes-Calm _ w

write_crlf-Calm : Calm write_crlf
unfolding write_crlf
write_crlf-Calm w = write_bytes-Calm crlf w

write_header-Calm : (name value : Str) → Calm (write_header name value)
unfolding write_header
write_header-Calm name value w =
    then-Calm _ _
      (then-Calm _ _ (then-Calm _ _ (write_str-Calm name w) (write_bytes-Calm (b':' ∷ b' ' ∷ [])))
        (write_str-Calm value))
      write_crlf-Calm

write_u32-Calm : (n : ℕ) → n ≤ u32_max → Calm (write_u32 n)
unfolding write_u32
write_u32-Calm n h w = rw (u32_to_str-show n h, write_u32) (write_bytes-Calm _ w)

urn-Calm :
    (domain middle kind : Str) (version : ℕ)
    → version ≤ u32_max
    → Calm λ w.
      write_str (codes "urn:") w
      >>= write_str domain
      >>= write_str middle
      >>= write_str kind
      >>= write_bytes (b':' ∷ [])
      >>= write_u32 version
urn-Calm domain middle kind version h w =
    then-Calm _ _
      (then-Calm _ _
        (then-Calm _ _
          (then-Calm _ _ (then-Calm _ _ (write_str-Calm (codes "urn:") w) (write_str-Calm domain))
            (write_str-Calm middle))
          (write_str-Calm kind))
        (write_bytes-Calm _))
      (write_u32-Calm version h)

write_target-Calm : (t : TargetRef) → HasU32 t → Calm (write_target t)
unfolding write_target
write_target-Calm all_targets h w = write_str-Calm _ w
write_target-Calm root_device h w = write_str-Calm _ w
write_target-Calm (uuid u) h w = then-Calm _ _ (write_str-Calm _ w) (write_str-Calm u)
write_target-Calm (device_type domain kind version) h w =
    urn-Calm domain (codes ":device:") kind version h w
write_target-Calm (service_type domain kind version) h w =
    urn-Calm domain (codes ":service:") kind version h w

pub encode_target-Calm : (header : Str) (t : TargetRef) → HasU32 t → Calm (encode_target header t)
unfolding encode_target
encode_target-Calm header t h w =
    then-Calm _ _
      (then-Calm _ _ (then-Calm _ _ (write_str-Calm header w) (write_bytes-Calm (b':' ∷ b' ' ∷ [])))
        (write_target-Calm t h))
      write_crlf-Calm

abbrev pub EmbeddedU32 : Option TargetRef → Type 0
EmbeddedU32 none = Unit {0}
EmbeddedU32 (some t) = HasU32 t

write_embedded-Calm : (o : Option TargetRef) → EmbeddedU32 o → Calm (write_embedded o)
unfolding write_embedded
write_embedded-Calm none h w = ground arith
write_embedded-Calm (some t) h w = then-Calm _ _ (write_str-Calm _ w) (write_target-Calm t h)

encode_usn-Calm : (u : UsnRef) → EmbeddedU32 u.embedded → Calm (encode_usn u)
unfolding encode_usn
encode_usn-Calm u h w =
    then-Calm _ _
      (then-Calm _ _ (then-Calm _ _ (write_str-Calm _ w) (write_str-Calm u.device_uuid))
        (write_embedded-Calm u.embedded h))
      write_crlf-Calm

opt_header-Calm : (name : Str) (o : Option Str) → Calm (opt_header name o)
unfolding opt_header
opt_header-Calm name none w = ground arith
opt_header-Calm name (some v) w = write_header-Calm name v w

abbrev pub OptU32 : Option ℕ → Type 0
OptU32 none = Unit {0}
OptU32 (some n) = n ≤ u32_max

opt_number-Calm : (name : Str) (o : Option ℕ) → OptU32 o → Calm (opt_number name o)
unfolding opt_number
opt_number-Calm name none h w = ground arith
opt_number-Calm name (some n) h w =
    then-Calm _ _ (then-Calm _ _ (write_str-Calm name w) (write_u32-Calm n h)) write_crlf-Calm

age_secs-le : (d : Duration) → age_secs d ≤ u32_max
age_secs-le d = omega arith

opt_age-Calm : (o : Option Duration) → Calm (opt_age o)
unfolding opt_age
opt_age-Calm none w = ground arith
opt_age-Calm (some d) w =
    then-Calm _ _ (then-Calm _ _ (write_str-Calm _ w) (write_u32-Calm _ (age_secs-le d)))
      write_crlf-Calm

-- Encoding a notification whose numbers fit 32 bits does not panic, whatever the buffer.
pub encode_notify-Calm :
    (msg : NotifyRef) (out : Bytes)
    → HasU32 msg.nt
    → EmbeddedU32 msg.usn.embedded
    → OptU32 msg.bootid
    → OptU32 msg.configid
    → OptU32 msg.nextbootid
    → OptU32 msg.searchport
    → IsCalm (encode_notify msg out)
unfolding encode_notify
encode_notify-Calm msg out t u b c n s =
    then-Calm _ _
      (then-Calm _ _
        (then-Calm _ _
          (then-Calm _ _
            (then-Calm _ _
              (then-Calm _ _
                (then-Calm _ _
                  (then-Calm _ _
                    (then-Calm _ _
                      (then-Calm _ _
                        (then-Calm _ _
                          (then-Calm _ _ (write_str-Calm _ (new out))
                            (write_header-Calm _ msg.host))
                          (encode_target-Calm _ msg.nt t))
                        (write_header-Calm _ (nts_str msg.nts)))
                      (encode_usn-Calm msg.usn u))
                    (opt_header-Calm _ msg.location))
                  (opt_age-Calm msg.max_age))
                (opt_header-Calm _ msg.server))
              (opt_number-Calm _ msg.bootid b))
            (opt_number-Calm _ msg.configid c))
          (opt_number-Calm _ msg.nextbootid n))
        (opt_number-Calm _ msg.searchport s))
      write_crlf-Calm

-- Encoding a search response whose numbers fit 32 bits does not panic, whatever the buffer.
pub encode_response-Calm :
    (msg : SearchResponseRef) (out : Bytes)
    → HasU32 msg.st
    → EmbeddedU32 msg.usn.embedded
    → OptU32 msg.bootid
    → OptU32 msg.configid
    → OptU32 msg.searchport
    → IsCalm (encode_response msg out)
unfolding encode_response
encode_response-Calm msg out t u b c s =
    then-Calm _ _
      (then-Calm _ _
        (then-Calm _ _
          (then-Calm _ _
            (then-Calm _ _
              (then-Calm _ _
                (then-Calm _ _
                  (then-Calm _ _
                    (then-Calm _ _
                      (then-Calm _ _ (then-Calm _ _ (write_str-Calm _ (new out)) (write_str-Calm _))
                        (write_u32-Calm _ (age_secs-le msg.max_age)))
                      write_crlf-Calm)
                    (write_header-Calm _ msg.location))
                  (encode_target-Calm _ msg.st t))
                (encode_usn-Calm msg.usn u))
              (opt_header-Calm _ msg.server))
            (opt_number-Calm _ msg.bootid b))
          (opt_number-Calm _ msg.configid c))
        (opt_number-Calm _ msg.searchport s))
      write_crlf-Calm
