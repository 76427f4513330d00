-- ===== src/Ssdp/Encode.antt =====
-- crates/ssdp-core/src/encode: the encoders, over a write cursor on a buffer.
pub mod Numbers
pub mod Written
pub mod NoPanic
use rusty_castle.Prelude.{
  ℕ, zero, suc, ◌+◌, ◌/◌, ◌%◌, ◌^◌, Bool, true, false, List, [], ◌∷◌, ◌++◌, Option, none, some, ltb,
  ◌==◌, if◌then◌else◌, length, take, drop, replicate, Result, ok, err, ◌>>=◌,
}
use rusty_castle.Str.{Str, Bytes, codes, as_bytes}
use rusty_castle.Ssdp.Time.{Duration, as_secs}
use rusty_castle.Ssdp.Header.Value.{nts_str}
use rusty_castle.Ssdp.Header.Target.{
  TargetRef, all_targets, root_device, uuid, device_type, service_type,
}
use rusty_castle.Ssdp.Header.Usn.{UsnRef}
use rusty_castle.Ssdp.Message.{MSearchRef, NotifyRef, SearchResponseRef}

pub record BufWriter : Type 0 where
  pub buf : Bytes
  pub pos : ℕ

-- `BufferTooSmall`, with the writer as it is left (what was written before stays in the buffer), or
-- a panic.
pub data WriteError : Type 0 where
  too_small : BufWriter → WriteError
  panicked : WriteError

-- `Result<(), EncodeError>` of a write, and the writer behind it.
abbrev pub Write : Type 0
Write = Result WriteError BufWriter

abbrev pub new : Bytes → BufWriter
new buf = record { buf = buf; pos = 0 }

-- `buf[pos..end].copy_from_slice(src)`
abbrev pub overwrite : Bytes → ℕ → Bytes → Bytes
overwrite buf pos src = take pos buf ++ (src ++ drop (pos + length src) buf)

-- The same with the panic of a slice that ends past the end of the buffer.
unfoldable pub copy_to_slice : Bytes → BufWriter → Write
copy_to_slice src w =
    let end = w.pos + length src in
    if ltb (length w.buf) end
    then err panicked
    else ok (record { buf = overwrite w.buf w.pos src; pos = end })

unfoldable pub write_bytes : Bytes → BufWriter → Write
unfolding copy_to_slice
write_bytes src w =
    let copied = copy_to_slice src w in
    if ltb (length w.buf) (w.pos + length src) then err (too_small w) else copied

unfoldable pub write_str : Str → BufWriter → Write
unfolding write_bytes
write_str s w = write_bytes (as_bytes s) w

abbrev pub crlf : Bytes
crlf = 13 ∷ 10 ∷ []

unfoldable pub write_crlf : BufWriter → Write
unfolding write_bytes
write_crlf w = write_bytes crlf w

unfoldable pub write_header : Str → Str → BufWriter → Write
unfolding write_str write_bytes write_crlf
write_header name value w =
    write_str name w >>= write_bytes (b':' ∷ b' ' ∷ []) >>= write_str value >>= write_crlf

-- The loop of `u32_to_str`: `i` is the index into the buffer of ten bytes, whose end is `out`.
-- `none` is the panic of `i -= 1` at 0.
unfoldable pub digits_loop : ℕ → ℕ → Str → Option Str
digits_loop zero v out = if v == 0 then some out else none
digits_loop (suc i) v out =
    let rest = digits_loop i (v / 10) ((b'0' + v % 10) ∷ out) in if v == 0 then some out else rest

unfoldable pub u32_to_str : ℕ → Option Str
u32_to_str n = if n == 0 then some (codes "0") else digits_loop 10 n []

-- `write_u32`
unfoldable pub write_u32 : ℕ → BufWriter → Write
unfolding u32_to_str write_bytes
write_u32 n w = elim (u32_to_str n) [ none ↦ err panicked | some s ↦ write_bytes (as_bytes s) w ]

-- The `match` on the target, in `encode_target` and in `encode_usn`.
unfoldable pub write_target : TargetRef → BufWriter → Write
unfolding write_str write_bytes write_u32
write_target all_targets w = write_str (codes "ssdp:all") w
write_target root_device w = write_str (codes "upnp:rootdevice") w
write_target (uuid u) w = write_str (codes "uuid:") w >>= write_str u
write_target (device_type domain kind version) w =
    write_str (codes "urn:") w
    >>= write_str domain
    >>= write_str (codes ":device:")
    >>= write_str kind
    >>= write_bytes (b':' ∷ [])
    >>= write_u32 version
write_target (service_type domain kind version) w =
    write_str (codes "urn:") w
    >>= write_str domain
    >>= write_str (codes ":service:")
    >>= write_str kind
    >>= write_bytes (b':' ∷ [])
    >>= write_u32 version

unfoldable pub encode_target : Str → TargetRef → BufWriter → Write
unfolding write_str write_bytes write_target write_crlf
encode_target header target w =
    write_str header w >>= write_bytes (b':' ∷ b' ' ∷ []) >>= write_target target >>= write_crlf

write_embedded : Option TargetRef → BufWriter → Write
write_embedded none w = ok w
write_embedded (some target) w = write_str (codes "::") w >>= write_target target

unfoldable pub encode_usn : UsnRef → BufWriter → Write
unfolding write_embedded
encode_usn usn w =
    write_str (codes "USN: uuid:") w
    >>= write_str usn.device_uuid
    >>= write_embedded usn.embedded
    >>= write_crlf

-- `if let Some(v) = … { w.write_header(name, v)? }`
opt_header : Str → Option Str → BufWriter → Write
opt_header name none w = ok w
opt_header name (some v) w = write_header name v w

-- `if let Some(n) = … { w.write_str(name)?; write_u32(…)?; w.write_crlf()? }`
opt_number : Str → Option ℕ → BufWriter → Write
opt_number name none w = ok w
opt_number name (some n) w = write_str name w >>= write_u32 n >>= write_crlf

-- `age.as_secs() as u32`
abbrev age_secs : Duration → ℕ
age_secs age = as_secs age % 2 ^ 32

-- `if let Some(age) = …` of `encode_notify`
opt_age : Option Duration → BufWriter → Write
opt_age none w = ok w
opt_age (some age) w =
    write_str (codes "CACHE-CONTROL: max-age=") w >>= write_u32 (age_secs age) >>= write_crlf

unfoldable pub encode_msearch : MSearchRef → Bytes → Write
unfolding opt_header opt_number
encode_msearch msg out =
    write_str (codes "M-SEARCH * HTTP/1.1\r\n") (new out)
    >>= write_header (codes "HOST") msg.host
    >>= write_header (codes "MAN") (codes "\"ssdp:discover\"")
    >>= write_str (codes "MX: ")
    >>= write_u32 msg.mx
    >>= write_crlf
    >>= encode_target (codes "ST") msg.st
    >>= opt_header (codes "USER-AGENT") msg.user_agent
    >>= opt_header (codes "CPFN.UPNP.ORG") msg.cpfn
    >>= opt_header (codes "CPUUID.UPNP.ORG") msg.cpuuid
    >>= opt_number (codes "TCPPORT.UPNP.ORG: ") msg.tcpport
    >>= write_crlf

unfoldable pub encode_notify : NotifyRef → Bytes → Write
unfolding opt_header opt_number opt_age
encode_notify msg out =
    write_str (codes "NOTIFY * HTTP/1.1\r\n") (new out)
    >>= write_header (codes "HOST") msg.host
    >>= encode_target (codes "NT") msg.nt
    >>= write_header (codes "NTS") (nts_str msg.nts)
    >>= encode_usn msg.usn
    >>= opt_header (codes "LOCATION") msg.location
    >>= opt_age msg.max_age
    >>= opt_header (codes "SERVER") msg.server
    >>= opt_number (codes "BOOTID.UPNP.ORG: ") msg.bootid
    >>= opt_number (codes "CONFIGID.UPNP.ORG: ") msg.configid
    >>= opt_number (codes "NEXTBOOTID.UPNP.ORG: ") msg.nextbootid
    >>= opt_number (codes "SEARCHPORT.UPNP.ORG: ") msg.searchport
    >>= write_crlf

unfoldable pub encode_response : SearchResponseRef → Bytes → Write
unfolding opt_header opt_number
encode_response msg out =
    write_str (codes "HTTP/1.1 200 OK\r\n") (new out)
    >>= write_str (codes "CACHE-CONTROL: max-age=")
    >>= write_u32 (age_secs msg.max_age)
    >>= write_crlf
    >>= write_header (codes "LOCATION") msg.location
    >>= encode_target (codes "ST") msg.st
    >>= encode_usn msg.usn
    >>= opt_header (codes "SERVER") msg.server
    >>= opt_number (codes "BOOTID.UPNP.ORG: ") msg.bootid
    >>= opt_number (codes "CONFIGID.UPNP.ORG: ") msg.configid
    >>= opt_number (codes "SEARCHPORT.UPNP.ORG: ") msg.searchport
    >>= write_crlf

-- `&out[..w.written()]`
abbrev pub written : BufWriter → Bytes
written w = take w.pos w.buf
