-- ===== src/Ssdp/Parse.antt =====
-- crates/ssdp-core/src/parse: the datagram parser. `httparse::parse_headers`, which is not part of
-- the repository, is a parameter: it is given the number of header slots and the bytes.
pub mod Required
use rusty_castle.Prelude.{
  ℕ, Bool, true, false, not, List, [], ◌∷◌, Option, none, some, if◌then◌else◌, is_empty, Result, ok,
  err, ◌>>=◌, ok_or,
}
use rusty_castle.Str.{
  Str, Bytes, codes, as_bytes, trim, eq_ignore_ascii_case, strip_prefix, parse_uint, split_once_str,
}
use rusty_castle.Str.Utf8.{from_utf8}
use rusty_castle.Ssdp.Error.{
  ParseError, too_short, unknown_start_line, malformed_headers, missing_header,
  invalid_header_value,
}
use rusty_castle.Ssdp.Time.{Duration}
use rusty_castle.Ssdp.Header.Value.{
  header_eq, validate_man, parse_mx, Nts, alive, bye_bye, update, parse_nts, parse_u32,
  parse_searchport, parse_max_age, uri_is_valid, u16_max,
}
use rusty_castle.Ssdp.Header.Target.{TargetRef, parse_target}
use rusty_castle.Ssdp.Header.Usn.{UsnRef, parse_usn}
use rusty_castle.Ssdp.Message.{
  MSearchRef, NotifyRef, SearchResponseRef, MessageRef, search, search_response, notify,
}

-- `httparse::Header`
pub record Header : Type 0 where
  pub name : Str
  pub value : Bytes

-- `httparse::Result<(usize, &[Header])>`
pub data HeaderStatus : Type 0 where
  complete : ℕ → List Header → HeaderStatus
  partial failed : HeaderStatus

abbrev pub HeaderParser : Type 0
HeaderParser = ℕ → Bytes → HeaderStatus

abbrev P : Type 0 → Type 0
P A = Result ParseError A

-- start_line.rs
pub data StartLine : Type 0 where
  m_search_line notify_line response_200 : StartLine

start_kind : Str → P StartLine
start_kind line =
    if eq_ignore_ascii_case line (codes "M-SEARCH * HTTP/1.1")
    then ok m_search_line
    else if eq_ignore_ascii_case line (codes "NOTIFY * HTTP/1.1")
    then ok notify_line
    else elim (strip_prefix (codes "HTTP/1.1 200") line) [
      | some _ ↦ ok response_200
      | none ↦ err unknown_start_line
    ]

unfoldable pub parse_start_line : Bytes → P (StartLine × Bytes)
unfolding start_kind
parse_start_line buf = do
  p ← ok_or (split_once_str (13 ∷ 10 ∷ []) buf) too_short
  line ← ok_or (from_utf8 p.0) unknown_start_line
  kind ← start_kind line
  ok (kind, p.1)

-- headers.rs
unfoldable pub max_headers : ℕ
max_headers = 32

abbrev headers_of : HeaderStatus → P (List Header)
headers_of (complete offset headers) = ok headers
headers_of partial = err malformed_headers
headers_of failed = err malformed_headers

abbrev is : Header → Str → Bool
is h name = header_eq (as_bytes h.name) name

abbrev header_value : Header → P Str
header_value h = ok_or (from_utf8 h.value) (invalid_header_value (codes "(non-utf8)"))

-- `LOCATION` of a notification or a response.
unfoldable pub parse_location : Str → P Str
parse_location val =
    let v = trim val in
    if not (uri_is_valid v) then err (invalid_header_value (codes "LOCATION")) else ok v

-- The local variables of `parse_msearch`.
pub record MSearchVars : Type 0 where
  pub host : Option Str
  pub st : Option TargetRef
  pub mx_val : Option ℕ
  pub user_agent : Option Str
  pub cpfn : Option Str
  pub cpuuid : Option Str
  pub tcpport : Option ℕ
  pub saw_man : Bool

abbrev no_msearch_vars : MSearchVars
no_msearch_vars = record {
  host = none;
  st = none;
  mx_val = none;
  user_agent = none;
  cpfn = none;
  cpuuid = none;
  tcpport = none;
  saw_man = false;
}

unfoldable pub msearch_header : MSearchVars → Header → P MSearchVars
msearch_header v h = header_value h >>= λ val.
    if is h (codes "host")
    then ok (record v { host = some val })
    else if is h (codes "st")
    then (parse_target val >>= λ t. ok (record v { st = some t }))
    else if is h (codes "man")
    then (validate_man val >>= λ _. ok (record v { saw_man = true }))
    else if is h (codes "mx")
    then (parse_mx val >>= λ n. ok (record v { mx_val = some n }))
    else if is h (codes "user-agent")
    then ok (record v { user_agent = some val })
    else if is h (codes "cpfn.upnp.org")
    then ok (record v { cpfn = some val })
    else if is h (codes "cpuuid.upnp.org")
    then ok (record v { cpuuid = some val })
    else if is h (codes "tcpport.upnp.org")
    then (ok_or (parse_uint u16_max (trim val)) (invalid_header_value (codes "TCPPORT.UPNP.ORG"))
        >>= λ p. ok (record v { tcpport = some p }))
    else ok v

-- `for h in headers`
abbrev pub each : {V : Type 0} → (V → Header → P V) → List Header → V → P V
each step [] v = ok v
each step (h ∷ hs) v = step v h >>= each step hs

abbrev missing : Str → ParseError
missing name = missing_header name

unfoldable pub msearch_message : MSearchVars → P MSearchRef
msearch_message v =
    if not v.saw_man
    then err (missing (codes "MAN"))
    else (ok_or v.host (missing (codes "HOST")) >>= λ host.
        ok_or v.st (missing (codes "ST")) >>= λ st. ok_or v.mx_val (missing (codes "MX")) >>= λ mx.
        ok (record {
          host = host;
          st = st;
          mx = mx;
          user_agent = v.user_agent;
          cpfn = v.cpfn;
          cpuuid = v.cpuuid;
          tcpport = v.tcpport;
        }))

-- The local variables of `parse_notify`, and of `parse_response` (which has no `host`, `nt`, `nts`
-- and `nextbootid`, and whose `st` is the target).
pub record NotifyVars : Type 0 where
  pub host : Option Str
  pub target : Option TargetRef
  pub nts : Option Nts
  pub usn : Option UsnRef
  pub location : Option Str
  pub max_age : Option Duration
  pub server : Option Str
  pub bootid : Option ℕ
  pub configid : Option ℕ
  pub nextbootid : Option ℕ
  pub searchport : Option ℕ

abbrev no_notify_vars : NotifyVars
no_notify_vars = record {
  host = none;
  target = none;
  nts = none;
  usn = none;
  location = none;
  max_age = none;
  server = none;
  bootid = none;
  configid = none;
  nextbootid = none;
  searchport = none;
}

-- The arms from `USN` to `CONFIGID` that both loops have; `other` is what follows them.
unfoldable pub shared_header : NotifyVars → Header → Str → P NotifyVars → P NotifyVars
shared_header v h val other =
    if is h (codes "usn")
    then (parse_usn val >>= λ u. ok (record v { usn = some u }))
    else if is h (codes "location")
    then (parse_location val >>= λ l. ok (record v { location = some l }))
    else if is h (codes "cache-control")
    then (parse_max_age val >>= λ d. ok (record v { max_age = some d }))
    else if is h (codes "server")
    then ok (record v { server = some val })
    else if is h (codes "bootid.upnp.org")
    then (parse_u32 (codes "BOOTID.UPNP.ORG") val >>= λ n. ok (record v { bootid = some n }))
    else if is h (codes "configid.upnp.org")
    then (parse_u32 (codes "CONFIGID.UPNP.ORG") val >>= λ n. ok (record v { configid = some n }))
    else other

unfoldable pub searchport_header : NotifyVars → Header → Str → P NotifyVars
searchport_header v h val =
    if is h (codes "searchport.upnp.org")
    then (parse_searchport val >>= λ n. ok (record v { searchport = some n }))
    else ok v

unfoldable pub notify_header : NotifyVars → Header → P NotifyVars
unfolding shared_header searchport_header parse_location
notify_header v h = header_value h >>= λ val.
    if is h (codes "host")
    then ok (record v { host = some val })
    else if is h (codes "nt")
    then (parse_target val >>= λ t. ok (record v { target = some t }))
    else if is h (codes "nts")
    then (parse_nts val >>= λ n. ok (record v { nts = some n }))
    else shared_header v h val (
        if is h (codes "nextbootid.upnp.org")
        then (parse_u32 (codes "NEXTBOOTID.UPNP.ORG") val >>= λ n.
            ok (record v { nextbootid = some n }))
        else searchport_header v h val)

unfoldable pub response_header : NotifyVars → Header → P NotifyVars
unfolding shared_header searchport_header parse_location
response_header v h = header_value h >>= λ val.
    if is h (codes "st")
    then (parse_target val >>= λ t. ok (record v { target = some t }))
    else shared_header v h val (searchport_header v h val)

-- `match nts_val`: what `alive` and `update` require, and `byebye` does not.
unfoldable pub required : {A : Type 0} → Nts → Option A → Str → P (Option A)
required bye_bye o name = ok o
required alive o name = ok_or o (missing name) >>= λ a. ok (some a)
required update o name = ok_or o (missing name) >>= λ a. ok (some a)

unfoldable pub notify_message : NotifyVars → P NotifyRef
unfolding required
notify_message v = ok_or v.nts (missing (codes "NTS")) >>= λ nts.
    required nts v.location (codes "LOCATION") >>= λ location.
    required nts v.max_age (codes "CACHE-CONTROL") >>= λ max_age.
    ok_or v.host (missing (codes "HOST")) >>= λ host.
    ok_or v.target (missing (codes "NT")) >>= λ nt. ok_or v.usn (missing (codes "USN")) >>= λ usn.
    ok (record {
      host = host;
      nt = nt;
      nts = nts;
      usn = usn;
      location = location;
      max_age = max_age;
      server = v.server;
      bootid = v.bootid;
      configid = v.configid;
      nextbootid = v.nextbootid;
      searchport = v.searchport;
    })

unfoldable pub response_message : NotifyVars → P SearchResponseRef
response_message v = ok_or v.target (missing (codes "ST")) >>= λ st.
    ok_or v.usn (missing (codes "USN")) >>= λ usn.
    ok_or v.location (missing (codes "LOCATION")) >>= λ location.
    ok_or v.max_age (missing (codes "CACHE-CONTROL")) >>= λ max_age. ok (record {
      st = st;
      usn = usn;
      location = location;
      max_age = max_age;
      server = v.server;
      bootid = v.bootid;
      configid = v.configid;
      searchport = v.searchport;
    })

module _ (parse_headers : HeaderParser) where
  unfoldable pub parse_msearch : Bytes → P MSearchRef
  unfolding max_headers msearch_message
  parse_msearch buf = do
    headers ← headers_of (parse_headers max_headers buf)
    v ← each msearch_header headers no_msearch_vars
    msearch_message v

  unfoldable pub parse_notify : Bytes → P NotifyRef
  unfolding max_headers notify_message
  parse_notify buf = do
    headers ← headers_of (parse_headers max_headers buf)
    v ← each notify_header headers no_notify_vars
    notify_message v

  unfoldable pub parse_response : Bytes → P SearchResponseRef
  unfolding max_headers response_message
  parse_response buf = do
    headers ← headers_of (parse_headers max_headers buf)
    v ← each response_header headers no_notify_vars
    response_message v

  unfoldable pub parse_rest : StartLine → Bytes → P MessageRef
  unfolding parse_msearch parse_notify parse_response
  parse_rest m_search_line rest = parse_msearch rest >>= λ m. ok (search m)
  parse_rest notify_line rest = parse_notify rest >>= λ m. ok (notify m)
  parse_rest response_200 rest = parse_response rest >>= λ m. ok (search_response m)

  unfoldable pub parse_datagram : Bytes → P MessageRef
  unfolding parse_rest parse_start_line
  parse_datagram buf =
      if is_empty buf then err too_short else (parse_start_line buf >>= λ p. parse_rest p.0 p.1)
