-- ===== src/Lib.antt =====
-- Rusty Castle: a DLNA media server made of small libraries.
--
-- The parts that are modelled, and where (a path src/... is within the directory of its crate):
-- * Ssdp (crates/ssdp-core): the discovery protocol. Time.antt and Timer.antt are src/time.rs and
--   src/state/timer.rs; Header/Value.antt, Header/Target.antt and Header/Usn.antt are src/header;
--   Message.antt and Error.antt are src/message and src/error.rs; Encode.antt is src/encode;
--   Parse.antt is src/parse; State.antt and Device.antt with its children are src/state/mod.rs and
--   src/state/device.rs. The device reads datagrams with the parser, writes messages with the
--   encoders into one scratch buffer, and is driven by its timer queue. Cache.antt is
--   src/state/cache.rs, on the map of IndexMap.antt, and ControlPoint.antt with
--   ControlPoint/Run.antt is src/state/control_point.rs, which keeps what it hears in the cache.
-- * MediaHttp (crates/media-http): Range.antt is src/range.rs, and Response.antt is
--   src/response.rs, which plans the answer to a GET or HEAD from the range header.
-- * Dlna (crates/dlna-core): src/protocol_info.rs, whose values the plans carry; Dlna/Values.antt is
--   about the characters of its texts.
-- * Upnp (crates/upnp-core): Xml.antt, Ids.antt, Soap.antt, Scpd.antt and Device.antt are src/xml.rs,
--   src/ids.rs with src/error.rs, src/soap.rs, src/scpd.rs and src/device.rs; the reader of soap.rs
--   is Soap/Read.antt. Xml/Nesting.antt is a reader of tags that says when a document is nested, and
--   the files named Nested hold what is written against it.
-- * Av (crates/upnp-av-core): Didl.antt, ContentDirectory.antt and ConnectionManager.antt are the
--   files of src of these names; their messages are written with Upnp/Soap.antt.
-- * Castle (crates/rusty-castle): Catalog.antt, Control.antt, Description.antt and Scenario.antt are
--   the files of src of these names. src/runtime.rs is Mp4.antt (durations of MP4 files), Scan.antt
--   (the media directory), State.antt (the state that the threads share), Ui.antt (the pages),
--   Http.antt (requests and responses), Route.antt (the answers) and Discovery.antt (the SSDP side).
--   src/main.rs is Cli.antt (arguments, configuration, log) and Cli/Civil.antt (the calendar).
--   A request is read in Http, routed in Route, and answered from the state: a control request by
--   Control over the catalog, a media request by the plan of MediaHttp and the file, a rescan by a
--   new scan, which replaces the library. Discovery fills the device of Ssdp with the targets of
--   the server and sends what the device queues.
-- * Prelude and Str: shared helpers, and the parts of `str` that the crates use, on texts as lists
--   of code points; Str/Utf8.antt is the decoder of bytes.
--
-- State is passed on explicitly: an operation on `&mut self` returns the new record. A panic (an
-- index out of bounds, `+` on instants past the end, a remainder by 0) is `none`, or `panicked` in
-- the encoders; theorems that an operation does not panic say that it returns `some`. A borrowed
-- text or slice is the text or list itself. Integers are natural numbers with their bounds as
-- hypotheses or tests, and wrap-around written out.
--
-- Code outside the repository is a parameter: `httparse::parse_headers` is a function about which
-- nothing is assumed, and `heapless` is the records `Heapless` and `IndexMap` of its operations with
-- their documented behaviour, which Ssdp/Heapless/Lists.antt and Ssdp/IndexMap/Lists.antt show to be
-- satisfiable.
--
-- Parameters of Castle: the crate's version, the file system (the tree of the media directory with
-- what each call on it returns; the length and the bytes of a path), the clock, `send_to` of the
-- socket, and `String::from_utf8_lossy`. A stream is the bytes that the client sends. The calls of
-- `send_to` are kept in a log of what the socket is handed.
--
-- Fuel: `drain_expired` runs one round more than there are slots, since every round but the last
-- empties a slot; `u32_to_str` has the ten bytes of its buffer, and so has `U32Display`. The loops of
-- the SOAP reader, of the request headers and of the MP4 search have the length of what is left to
-- read, and the loops that drain the device the number of what waits in it.
--
-- Not modelled: `main` and the logger of crates/rusty-castle/src/main.rs, which print; `run`, `run_http`, `run_ssdp` and
-- `handle_stream` of src/runtime.rs, which bind sockets, spawn threads and loop forever; the file of
-- the scenario recorder; poisoned locks and logging; file names that are not UTF-8; writers that
-- fail, since the texts are written to strings.
pub mod Prelude
pub mod Str
pub mod Dlna
pub mod MediaHttp
pub mod Ssdp
pub mod Upnp
pub mod Av
pub mod Castle
