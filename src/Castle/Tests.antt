-- ===== src/Castle/Tests.antt =====
-- Runs of crates/rusty-castle on concrete requests, files and directories.
use rusty_castle.Prelude.{
  ℕ, suc, ◌≡◌, refl, true, Option, none, some, List, [], ◌∷◌, ◌++◌, arith, Result, ok, length, drop,
  All,
}
use rusty_castle.Str.{Str, Bytes, codes, str_eq, to_ascii_lowercase}
use rusty_castle.Str.Decimal.{show}
use rusty_castle.Str.Words.{rsplit_once}
use rusty_castle.Dlna.{sony_mp4, mpeg_ps_ntsc}
use rusty_castle.MediaHttp.Response.{get, head}
use rusty_castle.Ssdp.Device.State.{Device}
use rusty_castle.Ssdp.Device.Transmits.{IsPacked, pendings}
use rusty_castle.Ssdp.Heapless.Lists.{list_heapless}
use rusty_castle.Ssdp.State.{SocketAddr}
use rusty_castle.Ssdp.Tests.{busy, busy-IsPacked}
use rusty_castle.Castle.Catalog.{MediaItem, StaticCatalog}
use rusty_castle.Castle.Control.{handle_control}
use rusty_castle.Castle.Control.Answers.{IsAnswered, handle_control-IsAnswered}
use rusty_castle.Castle.Control.{browse_result}
use rusty_castle.Castle.Control.Browse.{Answers, IsCleanCatalog, browse_result_lem}
use rusty_castle.Castle.Scenario.{RecordedInteraction, json_string, to_json_line}
use rusty_castle.Castle.Scenario.Lines.{IsPrintable, to_json_line-IsPrintable}
use rusty_castle.Castle.Scenario.RoundTrip.{plain, read_string, read_string-json_string}
use rusty_castle.Upnp.Xml.Nesting.{IsValue-literal}
use rusty_castle.Dlna.Values.{write_protocol_info-IsPlain}
use rusty_castle.Av.ContentDirectory.{direct_children}
use rusty_castle.Castle.Description.{new_config}
use rusty_castle.Castle.Discovery.{drain_ssdp}
use rusty_castle.Castle.Discovery.Drain.{newest_first, drain_ssdp_lem}
use rusty_castle.Castle.Http.{HttpResponse, find_header}
use rusty_castle.Castle.Mp4.{IoError, mp4_duration}
use rusty_castle.Castle.Mp4.Search.{mp4_duration-returns}
use rusty_castle.Castle.Route.{World, entry_response}
use rusty_castle.Castle.Route.Media.{entry_response-delivers}
use rusty_castle.Castle.Scan.{
  FileEntry, Listing, ScannedMediaTree, ServedMedia, and_entry, directory, file, file_item, mpeg_ps,
  no_entries, push_container, push_media, readable, scan_media_tree, stable_container_id,
  unreadable, scan_media_dir_into, scan_file, sort_listing, insert_entry, media_kind, extension,
  duration_of,
}
use rusty_castle.Castle.Scan.Parents.{IsRooted, scan_media_tree-IsRooted}
use rusty_castle.Castle.State.{
  RuntimeState, SharedRuntimeState, after_epoch, rescan_library, finish_rescan, scanned_state,
}
use rusty_castle.Castle.State.Rescan.{
  IsCoherent, IsRescanned, rescan_library_lem, rescan_library-ok,
}

abbrev film : MediaItem
film = record {
  id = codes "m-1";
  parent_id = codes "0";
  title = codes "A & B";
  url = codes "http://h/media/m-1";
  mime_type = codes "video/mp4";
  size = some 6;
  duration = none;
  protocol_info = sony_mp4;
}

abbrev films : StaticCatalog
films = record { containers = []; items = film ∷ []; update_id = 7 }

-- A request to list the root.
abbrev browse_root_xml : Str
browse_root_xml =
    codes
      "<s:Envelope><s:Body><u:Browse xmlns:u=\"urn:schemas-upnp-org:service:ContentDirectory:1\"><ObjectID>0</ObjectID><BrowseFlag>BrowseDirectChildren</BrowseFlag></u:Browse></s:Body></s:Envelope>"

handle_control-IsAnswered_example : IsAnswered (handle_control browse_root_xml films)
handle_control-IsAnswered_example = handle_control-IsAnswered browse_root_xml films (omega arith)

-- A box with no type that the search knows, and a part of a second one.
abbrev boxes : Bytes
boxes = 0 ∷ 0 ∷ 0 ∷ 8 ∷ 102 ∷ 114 ∷ 101 ∷ 101 ∷ 0 ∷ 0 ∷ 0 ∷ 9 ∷ []

mp4_duration-returns_example : (r : Result IoError (Option Str)) × (mp4_duration boxes ≡ some r)
mp4_duration-returns_example = mp4_duration-returns boxes (omega arith)

abbrev takes_all : Bytes → SocketAddr → Result IoError ℕ
takes_all payload addr = ok (length payload)

drain_ssdp_example :
    (d' : Device) × (drain_ssdp list_heapless takes_all 2048 busy
      ≡ some (ok (length (pendings busy)), newest_first 2048 (pendings busy), d'))
    × (pendings d' ≡ [])
    × IsPacked d'
drain_ssdp_example =
    drain_ssdp_lem list_heapless takes_all (λ payload addr. (length payload, refl)) 2048 busy
      busy-IsPacked

abbrev served : ServedMedia
served = record { item = film; path = codes "a.mp4" ∷ [] }

abbrev disk : World
disk = record {
  version = codes "0.1.0";
  media_dir = unreadable (codes "denied");
  file_len = λ path. ok 6;
  open_file = λ path. ok (1 ∷ 2 ∷ 3 ∷ 4 ∷ 5 ∷ 6 ∷ []);
  now = after_epoch 0;
  scan_duration = 0;
}

entry_response-delivers_example :
    (r : HttpResponse) × (n : ℕ) × (entry_response disk served get (some (codes "bytes=2-3"))
      ≡ ok r)
    × (find_header (codes "Content-Length") r.headers ≡ some (show n))
    × (get ≡ get → length r.body ≡ n)
    × (get ≡ head → r.body ≡ [])
entry_response-delivers_example =
    entry_response-delivers disk served get (some (codes "bytes=2-3")) (1 ∷ 2 ∷ 3 ∷ 4 ∷ 5 ∷ 6 ∷ [])
      refl refl

-- A directory with a film in a directory below it.
abbrev clip : FileEntry
clip = record { name = codes "b.MPG"; metadata_len = ok 6; content = ok [] }

abbrev folder : Listing
folder =
    readable
      (and_entry (directory (codes "a") (readable (and_entry (file clip) no_entries))) no_entries)

abbrev clip_path : List Str
clip_path = codes "a" ∷ codes "b.MPG" ∷ []

abbrev folder_id : Str
folder_id = stable_container_id (codes "a" ∷ [])

abbrev folder_tree : ScannedMediaTree
folder_tree =
    push_media
      (file_item (mpeg_ps (codes "video/mpeg") mpeg_ps_ntsc) clip_path folder_id (codes "http://h/")
        (codes "b.MPG"))
      folder_id 6 clip_path
      (push_container folder_id (codes "0") (codes "a") (record { containers = []; media = [] }))
      none

scan-folder : scan_media_tree (codes "http://h/") folder ≡ some (ok folder_tree)
unfolding scan_media_tree scan_media_dir_into scan_file sort_listing insert_entry media_kind
    extension duration_of rsplit_once str_eq to_ascii_lowercase
scan-folder = refl

scan_media_tree-IsRooted_example : IsRooted folder_tree
scan_media_tree-IsRooted_example =
    scan_media_tree-IsRooted (codes "http://h/") folder folder_tree scan-folder

abbrev state : RuntimeState
state = record {
  config = new_config (codes "http://h/") (codes "0001") (codes "Films");
  catalog = films;
  media = served ∷ [];
  web_ui_enabled = true;
  scenario_recorder = some 3;
}

state-IsCoherent : IsCoherent state
state-IsCoherent = record {
  listed = refl;
  numbered = record { positive = omega arith; bound = omega arith };
}

abbrev shared : SharedRuntimeState
shared = record {
  config = record {
    public_base_url = codes "http://h/";
    uuid = codes "0001";
    friendly_name = codes "Films";
    web_ui_enabled = true;
  };
  current = state;
  scan_status = record {
    last_scan_time = none;
    last_scan_duration = none;
    item_count = 1;
    error = none;
  };
}

-- The state behind a rescan that finds the folder.
abbrev rescanned : SharedRuntimeState
rescanned =
    (finish_rescan (after_epoch 5) 9 shared (ok (scanned_state shared.config folder_tree))).1

rescan-folder : rescan_library folder (after_epoch 5) 9 shared ≡ some (ok tt, rescanned)
rescan-folder = rescan_library-ok folder (after_epoch 5) 9 shared folder_tree scan-folder

rescan_library_example :
    IsCoherent rescanned.current
    × (rescanned.scan_status.item_count ≡ length rescanned.current.catalog.items)
    × (rescanned.current.scenario_recorder ≡ some 3)
    × IsRescanned folder shared (ok tt, rescanned)
rescan_library_example =
    rescan_library_lem folder (after_epoch 5) 9 shared rescanned (ok tt) state-IsCoherent
      rescan-folder

films-IsCleanCatalog : IsCleanCatalog films
films-IsCleanCatalog = record {
  containers = tt;
  items = (
    (
      IsValue-literal (codes "m-1") refl,
      IsValue-literal (codes "0") refl,
      tt,
      write_protocol_info-IsPlain sony_mp4 (IsValue-literal (codes "http-get") refl)
          (IsValue-literal (codes "*") refl) (IsValue-literal (codes "video/mp4") refl),
    ),
    tt,
  );
}

browse_result_example :
    Answers films (codes "0") direct_children (browse_result films (codes "0") direct_children)
browse_result_example = browse_result_lem films (codes "0") direct_children films-IsCleanCatalog

-- A request with an escape and a line end in a header.
abbrev interaction : RecordedInteraction
interaction = record {
  method = codes "GET";
  path = codes "/\"x\"";
  request_headers = (codes "a", 9 ∷ 27 ∷ 10 ∷ []) ∷ [];
  request_body = [];
  response_status = 200;
  response_content_type = codes "text/plain";
  response_headers = [];
  response_body = none;
  omitted_response_body_bytes = 3;
}

to_json_line-IsPrintable_example : All IsPrintable (to_json_line interaction)
to_json_line-IsPrintable_example = to_json_line-IsPrintable interaction

read_string-json_string_example :
    read_string plain
      (drop (suc (length (codes "{"))) (json_string (codes "{") (34 ∷ 27 ∷ 92 ∷ []) ++ codes "}"))
    ≡ some (34 ∷ 27 ∷ 92 ∷ [], codes "}")
read_string-json_string_example =
    read_string-json_string (codes "{") (34 ∷ 27 ∷ 92 ∷ []) (codes "}")
