-- ===== src/Castle/State.antt =====
-- crates/rusty-castle/src/runtime.rs: the configuration and the state that the threads share. No
-- thread panics while it holds a lock, so a lock is never poisoned. A recorder is the handle of its
-- file; a duration is in nanoseconds.
pub mod Rescan
use rusty_castle.Prelude.{
  ℕ, zero, suc, ◌-◌, Bool, false, Option, none, some, List, [], ◌∷◌, ◌++◌, map, ◌==◌, if◌then◌else◌,
  Result, ok, err, length,
}
use rusty_castle.Str.{Str, codes, str_eq, parse_uint}
use rusty_castle.MediaHttp.Range.{u64_max}
use rusty_castle.Castle.Catalog.{StaticCatalog, MediaItem, from_parts, from_items}
use rusty_castle.Castle.Description.{ServerConfig, new_config}
use rusty_castle.Castle.Mp4.{IoError}
use rusty_castle.Castle.Scan.{Listing, ScannedMediaTree, ServedMedia, scan_media_tree}

-- `http_bind`, `ssdp_interface` and `scenario_capture_path` only reach the sockets and the recorder.
pub record RuntimeConfig : Type 0 where
  pub public_base_url : Str
  pub uuid : Str
  pub friendly_name : Str
  pub web_ui_enabled : Bool

pub record RuntimeState : Type 0 where
  pub config : ServerConfig
  pub catalog : StaticCatalog
  pub media : List ServedMedia
  pub web_ui_enabled : Bool
  pub scenario_recorder : Option ℕ

abbrev pub items_of : List ServedMedia → List MediaItem
items_of media = map (λ entry. entry.item) media

-- `RuntimeState::new`
unfoldable pub new_state : ServerConfig → List ServedMedia → RuntimeState
unfolding from_items
new_state config media = record {
  config = config;
  catalog = from_items (items_of media);
  media = media;
  web_ui_enabled = false;
  scenario_recorder = none;
}

unfoldable pub scanned_state : RuntimeConfig → ScannedMediaTree → RuntimeState
unfolding from_parts new_config
scanned_state config scanned = record {
  config = new_config config.public_base_url config.uuid config.friendly_name;
  catalog = from_parts scanned.containers (items_of scanned.media);
  media = scanned.media;
  web_ui_enabled = config.web_ui_enabled;
  scenario_recorder = none;
}

-- `RuntimeState::scan`; the outer `none` is a lack of fuel in the scan.
unfoldable pub scan : RuntimeConfig → Listing → Option (Result IoError RuntimeState)
unfolding scan_media_tree scanned_state
scan config media_dir = elim (scan_media_tree config.public_base_url media_dir) [
  | none ↦ none
  | some (err e) ↦ some (err e)
  | some (ok scanned) ↦ some (ok (scanned_state config scanned))
]

unfoldable pub with_scenario_recorder : ℕ → RuntimeState → RuntimeState
with_scenario_recorder recorder state = record state { scenario_recorder = some recorder }

unfoldable pub find_media : Str → List ServedMedia → Option ServedMedia
unfolding str_eq
find_media id [] = none
find_media id (entry ∷ media) =
    let rest = find_media id media in if str_eq entry.item.id id then some entry else rest

unfoldable pub media_by_id : Str → RuntimeState → Option ServedMedia
unfolding find_media
media_by_id id state = find_media id state.media

-- `self.media.get(index)`
unfoldable pub get_media : List ServedMedia → ℕ → Option ServedMedia
get_media [] index = none
get_media (entry ∷ media) zero = some entry
get_media (entry ∷ media) (suc index) = get_media media index

-- `parse::<usize>` and `checked_sub(1)`; a `usize` has 64 bits.
unfoldable pub legacy_index : Str → Option ℕ
unfolding parse_uint
legacy_index id = elim (parse_uint u64_max id) [
  | none ↦ none
  | some n ↦ if n == 0 then none else some (n - 1)
]

unfoldable pub media_by_id_or_legacy_index : Str → RuntimeState → Option ServedMedia
unfolding media_by_id legacy_index get_media
media_by_id_or_legacy_index id state = elim (media_by_id id state) [
  | some entry ↦ some entry
  | none ↦ elim (legacy_index id) [ none ↦ none | some index ↦ get_media state.media index ]
]

unfoldable pub device_location : RuntimeState → Str
device_location state = state.config.base_url ++ codes "device.xml"

-- Nanoseconds after, or before, the start of the epoch.
pub data SystemTime : Type 0 where
  after_epoch before_epoch : ℕ → SystemTime

pub record ScanStatus : Type 0 where
  pub last_scan_time : Option SystemTime
  pub last_scan_duration : Option ℕ
  pub item_count : ℕ
  pub error : Option Str

pub record SharedRuntimeState : Type 0 where
  pub config : RuntimeConfig
  pub current : RuntimeState
  pub scan_status : ScanStatus

-- The status behind a scan at the time `now` that took `duration`.
unfoldable pub status_after : SystemTime → ℕ → RuntimeState → Option Str → ScanStatus
status_after now duration current error = record {
  last_scan_time = some now;
  last_scan_duration = some duration;
  item_count = length current.catalog.items;
  error = error;
}

-- `SharedRuntimeState::new`
unfoldable pub new_shared : SystemTime → RuntimeConfig → RuntimeState → ℕ → SharedRuntimeState
unfolding status_after
new_shared now config current initial_scan_duration = record {
  config = config;
  current = current;
  scan_status = status_after now initial_scan_duration current none;
}

unfoldable pub replace_library :
    SystemTime → RuntimeState → ℕ → SharedRuntimeState → SharedRuntimeState
unfolding status_after
replace_library now next duration state = record {
  config = state.config;
  current = next;
  scan_status = status_after now duration next none;
}

unfoldable pub record_scan_error : SystemTime → Str → ℕ → SharedRuntimeState → SharedRuntimeState
unfolding status_after
record_scan_error now error duration state = record state {
  scan_status = status_after now duration state.current (some error);
}

-- What `rescan_library` does with the outcome of its scan.
abbrev pub finish_rescan :
    SystemTime
    → ℕ
    → SharedRuntimeState
    → Result IoError RuntimeState
    → Result IoError (Unit {0}) × SharedRuntimeState
finish_rescan now duration state (err e) = (err e, record_scan_error now e duration state)
finish_rescan now duration state (ok next) =
    let recording = record next { scenario_recorder = state.current.scenario_recorder } in
    (ok tt, replace_library now recording duration state)

-- `rescan_library`, with the directory as the scan finds it, the time, and how long the scan takes.
unfoldable pub rescan_library :
    Listing
    → SystemTime
    → ℕ
    → SharedRuntimeState
    → Option (Result IoError (Unit {0}) × SharedRuntimeState)
unfolding scan replace_library record_scan_error
rescan_library media_dir now duration state = elim (scan state.config media_dir) [
  | none ↦ none
  | some scanned ↦ some (finish_rescan now duration state scanned)
]
