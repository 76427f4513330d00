-- ===== src/Castle/Scan.antt =====
-- crates/rusty-castle/src/runtime.rs: the scan of the media directory. The file system is a
-- parameter: the tree below the directory, with what each call on it returns. File names are texts;
-- names that are not UTF-8 are left out.
pub mod Parents
use Prim.Native.Nat.{bit_xor}
use rusty_castle.Prelude.{
  ℕ, zero, suc, ◌*◌, ◌/◌, ◌%◌, ◌^◌, Bool, true, false, ◌&&◌, ◌||◌, Option, none, some, List, [],
  ◌∷◌, ◌++◌, map, ltb, ◌==◌, if◌then◌else◌, Result, ok, err, is_empty,
}
use rusty_castle.Str.{Str, Bytes, codes, as_bytes, str_eq, to_ascii_lowercase}
use rusty_castle.Str.Words.{rsplit_once}
use rusty_castle.Dlna.{DlnaProfile, mpeg_ps_ntsc, sony_mpeg_ps, hex_digit}
use rusty_castle.Castle.Catalog.{MediaContainer, MediaItem, mp4_item}
use rusty_castle.Castle.Mp4.{IoError, mp4_duration}

-- A file: its name, the length that `entry.metadata` gives, and what opening and reading it gives.
pub record FileEntry : Type 0 where
  pub name : Str
  pub metadata_len : Result IoError ℕ
  pub content : Result IoError Bytes

-- An entry of a directory, with what `path.is_dir()` and `path.is_file()` say of it, and what
-- `read_dir` and the entries that it yields give: the first error, or the entries.
mutual
  pub data Entry : Type 0 where
    directory : Str → Listing → Entry
    file : FileEntry → Entry
    special : Str → Entry

  pub data Listing : Type 0 where
    unreadable : IoError → Listing
    readable : Entries → Listing

  pub data Entries : Type 0 where
    no_entries : Entries
    and_entry : Entry → Entries → Entries

pub record ServedMedia : Type 0 where
  pub item : MediaItem
  pub path : List Str

pub record ScannedMediaTree : Type 0 where
  pub containers : List MediaContainer
  pub media : List ServedMedia

-- `hash ^= byte; hash = hash.wrapping_mul(0x0000_0100_0000_01b3)`
unfoldable pub hash64_byte : ℕ → ℕ → ℕ
hash64_byte hash byte = bit_xor hash byte * 0x00000100000001b3 % 2 ^ 64

unfoldable pub hash64_bytes : ℕ → Bytes → ℕ
unfolding hash64_byte
hash64_bytes hash [] = hash
hash64_bytes hash (byte ∷ bytes) = hash64_bytes (hash64_byte hash byte) bytes

-- The loop over the components of a relative path.
unfoldable pub hash64_path : ℕ → List Str → ℕ
unfolding hash64_bytes hash64_byte as_bytes
hash64_path hash [] = hash
hash64_path hash (component ∷ path) =
    hash64_path (hash64_byte (hash64_bytes hash (as_bytes component)) b'/') path

-- `{:016x}` of a `u64`
unfoldable pub hex_digits : ℕ → ℕ → Str → Str
hex_digits zero n out = out
hex_digits (suc k) n out = hex_digits k (n / 16) (hex_digit (n % 16) ∷ out)

unfoldable pub stable_object_id : Str → List Str → Str
unfolding hash64_path hex_digits
stable_object_id prefix relative_path =
    prefix ++ b'-' ∷ hex_digits 16 (hash64_path 0xcbf29ce484222325 relative_path) []

unfoldable pub stable_media_id : List Str → Str
unfolding stable_object_id
stable_media_id relative_path = stable_object_id (codes "m") relative_path

unfoldable pub stable_container_id : List Str → Str
unfolding stable_object_id
stable_container_id relative_path = stable_object_id (codes "c") relative_path

-- `path.file_stem()` and `path.extension()` of a file name
unfoldable pub file_stem : Str → Str
unfolding rsplit_once
file_stem name = elim (rsplit_once b'.' name) [
  | none ↦ name
  | some (stem, _) ↦ if is_empty stem then name else stem
]

unfoldable pub extension : Str → Option Str
unfolding rsplit_once
extension name = elim (rsplit_once b'.' name) [
  | none ↦ none
  | some (stem, ext) ↦ if is_empty stem then none else some ext
]

pub data MediaKind : Type 0 where
  mp4 : MediaKind
  mpeg_ps : Str → DlnaProfile → MediaKind

abbrev kind_of : Str → Option MediaKind
kind_of ext =
    if str_eq ext (codes "mp4")
    then some mp4
    else if str_eq ext (codes "mpg") || str_eq ext (codes "mpeg")
    then some (mpeg_ps (codes "video/mpeg") mpeg_ps_ntsc)
    else if str_eq ext (codes "vob")
    then some (mpeg_ps (codes "video/mpeg") mpeg_ps_ntsc)
    else none

unfoldable pub media_kind : Str → Option MediaKind
unfolding extension str_eq to_ascii_lowercase
media_kind name = elim (extension name) [
  | none ↦ none
  | some ext ↦ kind_of (map to_ascii_lowercase ext)
]

-- The item of a file before its parent, size and duration are set.
unfoldable pub new_item : MediaKind → Str → Str → Str → Str → MediaItem
unfolding mp4_item
new_item mp4 id title url parent_id = mp4_item id title url
new_item (mpeg_ps mime profile) id title url parent_id = record {
  id = id;
  parent_id = parent_id;
  title = title;
  url = url;
  mime_type = mime;
  size = none;
  duration = none;
  protocol_info = record (sony_mpeg_ps mime) { profile = some profile };
}

-- `mp4_duration` of the file, for an MP4 file; the outer `none` is a lack of fuel.
unfoldable pub duration_of :
    MediaKind → Option Str → FileEntry → Option (Result IoError (Option Str))
unfolding mp4_duration
duration_of mp4 before f = elim f.content [ err e ↦ some (err e) | ok bytes ↦ mp4_duration bytes ]
duration_of (mpeg_ps mime profile) before f = some (ok before)

-- What a scan returns; the outer `none` is a lack of fuel.
abbrev pub Scanned : Type 0
Scanned = Option (Result IoError ScannedMediaTree)

unfoldable pub push_media :
    MediaItem → Str → ℕ → List Str → ScannedMediaTree → Option Str → ScannedMediaTree
push_media item parent_id len path tree duration = record {
  containers = tree.containers;
  media =
      tree.media
      ++ record {
        item = record item { parent_id = parent_id; size = some len; duration = duration };
        path = path;
      }
        ∷ [];
}

abbrev pub after_duration :
    Option (Result IoError (Option Str)) → (Option Str → ScannedMediaTree) → Scanned
after_duration none k = none
after_duration (some (err e)) k = some (err e)
after_duration (some (ok d)) k = some (ok (k d))

-- The item of a file, before its size and duration are set.
abbrev pub file_item : MediaKind → List Str → Str → Str → Str → MediaItem
file_item kind path parent_id public_base_url name =
    let id = stable_media_id path in
    new_item kind id (file_stem name) (public_base_url ++ codes "media/" ++ id) parent_id

-- A turn of the loop for a file, in the directory with the path `dir` below the root.
unfoldable pub scan_file : List Str → Str → Str → FileEntry → ScannedMediaTree → Scanned
unfolding media_kind stable_media_id file_stem new_item duration_of push_media
scan_file dir parent_id public_base_url f tree = elim (media_kind f.name) [
  | none ↦ some (ok tree)
  | some kind ↦
      let path = dir ++ f.name ∷ [] in
      let item = file_item kind path parent_id public_base_url f.name in
      elim f.metadata_len [
        | err e ↦ some (err e)
        | ok len ↦
            after_duration (duration_of kind item.duration f)
              (push_media item parent_id len path tree)
      ]
]

unfoldable pub push_container : Str → Str → Str → ScannedMediaTree → ScannedMediaTree
push_container id parent_id title tree = record {
  containers = tree.containers ++ record { id = id; parent_id = parent_id; title = title } ∷ [];
  media = tree.media;
}

abbrev pub and_then : Scanned → (ScannedMediaTree → Scanned) → Scanned
and_then none k = none
and_then (some (err e)) k = some (err e)
and_then (some (ok tree)) k = k tree

-- The order of the paths in a directory: that of their names.
unfoldable pub name_le : Str → Str → Bool
name_le [] t = true
name_le (c ∷ s) [] = false
name_le (c ∷ s) (d ∷ t) = ltb c d || (c == d && name_le s t)

unfoldable pub entry_name : Entry → Str
entry_name (directory name below) = name
entry_name (file f) = f.name
entry_name (special name) = name

unfoldable pub insert_entry : Entry → Entries → Entries
unfolding name_le entry_name
insert_entry e no_entries = and_entry e no_entries
insert_entry e (and_entry e' entries) =
    let later = insert_entry e entries in
    if name_le (entry_name e) (entry_name e')
    then and_entry e (and_entry e' entries)
    else and_entry e' later

-- `entries.sort_by_key(|entry| entry.path())`, in every directory before the scan enters it.
unfoldable mutual
  unfolding insert_entry

  pub sort_listing : Listing → Listing
  sort_listing (unreadable e) = unreadable e
  sort_listing (readable entries) = readable (sort_entries entries)

  pub sort_entries : Entries → Entries
  sort_entries no_entries = no_entries
  sort_entries (and_entry e entries) = insert_entry (sort_below e) (sort_entries entries)

  pub sort_below : Entry → Entry
  sort_below (directory name below) = directory name (sort_listing below)
  sort_below (file f) = file f
  sort_below (special name) = special name

-- `scan_media_dir_into` of a sorted listing, its loop and a turn of it.
unfoldable mutual
  unfolding scan_file push_container stable_container_id

  pub scan_media_dir_into : List Str → Str → Str → Listing → ScannedMediaTree → Scanned
  scan_media_dir_into dir parent_id public_base_url (unreadable e) tree = some (err e)
  scan_media_dir_into dir parent_id public_base_url (readable entries) tree =
      scan_entries dir parent_id public_base_url entries tree

  pub scan_entries : List Str → Str → Str → Entries → ScannedMediaTree → Scanned
  scan_entries dir parent_id public_base_url no_entries tree = some (ok tree)
  scan_entries dir parent_id public_base_url (and_entry e entries) tree =
      and_then (scan_entry dir parent_id public_base_url e tree)
        (scan_entries dir parent_id public_base_url entries)

  pub scan_entry : List Str → Str → Str → Entry → ScannedMediaTree → Scanned
  scan_entry dir parent_id public_base_url (directory name below) tree =
      let path = dir ++ name ∷ [] in
      let id = stable_container_id path in
      scan_media_dir_into path id public_base_url below (push_container id parent_id name tree)
  scan_entry dir parent_id public_base_url (file f) tree =
      scan_file dir parent_id public_base_url f tree
  scan_entry dir parent_id public_base_url (special name) tree = some (ok tree)

unfoldable pub scan_media_tree : Str → Listing → Scanned
unfolding scan_media_dir_into sort_listing
scan_media_tree public_base_url media_dir =
    scan_media_dir_into [] (codes "0") public_base_url (sort_listing media_dir)
      record { containers = []; media = [] }
