-- ===== src/Castle/Catalog.antt =====
-- crates/rusty-castle/src/catalog.rs: the media catalog. A `u32` is a natural number below 2 ^ 32
-- and its wrap-around is written out.
pub mod UpdateId
use Prim.Native.Nat.{bit_xor}
use rusty_castle.Prelude.{
  ℕ, ◌+◌, ◌*◌, ◌%◌, ◌^◌, max, Option, none, some, List, [], ◌∷◌, ◌++◌, if◌then◌else◌, length,
}
use rusty_castle.Str.{Str, Bytes, codes, as_bytes, str_eq}
use rusty_castle.Str.Decimal.{show}
use rusty_castle.Dlna.{ProtocolInfoRef, sony_mp4}

pub record MediaContainer : Type 0 where
  pub id : Str
  pub parent_id : Str
  pub title : Str

pub record MediaItem : Type 0 where
  pub id : Str
  pub parent_id : Str
  pub title : Str
  pub url : Str
  pub mime_type : Str
  pub size : Option ℕ
  pub duration : Option Str
  pub protocol_info : ProtocolInfoRef

-- `MediaItem::mp4`
unfoldable pub mp4_item : Str → Str → Str → MediaItem
mp4_item id title url = record {
  id = id;
  parent_id = codes "0";
  title = title;
  url = url;
  mime_type = codes "video/mp4";
  size = none;
  duration = none;
  protocol_info = sony_mp4;
}

pub record StaticCatalog : Type 0 where
  pub containers : List MediaContainer
  pub items : List MediaItem
  pub update_id : ℕ

-- `*hash ^= byte; *hash = hash.wrapping_mul(0x0100_0193)`
unfoldable pub hash_byte : ℕ → ℕ → ℕ
hash_byte hash byte = bit_xor hash byte * 0x01000193 % 2 ^ 32

unfoldable pub hash_bytes : ℕ → Bytes → ℕ
unfolding hash_byte
hash_bytes hash [] = hash
hash_bytes hash (byte ∷ bytes) = hash_bytes (hash_byte hash byte) bytes

unfoldable pub hash_field : ℕ → Str → ℕ
unfolding hash_bytes hash_byte as_bytes
hash_field hash value = hash_byte (hash_bytes hash (as_bytes value)) 0xff

unfoldable pub hash_containers : ℕ → List MediaContainer → ℕ
unfolding hash_field
hash_containers hash [] = hash
hash_containers hash (c ∷ containers) =
    hash_containers (hash_field (hash_field (hash_field hash c.id) c.parent_id) c.title) containers

-- A field that is hashed where it is present.
unfoldable pub hash_optional : ℕ → Option Str → ℕ
unfolding hash_field
hash_optional hash none = hash
hash_optional hash (some value) = hash_field hash value

abbrev pub size_text : Option ℕ → Option Str
size_text none = none
size_text (some size) = some (show size)

unfoldable pub hash_items : ℕ → List MediaItem → ℕ
unfolding hash_field hash_optional
hash_items hash [] = hash
hash_items hash (item ∷ items) =
    let h1 = hash_field (hash_field (hash_field hash item.id) item.parent_id) item.title in
    let h2 = hash_field (hash_field h1 item.url) item.mime_type in
    hash_items (hash_optional (hash_optional h2 (size_text item.size)) item.duration) items

unfoldable pub catalog_update_id : List MediaContainer → List MediaItem → ℕ
unfolding hash_containers hash_items
catalog_update_id containers items =
    max (hash_items (hash_containers 0x811c9dc5 containers) items) 1

-- `StaticCatalog::new`
abbrev pub empty_catalog : StaticCatalog
empty_catalog = record { containers = []; items = []; update_id = 0 }

unfoldable pub from_parts : List MediaContainer → List MediaItem → StaticCatalog
unfolding catalog_update_id
from_parts containers items = record {
  containers = containers;
  items = items;
  update_id = catalog_update_id containers items;
}

unfoldable pub from_items : List MediaItem → StaticCatalog
unfolding from_parts
from_items items = from_parts [] items

unfoldable pub push : StaticCatalog → MediaItem → StaticCatalog
push catalog item = record {
  containers = catalog.containers;
  items = catalog.items ++ item ∷ [];
  update_id = max ((catalog.update_id + 1) % 2 ^ 32) 1;
}

unfoldable pub containers_under : Str → List MediaContainer → List MediaContainer
unfolding str_eq
containers_under parent_id [] = []
containers_under parent_id (c ∷ containers) =
    let rest = containers_under parent_id containers in
    if str_eq c.parent_id parent_id then c ∷ rest else rest

unfoldable pub child_containers : StaticCatalog → Str → List MediaContainer
unfolding containers_under
child_containers catalog parent_id = containers_under parent_id catalog.containers

unfoldable pub items_under : Str → List MediaItem → List MediaItem
unfolding str_eq
items_under parent_id [] = []
items_under parent_id (item ∷ items) =
    let rest = items_under parent_id items in
    if str_eq item.parent_id parent_id then item ∷ rest else rest

unfoldable pub child_items : StaticCatalog → Str → List MediaItem
unfolding items_under
child_items catalog parent_id = items_under parent_id catalog.items

-- `(containers + items) as u32`
unfoldable pub child_count : StaticCatalog → Str → ℕ
unfolding child_containers child_items
child_count catalog parent_id =
    (length (child_containers catalog parent_id) + length (child_items catalog parent_id)) % 2 ^ 32

unfoldable pub find_container : Str → List MediaContainer → Option MediaContainer
unfolding str_eq
find_container id [] = none
find_container id (c ∷ containers) =
    let rest = find_container id containers in if str_eq c.id id then some c else rest

unfoldable pub container : StaticCatalog → Str → Option MediaContainer
unfolding find_container
container catalog id = find_container id catalog.containers

unfoldable pub find_item : Str → List MediaItem → Option MediaItem
unfolding str_eq
find_item id [] = none
find_item id (i ∷ items) = let rest = find_item id items in if str_eq i.id id then some i else rest

unfoldable pub item : StaticCatalog → Str → Option MediaItem
unfolding find_item
item catalog id = find_item id catalog.items
