-- ===== src/Castle/Catalog/UpdateId.antt =====
-- crates/rusty-castle/src/catalog.rs: the update id of a catalog.
use rusty_castle.Prelude.{ℕ, ◌^◌, ◌≤◌, ◌<◌, ◌≢◌, Option, none, some, List, [], ◌∷◌, arith}
use rusty_castle.Str.{Str}
use rusty_castle.Castle.Catalog.{
  MediaContainer, MediaItem, StaticCatalog, from_parts, push, catalog_update_id, hash_items,
  hash_containers, hash_optional, hash_field, hash_byte, size_text,
}

pub record IsNumbered (catalog : StaticCatalog) : Type 0 where
  pub positive : 1 ≤ catalog.update_id
  pub bound : catalog.update_id < 2 ^ 32

hash_field-bound : (hash : ℕ) (value : Str) → hash_field hash value < 2 ^ 32
unfolding hash_field hash_byte
hash_field-bound hash value = omega arith

hash_optional-bound :
    (hash : ℕ) (value : Option Str) → hash < 2 ^ 32 → hash_optional hash value < 2 ^ 32
unfolding hash_optional
hash_optional-bound hash none h = h
hash_optional-bound hash (some value) h = hash_field-bound hash value

hash_containers-bound :
    (containers : List MediaContainer) (hash : ℕ)
    → hash < 2 ^ 32
    → hash_containers hash containers < 2 ^ 32
unfolding hash_containers
hash_containers-bound [] hash h = h
hash_containers-bound (c ∷ containers) hash h =
    hash_containers-bound containers _ (hash_field-bound _ c.title)

hash_items-bound :
    (items : List MediaItem) (hash : ℕ) → hash < 2 ^ 32 → hash_items hash items < 2 ^ 32
unfolding hash_items
hash_items-bound [] hash h = h
hash_items-bound (item ∷ items) hash h = hash_items-bound items _ (
    hash_optional-bound _ item.duration
      (hash_optional-bound _ (size_text item.size) (hash_field-bound _ item.mime_type)))

pub from_parts-IsNumbered :
    (containers : List MediaContainer) (items : List MediaItem)
    → IsNumbered (from_parts containers items)
unfolding from_parts catalog_update_id
from_parts-IsNumbered containers items =
    let b = hash_items-bound items _ (hash_containers-bound containers 0x811c9dc5 (omega arith)) in
    record { positive = omega arith; bound = omega (arith, b) }

-- Adding an item to a catalog whose update id is a `u32` other than zero keeps it one, and changes
-- it.
pub push-IsNumbered :
    (catalog : StaticCatalog) (item : MediaItem)
    → IsNumbered catalog
    → IsNumbered (push catalog item) × ((push catalog item).update_id ≢ catalog.update_id)
unfolding push
push-IsNumbered catalog item n = (
  record { positive = omega arith; bound = omega (arith, n.bound) },
  λ e. omega (arith, e, n.bound, n.positive),
)
