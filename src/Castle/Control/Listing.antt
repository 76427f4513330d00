-- ===== src/Castle/Control/Listing.antt =====
-- crates/rusty-castle/src/control.rs: which objects Browse has to list.
use rusty_castle.Prelude.{
  ◌≡◌, ◌⊎◌, refl, sym, ap, ◌∙◌, ◌++◌, if◌then◌else◌, inl, inr, none, some, List, [], ◌∷◌, map,
  arith, Bool-cases, All, All-append,
}
use rusty_castle.Str.{Str, codes, str_eq}
use rusty_castle.Str.Search.{str_eq_sound}
use rusty_castle.Av.ContentDirectory.{BrowseFlag, metadata, direct_children}
use rusty_castle.Av.Didl.{ObjectRef}
use rusty_castle.Castle.Catalog.{
  MediaContainer, MediaItem, StaticCatalog, child_containers, child_items, containers_under,
  find_container, find_item, items_under,
}
use rusty_castle.Castle.Control.{
  children_objects, object_for_container, object_for_item, resource_for_item, root_object,
}

-- The ids of the containers and of the items of the catalog that name `parent_id` as their parent,
-- in the order of the catalog.
abbrev pub container_ids : Str → List MediaContainer → List Str
container_ids parent_id [] = []
container_ids parent_id (c ∷ cs) =
    let rest = container_ids parent_id cs in
    if str_eq c.parent_id parent_id then c.id ∷ rest else rest

abbrev pub item_ids : Str → List MediaItem → List Str
item_ids parent_id [] = []
item_ids parent_id (i ∷ is) =
    let rest = item_ids parent_id is in if str_eq i.parent_id parent_id then i.id ∷ rest else rest

-- The objects that a Browse of an object must list: for its metadata the object itself, which has
-- the id that is asked for, and for its children all that name it as their parent, containers first.
-- An item has no children.
pub data Browsed (catalog : StaticCatalog) (id : Str) : BrowseFlag → List ObjectRef → Type 0 where
  root_itself : id ≡ codes "0" → Browsed catalog id metadata (root_object catalog ∷ [])
  container_itself :
      (c : MediaContainer)
      → find_container id catalog.containers ≡ some c
      → c.id ≡ id
      → Browsed catalog id metadata (object_for_container catalog c ∷ [])
  item_itself :
      (i : MediaItem)
      → find_container id catalog.containers ≡ none
      → find_item id catalog.items ≡ some i
      → i.id ≡ id
      → Browsed catalog id metadata (object_for_item i (resource_for_item i ∷ []) ∷ [])
  children :
      (objects : List ObjectRef)
      → ((id ≡ codes "0")
          ⊎ ((c : MediaContainer) × (find_container id catalog.containers ≡ some c)))
      → map (λ o. o.id) objects ≡ container_ids id catalog.containers ++ item_ids id catalog.items
      → All (λ o. o.parent_id ≡ id) objects
      → Browsed catalog id direct_children objects
  no_children :
      (i : MediaItem)
      → find_container id catalog.containers ≡ none
      → find_item id catalog.items ≡ some i
      → Browsed catalog id direct_children []

pub container_id :
    (id : Str) (cs : List MediaContainer) (c : MediaContainer)
    → find_container id cs ≡ some c
    → c.id ≡ id
unfolding find_container
container_id id [] c e = cc
container_id id (d ∷ cs) c e = elim (Bool-cases (str_eq d.id id)) [
  | inl b ↦
      let same : d ≡ c = ground (arith, b, e) in ap (λ x. x.id) (sym same) ∙ str_eq_sound d.id id b
  | inr b ↦ container_id id cs c (ground (arith, b, e))
]

pub item_id :
    (id : Str) (is : List MediaItem) (i : MediaItem) → find_item id is ≡ some i → i.id ≡ id
unfolding find_item
item_id id [] i e = cc
item_id id (j ∷ is) i e = elim (Bool-cases (str_eq j.id id)) [
  | inl b ↦
      let same : j ≡ i = ground (arith, b, e) in ap (λ x. x.id) (sym same) ∙ str_eq_sound j.id id b
  | inr b ↦ item_id id is i (ground (arith, b, e))
]

-- The objects of the containers and of the items below an object.
containers-Browsed :
    (catalog : StaticCatalog) (id : Str) (cs : List MediaContainer)
    → (map (λ o. o.id) (map (object_for_container catalog) (containers_under id cs))
        ≡ container_ids id cs)
      × All (λ o. o.parent_id ≡ id) (map (object_for_container catalog) (containers_under id cs))
unfolding containers_under object_for_container
containers-Browsed catalog id [] = (refl, tt)
containers-Browsed catalog id (c ∷ cs) =
    let (a, b) = containers-Browsed catalog id cs in
    elim (Bool-cases (str_eq c.parent_id id)) [
      | inl e ↦ rw e (ap (◌∷◌ c.id) a, (str_eq_sound c.parent_id id e, b))
      | inr e ↦ rw e (a, b)
    ]

items-Browsed :
    (id : Str) (is : List MediaItem)
    → (map (λ o. o.id) (map (λ i. object_for_item i (resource_for_item i ∷ [])) (items_under id is))
        ≡ item_ids id is)
      × All
          (λ o. o.parent_id ≡ id)
          (map (λ i. object_for_item i (resource_for_item i ∷ [])) (items_under id is))
unfolding items_under object_for_item
items-Browsed id [] = (refl, tt)
items-Browsed id (i ∷ is) =
    let (a, b) = items-Browsed id is in
    elim (Bool-cases (str_eq i.parent_id id)) [
      | inl e ↦ rw e (ap (◌∷◌ i.id) a, (str_eq_sound i.parent_id id e, b))
      | inr e ↦ rw e (a, b)
    ]

map-append : {A B : Type 0} (f : A → B) (xs ys : List A) → map f (xs ++ ys) ≡ map f xs ++ map f ys
map-append f [] ys = refl
map-append f (x ∷ xs) ys = ap (◌∷◌ (f x)) (map-append f xs ys)

pub children-Browsed :
    (catalog : StaticCatalog) (id : Str)
    → ((id ≡ codes "0") ⊎ ((c : MediaContainer) × (find_container id catalog.containers ≡ some c)))
    → Browsed catalog id direct_children (children_objects catalog id)
unfolding children_objects child_containers child_items
children-Browsed catalog id known =
    let (a, b) = containers-Browsed catalog id catalog.containers in
    let (c, d) = items-Browsed id catalog.items in
    children _ known
      (map-append (λ o. o.id) (map (object_for_container catalog) (child_containers catalog id)) _
        ∙ rw (a, c) refl)
      (All-append (λ o. o.parent_id ≡ id)
        (map (object_for_container catalog) (child_containers catalog id)) _ b d)
