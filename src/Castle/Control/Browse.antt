-- ===== src/Castle/Control/Browse.antt =====
-- crates/rusty-castle/src/control.rs: what Browse lists.
use rusty_castle.Prelude.{
  ℕ, suc, ◌%◌, ◌^◌, ◌≡◌, refl, sym, ap, subst, inl, inr, false, none, some, List, [], ◌∷◌, map,
  arith, Bool-cases, Option-cases, Result, ok, err, length, All, length-append, All-append,
}
use rusty_castle.Str.{Str, codes, str_eq}
use rusty_castle.Str.Search.{str_eq_sound}
use rusty_castle.Upnp.Xml.Nesting.{IsNested, IsValue, IsValue-literal, IsText-literal}
use rusty_castle.Av.ContentDirectory.{BrowseFlag, metadata, direct_children}
use rusty_castle.Av.Didl.{ObjectRef, class_str, write_didl}
use rusty_castle.Av.Didl.Nested.{IsCleanDuration, IsCleanInfo, IsCleanObject, write_didl-IsNested}
use rusty_castle.Castle.Catalog.{
  MediaContainer, MediaItem, StaticCatalog, child_containers, child_count, child_items,
  containers_under, find_container, find_item, items_under,
}
use rusty_castle.Castle.Control.{
  ControlError, browse_object, browse_result, browse_root, children_didl, children_objects,
  container_didl, empty_didl, item_didl, no_such_object, object_for_container, object_for_item,
  resource_for_item, root_didl, root_object,
}
use rusty_castle.Castle.Control.Listing.{
  Browsed, children-Browsed, container_id, container_itself, item_id, item_itself, no_children,
  root_itself,
}

-- The texts that reach DIDL-Lite without escapes.
abbrev pub IsCleanContainer : MediaContainer → Type 0
IsCleanContainer c = IsValue c.id × IsValue c.parent_id

abbrev pub IsCleanItem : MediaItem → Type 0
IsCleanItem i =
    IsValue i.id × IsValue i.parent_id × IsCleanDuration i.duration × IsCleanInfo i.protocol_info

pub record IsCleanCatalog (catalog : StaticCatalog) : Type 0 where
  pub containers : All IsCleanContainer catalog.containers
  pub items : All IsCleanItem catalog.items

-- The text lists these objects, which are counted modulo 2 ^ 32.
pub record Lists (catalog : StaticCatalog) (objects : List ObjectRef) (didl : Str) (n t : ℕ)
    : Type 0 where
  pub listed : didl ≡ write_didl [] objects
  pub nested : IsNested didl
  pub returned : n ≡ length objects % 2 ^ 32
  pub total : t ≡ n

-- What Browse answers for an object: its objects, or that there is none with this id.
abbrev pub Answers : StaticCatalog → Str → BrowseFlag → Result ControlError (Str × ℕ × ℕ) → Type 0
Answers catalog id flag (err e) =
    (e ≡ no_such_object)
    × (str_eq id (codes "0") ≡ false)
    × (find_container id catalog.containers ≡ none)
    × (find_item id catalog.items ≡ none)
Answers catalog id flag (ok (didl, n, t)) =
    (objects : List ObjectRef) × Browsed catalog id flag objects × Lists catalog objects didl n t

lists :
    (catalog : StaticCatalog) (objects : List ObjectRef) (n t : ℕ)
    → All IsCleanObject objects
    → n ≡ length objects % 2 ^ 32
    → t ≡ n
    → Lists catalog objects (write_didl [] objects) n t
lists catalog objects n t c e f = record {
  listed = refl;
  nested = write_didl-IsNested objects c;
  returned = e;
  total = f;
}

containers_under-Clean :
    (parent_id : Str) (cs : List MediaContainer)
    → All IsCleanContainer cs
    → All IsCleanContainer (containers_under parent_id cs)
unfolding containers_under
containers_under-Clean parent_id [] h = tt
containers_under-Clean parent_id (c ∷ cs) (h, hs) =
    elim (Bool-cases (str_eq c.parent_id parent_id)) [
      | inl e ↦ rw e (h, containers_under-Clean parent_id cs hs)
      | inr e ↦ rw e (containers_under-Clean parent_id cs hs)
    ]

items_under-Clean :
    (parent_id : Str) (is : List MediaItem)
    → All IsCleanItem is
    → All IsCleanItem (items_under parent_id is)
unfolding items_under
items_under-Clean parent_id [] h = tt
items_under-Clean parent_id (i ∷ is) (h, hs) = elim (Bool-cases (str_eq i.parent_id parent_id)) [
  | inl e ↦ rw e (h, items_under-Clean parent_id is hs)
  | inr e ↦ rw e (items_under-Clean parent_id is hs)
]

found_container :
    (id : Str) (cs : List MediaContainer) (c : MediaContainer)
    → All IsCleanContainer cs
    → find_container id cs ≡ some c
    → IsCleanContainer c
unfolding find_container
found_container id [] c h e = cc
found_container id (d ∷ cs) c (h, hs) e = elim (Bool-cases (str_eq d.id id)) [
  | inl b ↦ let same : d ≡ c = ground (arith, b, e) in subst IsCleanContainer same h
  | inr b ↦ found_container id cs c hs (ground (arith, b, e))
]

found_item :
    (id : Str) (is : List MediaItem) (i : MediaItem)
    → All IsCleanItem is
    → find_item id is ≡ some i
    → IsCleanItem i
unfolding find_item
found_item id [] i h e = cc
found_item id (j ∷ is) i (h, hs) e = elim (Bool-cases (str_eq j.id id)) [
  | inl b ↦ let same : j ≡ i = ground (arith, b, e) in subst IsCleanItem same h
  | inr b ↦ found_item id is i hs (ground (arith, b, e))
]

container_object :
    (catalog : StaticCatalog) (c : MediaContainer)
    → IsCleanContainer c
    → IsCleanObject (object_for_container catalog c)
unfolding object_for_container class_str
container_object catalog c (i, p) = record {
  id = i;
  parent_id = p;
  class = IsText-literal (codes "object.container") refl;
  resources = tt;
}

item_object :
    (i : MediaItem) → IsCleanItem i → IsCleanObject (object_for_item i (resource_for_item i ∷ []))
unfolding object_for_item resource_for_item class_str
item_object i (d, p, u, f) = record {
  id = d;
  parent_id = p;
  class = IsText-literal (codes "object.item.videoItem") refl;
  resources = (record { info = f; duration = u }, tt);
}

root_object-Clean : (catalog : StaticCatalog) → IsCleanObject (root_object catalog)
unfolding root_object class_str
root_object-Clean catalog = record {
  id = IsValue-literal (codes "0") refl;
  parent_id = IsValue-literal (codes "-1") refl;
  class = IsText-literal (codes "object.container") refl;
  resources = tt;
}

All-objects :
    {A : Type 0} {P : A → Type 0} (f : A → ObjectRef) (xs : List A)
    → ((x : A) → P x → IsCleanObject (f x))
    → All P xs
    → All IsCleanObject (map f xs)
All-objects f [] g h = tt
All-objects f (x ∷ xs) g (h, hs) = (g x h, All-objects f xs g hs)

length-map : {A B : Type 0} (f : A → B) (xs : List A) → length (map f xs) ≡ length xs
length-map f [] = refl
length-map f (x ∷ xs) = ap suc (length-map f xs)

children-Clean :
    (catalog : StaticCatalog) (id : Str)
    → IsCleanCatalog catalog
    → All IsCleanObject (children_objects catalog id)
unfolding children_objects child_containers child_items
children-Clean catalog id c =
    All-append IsCleanObject (map (object_for_container catalog) (child_containers catalog id)) _
      (All-objects (object_for_container catalog) (child_containers catalog id)
        (container_object catalog) (containers_under-Clean id catalog.containers c.containers))
      (All-objects (λ i. object_for_item i (resource_for_item i ∷ [])) (child_items catalog id)
        item_object (items_under-Clean id catalog.items c.items))

length-children :
    (catalog : StaticCatalog) (id : Str)
    → child_count catalog id ≡ length (children_objects catalog id) % 2 ^ 32
unfolding child_count children_objects
length-children catalog id =
    ap (λ n. n % 2 ^ 32)
      (omega (
        arith,
        length-append (map (object_for_container catalog) (child_containers catalog id))
            (map (λ i. object_for_item i (resource_for_item i ∷ [])) (child_items catalog id)),
        length-map (object_for_container catalog) (child_containers catalog id),
        length-map (λ i. object_for_item i (resource_for_item i ∷ [])) (child_items catalog id),
      ))

children_lem :
    (catalog : StaticCatalog) (id : Str)
    → IsCleanCatalog catalog
    → Lists catalog
        (children_objects catalog id)
        (children_didl catalog id)
        (child_count catalog id)
        (child_count catalog id)
unfolding children_didl
children_lem catalog id c =
    lists catalog (children_objects catalog id) _ _ (children-Clean catalog id c)
      (length-children catalog id) refl

browse_object_lem :
    (catalog : StaticCatalog) (id : Str) (flag : BrowseFlag)
    → IsCleanCatalog catalog
    → str_eq id (codes "0") ≡ false
    → Answers catalog id flag (browse_object catalog id flag)
unfolding browse_object container_didl item_didl empty_didl
browse_object_lem catalog id metadata c z =
    elim (Option-cases (find_container id catalog.containers)) [
      | inr (f, e) ↦
          rw (e, browse_object)
            (
              object_for_container catalog f ∷ [],
              container_itself f e (container_id id catalog.containers f e),
              lists catalog _ 1 1
                  (
                    container_object catalog f
                        (found_container id catalog.containers f c.containers e),
                    tt,
                  )
                  refl refl,
            )
      | inl e ↦ elim (Option-cases (find_item id catalog.items)) [
        | inr (i, e') ↦
            rw (e, browse_object)
              (rw e' (
                object_for_item i (resource_for_item i ∷ []) ∷ [],
                item_itself i e e' (item_id id catalog.items i e'),
                lists catalog _ 1 1 (item_object i (found_item id catalog.items i c.items e'), tt)
                    refl refl,
              ))
        | inl e' ↦ rw (e, browse_object) (rw e' (refl, z, e, e'))
      ]
    ]
browse_object_lem catalog id direct_children c z =
    elim (Option-cases (find_container id catalog.containers)) [
      | inr (f, e) ↦
          rw (e, browse_object)
            (
              children_objects catalog id,
              children-Browsed catalog id (inr (f, e)),
              children_lem catalog id c,
            )
      | inl e ↦ elim (Option-cases (find_item id catalog.items)) [
        | inr (i, e') ↦
            rw (e, browse_object)
              (rw e' ([], no_children i e e', lists catalog [] 0 0 tt refl refl))
        | inl e' ↦ rw (e, browse_object) (rw e' (refl, z, e, e'))
      ]
    ]

-- In a catalog whose ids, durations and protocolInfos can be written without escapes, Browse fails
-- exactly as NoSuchObject, and only for an id that is neither the root's nor a container's nor an
-- item's. Otherwise it returns the nested text of the objects asked for, with their number, modulo
-- 2 ^ 32, as NumberReturned and TotalMatches: of the object with this id for its metadata, and for
-- the children of the root or of a container of those that name it as their parent, the containers
-- and then the items, each in the order of the catalog; an item has none.
pub browse_result_lem :
    (catalog : StaticCatalog) (id : Str) (flag : BrowseFlag)
    → IsCleanCatalog catalog
    → Answers catalog id flag (browse_result catalog id flag)
unfolding browse_result browse_root root_didl
browse_result_lem catalog id flag c = elim (Bool-cases (str_eq id (codes "0"))) [
  | inr z ↦ rw z (browse_object_lem catalog id flag c z)
  | inl z ↦ rw z (root_lem flag (str_eq_sound id (codes "0") z))
]
  where
    root_lem :
        (flag : BrowseFlag)
        → id ≡ codes "0"
        → Answers catalog id flag (ok (browse_root catalog flag))
    root_lem metadata e = (
      root_object catalog ∷ [],
      root_itself e,
      lists catalog (root_object catalog ∷ []) 1 1 (root_object-Clean catalog, tt) refl refl,
    )
    root_lem direct_children e = (
      children_objects catalog (codes "0"),
      subst (λ x. Browsed catalog x direct_children (children_objects catalog (codes "0"))) (sym e)
          (children-Browsed catalog (codes "0") (inl refl)),
      children_lem catalog (codes "0") c,
    )
