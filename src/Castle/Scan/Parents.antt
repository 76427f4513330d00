-- ===== src/Castle/Scan/Parents.antt =====
-- crates/rusty-castle/src/runtime.rs: the parents of what a scan finds.
use rusty_castle.Prelude.{
  ℕ, ◌≡◌, refl, subst, ◌⊎◌, inl, inr, Option, none, some, List, [], ◌∷◌, ◌++◌, arith, Bool-cases,
  Option-cases, Result, ok, err, Result-cases, All, All-append,
}
use rusty_castle.Str.{Str, codes, str_eq}
use rusty_castle.Str.Search.{str_eq_refl}
use rusty_castle.Castle.Catalog.{MediaContainer, MediaItem, find_container}
use rusty_castle.Castle.Mp4.{IoError}
use rusty_castle.Castle.Scan.{
  Entries, Entry, FileEntry, Listing, ScannedMediaTree, Scanned, and_entry, no_entries, directory,
  file, special, readable, unreadable, media_kind, push_container, push_media, scan_entries,
  scan_entry, scan_file, scan_media_dir_into, scan_media_tree, sort_listing, stable_container_id,
  file_item, and_then, after_duration,
}

-- An object that can be browsed: the root, or a container that is found.
abbrev pub Known : List MediaContainer → Str → Type 0
Known cs id = (id ≡ codes "0") ⊎ ((c : MediaContainer) × (find_container id cs ≡ some c))

-- The parent of every container and of every item can be browsed.
pub record IsRooted (tree : ScannedMediaTree) : Type 0 where
  pub containers : All (λ c. Known tree.containers c.parent_id) tree.containers
  pub media : All (λ m. Known tree.containers m.item.parent_id) tree.media

Grows : ScannedMediaTree → ScannedMediaTree → Type 0
Grows t t' = (id : Str) → Known t.containers id → Known t'.containers id

find_container-append :
    (id : Str) (cs more : List MediaContainer) (c : MediaContainer)
    → find_container id cs ≡ some c
    → find_container id (cs ++ more) ≡ some c
unfolding find_container
find_container-append id [] more c h = cc
find_container-append id (d ∷ cs) more c h = elim (Bool-cases (str_eq d.id id)) [
  | inl e ↦ rw (e, find_container) (ground (arith, e, h))
  | inr e ↦ rw (e, find_container) (find_container-append id cs more c (ground (arith, e, h)))
]

find_container_last :
    (cs : List MediaContainer) (c : MediaContainer)
    → (c' : MediaContainer) × (find_container c.id (cs ++ c ∷ []) ≡ some c')
unfolding find_container
find_container_last [] c = rw (str_eq_refl c.id) (c, refl)
find_container_last (d ∷ cs) c = elim (Bool-cases (str_eq d.id c.id)) [
  | inl e ↦ rw (e, find_container) (d, refl)
  | inr e ↦ rw (e, find_container) (find_container_last cs c)
]

Known-append : (cs more : List MediaContainer) (id : Str) → Known cs id → Known (cs ++ more) id
Known-append cs more id (inl e) = inl e
Known-append cs more id (inr (c, h)) = inr (c, find_container-append id cs more c h)

All-Known :
    {A : Type 0} (f : A → Str) (cs more : List MediaContainer) (xs : List A)
    → All (λ x. Known cs (f x)) xs
    → All (λ x. Known (cs ++ more) (f x)) xs
All-Known f cs more [] h = tt
All-Known f cs more (x ∷ xs) (h, hs) = (Known-append cs more (f x) h, All-Known f cs more xs hs)

push_container-IsRooted :
    (id parent_id title : Str) (tree : ScannedMediaTree)
    → IsRooted tree
    → Known tree.containers parent_id
    → IsRooted (push_container id parent_id title tree)
      × Grows tree (push_container id parent_id title tree)
      × Known (push_container id parent_id title tree).containers id
unfolding push_container Grows
push_container-IsRooted id parent_id title tree r k =
    let c : MediaContainer = record { id = id; parent_id = parent_id; title = title } in
    (
      record {
        containers =
            All-append _ tree.containers (c ∷ [])
              (All-Known (λ c. c.parent_id) tree.containers (c ∷ []) tree.containers r.containers)
              (Known-append tree.containers (c ∷ []) parent_id k, tt);
        media = All-Known (λ m. m.item.parent_id) tree.containers (c ∷ []) tree.media r.media;
      },
      Known-append tree.containers (c ∷ []),
      inr (find_container_last tree.containers c),
    )

-- A scan that starts with a rooted tree ends with one.
Keeps : ScannedMediaTree → Scanned → Type 0
Keeps tree s = (tree' : ScannedMediaTree) → s ≡ some (ok tree') → IsRooted tree' × Grows tree tree'

push_media-IsRooted :
    (item : MediaItem) (parent_id : Str) (len : ℕ) (path : List Str) (tree : ScannedMediaTree)
    (d : Option Str)
    → IsRooted tree
    → Known tree.containers parent_id
    → IsRooted (push_media item parent_id len path tree d)
unfolding push_media
push_media-IsRooted item parent_id len path tree d r k = record {
  containers = r.containers;
  media = All-append _ tree.media _ r.media (k, tt);
}

same : (t t' : ScannedMediaTree) → ◌≡◌ {A = Scanned} (some (ok t)) (some (ok t')) → t ≡ t'
same t t' h = ground (arith, h)

Keeps-failed : (tree : ScannedMediaTree) (e : IoError) → Keeps tree (some (err e))
unfolding Keeps
Keeps-failed tree e tree' h = cc

Keeps-done : (tree : ScannedMediaTree) → IsRooted tree → Keeps tree (some (ok tree))
unfolding Keeps Grows
Keeps-done tree r tree' h =
    subst (λ t. IsRooted t × Grows tree t) (same tree tree' h) (r, λ id k. k)

Keeps-after :
    (tree : ScannedMediaTree) (d : Option (Result IoError (Option Str)))
    (k : Option Str → ScannedMediaTree)
    → ((x : Option Str) → Keeps tree (some (ok (k x))))
    → Keeps tree (after_duration d k)
unfolding Keeps
Keeps-after tree none k h tree' e = cc
Keeps-after tree (some (err x)) k h tree' e = cc
Keeps-after tree (some (ok x)) k h tree' e = h x tree' e

Keeps-push :
    (item : MediaItem) (parent_id : Str) (len : ℕ) (path : List Str) (tree : ScannedMediaTree)
    (d : Option Str)
    → IsRooted tree
    → Known tree.containers parent_id
    → Keeps tree (some (ok (push_media item parent_id len path tree d)))
unfolding Keeps Grows push_media
Keeps-push item parent_id len path tree d r k tree' h =
    subst (λ t. IsRooted t × Grows tree t) (same _ tree' h)
      (push_media-IsRooted item parent_id len path tree d r k, λ id i. i)

scan_file-Keeps :
    (dir : List Str) (parent_id base : Str) (f : FileEntry) (tree : ScannedMediaTree)
    → IsRooted tree
    → Known tree.containers parent_id
    → Keeps tree (scan_file dir parent_id base f tree)
unfolding scan_file
scan_file-Keeps dir parent_id base f tree r k = elim (Option-cases (media_kind f.name)) [
  | inl e ↦ rw (e, scan_file) (Keeps-done tree r)
  | inr (kind, e) ↦
      rw (e, scan_file)
        (elim (Result-cases f.metadata_len) [
          | inr (x, e') ↦ rw e' (Keeps-failed tree x)
          | inl (len, e') ↦ rw e' (
              Keeps-after tree _ _ (λ d.
                Keeps-push (file_item kind (dir ++ f.name ∷ []) parent_id base f.name) parent_id len
                  _ tree d r k))
        ])
]

Keeps-then :
    (tree : ScannedMediaTree) (s : Scanned) (k : ScannedMediaTree → Scanned)
    → Keeps tree s
    → ((t : ScannedMediaTree) → IsRooted t → Grows tree t → Keeps t (k t))
    → Keeps tree (and_then s k)
unfolding Keeps Grows
Keeps-then tree none k h f tree' e = cc
Keeps-then tree (some (err x)) k h f tree' e = cc
Keeps-then tree (some (ok t)) k h f tree' e =
    let (r, g) = h t refl in let (r', g') = f t r g tree' e in (r', λ id i. g' id (g id i))

mutual
  unfolding scan_media_dir_into Keeps Grows

  scan_dir-Keeps :
      (below : Listing) (dir : List Str) (parent_id base : Str) (tree : ScannedMediaTree)
      → IsRooted tree
      → Known tree.containers parent_id
      → Keeps tree (scan_media_dir_into dir parent_id base below tree)
  scan_dir-Keeps (unreadable e) dir parent_id base tree r k = Keeps-failed tree e
  scan_dir-Keeps (readable entries) dir parent_id base tree r k =
      scan_entries-Keeps entries dir parent_id base tree r k

  scan_entries-Keeps :
      (entries : Entries) (dir : List Str) (parent_id base : Str) (tree : ScannedMediaTree)
      → IsRooted tree
      → Known tree.containers parent_id
      → Keeps tree (scan_entries dir parent_id base entries tree)
  scan_entries-Keeps no_entries dir parent_id base tree r k = Keeps-done tree r
  scan_entries-Keeps (and_entry e entries) dir parent_id base tree r k =
      Keeps-then tree (scan_entry dir parent_id base e tree)
        (scan_entries dir parent_id base entries) (scan_entry-Keeps e dir parent_id base tree r k)
        (λ t rt g. scan_entries-Keeps entries dir parent_id base t rt (g parent_id k))

  scan_entry-Keeps :
      (e : Entry) (dir : List Str) (parent_id base : Str) (tree : ScannedMediaTree)
      → IsRooted tree
      → Known tree.containers parent_id
      → Keeps tree (scan_entry dir parent_id base e tree)
  scan_entry-Keeps (directory name below) dir parent_id base tree r k = λ tree' h.
      let path : List Str = dir ++ name ∷ [] in
      let (r1, g1, k1) =
        push_container-IsRooted (stable_container_id path) parent_id name tree r k in
      let (r2, g2) = scan_dir-Keeps below path (stable_container_id path) base _ r1 k1 tree' h in
      (r2, λ id i. g2 id (g1 id i))
  scan_entry-Keeps (file f) dir parent_id base tree r k =
      scan_file-Keeps dir parent_id base f tree r k
  scan_entry-Keeps (special name) dir parent_id base tree r k = Keeps-done tree r

-- In what a scan finds, the parent of every container and of every item is the root, or a container
-- that the catalog finds by its id.
pub scan_media_tree-IsRooted :
    (base : Str) (media_dir : Listing) (tree : ScannedMediaTree)
    → scan_media_tree base media_dir ≡ some (ok tree)
    → IsRooted tree
unfolding scan_media_tree Keeps
scan_media_tree-IsRooted base media_dir tree h =
    (scan_dir-Keeps (sort_listing media_dir) [] (codes "0") base
      (record { containers = []; media = [] }) (record { containers = tt; media = tt }) (inl refl)
      tree h).0
