-- ===== src/Castle/State/Rescan.antt =====
-- crates/rusty-castle/src/runtime.rs: what a rescan of the library does to the state.
use rusty_castle.Prelude.{
  ℕ, ◌≡◌, refl, sym, subst, ◌∙◌, ◌≢◌, inl, inr, none, some, Option-cases, Result, ok, err, length,
}
use rusty_castle.Castle.Catalog.UpdateId.{IsNumbered, from_parts-IsNumbered}
use mathlib.Core.Option.{some-injective}
use rusty_castle.Castle.Catalog.{from_parts}
use rusty_castle.Castle.Mp4.{IoError}
use rusty_castle.Castle.Scan.{Listing, ScannedMediaTree, scan_media_tree}
use rusty_castle.Castle.Scan.Parents.{IsRooted, scan_media_tree-IsRooted}
use rusty_castle.Castle.State.{
  RuntimeState, SharedRuntimeState, SystemTime, rescan_library, scan, scanned_state, finish_rescan,
  replace_library, record_scan_error, items_of, status_after,
}

-- What the threads rely on: the catalog lists the media, and its update id is a `u32` other than
-- zero.
pub record IsCoherent (state : RuntimeState) : Type 0 where
  pub listed : state.catalog.items ≡ items_of state.media
  pub numbered : IsNumbered state.catalog

-- The library behind a rescan: the one before, with the error in the status, or one that lists what
-- the scan found.
pub data IsRescanned (media_dir : Listing) (state : SharedRuntimeState)
    (p : Result IoError (Unit {0}) × SharedRuntimeState) : Type 0 where
  failed :
      (e : IoError)
      → scan_media_tree state.config.public_base_url media_dir ≡ some (err e)
      → p.0 ≡ err e
      → p.1.current ≡ state.current
      → p.1.scan_status.error ≡ some e
      → IsRescanned media_dir state p
  replaced :
      (tree : ScannedMediaTree)
      → scan_media_tree state.config.public_base_url media_dir ≡ some (ok tree)
      → IsRooted tree
      → p.0 ≡ ok tt
      → p.1.current.media ≡ tree.media
      → p.1.current.catalog.containers ≡ tree.containers
      → p.1.scan_status.error ≡ none
      → IsRescanned media_dir state p

Holds : Listing → SharedRuntimeState → Result IoError (Unit {0}) × SharedRuntimeState → Type 0
Holds media_dir state p =
    IsCoherent p.1.current
    × (p.1.scan_status.item_count ≡ length p.1.current.catalog.items)
    × (p.1.current.scenario_recorder ≡ state.current.scenario_recorder)
    × IsRescanned media_dir state p

never :
    (media_dir : Listing) (now : SystemTime) (duration : ℕ) (state : SharedRuntimeState)
    (outcome : Result IoError (Unit {0})) (state' : SharedRuntimeState)
    → scan_media_tree state.config.public_base_url media_dir ≡ none
    → rescan_library media_dir now duration state ≢ some (outcome, state')
unfolding rescan_library scan
never media_dir now duration state outcome state' e = λ h.
    let n : rescan_library media_dir now duration state ≡ none = rw (e, rescan_library) refl in cc

scan-cases :
    (media_dir : Listing) (now : SystemTime) (duration : ℕ) (state : SharedRuntimeState)
    (r : Result IoError ScannedMediaTree)
    → IsCoherent state.current
    → scan_media_tree state.config.public_base_url media_dir ≡ some r
    → (p : Result IoError (Unit {0}) × SharedRuntimeState) × (rescan_library media_dir now duration
          state
        ≡ some p)
      × Holds media_dir state p
unfolding rescan_library scan Holds record_scan_error replace_library status_after scanned_state
    from_parts
scan-cases media_dir now duration state (err e) c h = (
  finish_rescan now duration state (err e),
  rw (h, rescan_library) refl,
  (c, refl, refl, failed e h refl refl refl),
)
scan-cases media_dir now duration state (ok tree) c h = (
  finish_rescan now duration state (ok (scanned_state state.config tree)),
  rw (h, rescan_library) refl,
  (
    record { listed = refl; numbered = numbered_again tree },
    refl,
    refl,
    replaced tree h (scan_media_tree-IsRooted state.config.public_base_url media_dir tree h) refl
        refl refl refl,
  ),
)
  where
    numbered_again :
        (tree : ScannedMediaTree) → IsNumbered (from_parts tree.containers (items_of tree.media))
    numbered_again tree = from_parts-IsNumbered tree.containers (items_of tree.media)

pub rescan_library-ok :
    (media_dir : Listing) (now : SystemTime) (duration : ℕ) (state : SharedRuntimeState)
    (tree : ScannedMediaTree)
    → scan_media_tree state.config.public_base_url media_dir ≡ some (ok tree)
    → rescan_library media_dir now duration state
      ≡ some (finish_rescan now duration state (ok (scanned_state state.config tree)))
unfolding rescan_library scan
rescan_library-ok media_dir now duration state tree h = rw (h, rescan_library) refl

-- A rescan of a coherent library leaves a coherent one with the recorder of the one before, and
-- counts its items in the status. If the scan fails, the library is the one before, and the error is
-- in the status; if not, the library lists what the scan found, where every parent is the root or a
-- container that is found, and the status has no error.
pub rescan_library_lem :
    (media_dir : Listing) (now : SystemTime) (duration : ℕ) (state state' : SharedRuntimeState)
    (outcome : Result IoError (Unit {0}))
    → IsCoherent state.current
    → rescan_library media_dir now duration state ≡ some (outcome, state')
    → IsCoherent state'.current
      × (state'.scan_status.item_count ≡ length state'.current.catalog.items)
      × (state'.current.scenario_recorder ≡ state.current.scenario_recorder)
      × IsRescanned media_dir state (outcome, state')
unfolding rescan_library scan Holds
rescan_library_lem media_dir now duration state state' outcome c h =
    elim (Option-cases (scan_media_tree state.config.public_base_url media_dir)) [
      | inl e ↦ absurd (never media_dir now duration state outcome state' e h)
      | inr (r, e) ↦
          let (p, q, w) = scan-cases media_dir now duration state r c e in
          subst (Holds media_dir state) (some-injective p (outcome, state') (sym q ∙ h)) w
    ]
