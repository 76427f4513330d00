-- ===== src/Ssdp/Cache.antt =====
-- crates/ssdp-core/src/state/cache.rs: the cache of discovered services, with the capacities that
-- the control point gives it.
pub mod Expire
pub mod Tests
use rusty_castle.Prelude.{
  ℕ, min, Bool, true, false, Option, none, some, List, [], ◌∷◌, leb, if◌then◌else◌, ◌>>=?◌,
}
use rusty_castle.Str.{Str}
use rusty_castle.Ssdp.Time.{Duration, Instant, add}
use rusty_castle.Ssdp.Heapless.{Heapless}
use rusty_castle.Ssdp.IndexMap.{IndexMap, Entries, find}

pub record CacheEntry : Type 0 where
  pub location : Str
  pub usn : Str
  pub expires_at : Instant

abbrev pub cache_cap : ℕ
cache_cap = 64

abbrev pub cache_loc : ℕ
cache_loc = 256

abbrev pub cache_usn : ℕ
cache_usn = 128

-- `ServiceCache`
abbrev pub Cache : Type 0
Cache = Entries CacheEntry

-- `next_expiry`
unfoldable pub next_expiry : Cache → Option Instant
next_expiry [] = none
next_expiry ((k, e) ∷ es) = elim (next_expiry es) [
  | none ↦ some e.expires_at
  | some t ↦ some (min e.expires_at t)
]

module _ (hl : Heapless) (im : IndexMap) where
  open hl use {try_from}

  -- `none` outside is the panic of `now + max_age`.
  unfoldable pub insert : Str → Str → Duration → Instant → Cache → Option (Bool × Cache)
  insert usn_str location_str max_age now cache = elim (try_from cache_usn usn_str) [
    | none ↦ some (false, cache)
    | some usn ↦ elim (try_from cache_loc location_str) [
      | none ↦ some (false, cache)
      | some loc ↦
          (add now max_age >>=? λ expires_at.
          elim (im.insert cache_cap usn
            (record { location = loc; usn = usn; expires_at = expires_at }) cache) [
              | none ↦ some (false, cache)
              | some cache' ↦ some (true, cache')
            ])
    ]
  ]

  unfoldable pub remove : Str → Cache → Bool × Cache
  remove usn_str cache = elim (try_from cache_usn usn_str) [
    | none ↦ (false, cache)
    | some key ↦ elim (find key cache) [
      | none ↦ (false, im.remove key cache)
      | some e ↦ (true, im.remove key cache)
    ]
  ]

  unfoldable pub get : Str → Cache → Option CacheEntry
  get usn_str cache = try_from cache_usn usn_str >>=? λ k. find k cache

  -- The first loop of `expire`: `let _ = to_remove.push(k)` for the keys that are expired.
  unfoldable pub collect_expired : Instant → List Str → Cache → List Str
  collect_expired now to_remove [] = to_remove
  collect_expired now to_remove ((k, e) ∷ es) =
      let pushed : List Str = elim (hl.push cache_cap to_remove k) [
        | none ↦ to_remove
        | some ks ↦ ks
      ] in
      collect_expired now (if leb e.expires_at now then pushed else to_remove) es

  -- The second loop of `expire`.
  unfoldable pub remove_keys : List Str → Cache → Cache
  remove_keys [] cache = cache
  remove_keys (k ∷ ks) cache = remove_keys ks (im.remove k cache)

  -- `expire`: what is left, and the keys that `on_expired` is called with.
  unfoldable pub expire : Instant → Cache → Cache × List Str
  expire now cache =
      let to_remove = collect_expired now [] cache in (remove_keys to_remove cache, to_remove)
