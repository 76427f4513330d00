-- ===== src/Ssdp/ControlPoint/Tests.antt =====
-- A control point whose expiry timer fires.
use rusty_castle.Prelude.{◌<◌, ◌≡◌, refl, ◌⊎◌, none, some, [], ◌∷◌, arith, replicate}
use rusty_castle.Str.{Str, codes, str_eq}
use rusty_castle.Ssdp.Time.{Instant}
use rusty_castle.Ssdp.Timer.{cache_expiry}
use rusty_castle.Ssdp.Timer.View.{fire_of}
use rusty_castle.Ssdp.Heapless.Lists.{list_heapless}
use rusty_castle.Ssdp.IndexMap.{IsMap, find}
use rusty_castle.Ssdp.IndexMap.Lists.{list_map}
use rusty_castle.Ssdp.Cache.{CacheEntry}
use rusty_castle.Ssdp.Cache.Expire.{fresh}
use rusty_castle.Ssdp.ControlPoint.{ControlPoint}
use rusty_castle.Ssdp.ControlPoint.Run.{on_cache_expiry}
use rusty_castle.Ssdp.ControlPoint.Timeout.{IsEarliest, on_cache_expiry_lem}

abbrev service : Str → Instant → Str × CacheEntry
service usn at = (usn, record { location = codes "http://h/"; usn = usn; expires_at = at })

abbrev finder : ControlPoint
finder = record {
  cache = service (codes "uuid:a") 5 ∷ service (codes "uuid:b") 9 ∷ [];
  timers = none ∷ none ∷ none ∷ none ∷ [];
  pending_transmits = [];
  scratch_buf = replicate 512 0;
  events = [];
  retransmit_count = 0;
  active_mx = 3;
  user_agent = none;
}

finder-IsMap : IsMap finder.cache
unfolding find str_eq
finder-IsMap = (refl, (refl, tt))

on_cache_expiry_example :
    ((k : Str)
      → find k (on_cache_expiry list_heapless list_map 7 finder).cache
        ≡ fresh 7 (find k finder.cache))
    × (((on_cache_expiry list_heapless list_map 7 finder).cache ≡ [])
        ⊎ ((t : Instant) × IsEarliest (on_cache_expiry list_heapless list_map 7 finder).cache t
            × (7 < t)
            × (fire_of cache_expiry (on_cache_expiry list_heapless list_map 7 finder).timers
                ≡ some t)))
on_cache_expiry_example =
    on_cache_expiry_lem list_heapless list_map 7 finder finder-IsMap (omega arith) (omega arith)
