-- ===== src/Ssdp/Cache/Tests.antt =====
-- A cache with two services.
use rusty_castle.Prelude.{◌≡◌, refl, ◌⊎◌, true, false, some, [], ◌∷◌, arith}
use rusty_castle.Str.{Str, codes, str_eq, len, as_bytes}
use rusty_castle.Ssdp.Time.{Instant, add, checked_add}
use rusty_castle.Ssdp.Heapless.Lists.{list_heapless}
use rusty_castle.Ssdp.IndexMap.{IsMap, find}
use rusty_castle.Ssdp.IndexMap.Lists.{list_map}
use rusty_castle.Ssdp.Cache.{Cache, CacheEntry, insert, expire}
use rusty_castle.Ssdp.Cache.Expire.{expired_keys, fresh, expire_lem, insert_lem}

abbrev entry : Str → Instant → CacheEntry
entry usn at = record { location = codes "http://h/"; usn = usn; expires_at = at }

abbrev two_services : Cache
two_services =
    (codes "uuid:a", entry (codes "uuid:a") 5) ∷ (codes "uuid:b", entry (codes "uuid:b") 9) ∷ []

two_services-IsMap : IsMap two_services
unfolding find str_eq
two_services-IsMap = (refl, (refl, tt))

expire_example :
    (find (codes "uuid:b") (expire list_heapless list_map 7 two_services).0
      ≡ fresh 7 (find (codes "uuid:b") two_services))
    × ((expire list_heapless list_map 7 two_services).1 ≡ expired_keys 7 two_services)
    × IsMap (expire list_heapless list_map 7 two_services).0
expire_example =
    expire_lem list_heapless list_map 7 (codes "uuid:b") two_services two_services-IsMap
      (omega arith)

-- The cache with a third service in front.
abbrev three_services : Cache
three_services = (codes "uuid:c", entry (codes "uuid:c") 11) ∷ two_services

insert_third :
    insert list_heapless list_map (codes "uuid:c") (codes "http://h/") 4 7 two_services
    ≡ some (true, three_services)
unfolding insert find str_eq len as_bytes add checked_add list_heapless
insert_third = refl

insert_example :
    ((true ≡ false) × (three_services ≡ two_services))
    ⊎ ((true ≡ true)
        × IsMap three_services
        × (find (codes "uuid:c") three_services ≡ some (entry (codes "uuid:c") 11))
        × ((j : Str)
            → str_eq (codes "uuid:c") j ≡ false
            → find j three_services ≡ find j two_services))
insert_example =
    insert_lem list_heapless list_map (codes "uuid:c") (codes "http://h/") 4 7 two_services
      three_services true insert_third two_services-IsMap
