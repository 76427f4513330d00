-- ===== src/Ssdp/Cache/Expire.antt =====
-- What the cache finds after an insertion, a removal and an expiry.
use rusty_castle.Prelude.{
  ℕ, ◌+◌, ◌≤◌, ◌≡◌, refl, sym, ap, subst, ◌∙◌, ◌⊎◌, inl, inr, Bool, true, false, ◌||◌, Option, none,
  some, List, [], ◌∷◌, ◌++◌, append_assoc, append-nil, arith, leb, if◌then◌else◌, Bool-cases,
  Option-cases, length, length-append,
}
use rusty_castle.Str.{Str, str_eq}
use rusty_castle.Str.Search.{str_eq_refl, str_eq_sound}
use rusty_castle.Ssdp.Time.{Duration, Instant, add, add-eq-some}
use rusty_castle.Ssdp.Heapless.{Heapless}
use rusty_castle.Ssdp.IndexMap.{IndexMap, IsMap, find}
use rusty_castle.Ssdp.Cache.{
  Cache, CacheEntry, cache_cap, cache_usn, cache_loc, insert, collect_expired, remove_keys, expire,
}

-- The keys of the entries that are expired.
unfoldable pub expired_keys : Instant → Cache → List Str
expired_keys now [] = []
expired_keys now ((k, e) ∷ es) =
    let rest = expired_keys now es in if leb e.expires_at now then k ∷ rest else rest

unfoldable pub among : Str → List Str → Bool
among k [] = false
among k (j ∷ js) = str_eq j k || among k js

-- An entry that has not expired.
abbrev pub fresh : Instant → Option CacheEntry → Option CacheEntry
fresh now none = none
fresh now (some e) = if leb e.expires_at now then none else some e

find-none_expired :
    (now : Instant) (k : Str) (c : Cache) → find k c ≡ none → among k (expired_keys now c) ≡ false
unfolding find expired_keys among
find-none_expired now k [] h = refl
find-none_expired now k ((j, e) ∷ es) h = elim (Bool-cases (str_eq j k)) [
  | inl s ↦ absurd (ground (arith, s, h))
  | inr s ↦ elim (Bool-cases (leb e.expires_at now)) [
    | inl l ↦ ground (arith, s, l, find-none_expired now k es)
    | inr l ↦ ground (arith, s, l, find-none_expired now k es)
  ]
]

among-expired :
    (now : Instant) (k : Str) (c : Cache)
    → IsMap c
    → (if among k (expired_keys now c) then none else find k c) ≡ fresh now (find k c)
unfolding find expired_keys among
among-expired now k [] m = refl
among-expired now k ((j, e) ∷ es) (u, m) = elim (Bool-cases (str_eq j k)) [
  | inl s ↦ elim (Bool-cases (leb e.expires_at now)) [
    | inl l ↦ ground (arith, s, l)
    | inr l ↦ ground (
      arith,
      s,
      l,
      find-none_expired now k es (subst (λ x. find x es ≡ none) (str_eq_sound j k s) u),
    )
  ]
  | inr s ↦ elim (Bool-cases (leb e.expires_at now)) [
    | inl l ↦ ground (arith, s, l, among-expired now k es m)
    | inr l ↦ ground (arith, s, l, among-expired now k es m)
  ]
]

module _ (hl : Heapless) (im : IndexMap) where
  collect_expired_lem :
      (now : Instant) (acc : List Str) (c : Cache)
      → length acc + length c ≤ cache_cap
      → collect_expired hl im now acc c ≡ acc ++ expired_keys now c
  unfolding collect_expired expired_keys
  collect_expired_lem now acc [] h = sym (append-nil acc)
  collect_expired_lem now acc ((k, e) ∷ es) h = elim (Bool-cases (leb e.expires_at now)) [
    | inl l ↦
        let pushed : hl.push cache_cap acc k ≡ some (acc ++ k ∷ []) =
          hl.push_lem cache_cap acc k ∙ ground arith in
        rw (l, pushed, collect_expired)
          (collect_expired_lem now (acc ++ k ∷ []) es (omega (arith, length-append acc (k ∷ [])))
            ∙ append_assoc acc (k ∷ []) (expired_keys now es))
    | inr l ↦ rw (l, collect_expired) (collect_expired_lem now acc es (omega arith))
  ]

  remove_keys_lem :
      (ks : List Str) (k : Str) (c : Cache)
      → IsMap c
      → (find k (remove_keys hl im ks c) ≡ (if among k ks then none else find k c))
        × IsMap (remove_keys hl im ks c)
  unfolding remove_keys among
  remove_keys_lem [] k c m = (refl, m)
  remove_keys_lem (j ∷ js) k c m =
      let (a, b) = remove_keys_lem js k (im.remove j c) (im.remove-IsMap j c m) in
      (a ∙ ground (arith, im.remove-find j k c m), b)

  -- In a cache where no key has two entries and which is not beyond its capacity: after an expiry
  -- a key is found exactly if it was found before and its entry expires later, the callback is
  -- called with the keys of the expired entries in their order, and no key gets two entries.
  pub expire_lem :
      (now : Instant) (k : Str) (c : Cache)
      → IsMap c
      → length c ≤ cache_cap
      → (find k (expire hl im now c).0 ≡ fresh now (find k c))
        × ((expire hl im now c).1 ≡ expired_keys now c)
        × IsMap (expire hl im now c).0
  unfolding expire
  expire_lem now k c m fits =
      let e = collect_expired_lem now [] c (omega arith) in
      let (a, b) = remove_keys_lem (expired_keys now c) k c m in
      (rw e (a ∙ among-expired now k c m), e, rw e b)

  try_from_same : (cap : ℕ) (s t : Str) → hl.try_from cap s ≡ some t → t ≡ s
  try_from_same cap s t e = ground (arith, hl.try_from_lem cap s, e)

  -- In a cache where no key has two entries: an insertion that reports success makes its key find
  -- the location, to expire after `max_age`, leaves what other keys find, and gives no key two
  -- entries; one that reports failure changes nothing.
  pub insert_lem :
      (usn location : Str) (max_age : Duration) (now : Instant) (c c' : Cache) (b : Bool)
      → insert hl im usn location max_age now c ≡ some (b, c')
      → IsMap c
      → ((b ≡ false) × (c' ≡ c))
        ⊎ ((b ≡ true)
            × IsMap c'
            × (find usn c'
                ≡ some (record { location = location; usn = usn; expires_at = now + max_age }))
            × ((j : Str) → str_eq usn j ≡ false → find j c' ≡ find j c))
  unfolding insert
  insert_lem usn location max_age now c c' b e m = elim (Option-cases (hl.try_from cache_usn usn)) [
    | inl p ↦ inl (ground (arith, e, p))
    | inr (u, p) ↦ elim (Option-cases (hl.try_from cache_loc location)) [
      | inl q ↦ inl (ground (arith, e, p, q))
      | inr (l, q) ↦ elim (Option-cases (add now max_age)) [
        | inl r ↦ absurd (ground (arith, e, p, q, r))
        | inr (t, r) ↦
            let entry : CacheEntry = record { location = l; usn = u; expires_at = t } in
            elim (Option-cases (im.insert cache_cap u entry c)) [
              | inl i ↦ inl (ground (arith, e, p, q, r, i))
              | inr (c1, i) ↦
                  let same_c : c1 ≡ c' = ground (arith, e, p, q, r, i) in
                  let same_u = try_from_same cache_usn usn u p in
                  let same_l = try_from_same cache_loc location l q in
                  let same_t = add-eq-some now max_age r in
                  inr (
                    ground (arith, e, p, q, r, i),
                    subst IsMap same_c (im.insert-IsMap cache_cap u entry c c1 i m),
                    sym (ap (find usn) same_c)
                        ∙ im.insert-find cache_cap u usn entry c c1 i
                        ∙ rw (ap (λ x. str_eq x usn) same_u ∙ str_eq_refl usn) (λ k.
                          some (record {
                            location = same_l k;
                            usn = same_u k;
                            expires_at = same_t k;
                          })),
                    λ j n.
                        sym (ap (find j) same_c)
                        ∙ im.insert-find cache_cap u j entry c c1 i
                        ∙ rw (ap (λ x. str_eq x j) same_u ∙ n) refl,
                  )
            ]
      ]
    ]
  ]
