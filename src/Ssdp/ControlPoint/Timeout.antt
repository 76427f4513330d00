-- ===== src/Ssdp/ControlPoint/Timeout.antt =====
-- Expiry in the control point.
use rusty_castle.Prelude.{
  ◌≤◌, ◌<◌, ◌≡◌, refl, sym, ap, subst, ◌∙◌, ◌⊎◌, inl, inr, Option, none, some, List, [], ◌∷◌, arith,
  ltb, leb, lt→ltb, Bool-cases, Option-cases, length,
}
use rusty_castle.Str.{Str, str_eq}
use rusty_castle.Str.Search.{str_eq_refl, str_eq_sound}
use rusty_castle.Ssdp.Time.{Instant}
use rusty_castle.Ssdp.Timer.{cache_expiry}
use rusty_castle.Ssdp.Timer.View.{fire_of}
use rusty_castle.Ssdp.Timer.Set.{set-Sets, occupied}
use rusty_castle.Ssdp.Heapless.{Heapless}
use rusty_castle.Ssdp.IndexMap.{IndexMap, IsMap, find}
use rusty_castle.Ssdp.Cache.{Cache, CacheEntry, cache_cap, cache_usn, expire, next_expiry}
use rusty_castle.Ssdp.Cache.Expire.{fresh, expire_lem}
use rusty_castle.Ssdp.ControlPoint.{
  CpEvent, expired, ControlPoint, reschedule_cache_expiry, push_cp_event,
}
use rusty_castle.Ssdp.ControlPoint.Run.{push_expired, on_cache_expiry}

-- The earliest expiry is that of an entry that is found.
next_expiry-find :
    (es : Cache) (t : Instant)
    → IsMap es
    → next_expiry es ≡ some t
    → (k : Str) × (e : CacheEntry) × (find k es ≡ some e) × (e.expires_at ≡ t)
unfolding next_expiry find
next_expiry-find [] t m h = cc
next_expiry-find ((k, e) ∷ es) t (u, m) h = elim (Option-cases (next_expiry es)) [
  | inl n ↦ (k, e, rw (str_eq_refl k) refl, ground (arith, n, h))
  | inr (s, n) ↦ elim (Bool-cases (leb e.expires_at s)) [
    | inl l ↦ (k, e, rw (str_eq_refl k) refl, ground (arith, n, h, l))
    | inr l ↦
        let (j, f, g, q) = next_expiry-find es s m n in
        (
          j,
          f,
          elim (Bool-cases (str_eq k j)) [
            | inl b ↦
                absurd (ground (arith, subst (λ x. find x es ≡ none) (str_eq_sound k j b) u, g))
            | inr b ↦ rw b g
          ],
          ground (arith, n, h, l, q),
        )
  ]
]

next_expiry-nil : (es : Cache) → next_expiry es ≡ none → es ≡ []
unfolding next_expiry
next_expiry-nil [] h = refl
next_expiry-nil ((k, e) ∷ es) h = elim (Option-cases (next_expiry es)) [
  | inl n ↦ absurd (ground (arith, n, h))
  | inr (t, n) ↦ absurd (ground (arith, n, h))
]

-- No entry that is found expires earlier.
next_expiry-le :
    (es : Cache) (t : Instant)
    → next_expiry es ≡ some t
    → (k : Str) (e : CacheEntry) → find k es ≡ some e
    → t ≤ e.expires_at
unfolding next_expiry find
next_expiry-le [] t h k e f = cc
next_expiry-le ((j, d) ∷ es) t h k e f = elim (Option-cases (next_expiry es)) [
  | inl n ↦ elim (Bool-cases (str_eq j k)) [
    | inl b ↦ ground (arith, n, h, f, b)
    | inr b ↦ absurd (
        ground
          (arith, subst (λ x. find k x ≡ some e) (next_expiry-nil es n) (ground (arith, b, f))))
  ]
  | inr (s, n) ↦ elim (Bool-cases (str_eq j k)) [
    | inl b ↦ ground (arith, n, h, f, b)
    | inr b ↦ ground (arith, n, h, next_expiry-le es s n k e (ground (arith, b, f)))
  ]
]

-- The instant at which the entries of a cache begin to expire.
pub record IsEarliest (cache : Cache) (t : Instant) : Type 0 where
  pub attained : (k : Str) × (e : CacheEntry) × (find k cache ≡ some e) × (e.expires_at ≡ t)
  pub least : (k : Str) (e : CacheEntry) → find k cache ≡ some e → t ≤ e.expires_at

fresh-lt :
    (now : Instant) (o : Option CacheEntry) (e : CacheEntry)
    → fresh now o ≡ some e
    → now < e.expires_at
fresh-lt now none e h = cc
fresh-lt now (some f) e h = ground (arith, h)

module _ (hl : Heapless) (im : IndexMap) where
  push_cp_event-same :
      (e : CpEvent) (c : ControlPoint)
      → ((push_cp_event hl im e c).cache ≡ c.cache) × ((push_cp_event hl im e c).timers ≡ c.timers)
  unfolding push_cp_event
  push_cp_event-same e c = elim (Option-cases (hl.push 8 c.events e)) [
    | inl n ↦ rw (n, push_cp_event) (refl, refl)
    | inr (es, n) ↦ rw (n, push_cp_event) (refl, refl)
  ]

  push_expired-same :
      (ks : List Str) (c : ControlPoint)
      → ((push_expired hl im ks c).cache ≡ c.cache) × ((push_expired hl im ks c).timers ≡ c.timers)
  unfolding push_expired
  push_expired-same [] c = (refl, refl)
  push_expired-same (k ∷ ks) c = elim (Option-cases (hl.try_from cache_usn k)) [
    | inl n ↦ rw (n, push_expired) (push_expired-same ks c)
    | inr (u, n) ↦
        let (a, b) = push_cp_event-same (expired u) c in
        let (a', b') = push_expired-same ks (push_cp_event hl im (expired u) c) in
        rw (n, push_expired) (a' ∙ a, b' ∙ b)
  ]

  reschedule_same :
      (now : Instant) (c : ControlPoint) → (reschedule_cache_expiry now c).cache ≡ c.cache
  unfolding reschedule_cache_expiry
  reschedule_same now c = elim (Option-cases (next_expiry c.cache)) [
    | inl n ↦ rw (n, reschedule_cache_expiry)
    | inr (t, n) ↦ elim (Bool-cases (ltb now t)) [
      | inl l ↦ rw (n, l, reschedule_cache_expiry)
      | inr l ↦ rw (n, l, reschedule_cache_expiry)
    ]
  ]

  reschedule_later :
      (now : Instant) (c : ControlPoint) (t : Instant)
      → next_expiry c.cache ≡ some t
      → now < t
      → occupied c.timers < length c.timers
      → fire_of cache_expiry (reschedule_cache_expiry now c).timers ≡ some t
  unfolding reschedule_cache_expiry
  reschedule_later now c t e l room =
      let s = set-Sets c.timers (record { fire_at = t; kind = cache_expiry }) (inr room) in
      rw (e, lt→ltb now t l, reschedule_cache_expiry) (s.view cache_expiry)

  -- When the expiry timer of a control point fires, whose cache is within its capacity with no key
  -- twice, and whose timer queue has a free slot: the entries that are expired leave the cache and
  -- the others stay, and unless the cache is then empty, the next expiry is scheduled for the
  -- instant at which the first of those that are found expires, which is later.
  pub on_cache_expiry_lem :
      (now : Instant) (c : ControlPoint)
      → IsMap c.cache
      → length c.cache ≤ cache_cap
      → occupied c.timers < length c.timers
      → ((k : Str) → find k (on_cache_expiry hl im now c).cache ≡ fresh now (find k c.cache))
        × (((on_cache_expiry hl im now c).cache ≡ [])
            ⊎ ((t : Instant) × IsEarliest (on_cache_expiry hl im now c).cache t
                × (now < t)
                × (fire_of cache_expiry (on_cache_expiry hl im now c).timers ≡ some t)))
  unfolding on_cache_expiry
  on_cache_expiry_lem now c m fits room =
      let r = expire hl im now c.cache in
      let c1 = record c { cache = r.0 } in
      let c2 = push_expired hl im r.1 c1 in
      let (a, b) = push_expired-same r.1 c1 in
      let kept = reschedule_same now c2 in
      (
        λ k. ap (find k) (kept ∙ a) ∙ (expire_lem hl im now k c.cache m fits).0,
        elim (Option-cases (next_expiry c2.cache)) [
          | inl n ↦ inl (kept ∙ next_expiry-nil c2.cache n)
          | inr (t, n) ↦
              let (k, e, g, q) =
                next_expiry-find r.0 t (expire_lem hl im now [] c.cache m fits).2
                  (ap next_expiry (sym a) ∙ n) in
              let later : now < t = omega (
                arith,
                q,
                fresh-lt now (find k c.cache) e (sym (expire_lem hl im now k c.cache m fits).0 ∙ g),
              ) in
              inr (
                t,
                record {
                  attained =
                      subst
                        (λ x.
                          (k : Str) × (e : CacheEntry) × (find k x ≡ some e) × (e.expires_at ≡ t))
                        (sym (kept ∙ a)) (k, e, g, q);
                  least = next_expiry-le _ t (ap next_expiry kept ∙ n);
                },
                later,
                reschedule_later now c2 t n later (omega (arith, ap occupied b, ap length b)),
              )
        ],
      )
