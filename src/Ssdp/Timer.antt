-- ===== src/Ssdp/Timer.antt =====
-- crates/ssdp-core/src/state/timer.rs: the timer queue, an array of slots.
pub mod Drain
pub mod Set
pub mod View
use rusty_castle.Prelude.{
  ℕ, zero, suc, ◌+◌, ◌≡◌, Bool, true, false, List, [], ◌∷◌, map, Option, none, some, leb, ◌==◌, min,
  if◌then◌else◌, replicate, length,
}
use rusty_castle.Ssdp.Time.{Instant}

pub data TimerKind : Type 0 where
  alive_refresh initial_alive search_response search_retransmit cache_expiry : TimerKind

-- The derived `==` compares the variants.
abbrev pub tag : TimerKind → ℕ
tag alive_refresh = 0
tag initial_alive = 1
tag search_response = 2
tag search_retransmit = 3
tag cache_expiry = 4

abbrev pub kind_eq : TimerKind → TimerKind → Bool
kind_eq a b = tag a == tag b

pub record Timer : Type 0 where
  pub fire_at : Instant
  pub kind : TimerKind

-- The `N` slots, which nothing keeps in the order of their instants, though the source's comment
-- calls the queue a min-heap.
abbrev pub Slots : Type 0
Slots = List (Option Timer)

unfoldable pub new : ℕ → Slots
new n = replicate n none

abbrev push_slot : Option Timer → Option Slots → Option Slots
push_slot s none = none
push_slot s (some es) = some (s ∷ es)

-- The first loop of `set`: replace the timer of the same kind.
replace_same : Slots → Timer → Option Slots
replace_same [] t = none
replace_same (none ∷ es) t = push_slot none (replace_same es t)
replace_same (some e ∷ es) t =
    if kind_eq e.kind t.kind then some (some t ∷ es) else push_slot (some e) (replace_same es t)

-- The second loop: take the first empty slot.
fill_empty : Slots → Timer → Option Slots
fill_empty [] t = none
fill_empty (none ∷ es) t = some (some t ∷ es)
fill_empty (some e ∷ es) t = push_slot (some e) (fill_empty es t)

abbrev slot_key : Option Timer → Option Instant
slot_key none = none
slot_key (some e) = some e.fire_at

-- `a <= b` on `Option<Instant>`: `None` is below every instant.
abbrev key_le : Option Instant → Option Instant → Bool
key_le none b = true
key_le (some a) none = false
key_le (some a) (some b) = leb a b

-- The index of the last slot with the greatest key (`max_by_key`); `i` is the index of the head.
last_max : Slots → ℕ → ℕ → Option Instant → ℕ
last_max [] i best key = best
last_max (s ∷ es) i best key =
    let later = key_le key (slot_key s) in
    last_max es (i + 1) (if later then i else best) (if later then slot_key s else key)

write_slot : Slots → ℕ → Timer → Slots
write_slot [] i t = []
write_slot (s ∷ es) zero t = some t ∷ es
write_slot (s ∷ es) (suc i) t = s ∷ write_slot es i t

-- No room: overwrite the timer that fires last.
overwrite : Slots → Timer → Slots
unfolding last_max write_slot
overwrite [] t = []
overwrite (s ∷ es) t = write_slot (s ∷ es) (last_max es 1 0 (slot_key s)) t

abbrev or_else : Option Slots → Slots → Slots
or_else none q = q
or_else (some q) _ = q

unfoldable pub set : Slots → Timer → Slots
unfolding replace_same fill_empty overwrite
set q t = or_else (replace_same q t) (or_else (fill_empty q t) (overwrite q t))

abbrev clear_kind : TimerKind → Option Timer → Option Timer
clear_kind k none = none
clear_kind k (some e) = if kind_eq e.kind k then none else some e

unfoldable pub cancel : Slots → TimerKind → Slots
cancel q k = map (clear_kind k) q

abbrev earlier : Instant → Option Instant → Instant
earlier t none = t
earlier t (some u) = min t u

unfoldable pub next_timeout : Slots → Option Instant
next_timeout [] = none
next_timeout (none ∷ es) = next_timeout es
next_timeout (some e ∷ es) = some (earlier e.fire_at (next_timeout es))

abbrev push_drained : Option Timer → Option (TimerKind × Slots) → Option (TimerKind × Slots)
push_drained s none = none
push_drained s (some (k, es)) = some (k, s ∷ es)

-- `TimerDrain::next`: take the first timer that is due out of its slot.
unfoldable pub drain_next : Instant → Slots → Option (TimerKind × Slots)
drain_next now [] = none
drain_next now (none ∷ es) = push_drained none (drain_next now es)
drain_next now (some e ∷ es) =
    if leb e.fire_at now
    then some (e.kind, none ∷ es)
    else push_drained (some e) (drain_next now es)

abbrev yielded : TimerKind → List TimerKind × Slots → List TimerKind × Slots
yielded k (ks, q) = (k ∷ ks, q)

-- The iterator run to its end; each round but the last empties a slot.
drain_loop : ℕ → Instant → Slots → List TimerKind × Slots
drain_loop zero now q = ([], q)
drain_loop (suc fuel) now q = elim (drain_next now q) [
  | none ↦ ([], q)
  | some (k, q') ↦ yielded k (drain_loop fuel now q')
]

-- `drain_expired(now)` and what is left; one round more than there are slots is enough.
unfoldable pub drain_expired : Instant → Slots → List TimerKind × Slots
unfolding drain_loop drain_next
drain_expired now q = drain_loop (suc (length q)) now q
