-- ===== src/Ssdp/Device/Transmits.antt =====
-- The pending transmits and the scratch buffer are a stack of payloads.
use native.Mathlib.Decide.{dec_le, dec_lt}
use rusty_castle.Prelude.{
  ℕ, ◌+◌, ◌≤◌, ◌<◌, max, ◌≡◌, refl, ap, subst, ◌∙◌, ◌⊎◌, inl, inr, false, none, some, List, [], ◌∷◌,
  ◌++◌, arith, ltb, ok, err, length, take, drop, length-append, length-take, length-drop,
  slice_before, slice_written, take-min, last_cases,
}
use rusty_castle.Ssdp.Error.{buffer_too_small}
use rusty_castle.Ssdp.Heapless.{Heapless}
use rusty_castle.Ssdp.Device.Send.{enqueue_payload}
use rusty_castle.Ssdp.Device.Run.{poll_transmit}
use rusty_castle.Str.{Bytes}
use rusty_castle.Ssdp.Encode.{overwrite}
use rusty_castle.Ssdp.State.{Destination}
use rusty_castle.Ssdp.Device.State.{Device, Segment, max_pending, scratch_len}
use rusty_castle.Ssdp.Device.Send.{next_start}

-- The segments lie one behind the other from `n` on.
abbrev pub Laid : ℕ → List Segment → Type 0
Laid n [] = Unit {0}
Laid n (s ∷ ss) = (s.start ≡ n) × Laid (n + s.len) ss

abbrev pub end_of : ℕ → List Segment → ℕ
end_of n [] = n
end_of n (s ∷ ss) = end_of (n + s.len) ss

pub record IsPacked (d : Device) : Type 0 where
  pub laid : Laid 0 d.pending_transmits
  pub fits : end_of 0 d.pending_transmits ≤ scratch_len
  pub count : length d.pending_transmits ≤ max_pending
  pub size : length d.scratch_buf ≡ scratch_len

-- The payloads that are waiting, the newest last.
abbrev pub waiting : Bytes → List Segment → List (Destination × Bytes)
waiting buf [] = []
waiting buf (s ∷ ss) = (s.dest, take s.len (drop s.start buf)) ∷ waiting buf ss

le-end_of : (n : ℕ) (ss : List Segment) → n ≤ end_of n ss
le-end_of n [] = omega arith
le-end_of n (s ∷ ss) = omega (arith, le-end_of (n + s.len) ss)

next_start-Laid : (n : ℕ) (ss : List Segment) → Laid n ss → max n (next_start ss) ≡ end_of n ss
unfolding next_start
next_start-Laid n [] l = omega arith
next_start-Laid n (s ∷ ss) (e, l) =
    omega (arith, next_start-Laid (n + s.len) ss l, le-end_of (n + s.len) ss)

waiting-overwrite :
    (buf src : Bytes) (n e : ℕ) (ss : List Segment)
    → Laid n ss
    → end_of n ss ≤ e
    → e ≤ length buf
    → waiting (overwrite buf e src) ss ≡ waiting buf ss
waiting-overwrite buf src n e [] l h k = refl
waiting-overwrite buf src n e (s ∷ ss) (a, l) h k = λ i.
    (
      s.dest,
      slice_before s.start s.len e buf (src ++ drop (e + length src) buf)
          (omega (arith, le-end_of (n + s.len) ss)) k i,
    )
    ∷ waiting-overwrite buf src (n + s.len) e ss l h k i

waiting-append :
    (buf : Bytes) (ss ts : List Segment) → waiting buf (ss ++ ts) ≡ waiting buf ss ++ waiting buf ts
waiting-append buf [] ts = refl
waiting-append buf (s ∷ ss) ts =
    ap (◌∷◌ (s.dest, take s.len (drop s.start buf))) (waiting-append buf ss ts)

Laid-append :
    (n : ℕ) (ss : List Segment) (s : Segment)
    → Laid n ss
    → s.start ≡ end_of n ss
    → Laid n (ss ++ s ∷ [])
Laid-append n [] s l e = (e, tt)
Laid-append n (x ∷ ss) s (a, l) e = (a, Laid-append (n + x.len) ss s l e)

end_of-append :
    (n : ℕ) (ss : List Segment) (s : Segment) → end_of n (ss ++ s ∷ []) ≡ end_of n ss + s.len
end_of-append n [] s = refl
end_of-append n (x ∷ ss) s = end_of-append (n + x.len) ss s

Laid-init :
    (n : ℕ) (ss : List Segment) (s : Segment)
    → Laid n (ss ++ s ∷ [])
    → Laid n ss × (s.start ≡ end_of n ss)
Laid-init n [] s l = (tt, l.0)
Laid-init n (x ∷ ss) s (a, l) = let (l', e) = Laid-init (n + x.len) ss s l in ((a, l'), e)

length-overwrite :
    (buf src : Bytes) (e : ℕ)
    → e + length src ≤ length buf
    → length (overwrite buf e src) ≡ length buf
length-overwrite buf src e h = omega (
  arith,
  length-append (take e buf) (src ++ drop (e + length src) buf),
  length-append src (drop (e + length src) buf),
  length-take e buf,
  length-drop (e + length src) buf,
)

-- The device with a payload queued behind the others.
abbrev pub queued : Destination → Bytes → Device → Device
queued dest payload d =
    let e = end_of 0 d.pending_transmits in
    record d {
      pending_transmits =
          d.pending_transmits ++ (record { dest = dest; start = e; len = length payload }) ∷ [];
      scratch_buf = overwrite d.scratch_buf e payload;
    }

-- There is room in the scratch buffer and in the vector.
abbrev pub HasRoom : Bytes → Device → Type 0
HasRoom payload d =
    (end_of 0 d.pending_transmits + length payload ≤ scratch_len)
    × (length d.pending_transmits < max_pending)

abbrev pub pendings : Device → List (Destination × Bytes)
pendings d = waiting d.scratch_buf d.pending_transmits

pub queued-IsPacked :
    (dest : Destination) (payload : Bytes) (d : Device)
    → IsPacked d
    → HasRoom payload d
    → IsPacked (queued dest payload d)
queued-IsPacked dest payload d w (fits, count) =
    let e = end_of 0 d.pending_transmits in
    let s : Segment = record { dest = dest; start = e; len = length payload } in
    record {
      laid = Laid-append 0 d.pending_transmits s w.laid refl;
      fits = omega (arith, end_of-append 0 d.pending_transmits s);
      count = omega (arith, length-append d.pending_transmits (s ∷ []));
      size = length-overwrite d.scratch_buf payload e (omega (arith, w.size)) ∙ w.size;
    }

pendings-queued :
    (dest : Destination) (payload : Bytes) (d : Device)
    → IsPacked d
    → HasRoom payload d
    → pendings (queued dest payload d) ≡ pendings d ++ (dest, payload) ∷ []
pendings-queued dest payload d w (fits, count) =
    let e = end_of 0 d.pending_transmits in
    let k : e ≤ length d.scratch_buf = omega (arith, w.size) in
    waiting-append (overwrite d.scratch_buf e payload) d.pending_transmits
      ((record { dest = dest; start = e; len = length payload }) ∷ [])
    ∙ rw (waiting-overwrite d.scratch_buf payload 0 e d.pending_transmits w.laid (omega arith) k) (
        ap (λ (p : Bytes). pendings d ++ (dest, p) ∷ [])
          (slice_written e d.scratch_buf payload (drop (e + length payload) d.scratch_buf) k))

dec_room : (payload : Bytes) (d : Device) → HasRoom payload d ⊎ (¬ HasRoom payload d)
dec_room payload d = elim (dec_le (end_of 0 d.pending_transmits + length payload) scratch_len) [
  | yes a ↦ elim (dec_lt (length d.pending_transmits) max_pending) [
    | yes b ↦ inl (a, b)
    | no b ↦ inr (λ h. b h.1)
  ]
  | no a ↦ inr (λ h. a h.0)
]

module _ (hl : Heapless) where
  open hl use {push, push_lem, pop, pop-nil, pop-push, is_full, is_full_lem}

  enqueue_payload_fits :
      (dest : Destination) (payload : Bytes) (d : Device)
      → IsPacked d
      → HasRoom payload d
      → enqueue_payload hl dest payload d ≡ (ok tt, queued dest payload d)
  unfolding enqueue_payload
  enqueue_payload_fits dest payload d w (fits, count) =
      let s : next_start d.pending_transmits ≡ end_of 0 d.pending_transmits =
        omega (arith, next_start-Laid 0 d.pending_transmits w.laid) in
      rw (s, is_full_lem max_pending d.pending_transmits, push_lem max_pending d.pending_transmits)
        (ground (arith, s))

  enqueue_payload_full :
      (dest : Destination) (payload : Bytes) (d : Device)
      → IsPacked d
      → ¬ HasRoom payload d
      → enqueue_payload hl dest payload d ≡ (err buffer_too_small, d)
  unfolding enqueue_payload
  enqueue_payload_full dest payload d w full =
      let s : next_start d.pending_transmits ≡ end_of 0 d.pending_transmits =
        omega (arith, next_start-Laid 0 d.pending_transmits w.laid) in
      rw (s, is_full_lem max_pending d.pending_transmits) (ground (arith, s))

  pub enqueue_payload-cases :
      (dest : Destination) (payload : Bytes) (d : Device)
      → IsPacked d
      → ((enqueue_payload hl dest payload d ≡ (ok tt, queued dest payload d))
          × IsPacked (queued dest payload d))
        ⊎ (enqueue_payload hl dest payload d ≡ (err buffer_too_small, d))
  enqueue_payload-cases dest payload d w = elim (dec_room payload d) [
    | inl room ↦
        inl (enqueue_payload_fits dest payload d w room, queued-IsPacked dest payload d w room)
    | inr full ↦ inr (enqueue_payload_full dest payload d w full)
  ]

  -- In a device whose pending transmits are packed, queuing a payload puts it behind those that
  -- wait, which stay as they are, if there is room; without room the call fails and changes
  -- nothing.
  pub enqueue_payload_lem :
      (dest : Destination) (payload : Bytes) (d : Device)
      → IsPacked d
      → (HasRoom payload d
          × ((enqueue_payload hl dest payload d).0 ≡ ok tt)
          × IsPacked (enqueue_payload hl dest payload d).1
          × (pendings (enqueue_payload hl dest payload d).1 ≡ pendings d ++ (dest, payload) ∷ []))
        ⊎ ((¬ HasRoom payload d) × (enqueue_payload hl dest payload d ≡ (err buffer_too_small, d)))
  enqueue_payload_lem dest payload d w = elim (dec_room payload d) [
    | inl room ↦ rw (enqueue_payload_fits dest payload d w room) (
        inl (
          room,
          refl,
          queued-IsPacked dest payload d w room,
          pendings-queued dest payload d w room,
        ))
    | inr full ↦ inr (full, enqueue_payload_full dest payload d w full)
  ]

  -- In a device whose pending transmits are packed, polling takes the newest payload, cut to the
  -- buffer of the caller, and leaves the others; it does not panic.
  pub poll_transmit_lem :
      (n : ℕ) (d : Device)
      → IsPacked d
      → ((pendings d ≡ []) × (poll_transmit hl n d ≡ some (none, d)))
        ⊎ ((older : List (Destination × Bytes)) × (dest : Destination) × (payload : Bytes)
            × (d' : Device) × (pendings d ≡ older ++ (dest, payload) ∷ [])
            × (poll_transmit hl n d
                ≡ some (some (record { dest = dest; payload = take n payload }), d'))
            × IsPacked d'
            × (pendings d' ≡ older))
  unfolding poll_transmit
  poll_transmit_lem n d w = elim (last_cases d.pending_transmits) [
    | inl e ↦ inl (ap (waiting d.scratch_buf) e, ground (arith, ap (pop {A = Segment}) e ∙ pop-nil))
    | inr (ss, s, e) ↦
        let laid = Laid-init 0 ss s (subst (Laid 0) e w.laid) in
        let ends : end_of 0 ss + s.len ≤ scratch_len =
          omega (arith, ap (end_of 0) e, end_of-append 0 ss s, w.fits) in
        let bound : ltb (length d.scratch_buf) (s.start + s.len) ≡ false =
          ground (arith, laid.1, ends, w.size) in
        let popped : pop d.pending_transmits ≡ some (s, ss) =
          ap (pop {A = Segment}) e ∙ pop-push ss s in
        inr (
          waiting d.scratch_buf ss,
          s.dest,
          take s.len (drop s.start d.scratch_buf),
          record d { pending_transmits = ss },
          ap (waiting d.scratch_buf) e ∙ waiting-append d.scratch_buf ss (s ∷ []),
          ground (arith, popped, bound, take-min s.len n (drop s.start d.scratch_buf)),
          record {
            laid = laid.0;
            fits = omega (arith, ends);
            count = omega (arith, ap length e, length-append ss (s ∷ []), w.count);
            size = w.size;
          },
          refl,
        )
  ]
