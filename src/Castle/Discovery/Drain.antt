-- ===== src/Castle/Discovery/Drain.antt =====
-- crates/rusty-castle/src/runtime.rs: how the device is drained of its datagrams.
use rusty_castle.Prelude.{
  ℕ, zero, suc, ◌+◌, ◌<◌, ◌≡◌, refl, sym, ap, ◌∙◌, inl, inr, some, List, [], ◌∷◌, ◌++◌,
  append_assoc, append-nil, arith, Result, ok, length, take, length-append,
}
use rusty_castle.Str.{Bytes}
use rusty_castle.Ssdp.Heapless.{Heapless}
use rusty_castle.Ssdp.State.{
  Destination, SocketAddr, Transmit, multicast_v4, multicast_v6_link_local, multicast_v6_site_local,
  unicast,
}
use rusty_castle.Ssdp.Device.State.{Device, Segment}
use rusty_castle.Ssdp.Device.Run.{poll_transmit}
use rusty_castle.Ssdp.Device.Transmits.{IsPacked, waiting, pendings, poll_transmit_lem}
use rusty_castle.Castle.Mp4.{IoError}
use rusty_castle.Castle.Discovery.{Datagram, ssdp_multicast, send_transmit, drain_loop, drain_ssdp}

-- The datagram of a payload, cut to a buffer of `n` bytes: IPv4 destinations have one, and what is
-- for the IPv6 groups is dropped.
abbrev pub datagram : ℕ → Destination → Bytes → List Datagram
datagram n multicast_v4 payload = (take n payload, ssdp_multicast) ∷ []
datagram n (unicast addr) payload = (take n payload, addr) ∷ []
datagram n multicast_v6_link_local payload = []
datagram n multicast_v6_site_local payload = []

-- The datagrams of the waiting payloads, the newest first.
abbrev pub newest_first : ℕ → List (Destination × Bytes) → List Datagram
newest_first n [] = []
newest_first n ((dest, payload) ∷ ps) = newest_first n ps ++ datagram n dest payload

newest_first-append :
    (n : ℕ) (ps : List (Destination × Bytes)) (dest : Destination) (payload : Bytes)
    → newest_first n (ps ++ (dest, payload) ∷ []) ≡ datagram n dest payload ++ newest_first n ps
newest_first-append n [] dest payload = sym (append-nil (datagram n dest payload))
newest_first-append n ((d, p) ∷ ps) dest payload =
    rw (newest_first-append n ps dest payload)
      (append_assoc (datagram n dest payload) (newest_first n ps) (datagram n d p))

length-waiting : (buf : Bytes) (ss : List Segment) → length (waiting buf ss) ≡ length ss
length-waiting buf [] = refl
length-waiting buf (s ∷ ss) = ap suc (length-waiting buf ss)

module _ (hl : Heapless) (send_to : Bytes → SocketAddr → Result IoError ℕ) where
  -- The socket takes every datagram.
  abbrev Takes : Type 0
  Takes = (payload : Bytes) (addr : SocketAddr) → (k : ℕ) × (send_to payload addr ≡ ok k)

  hands_over :
      Takes
      → (n : ℕ) (dest : Destination) (payload : Bytes) (log : List Datagram)
      → (k : ℕ) × (send_transmit send_to record { dest = dest; payload = take n payload } log
          ≡ (ok k, log ++ datagram n dest payload))
  unfolding send_transmit
  hands_over takes n multicast_v4 payload log =
      let (k, e) = takes (take n payload) ssdp_multicast in (k, rw e refl)
  hands_over takes n multicast_v6_link_local payload log = (0, rw append-nil refl)
  hands_over takes n multicast_v6_site_local payload log = (0, rw append-nil refl)
  hands_over takes n (unicast addr) payload log =
      let (k, e) = takes (take n payload) addr in (k, rw e refl)

  sends_one :
      (fuel n sent k : ℕ) (log log' : List Datagram) (d d' : Device) (tx : Transmit)
      → poll_transmit hl n d ≡ some (some tx, d')
      → send_transmit send_to tx log ≡ (ok k, log')
      → drain_loop hl send_to (suc fuel) n sent log d
        ≡ drain_loop hl send_to fuel n (suc sent) log' d'
  unfolding drain_loop
  sends_one fuel n sent k log log' d d' tx p s = ground (arith, p, s)

  drain_loop_lem :
      Takes
      → (fuel n sent total : ℕ) (log : List Datagram) (d : Device) → IsPacked d
      → length (pendings d) < fuel
      → sent + length (pendings d) ≡ total
      → (d' : Device) × (drain_loop hl send_to fuel n sent log d
          ≡ some (ok total, log ++ newest_first n (pendings d), d'))
        × (pendings d' ≡ [])
        × IsPacked d'
  unfolding drain_loop
  drain_loop_lem takes zero n sent total log d w f c = absurd (omega arith)
  drain_loop_lem takes (suc fuel) n sent total log d w f c = elim (poll_transmit_lem hl n d w) [
    | inl (e, p) ↦
        let all : sent ≡ total = omega (arith, c, ap length e) in
        (d, rw (p, e, append-nil) (ap (λ m. some (ok m, log, d)) all), e, w)
    | inr (older, dest, payload, d', e, p, w', e') ↦
        let tx : Transmit = record { dest = dest; payload = take n payload } in
        let (k, s) = hands_over takes n dest payload log in
        let count : length (pendings d) ≡ suc (length (pendings d')) =
          omega (arith, ap length e, ap length e', length-append older ((dest, payload) ∷ [])) in
        let (d'', r, done, w'') =
          drain_loop_lem takes fuel n (suc sent) total (log ++ datagram n dest payload) d' w'
            (omega (arith, count)) (omega (arith, count, c)) in
        let handed : (log ++ datagram n dest payload) ++ newest_first n (pendings d')
            ≡ log ++ newest_first n (pendings d) =
          rw (e', e, newest_first-append n older dest payload)
            (append_assoc log (datagram n dest payload) (newest_first n older)) in
        (
          d'',
          sends_one fuel n sent k log _ d d' tx p s ∙ r ∙ ap (λ t. some (ok total, t, d'')) handed,
          done,
          w'',
        )
  ]

  -- In a device whose pending transmits are packed, and with a socket that takes every datagram,
  -- draining ends without an error. It hands the socket, the newest first and cut to the buffer,
  -- every waiting payload for the IPv4 group, addressed to it, and every payload for a client,
  -- addressed to the client; it drops those for the IPv6 groups, counts all, and leaves none.
  pub drain_ssdp_lem :
      Takes
      → (n : ℕ) (d : Device) → IsPacked d
      → (d' : Device) × (drain_ssdp hl send_to n d
          ≡ some (ok (length (pendings d)), newest_first n (pendings d), d'))
        × (pendings d' ≡ [])
        × IsPacked d'
  unfolding drain_ssdp
  drain_ssdp_lem takes n d w =
      drain_loop_lem takes (suc (length d.pending_transmits)) n 0 _ [] d w
        (omega (arith, length-waiting d.scratch_buf d.pending_transmits)) (omega arith)
