-- ===== src/Ssdp/Device/Stored.antt =====
-- The targets that the device stores as texts.
use rusty_castle.Prelude.{
  ℕ, suc, ◌+◌, ◌-◌, ◌≤◌, ◌<◌, ◌≡◌, refl, true, false, none, some, [], ◌∷◌, ◌++◌, append_assoc,
  arith, ltb, if◌then◌else◌, le→leb, ◌>>=?◌, length, take, drop, replicate, All, length-append,
}
use rusty_castle.Str.{Str, Bytes, codes, as_bytes, len}
use rusty_castle.Str.Utf8.{from_utf8}
use rusty_castle.Str.Utf8.RoundTrip.{IsScalar, from_utf8-as_bytes}
use rusty_castle.Ssdp.Time.{Duration}
use rusty_castle.Ssdp.Heapless.{Heapless}
use rusty_castle.Ssdp.Header.Target.{
  TargetRef, all_targets, root_device, uuid, device_type, service_type,
}
use rusty_castle.Ssdp.Header.Target.RoundTrip.{target_text, IsCanonical, parse_target-text}
use rusty_castle.Ssdp.Encode.{BufWriter, new, crlf}
use rusty_castle.Ssdp.Encode.Written.{At, HasU32, encode_target-Writes, take-length}
use rusty_castle.Ssdp.Device.State.{Device, max_targets, max_urn_len, initial_alive_count}
use rusty_castle.Ssdp.Device.Targets.{urn_string, target_to_string, parse_target_str, add_target}

-- The text of the target fits the 128 bytes that the device has for it. For a URN two bytes in front
-- and two behind are lost to the separator and the line end that `encode_target` writes.
abbrev pub FitsUrn : TargetRef → Type 0
FitsUrn (device_type a b c) = len (target_text (device_type a b c)) + 4 ≤ max_urn_len
FitsUrn (service_type a b c) = len (target_text (service_type a b c)) + 4 ≤ max_urn_len
FitsUrn t = len (target_text t) ≤ max_urn_len

-- `": "`, the text, and the line end.
framed : Str → Bytes
framed s = (b':' ∷ b' ' ∷ as_bytes s) ++ crlf

cut_frame :
    (s : Str) (post : Bytes) → drop 2 (take (length (framed s) - 2) (framed s ++ post)) ≡ as_bytes s
unfolding framed
cut_frame s post =
    let e : length (framed s) - 2 ≡ suc (suc (length (as_bytes s))) =
      omega (arith, length-append (as_bytes s) crlf) in
    rw (e, append_assoc (as_bytes s) crlf post) (take-length (as_bytes s) (crlf ++ post))

module _ (hl : Heapless) where
  open hl use {try_from, try_from_lem, push_str, push_str_lem, is_full, is_full_lem, push, push_lem}

  read_frame :
      (w : BufWriter) (s : Str) (post : Bytes)
      → At w (framed s) post
      → All IsScalar s
      → len s ≤ max_urn_len
      → (if ltb (w.pos - 2) 2
          then none
          else some (from_utf8 (drop 2 (take (w.pos - 2) w.buf)) >>=? try_from max_urn_len))
        ≡ some (some s)
  unfolding framed
  read_frame w s post at sc fit =
      let cut : drop 2 (take (w.pos - 2) w.buf) ≡ as_bytes s = rw (at.0, at.1) (cut_frame s post) in
      let long : ltb (w.pos - 2) 2 ≡ false =
        ground (arith, at.1, length-append (as_bytes s) crlf) in
      rw (
        long,
        cut,
        from_utf8-as_bytes s sc,
        try_from_lem max_urn_len s,
        le→leb (len s) max_urn_len fit,
      )

  urn_string_lem :
      (t : TargetRef)
      → HasU32 t
      → All IsScalar (target_text t)
      → len (target_text t) + 4 ≤ max_urn_len
      → urn_string hl t ≡ some (some (target_text t))
  unfolding urn_string as_bytes len framed
  urn_string_lem t u sc fit =
      let bytes = as_bytes (target_text t) in
      let buf = replicate {A = ℕ} max_urn_len 0 in
      let (w, e, at) =
        (encode_target-Writes [] t u).fits (new buf) [] buf (refl, refl)
          (omega (arith, fit, length-append bytes crlf)) in
      rw (e, urn_string) (read_frame w (target_text t) _ at sc (omega (arith, fit)))

  uuid_string :
      (u : Str)
      → FitsUrn (uuid u)
      → some (push_str max_urn_len [] (codes "uuid:") >>=? λ s. push_str max_urn_len s u)
        ≡ some (some (target_text (uuid u)))
  unfolding target_text len as_bytes
  uuid_string u f =
      rw (push_str_lem max_urn_len [] (codes "uuid:"), push_str_lem max_urn_len (codes "uuid:") u)
        (ground (arith, f))

  -- A target whose text fits is stored as its text.
  target_to_string_lem :
      (t : TargetRef)
      → IsCanonical t
      → All IsScalar (target_text t)
      → FitsUrn t
      → target_to_string hl t ≡ some (some (target_text t))
  unfolding target_to_string
  target_to_string_lem all_targets c sc f =
      rw (try_from_lem max_urn_len (codes "ssdp:all")) (unfold target_text len as_bytes in refl)
  target_to_string_lem root_device c sc f =
      rw (try_from_lem max_urn_len (codes "upnp:rootdevice"))
        (unfold target_text len as_bytes in refl)
  target_to_string_lem (uuid u) c sc f = uuid_string u f
  target_to_string_lem (device_type a b v) (ca, cb, cv) sc f =
      urn_string_lem (device_type a b v) cv sc f
  target_to_string_lem (service_type a b v) (ca, cb, cv) sc f =
      urn_string_lem (service_type a b v) cv sc f

  -- A target that the text format can carry and whose text fits is accepted while there is room, with
  -- three initial bursts to go, and is read back from the stored text as it was given.
  pub add_target_lem :
      (t : TargetRef) (max_age : Duration) (d : Device)
      → IsCanonical t
      → All IsScalar (target_text t)
      → FitsUrn t
      → length d.targets < max_targets
      → (add_target hl t max_age d
          ≡ some (
            true,
            record d {
              targets =
                  d.targets
                  ++ (record {
                    nt_str = target_text t;
                    max_age = max_age;
                    initial_remaining = initial_alive_count;
                  })
                    ∷ [];
            },
          ))
        × (parse_target_str (target_text t) ≡ t)
  unfolding add_target parse_target_str
  add_target_lem t max_age d c sc f room = (
    ground (
      arith,
      is_full_lem max_targets d.targets,
      target_to_string_lem t c sc f,
      push_lem max_targets d.targets (record {
        nt_str = target_text t;
        max_age = max_age;
        initial_remaining = initial_alive_count;
      }),
    ),
    rw (parse_target-text t c, parse_target_str),
  )
