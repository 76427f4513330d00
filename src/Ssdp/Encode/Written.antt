-- ===== src/Ssdp/Encode/Written.antt =====
-- What the encoders write: a writer behind `pre` goes on with the bytes of the message, or stops
-- because they do not fit.
use native.Mathlib.Decide.{dec_le}
use rusty_castle.Prelude.{
  ℕ, zero, suc, ◌+◌, ◌≤◌, ◌<◌, ◌≡◌, refl, sym, ap, subst, ◌∙◌, List, [], ◌∷◌, ◌++◌, append_assoc,
  append-nil, arith, ok, err, ◌>>=◌, length, take, drop, length-append, length-drop,
}
use rusty_castle.Str.{Str, Bytes, codes, as_bytes, utf8_char}
use rusty_castle.Str.Decimal.{show}
use rusty_castle.Ssdp.Header.Value.{u32_max}
use rusty_castle.Ssdp.Header.Target.{
  TargetRef, all_targets, root_device, uuid, device_type, service_type,
}
use rusty_castle.Ssdp.Header.Target.RoundTrip.{target_text, urn_text}
use rusty_castle.Ssdp.Encode.{
  BufWriter, Write, too_small, overwrite, write_bytes, copy_to_slice, write_str, write_crlf, crlf,
  write_u32, write_target, encode_target,
}
use rusty_castle.Ssdp.Encode.Numbers.{u32_to_str-show}

-- The buffer holds `pre`, then `post`, and the next write goes between them.
abbrev pub At : BufWriter → Bytes → Bytes → Type 0
At w pre post = (w.buf ≡ pre ++ post) × (w.pos ≡ length pre)

-- `f` writes `bs` if there is room, and otherwise fails as too small.
pub record Writes (f : BufWriter → Write) (bs : Bytes) : Type 0 where
  pub fits :
      (w : BufWriter) (pre post : Bytes)
      → At w pre post
      → length bs ≤ length post
      → (w' : BufWriter) × (f w ≡ ok w') × At w' (pre ++ bs) (drop (length bs) post)
  pub fails :
      (w : BufWriter) (pre post : Bytes)
      → At w pre post
      → length post < length bs
      → (w' : BufWriter) × (f w ≡ err (too_small w'))

drop-nil {ℓ} : {A : Type ℓ} (n : ℕ) → drop {A = A} n [] ≡ []
drop-nil zero = refl
drop-nil (suc n) = refl

drop-drop {ℓ} : {A : Type ℓ} (m n k : ℕ) (xs : List A) → m + n ≡ k → drop n (drop m xs) ≡ drop k xs
drop-drop zero n k xs e = let e' : k ≡ n = omega arith in rw e'
drop-drop (suc m) n k [] e = drop-nil n ∙ sym (drop-nil k)
drop-drop (suc m) n zero (x ∷ xs) e = absurd (omega arith)
drop-drop (suc m) n (suc k) (x ∷ xs) e = drop-drop m n k xs (omega arith)

pub take-length {ℓ} : {A : Type ℓ} (xs ys : List A) → take (length xs) (xs ++ ys) ≡ xs
take-length [] ys = refl
take-length (x ∷ xs) ys = ap (◌∷◌ x) (take-length xs ys)

drop-length {ℓ} : {A : Type ℓ} (xs ys : List A) → drop (length xs) (xs ++ ys) ≡ ys
drop-length [] ys = refl
drop-length (x ∷ xs) ys = drop-length xs ys

overwrite-append :
    (pre post src : Bytes)
    → overwrite (pre ++ post) (length pre) src ≡ (pre ++ src) ++ drop (length src) post
overwrite-append pre post src =
    rw
      (
        take-length pre post,
        ← drop-drop (length pre) (length src) (length pre + length src) (pre ++ post) refl,
        drop-length pre post,
      )
      (sym (append_assoc pre src (drop (length src) post)))

write_bytes-Writes : (src : Bytes) → Writes (write_bytes src) src
unfolding write_bytes copy_to_slice
write_bytes-Writes src = record {
  fits = λ w pre post a h. (
    record { buf = overwrite w.buf w.pos src; pos = w.pos + length src },
    ground (arith, ap length a.0, length-append pre post, a.1),
    (rw (a.0, a.1) (overwrite-append pre post src), omega (arith, a.1, length-append pre src)),
  );
  fails = λ w pre post a h. (w, ground (arith, ap length a.0, length-append pre post, a.1));
}

write_str-Writes : (s : Str) → Writes (write_str s) (as_bytes s)
unfolding write_str
write_str-Writes s = write_bytes-Writes (as_bytes s)

write_crlf-Writes : Writes write_crlf crlf
unfolding write_crlf
write_crlf-Writes = write_bytes-Writes crlf

ok-Writes : Writes (λ w. ok w) []
ok-Writes = record {
  fits = λ w pre post a h. (w, refl, (rw append-nil a.0, rw append-nil a.1));
  fails = λ w pre post a h. absurd (omega arith);
}

-- One write behind another.
pub then-Writes :
    (f g : BufWriter → Write) (a b : Bytes)
    → Writes f a
    → Writes g b
    → Writes (λ w. f w >>= g) (a ++ b)
then-Writes f g a b wf wg = record {
  fits = λ w pre post at h.
      let (w1, e1, at1) = wf.fits w pre post at (omega (arith, length-append a b)) in
      let (w2, e2, at2) =
        wg.fits w1 (pre ++ a) (drop (length a) post) at1
          (omega (arith, length-append a b, length-drop (length a) post)) in
      (
        w2,
        rw e1 e2,
        (
          at2.0
              ∙ rw (
                append_assoc pre a b,
                drop-drop (length a) (length b) (length (a ++ b)) post (sym (length-append a b)),
              ),
          at2.1 ∙ ap length (append_assoc pre a b),
        ),
      );
  fails = λ w pre post at h. elim (dec_le (length a) (length post)) [
    | yes l ↦
        let (w1, e1, at1) = wf.fits w pre post at l in
        let (w2, e2) =
          wg.fails w1 (pre ++ a) (drop (length a) post) at1
            (omega (arith, length-append a b, length-drop (length a) post)) in
        (w2, rw e1 e2)
    | no l ↦ let (w1, e1) = wf.fails w pre post at (omega arith) in (w1, rw e1)
  ];
}

write_u32-Writes : (n : ℕ) → n ≤ u32_max → Writes (write_u32 n) (as_bytes (show n))
unfolding write_u32
write_u32-Writes n h = rw (u32_to_str-show n h, write_u32) (write_bytes-Writes (as_bytes (show n)))

as_bytes-append : (a b : Str) → as_bytes (a ++ b) ≡ as_bytes a ++ as_bytes b
unfolding as_bytes
as_bytes-append [] b = refl
as_bytes-append (c ∷ a) b =
    ap (◌++◌ (utf8_char c)) (as_bytes-append a b)
    ∙ sym (append_assoc (utf8_char c) (as_bytes a) (as_bytes b))

-- Two texts, one behind the other.
text-Writes :
    (f g : BufWriter → Write) (a b : Str)
    → Writes f (as_bytes a)
    → Writes g (as_bytes b)
    → Writes (λ w. f w >>= g) (as_bytes (a ++ b))
text-Writes f g a b wf wg =
    rw (as_bytes-append a b) (then-Writes f g (as_bytes a) (as_bytes b) wf wg)

-- The version of a target is a `u32`.
abbrev pub HasU32 : TargetRef → Type 0
HasU32 (device_type domain kind version) = version ≤ u32_max
HasU32 (service_type domain kind version) = version ≤ u32_max
HasU32 t = Unit {0}

urn-Writes :
    (domain middle kind : Str) (version : ℕ)
    → version ≤ u32_max
    → Writes
        (λ w.
          write_str (codes "urn:") w
          >>= write_str domain
          >>= write_str middle
          >>= write_str kind
          >>= write_bytes (b':' ∷ [])
          >>= write_u32 version)
        (as_bytes (((((codes "urn:" ++ domain) ++ middle) ++ kind) ++ b':' ∷ []) ++ show version))
urn-Writes domain middle kind version h =
    text-Writes _ (write_u32 version) _ (show version)
      (text-Writes _ (write_bytes (b':' ∷ [])) _ (b':' ∷ [])
        (text-Writes _ (write_str kind) _ kind
          (text-Writes _ (write_str middle) _ middle
            (text-Writes (write_str (codes "urn:")) (write_str domain) (codes "urn:") domain
              (write_str-Writes (codes "urn:")) (write_str-Writes domain))
            (write_str-Writes middle))
          (write_str-Writes kind))
        (unfold as_bytes in write_bytes-Writes (b':' ∷ [])))
      (write_u32-Writes version h)

urn_shape :
    (domain kind_str kind : Str) (version : ℕ)
    → ((((codes "urn:" ++ domain) ++ b':' ∷ (kind_str ++ b':' ∷ [])) ++ kind) ++ b':' ∷ [])
        ++ show version
      ≡ codes "urn:" ++ urn_text domain kind_str kind version
urn_shape domain kind_str kind version = simp append_assoc

pub write_target-Writes :
    (t : TargetRef) → HasU32 t → Writes (write_target t) (as_bytes (target_text t))
unfolding write_target target_text
write_target-Writes all_targets h = write_str-Writes (codes "ssdp:all")
write_target-Writes root_device h = write_str-Writes (codes "upnp:rootdevice")
write_target-Writes (uuid u) h =
    text-Writes (write_str (codes "uuid:")) (write_str u) (codes "uuid:") u
      (write_str-Writes (codes "uuid:")) (write_str-Writes u)
write_target-Writes (device_type domain kind version) h =
    subst (λ s. Writes (write_target (device_type domain kind version)) (as_bytes s))
      (urn_shape domain (codes "device") kind version)
      (urn-Writes domain (codes ":device:") kind version h)
write_target-Writes (service_type domain kind version) h =
    subst (λ s. Writes (write_target (service_type domain kind version)) (as_bytes s))
      (urn_shape domain (codes "service") kind version)
      (urn-Writes domain (codes ":service:") kind version h)

-- The line of a target whose version fits 32 bits is written if it fits behind what was written
-- before: the name, a colon and a space, the text of the target, and the line end. If it does not
-- fit, the encoder fails as too small; it does not panic.
pub encode_target-Writes :
    (header : Str) (t : TargetRef)
    → HasU32 t
    → Writes
        (encode_target header t)
        (((as_bytes header ++ b':' ∷ b' ' ∷ []) ++ as_bytes (target_text t)) ++ crlf)
unfolding encode_target
encode_target-Writes header t h =
    then-Writes _ write_crlf _ crlf
      (then-Writes _ (write_target t) _ (as_bytes (target_text t))
        (then-Writes (write_str header) (write_bytes (b':' ∷ b' ' ∷ [])) (as_bytes header)
          (b':' ∷ b' ' ∷ []) (write_str-Writes header) (write_bytes-Writes (b':' ∷ b' ' ∷ [])))
        (write_target-Writes t h))
      write_crlf-Writes
