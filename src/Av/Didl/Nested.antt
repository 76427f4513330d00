-- ===== src/Av/Didl/Nested.antt =====
-- crates/upnp-av-core/src/didl.rs: the tags of the DIDL-Lite text of objects.
use rusty_castle.Prelude.{
  ℕ, ◌≡◌, refl, sym, ap, subst, Bool, Option, none, some, List, [], ◌∷◌, ◌++◌, arith, if◌then◌else◌,
  All,
}
use rusty_castle.Str.{Str, codes}
use rusty_castle.Str.Decimal.{show, show-IsDigit}
use rusty_castle.Str.Search.{All-map}
use rusty_castle.Dlna.{ProtocolInfoRef, write_protocol_info}
use rusty_castle.Upnp.Xml.Nesting.{
  At, IsName, opened, read_name, closed_name, Inside, IsNested, IsText, IsValue, read_all, text,
  tagged, quoted, write, write_text, write_escaped_text-Inside, read_all-quoted,
}
use rusty_castle.Av.Didl.{
  ObjectRef, ResourceRef, UpnpClass, container, video_item, custom, class_str, object_tag,
  write_size, write_duration, write_resource, write_resources, write_child_count, write_object,
  write_objects, write_didl,
}

-- What is written without escapes can be written as it is.
abbrev pub IsCleanDuration : Option Str → Type 0
IsCleanDuration none = Unit {0}
IsCleanDuration (some d) = IsValue d

-- The text of a protocolInfo, behind any other text.
abbrev pub IsCleanInfo : ProtocolInfoRef → Type 0
IsCleanInfo info = (w : Str) → (t : Str) × (write_protocol_info w info ≡ w ++ t) × IsValue t

pub record IsCleanResource (r : ResourceRef) : Type 0 where
  pub info : IsCleanInfo r.protocol_info
  pub duration : IsCleanDuration r.duration

pub record IsCleanObject (o : ObjectRef) : Type 0 where
  pub id : IsValue o.id
  pub parent_id : IsValue o.parent_id
  pub class : IsText (class_str o.class)
  pub resources : All IsCleanResource o.resources

show-IsValue : (n : ℕ) → IsValue (show n)
show-IsValue n = All-map (λ c d. (ground (arith, d), ground (arith, d))) (show n) (show-IsDigit n)

write_value :
    (w s : Str) {os : List Str} {name : Str}
    → IsValue s
    → At w (quoted os name)
    → At (w ++ s) (quoted os name)
write_value w s {os} {name} v h = write w s h (read_all-quoted os name s v)

write_size-At :
    (size : Option ℕ) (w : Str) {os : List Str} {name : Str}
    → At w (tagged os name)
    → At (write_size w size) (tagged os name)
unfolding write_size read_all
write_size-At none w h = h
write_size-At (some size) w h =
    write _ (codes "\"")
      (write_value _ (show size) (show-IsValue size) (write w (codes " size=\"") h refl)) refl

write_duration-At :
    (duration : Option Str) (w : Str) {os : List Str} {name : Str}
    → IsCleanDuration duration
    → At w (tagged os name)
    → At (write_duration w duration) (tagged os name)
unfolding write_duration read_all
write_duration-At none w c h = h
write_duration-At (some d) w c h =
    write _ (codes "\"") (write_value _ d c (write w (codes " duration=\"") h refl)) refl

write_child_count-At :
    (n : Option ℕ) (w : Str) {os : List Str} {name : Str}
    → At w (tagged os name)
    → At (write_child_count w n) (tagged os name)
unfolding write_child_count read_all
write_child_count-At none w h = h
write_child_count-At (some n) w h =
    write _ (codes "\"")
      (write_value _ (show n) (show-IsValue n) (write w (codes " childCount=\"") h refl)) refl

write_info :
    (info : ProtocolInfoRef) (w : Str) {os : List Str} {name : Str}
    → IsCleanInfo info
    → At w (quoted os name)
    → At (write_protocol_info w info) (quoted os name)
write_info info w {os} {name} c h =
    let (t, e, v) = c w in subst (λ s. At s (quoted os name)) (sym e) (write_value w t v h)

write_resource-Inside :
    (r : ResourceRef) (w : Str) {os : List Str}
    → IsCleanResource r
    → Inside w os
    → Inside (write_resource w r) os
unfolding write_resource read_all
write_resource-Inside r w {os} c h =
    let h1 : At _ (quoted os (codes "res")) = write w (codes "<res protocolInfo=\"") h refl in
    let h2 : At _ (tagged os (codes "res")) =
      write _ (codes "\"") (write_info r.protocol_info _ c.info h1) refl in
    let h3 = write_duration-At r.duration _ c.duration (write_size-At r.size _ h2) in
    let h4 =
      write_escaped_text-Inside _ r.url {os = codes "res" ∷ os} (write _ (codes ">") h3 refl) in
    write _ (codes "</res>") h4 refl

write_resources-Inside :
    (rs : List ResourceRef) (w : Str) {os : List Str}
    → All IsCleanResource rs
    → Inside w os
    → Inside (write_resources w rs) os
unfolding write_resources
write_resources-Inside [] w c h = h
write_resources-Inside (r ∷ rs) w (c, cs) h =
    write_resources-Inside rs _ cs (write_resource-Inside r w c h)

abbrev restricted_str : Bool → Str
restricted_str b = if b then codes "1" else codes "0"

restricted-IsValue : (b : Bool) → IsValue (restricted_str b)
restricted-IsValue b = ground arith

tag-IsName : (c : UpnpClass) → IsName (object_tag c)
unfolding object_tag
tag-IsName container = refl
tag-IsName video_item = refl
tag-IsName (custom value) = refl

tag-opened : (c : UpnpClass) (os : List Str) → opened os (object_tag c) ≡ text (object_tag c ∷ os)
unfolding object_tag opened
tag-opened container os = refl
tag-opened video_item os = refl
tag-opened (custom value) os = refl

write_object-Inside :
    (o : ObjectRef) (w : Str) {os : List Str}
    → IsCleanObject o
    → Inside w os
    → Inside (write_object w o) os
unfolding write_object read_all
write_object-Inside o w {os} c h =
    let name = object_tag o.class in
    let n = tag-IsName o.class in
    let h1 : At _ (quoted os name) =
      write _ (codes " id=\"") (write w (b'<' ∷ name) h (read_name os [] name n)) refl in
    let h2 : At _ (quoted os name) =
      write _ (codes "\" parentID=\"") (write_value _ o.id c.id h1) refl in
    let h3 : At _ (quoted os name) =
      write _ (codes "\" restricted=\"") (write_value _ o.parent_id c.parent_id h2) refl in
    let h4 : At _ (tagged os name) =
      write _ (codes "\"")
        (write_value _ (restricted_str o.restricted) (restricted-IsValue o.restricted) h3) refl in
    let h5 : Inside _ (codes "dc:title" ∷ name ∷ os) =
      write _ (codes "><dc:title>") (write_child_count-At o.child_count _ h4)
        (ap (λ r. read_all r (codes "<dc:title>")) (tag-opened o.class os)) in
    let h6 : Inside _ (codes "upnp:class" ∷ name ∷ os) =
      write _ (codes "</dc:title><upnp:class>") (write_escaped_text-Inside _ o.title h5) refl in
    let h7 : Inside _ (name ∷ os) =
      write _ (codes "</upnp:class>") (write_text _ (class_str o.class) c.class h6) refl in
    let h8 = write _ (codes "</") (write_resources-Inside o.resources _ c.resources h7) refl in
    write _ (codes ">") (write _ name h8 (read_name (name ∷ os) (b'/' ∷ []) name n))
      (closed_name os name)

write_objects-Inside :
    (objects : List ObjectRef) (w : Str) {os : List Str}
    → All IsCleanObject objects
    → Inside w os
    → Inside (write_objects w objects) os
unfolding write_objects
write_objects-Inside [] w c h = h
write_objects-Inside (o ∷ objects) w (c, cs) h =
    write_objects-Inside objects _ cs (write_object-Inside o w c h)

-- The text of objects of which nothing that is written without escapes ends an attribute or opens a
-- tag is nested, whatever their titles and URLs are.
pub write_didl-IsNested :
    (objects : List ObjectRef) → All IsCleanObject objects → IsNested (write_didl [] objects)
unfolding write_didl read_all
write_didl-IsNested objects c =
    let h1 =
      write []
        (codes
          "<DIDL-Lite xmlns=\"urn:schemas-upnp-org:metadata-1-0/DIDL-Lite/\" xmlns:dc=\"http://purl.org/dc/elements/1.1/\" xmlns:upnp=\"urn:schemas-upnp-org:metadata-1-0/upnp/\">")
        record { here = refl } refl in
    write _ (codes "</DIDL-Lite>") (write_objects-Inside objects _ c h1) refl
