-- ===== src/Av/Didl.antt =====
-- crates/upnp-av-core/src/didl.rs: the objects of a ContentDirectory and their DIDL-Lite text.
pub mod Nested
use rusty_castle.Prelude.{ℕ, Bool, Option, none, some, List, [], ◌∷◌, ◌++◌, if◌then◌else◌}
use rusty_castle.Str.{Str, codes}
use rusty_castle.Str.Decimal.{show}
use rusty_castle.Dlna.{ProtocolInfoRef, write_protocol_info}
use rusty_castle.Upnp.Xml.{write_escaped_text}

pub data UpnpClass : Type 0 where
  container video_item : UpnpClass
  custom : Str → UpnpClass

unfoldable pub class_str : UpnpClass → Str
class_str container = codes "object.container"
class_str video_item = codes "object.item.videoItem"
class_str (custom value) = value

pub record ResourceRef : Type 0 where
  pub url : Str
  pub protocol_info : ProtocolInfoRef
  pub size : Option ℕ
  pub duration : Option Str

pub record ObjectRef : Type 0 where
  pub id : Str
  pub parent_id : Str
  pub restricted : Bool
  pub title : Str
  pub class : UpnpClass
  pub child_count : Option ℕ
  pub resources : List ResourceRef

unfoldable pub write_size : Str → Option ℕ → Str
write_size w none = w
write_size w (some size) = w ++ codes " size=\"" ++ show size ++ codes "\""

unfoldable pub write_duration : Str → Option Str → Str
write_duration w none = w
write_duration w (some duration) = w ++ codes " duration=\"" ++ duration ++ codes "\""

unfoldable pub write_resource : Str → ResourceRef → Str
unfolding write_size write_duration write_protocol_info write_escaped_text
write_resource w res =
    let w1 = write_protocol_info (w ++ codes "<res protocolInfo=\"") res.protocol_info in
    let w2 = write_duration (write_size (w1 ++ codes "\"") res.size) res.duration in
    write_escaped_text (w2 ++ codes ">") res.url ++ codes "</res>"

-- The loop over `object.resources`.
unfoldable pub write_resources : Str → List ResourceRef → Str
unfolding write_resource
write_resources w [] = w
write_resources w (res ∷ resources) = write_resources (write_resource w res) resources

unfoldable pub object_tag : UpnpClass → Str
object_tag container = codes "container"
object_tag video_item = codes "item"
object_tag (custom value) = codes "item"

unfoldable pub write_child_count : Str → Option ℕ → Str
write_child_count w none = w
write_child_count w (some child_count) =
    w ++ codes " childCount=\"" ++ show child_count ++ codes "\""

unfoldable pub write_object : Str → ObjectRef → Str
unfolding object_tag class_str write_child_count write_resources write_escaped_text
write_object w object =
    let tag = object_tag object.class in
    let w1 =
      w
      ++ b'<' ∷ tag
      ++ codes " id=\""
      ++ object.id
      ++ codes "\" parentID=\""
      ++ object.parent_id
      ++ codes "\" restricted=\""
      ++ (if object.restricted then codes "1" else codes "0")
      ++ codes "\"" in
    let w2 = write_child_count w1 object.child_count ++ codes "><dc:title>" in
    let w3 = write_escaped_text w2 object.title ++ codes "</dc:title><upnp:class>" in
    let w4 = w3 ++ class_str object.class ++ codes "</upnp:class>" in
    write_resources w4 object.resources ++ codes "</" ++ tag ++ codes ">"

-- The loop over `objects`.
unfoldable pub write_objects : Str → List ObjectRef → Str
unfolding write_object
write_objects w [] = w
write_objects w (object ∷ objects) = write_objects (write_object w object) objects

unfoldable pub write_didl : Str → List ObjectRef → Str
unfolding write_objects
write_didl w objects =
    let w1 =
      w
      ++ codes
          "<DIDL-Lite xmlns=\"urn:schemas-upnp-org:metadata-1-0/DIDL-Lite/\" xmlns:dc=\"http://purl.org/dc/elements/1.1/\" xmlns:upnp=\"urn:schemas-upnp-org:metadata-1-0/upnp/\">" in
    write_objects w1 objects ++ codes "</DIDL-Lite>"
