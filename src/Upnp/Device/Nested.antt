-- ===== src/Upnp/Device/Nested.antt =====
-- crates/upnp-core/src/device.rs: the tags of the device description.
use rusty_castle.Prelude.{refl, Option, none, some, List, [], ◌∷◌, All}
use rusty_castle.Str.{Str, codes}
use rusty_castle.Upnp.Ids.{
  DeviceTypeRef, ServiceTypeRef, UdnRef, device_type_text, service_type_text, udn_text,
}
use rusty_castle.Upnp.Xml.Nesting.{
  Inside, IsNested, IsText, IsName, read_all, write, write_show, write_text_element-Inside,
  write_display_element-Inside, show-IsText, IsText-append, IsText-literal,
}
use rusty_castle.Upnp.Device.{
  DeviceDescriptionRef, DeviceFields, DeviceRef, Devices, IconRef, ServiceRef, device, no_devices,
  and_device, write_optional, write_icon_loop, write_icons, write_service_loop, write_services,
  write_device_head, write_device, write_devices, write_device_loop, write_url_base,
  write_device_description,
}

-- The texts that are written without escapes hold no `<` or `>`.
abbrev pub IsCleanService : ServiceRef → Type 0
IsCleanService s = IsText s.service_type.domain × IsText s.service_type.kind

pub record IsCleanFields (d : DeviceFields) : Type 0 where
  pub domain : IsText d.device_type.domain
  pub kind : IsText d.device_type.kind
  pub udn : IsText d.udn.uuid
  pub services : All IsCleanService d.services

abbrev mutual
  pub IsClean : DeviceRef → Type 0
  IsClean (device d devices) = IsCleanFields d × AreClean devices

  pub AreClean : Devices → Type 0
  AreClean no_devices = Unit {0}
  AreClean (and_device d devices) = IsClean d × AreClean devices

service_type-IsText :
    (s : ServiceTypeRef) → IsText s.domain → IsText s.kind → IsText (service_type_text s)
unfolding service_type_text
service_type-IsText s d k =
    IsText-append _ _
      (IsText-append _ _
        (IsText-append _ _
          (IsText-append (codes "urn:") s.domain (IsText-literal (codes "urn:") refl) d)
          (IsText-literal (codes ":service:") refl))
        k)
      (IsText-append (b':' ∷ []) _ (IsText-literal (b':' ∷ []) refl) (show-IsText s.version))

device_type-IsText :
    (d : DeviceTypeRef) → IsText d.domain → IsText d.kind → IsText (device_type_text d)
unfolding device_type_text
device_type-IsText s d k =
    IsText-append _ _
      (IsText-append _ _
        (IsText-append _ _
          (IsText-append (codes "urn:") s.domain (IsText-literal (codes "urn:") refl) d)
          (IsText-literal (codes ":device:") refl))
        k)
      (IsText-append (b':' ∷ []) _ (IsText-literal (b':' ∷ []) refl) (show-IsText s.version))

udn-IsText : (u : UdnRef) → IsText u.uuid → IsText (udn_text u)
unfolding udn_text
udn-IsText u h = IsText-append (codes "uuid:") u.uuid (IsText-literal (codes "uuid:") refl) h

write_optional-Inside :
    (w name : Str) (value : Option Str) {os : List Str}
    → IsName name
    → Inside w os
    → Inside (write_optional w name value) os
unfolding write_optional
write_optional-Inside w name none n h = h
write_optional-Inside w name (some value) n h = write_text_element-Inside w name value n h

write_icon_loop-Inside :
    (icons : List IconRef) (w : Str) {os : List Str}
    → Inside w os
    → Inside (write_icon_loop w icons) os
unfolding write_icon_loop read_all
write_icon_loop-Inside [] w h = h
write_icon_loop-Inside (icon ∷ icons) w h =
    let h1 = write w (codes "<icon>") h refl in
    let h2 = write_text_element-Inside _ (codes "mimetype") icon.mimetype refl h1 in
    let h3 = write_show _ icon.width (write _ (codes "<width>") h2 refl) in
    let h4 = write_show _ icon.height (write _ (codes "</width><height>") h3 refl) in
    let h5 = write_show _ icon.depth (write _ (codes "</height><depth>") h4 refl) in
    let h6 =
      write_text_element-Inside _ (codes "url") icon.url refl
        (write _ (codes "</depth>") h5 refl) in
    write_icon_loop-Inside icons _ (write _ (codes "</icon>") h6 refl)

write_icons-Inside :
    (w : Str) (icons : List IconRef) {os : List Str} → Inside w os → Inside (write_icons w icons) os
unfolding write_icons read_all
write_icons-Inside w [] h = h
write_icons-Inside w (icon ∷ icons) h =
    write _ (codes "</iconList>")
      (write_icon_loop-Inside (icon ∷ icons) _ (write w (codes "<iconList>") h refl)) refl

write_service_loop-Inside :
    (services : List ServiceRef) (w : Str) {os : List Str}
    → All IsCleanService services
    → Inside w os
    → Inside (write_service_loop w services) os
unfolding write_service_loop read_all
write_service_loop-Inside [] w c h = h
write_service_loop-Inside (s ∷ services) w ((d, k), c) h =
    let h1 =
      write_display_element-Inside _ (codes "serviceType") (service_type_text s.service_type) refl
        (service_type-IsText s.service_type d k) (write w (codes "<service>") h refl) in
    let h2 = write_text_element-Inside _ (codes "serviceId") s.service_id refl h1 in
    let h3 = write_text_element-Inside _ (codes "SCPDURL") s.scpd_url refl h2 in
    let h4 = write_text_element-Inside _ (codes "controlURL") s.control_url refl h3 in
    let h5 = write_text_element-Inside _ (codes "eventSubURL") s.event_sub_url refl h4 in
    write_service_loop-Inside services _ c (write _ (codes "</service>") h5 refl)

write_services-Inside :
    (w : Str) (services : List ServiceRef) {os : List Str}
    → All IsCleanService services
    → Inside w os
    → Inside (write_services w services) os
unfolding write_services read_all
write_services-Inside w [] c h = h
write_services-Inside w (s ∷ services) c h =
    write _ (codes "</serviceList>")
      (write_service_loop-Inside (s ∷ services) _ c (write w (codes "<serviceList>") h refl)) refl

write_device_head-Inside :
    (w : Str) (d : DeviceFields) {os : List Str}
    → IsCleanFields d
    → Inside w os
    → Inside (write_device_head w d) (codes "device" ∷ os)
unfolding write_device_head read_all
write_device_head-Inside w d c h =
    let h1 =
      write_display_element-Inside _ (codes "deviceType") (device_type_text d.device_type) refl
        (device_type-IsText d.device_type c.domain c.kind) (write w (codes "<device>") h refl) in
    let h2 = write_text_element-Inside _ (codes "friendlyName") d.friendly_name refl h1 in
    let h3 = write_text_element-Inside _ (codes "manufacturer") d.manufacturer refl h2 in
    let h4 = write_optional-Inside _ (codes "manufacturerURL") d.manufacturer_url refl h3 in
    let h5 = write_optional-Inside _ (codes "modelDescription") d.model_description refl h4 in
    let h6 = write_text_element-Inside _ (codes "modelName") d.model_name refl h5 in
    let h7 = write_optional-Inside _ (codes "modelNumber") d.model_number refl h6 in
    let h8 = write_optional-Inside _ (codes "modelURL") d.model_url refl h7 in
    let h9 = write_optional-Inside _ (codes "serialNumber") d.serial_number refl h8 in
    let h10 =
      write_display_element-Inside _ (codes "UDN") (udn_text d.udn) refl (udn-IsText d.udn c.udn)
        h9 in
    let h11 = write_optional-Inside _ (codes "UPC") d.upc refl h10 in
    let h12 = write_optional-Inside _ (codes "dlna:X_DLNADOC") d.dlna_doc refl h11 in
    write_services-Inside _ d.services c.services (write_icons-Inside _ d.icons h12)

mutual
  unfolding write_device read_all

  write_device-Inside :
      (d : DeviceRef) (w : Str) {os : List Str}
      → IsClean d
      → Inside w os
      → Inside (write_device w d) os
  write_device-Inside (device d devices) w (c, cs) h =
      write _ (codes "</device>")
        (write_optional-Inside _ (codes "presentationURL") d.presentation_url refl
          (write_devices-Inside devices _ cs (write_device_head-Inside w d c h)))
        refl

  write_devices-Inside :
      (devices : Devices) (w : Str) {os : List Str}
      → AreClean devices
      → Inside w os
      → Inside (write_devices w devices) os
  write_devices-Inside no_devices w c h = h
  write_devices-Inside (and_device d devices) w (c, cs) h =
      write _ (codes "</deviceList>")
        (write_device_loop-Inside devices _ cs
          (write_device-Inside d _ c (write w (codes "<deviceList>") h refl)))
        refl

  write_device_loop-Inside :
      (devices : Devices) (w : Str) {os : List Str}
      → AreClean devices
      → Inside w os
      → Inside (write_device_loop w devices) os
  write_device_loop-Inside no_devices w c h = h
  write_device_loop-Inside (and_device d devices) w (c, cs) h =
      write_device_loop-Inside devices _ cs (write_device-Inside d w c h)

write_url_base-Inside :
    (w : Str) (url_base : Option Str) {os : List Str}
    → Inside w os
    → Inside (write_url_base w url_base) os
unfolding write_url_base
write_url_base-Inside w none h = h
write_url_base-Inside w (some url_base) h =
    write_text_element-Inside w (codes "URLBase") url_base refl h

-- The description of a device in whose types and UDNs, and those of the devices that it embeds, no
-- `<` or `>` stands is nested, whatever its other texts are.
pub write_device_description-IsNested :
    (desc : DeviceDescriptionRef) → IsClean desc.root → IsNested (write_device_description [] desc)
unfolding write_device_description read_all
write_device_description-IsNested desc c =
    let h1 =
      write []
        (codes
          "<?xml version=\"1.0\"?><root xmlns=\"urn:schemas-upnp-org:device-1-0\" xmlns:dlna=\"urn:schemas-dlna-org:device-1-0\"><specVersion>")
        record { here = refl } refl in
    let h2 = write_show _ desc.spec_version.major (write _ (codes "<major>") h1 refl) in
    let h3 = write_show _ desc.spec_version.minor (write _ (codes "</major><minor>") h2 refl) in
    let h4 = write _ (codes "</specVersion>") (write _ (codes "</minor>") h3 refl) refl in
    write _ (codes "</root>")
      (write_device-Inside desc.root _ c (write_url_base-Inside _ desc.url_base h4)) refl
