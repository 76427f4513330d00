-- ===== src/Upnp/Device.antt =====
-- crates/upnp-core/src/device.rs: the device description and its XML.
pub mod Nested
use rusty_castle.Prelude.{ℕ, Option, none, some, List, [], ◌∷◌, ◌++◌, if◌then◌else◌, is_empty}
use rusty_castle.Str.{Str, codes}
use rusty_castle.Str.Decimal.{show}
use rusty_castle.Upnp.Ids.{
  DeviceTypeRef, ServiceTypeRef, UdnRef, device_type_text, service_type_text, udn_text,
}
use rusty_castle.Upnp.Xml.{write_text_element, write_display_element}

pub record SpecVersion : Type 0 where
  pub major : ℕ
  pub minor : ℕ

abbrev pub default_spec_version : SpecVersion
default_spec_version = record { major = 1; minor = 0 }

pub record ServiceRef : Type 0 where
  pub service_type : ServiceTypeRef
  pub service_id : Str
  pub scpd_url : Str
  pub control_url : Str
  pub event_sub_url : Str

pub record IconRef : Type 0 where
  pub mimetype : Str
  pub width : ℕ
  pub height : ℕ
  pub depth : ℕ
  pub url : Str

-- The fields of `DeviceRef` but `devices`.
pub record DeviceFields : Type 0 where
  pub device_type : DeviceTypeRef
  pub friendly_name : Str
  pub manufacturer : Str
  pub manufacturer_url : Option Str
  pub model_description : Option Str
  pub model_name : Str
  pub model_number : Option Str
  pub model_url : Option Str
  pub serial_number : Option Str
  pub udn : UdnRef
  pub upc : Option Str
  pub dlna_doc : Option Str
  pub presentation_url : Option Str
  pub icons : List IconRef
  pub services : List ServiceRef

-- `DeviceRef`, and the slice of devices that it holds.
mutual
  pub data DeviceRef : Type 0 where
    device : DeviceFields → Devices → DeviceRef

  pub data Devices : Type 0 where
    no_devices : Devices
    and_device : DeviceRef → Devices → Devices

pub record DeviceDescriptionRef : Type 0 where
  pub url_base : Option Str
  pub spec_version : SpecVersion
  pub root : DeviceRef

unfoldable pub write_optional : Str → Str → Option Str → Str
unfolding write_text_element
write_optional w name none = w
write_optional w name (some value) = write_text_element w name value

-- The loop over `icons`.
unfoldable pub write_icon_loop : Str → List IconRef → Str
unfolding write_text_element
write_icon_loop w [] = w
write_icon_loop w (icon ∷ icons) =
    let w1 = write_text_element (w ++ codes "<icon>") (codes "mimetype") icon.mimetype in
    let w2 =
      w1
      ++ codes "<width>"
      ++ show icon.width
      ++ codes "</width><height>"
      ++ show icon.height
      ++ codes "</height><depth>"
      ++ show icon.depth
      ++ codes "</depth>" in
    write_icon_loop (write_text_element w2 (codes "url") icon.url ++ codes "</icon>") icons

unfoldable pub write_icons : Str → List IconRef → Str
unfolding write_icon_loop
write_icons w icons =
    if is_empty icons
    then w
    else write_icon_loop (w ++ codes "<iconList>") icons ++ codes "</iconList>"

-- The loop over `services`.
unfoldable pub write_service_loop : Str → List ServiceRef → Str
unfolding write_text_element write_display_element service_type_text
write_service_loop w [] = w
write_service_loop w (s ∷ services) =
    let w1 =
      write_display_element (w ++ codes "<service>") (codes "serviceType")
        (service_type_text s.service_type) in
    let w2 = write_text_element w1 (codes "serviceId") s.service_id in
    let w3 = write_text_element w2 (codes "SCPDURL") s.scpd_url in
    let w4 = write_text_element w3 (codes "controlURL") s.control_url in
    let w5 = write_text_element w4 (codes "eventSubURL") s.event_sub_url in
    write_service_loop (w5 ++ codes "</service>") services

unfoldable pub write_services : Str → List ServiceRef → Str
unfolding write_service_loop
write_services w services =
    if is_empty services
    then w
    else write_service_loop (w ++ codes "<serviceList>") services ++ codes "</serviceList>"

-- `write_device` up to its call of `write_services`.
unfoldable pub write_device_head : Str → DeviceFields → Str
unfolding write_text_element write_display_element write_optional write_icons write_services
    device_type_text udn_text
write_device_head w d =
    let w1 =
      write_display_element (w ++ codes "<device>") (codes "deviceType")
        (device_type_text d.device_type) in
    let w2 = write_text_element w1 (codes "friendlyName") d.friendly_name in
    let w3 = write_text_element w2 (codes "manufacturer") d.manufacturer in
    let w4 = write_optional w3 (codes "manufacturerURL") d.manufacturer_url in
    let w5 = write_optional w4 (codes "modelDescription") d.model_description in
    let w6 = write_text_element w5 (codes "modelName") d.model_name in
    let w7 = write_optional w6 (codes "modelNumber") d.model_number in
    let w8 = write_optional w7 (codes "modelURL") d.model_url in
    let w9 = write_optional w8 (codes "serialNumber") d.serial_number in
    let w10 = write_display_element w9 (codes "UDN") (udn_text d.udn) in
    let w11 = write_optional w10 (codes "UPC") d.upc in
    let w12 = write_optional w11 (codes "dlna:X_DLNADOC") d.dlna_doc in
    write_services (write_icons w12 d.icons) d.services

unfoldable mutual
  unfolding write_device_head write_optional

  pub write_device : Str → DeviceRef → Str
  write_device w (device d devices) =
      let inner = write_devices (write_device_head w d) devices in
      write_optional inner (codes "presentationURL") d.presentation_url ++ codes "</device>"

  -- The first turn of the loop is written out.
  pub write_devices : Str → Devices → Str
  write_devices w no_devices = w
  write_devices w (and_device d devices) =
      write_device_loop (write_device (w ++ codes "<deviceList>") d) devices
      ++ codes "</deviceList>"

  pub write_device_loop : Str → Devices → Str
  write_device_loop w no_devices = w
  write_device_loop w (and_device d devices) = write_device_loop (write_device w d) devices

unfoldable pub write_url_base : Str → Option Str → Str
unfolding write_text_element
write_url_base w none = w
write_url_base w (some url_base) = write_text_element w (codes "URLBase") url_base

unfoldable pub write_device_description : Str → DeviceDescriptionRef → Str
unfolding write_url_base write_device
write_device_description w desc =
    let w1 =
      w
      ++ codes
          "<?xml version=\"1.0\"?><root xmlns=\"urn:schemas-upnp-org:device-1-0\" xmlns:dlna=\"urn:schemas-dlna-org:device-1-0\"><specVersion>" in
    let w2 =
      w1
      ++ codes "<major>"
      ++ show desc.spec_version.major
      ++ codes "</major><minor>"
      ++ show desc.spec_version.minor
      ++ codes "</minor>" in
    let w3 = write_url_base (w2 ++ codes "</specVersion>") desc.url_base in
    write_device w3 desc.root ++ codes "</root>"
