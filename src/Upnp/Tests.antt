-- ===== src/Upnp/Tests.antt =====
-- Runs of crates/upnp-core on concrete documents.
use rusty_castle.Prelude.{refl, true, none, some, [], ◌∷◌}
use rusty_castle.Str.{codes}
use rusty_castle.Upnp.Device.{
  DeviceDescriptionRef, DeviceFields, default_spec_version, device, no_devices, and_device,
  write_device_description,
}
use rusty_castle.Upnp.Device.Nested.{IsCleanFields, write_device_description-IsNested}
use rusty_castle.Upnp.Scpd.{ScpdRef, in_, write_scpd}
use rusty_castle.Upnp.Scpd.Nested.{write_scpd-IsNested}
use rusty_castle.Upnp.Xml.Nesting.{IsNested, IsText-literal}

-- A device whose name holds the characters that are escaped.
abbrev box : DeviceFields
box = record {
  device_type = record { domain = codes "schemas-upnp-org"; kind = codes "Basic"; version = 1 };
  friendly_name = codes "<Tom & Jerry>";
  manufacturer = codes "\"me\"";
  manufacturer_url = none;
  model_description = some (codes "x < y");
  model_name = codes "box";
  model_number = none;
  model_url = none;
  serial_number = none;
  udn = record { uuid = codes "0001" };
  upc = none;
  dlna_doc = none;
  presentation_url = none;
  icons =
      record { mimetype = codes "image/png"; width = 8; height = 8; depth = 24; url = codes "/i" }
      ∷ [];
  services = [];
}

-- With a device that it embeds.
abbrev boxes : DeviceDescriptionRef
boxes = record {
  url_base = none;
  spec_version = default_spec_version;
  root = device box (and_device (device box no_devices) no_devices);
}

box-IsCleanFields : IsCleanFields box
box-IsCleanFields = record {
  domain = IsText-literal (codes "schemas-upnp-org") refl;
  kind = IsText-literal (codes "Basic") refl;
  udn = IsText-literal (codes "0001") refl;
  services = tt;
}

write_device_description-IsNested_example : IsNested (write_device_description [] boxes)
write_device_description-IsNested_example =
    write_device_description-IsNested boxes (box-IsCleanFields, ((box-IsCleanFields, tt), tt))

abbrev play : ScpdRef
play = record {
  major = 1;
  minor = 0;
  actions =
      record {
        name = codes "Play<";
        arguments =
            record { name = codes "Speed"; direction = in_; related_state_variable = codes "S" }
            ∷ [];
      }
      ∷ [];
  state_variables =
      record {
        send_events = true;
        name = codes "S";
        data_type = codes "string";
        default_value = some (codes "1");
        allowed_values = some (record { values = codes "1" ∷ codes "2" ∷ [] });
      }
      ∷ [];
}

write_scpd-IsNested_example : IsNested (write_scpd [] play)
write_scpd-IsNested_example = write_scpd-IsNested play
