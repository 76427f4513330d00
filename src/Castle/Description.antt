-- ===== src/Castle/Description.antt =====
-- crates/rusty-castle/src/description.rs: the server's configuration and its documents. The crate's
-- version, which the build supplies, is a parameter.
use rusty_castle.Prelude.{true, false, none, some, List, [], ◌∷◌}
use rusty_castle.Str.{Str, codes}
use rusty_castle.Av.ConnectionManager.{connection_manager_service}
use rusty_castle.Av.ContentDirectory.{content_directory_service}
use rusty_castle.Upnp.Device.{
  DeviceFields, ServiceRef, default_spec_version, device, no_devices, write_device_description,
}
use rusty_castle.Upnp.Scpd.{
  ArgumentDirection, ArgumentRef, ScpdRef, StateVariableRef, in_, out, write_scpd,
}

pub record ServerConfig : Type 0 where
  pub base_url : Str
  pub uuid : Str
  pub friendly_name : Str
  pub manufacturer : Str
  pub model_name : Str

unfoldable pub new_config : Str → Str → Str → ServerConfig
new_config base_url uuid friendly_name = record {
  base_url = base_url;
  uuid = uuid;
  friendly_name = friendly_name;
  manufacturer = codes "upnp-forge";
  model_name = codes "rusty-castle";
}

abbrev services : List ServiceRef
services =
    record {
      service_type = content_directory_service;
      service_id = codes "urn:upnp-org:serviceId:ContentDirectory";
      scpd_url = codes "/ContentDirectory/scpd.xml";
      control_url = codes "/ContentDirectory/control";
      event_sub_url = codes "/ContentDirectory/event";
    }
    ∷ record {
      service_type = connection_manager_service;
      service_id = codes "urn:upnp-org:serviceId:ConnectionManager";
      scpd_url = codes "/ConnectionManager/scpd.xml";
      control_url = codes "/ConnectionManager/control";
      event_sub_url = codes "/ConnectionManager/event";
    }
    ∷ []

-- The device that `device_xml` describes.
unfoldable pub server_device : Str → ServerConfig → DeviceFields
server_device version config = record {
  device_type = record {
    domain = codes "schemas-upnp-org";
    kind = codes "MediaServer";
    version = 1;
  };
  friendly_name = config.friendly_name;
  manufacturer = config.manufacturer;
  manufacturer_url = none;
  model_description = some (codes "Rust UPnP AV MediaServer");
  model_name = config.model_name;
  model_number = some version;
  model_url = none;
  serial_number = none;
  udn = record { uuid = config.uuid };
  upc = none;
  dlna_doc = some (codes "DMS-1.50");
  presentation_url = none;
  icons = [];
  services = services;
}

unfoldable pub device_xml : Str → ServerConfig → Str
unfolding server_device write_device_description
device_xml version config = write_device_description [] record {
  url_base = some config.base_url;
  spec_version = default_spec_version;
  root = device (server_device version config) no_devices;
}

unfoldable pub arg : Str → ArgumentDirection → Str → ArgumentRef
arg name direction related_state_variable = record {
  name = name;
  direction = direction;
  related_state_variable = related_state_variable;
}

unfoldable pub var : Str → Str → StateVariableRef
var name data_type = record {
  send_events = false;
  name = name;
  data_type = data_type;
  default_value = none;
  allowed_values = none;
}

unfoldable pub content_directory_scpd : ScpdRef
unfolding arg var
content_directory_scpd = record {
  major = 1;
  minor = 0;
  actions =
      record {
        name = codes "Browse";
        arguments =
            arg (codes "ObjectID") in_ (codes "A_ARG_TYPE_ObjectID")
            ∷ arg (codes "BrowseFlag") in_ (codes "A_ARG_TYPE_BrowseFlag")
            ∷ arg (codes "Filter") in_ (codes "A_ARG_TYPE_Filter")
            ∷ arg (codes "StartingIndex") in_ (codes "A_ARG_TYPE_Index")
            ∷ arg (codes "RequestedCount") in_ (codes "A_ARG_TYPE_Count")
            ∷ arg (codes "SortCriteria") in_ (codes "A_ARG_TYPE_SortCriteria")
            ∷ arg (codes "Result") out (codes "A_ARG_TYPE_Result")
            ∷ arg (codes "NumberReturned") out (codes "A_ARG_TYPE_Count")
            ∷ arg (codes "TotalMatches") out (codes "A_ARG_TYPE_Count")
            ∷ arg (codes "UpdateID") out (codes "A_ARG_TYPE_UpdateID")
            ∷ [];
      }
      ∷ record {
        name = codes "GetSearchCapabilities";
        arguments = arg (codes "SearchCaps") out (codes "A_ARG_TYPE_Filter") ∷ [];
      }
      ∷ record {
        name = codes "GetSortCapabilities";
        arguments = arg (codes "SortCaps") out (codes "A_ARG_TYPE_SortCriteria") ∷ [];
      }
      ∷ record {
        name = codes "GetSystemUpdateID";
        arguments = arg (codes "Id") out (codes "A_ARG_TYPE_UpdateID") ∷ [];
      }
      ∷ [];
  state_variables =
      var (codes "A_ARG_TYPE_ObjectID") (codes "string")
      ∷ var (codes "A_ARG_TYPE_BrowseFlag") (codes "string")
      ∷ var (codes "A_ARG_TYPE_Filter") (codes "string")
      ∷ var (codes "A_ARG_TYPE_SortCriteria") (codes "string")
      ∷ var (codes "A_ARG_TYPE_Result") (codes "string")
      ∷ var (codes "A_ARG_TYPE_Index") (codes "ui4")
      ∷ var (codes "A_ARG_TYPE_Count") (codes "ui4")
      ∷ var (codes "A_ARG_TYPE_UpdateID") (codes "ui4")
      ∷ record {
        send_events = true;
        name = codes "SystemUpdateID";
        data_type = codes "ui4";
        default_value = some (codes "0");
        allowed_values = none;
      }
      ∷ [];
}

unfoldable pub content_directory_scpd_xml : Str
unfolding content_directory_scpd write_scpd
content_directory_scpd_xml = write_scpd [] content_directory_scpd

unfoldable pub connection_manager_scpd : ScpdRef
unfolding arg var
connection_manager_scpd = record {
  major = 1;
  minor = 0;
  actions =
      record {
        name = codes "GetProtocolInfo";
        arguments =
            arg (codes "Source") out (codes "SourceProtocolInfo")
            ∷ arg (codes "Sink") out (codes "SinkProtocolInfo")
            ∷ [];
      }
      ∷ record {
        name = codes "GetCurrentConnectionIDs";
        arguments = arg (codes "ConnectionIDs") out (codes "CurrentConnectionIDs") ∷ [];
      }
      ∷ [];
  state_variables =
      var (codes "SourceProtocolInfo") (codes "string")
      ∷ var (codes "SinkProtocolInfo") (codes "string")
      ∷ var (codes "CurrentConnectionIDs") (codes "string")
      ∷ [];
}

unfoldable pub connection_manager_scpd_xml : Str
unfolding connection_manager_scpd write_scpd
connection_manager_scpd_xml = write_scpd [] connection_manager_scpd
