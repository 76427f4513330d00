-- ===== src/Av/ConnectionManager.antt =====
-- crates/upnp-av-core/src/connection_manager.rs: the ConnectionManager service's messages.
use rusty_castle.Prelude.{ℕ, ◌+◌, List, [], ◌∷◌, ◌++◌, ◌==◌, if◌then◌else◌}
use rusty_castle.Str.{Str, codes}
use rusty_castle.Dlna.{ProtocolInfoRef, write_protocol_info}
use rusty_castle.Upnp.Ids.{ServiceTypeRef}
use rusty_castle.Upnp.Soap.{write_action_response}

abbrev pub connection_manager_service : ServiceTypeRef
connection_manager_service = record {
  domain = codes "schemas-upnp-org";
  kind = codes "ConnectionManager";
  version = 1;
}

-- The loop over `values`, from the value numbered `index`.
unfoldable pub protocol_info_loop : ℕ → Str → List ProtocolInfoRef → Str
unfolding write_protocol_info
protocol_info_loop index w [] = w
protocol_info_loop index w (value ∷ values) =
    let separated = if index == 0 then w else w ++ codes "," in
    protocol_info_loop (index + 1) (write_protocol_info separated value) values

unfoldable pub write_protocol_info_list : Str → List ProtocolInfoRef → Str
unfolding protocol_info_loop
write_protocol_info_list w values = protocol_info_loop 0 w values

unfoldable pub write_get_protocol_info_response : Str → Str → Str → Str
unfolding write_action_response
write_get_protocol_info_response w sink source =
    write_action_response w connection_manager_service (codes "GetProtocolInfo") (
      record { name = codes "Source"; value = source }
      ∷ record { name = codes "Sink"; value = sink }
      ∷ [])

unfoldable pub write_current_connection_ids_response : Str → Str
unfolding write_action_response
write_current_connection_ids_response w =
    write_action_response w connection_manager_service (codes "GetCurrentConnectionIDs")
      (record { name = codes "ConnectionIDs"; value = codes "0" } ∷ [])
