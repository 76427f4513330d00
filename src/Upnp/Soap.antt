-- ===== src/Upnp/Soap.antt =====
-- crates/upnp-core/src/soap.rs: the SOAP messages and their writers. The reader is in Soap/Read.
pub mod Read
pub mod Nested
use rusty_castle.Prelude.{ℕ, List, [], ◌∷◌, ◌++◌}
use rusty_castle.Str.{Str, codes}
use rusty_castle.Str.Decimal.{show}
use rusty_castle.Upnp.Ids.{ServiceTypeRef, service_type_text}
use rusty_castle.Upnp.Xml.{write_escaped_text, write_text_element}

pub record ActionRequestRef : Type 0 where
  pub service_type : ServiceTypeRef
  pub action_name : Str
  pub arguments_xml : Str

pub record ArgumentRef : Type 0 where
  pub name : Str
  pub value : Str

pub record ResponseArgumentRef : Type 0 where
  pub name : Str
  pub value : Str

unfoldable pub write_envelope_start : Str → Str
write_envelope_start w =
    w
    ++ codes
        "<?xml version=\"1.0\"?><s:Envelope xmlns:s=\"http://schemas.xmlsoap.org/soap/envelope/\" s:encodingStyle=\"http://schemas.xmlsoap.org/soap/encoding/\"><s:Body>"

unfoldable pub write_envelope_end : Str → Str
write_envelope_end w = w ++ codes "</s:Body></s:Envelope>"

-- The loop over `arguments`.
unfoldable pub write_arguments : Str → List ResponseArgumentRef → Str
unfolding write_text_element
write_arguments w [] = w
write_arguments w (arg ∷ arguments) =
    write_arguments (write_text_element w arg.name arg.value) arguments

unfoldable pub write_action_response : Str → ServiceTypeRef → Str → List ResponseArgumentRef → Str
unfolding write_envelope_start write_envelope_end write_arguments service_type_text
write_action_response w service_type action_name arguments =
    let start =
      write_envelope_start w
      ++ codes "<u:"
      ++ action_name
      ++ codes "Response xmlns:u=\""
      ++ service_type_text service_type
      ++ codes "\">" in
    write_envelope_end
      (write_arguments start arguments ++ codes "</u:" ++ action_name ++ codes "Response>")

unfoldable pub write_fault : Str → ℕ → Str → Str
unfolding write_envelope_start write_envelope_end write_text_element write_escaped_text
write_fault w error_code error_description =
    let w1 = write_envelope_start w ++ codes "<s:Fault>" in
    let w2 = write_text_element w1 (codes "faultcode") (codes "s:Client") in
    let w3 = write_text_element w2 (codes "faultstring") (codes "UPnPError") in
    let w4 = w3 ++ codes "<detail><UPnPError xmlns=\"urn:schemas-upnp-org:control-1-0\">" in
    let w5 =
      w4 ++ codes "<errorCode>" ++ show error_code ++ codes "</errorCode><errorDescription>" in
    let w6 = write_escaped_text w5 error_description in
    write_envelope_end (w6 ++ codes "</errorDescription></UPnPError></detail></s:Fault>")
