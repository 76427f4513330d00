-- ===== src/Upnp/Soap/Nested.antt =====
-- crates/upnp-core/src/soap.rs: the tags of the SOAP messages that are written.
use rusty_castle.Prelude.{ℕ, ◌≡◌, refl, ap, ◌∙◌, List, [], ◌∷◌, ◌++◌, All}
use rusty_castle.Str.{Str, codes}
use rusty_castle.Upnp.Ids.{ServiceTypeRef, service_type_text}
use rusty_castle.Upnp.Xml.Nesting.{
  Inside, IsNested, IsName, IsValue, read_all, text, naming, quoted, write, write_show,
  write_text_element-Inside, write_escaped_text-Inside, read_name, read_all-quoted, read_all-append,
  closed_name,
}
use rusty_castle.Upnp.Soap.{
  ResponseArgumentRef, write_envelope_start, write_envelope_end, write_arguments,
  write_action_response, write_fault,
}

abbrev in_body : List Str
in_body = codes "s:Body" ∷ codes "s:Envelope" ∷ []

write_envelope_start-Inside : Inside (write_envelope_start []) in_body
unfolding write_envelope_start read_all
write_envelope_start-Inside = record { here = refl }

write_arguments-Inside :
    (arguments : List ResponseArgumentRef) (w : Str) {os : List Str}
    → All (λ a. IsName a.name) arguments
    → Inside w os
    → Inside (write_arguments w arguments) os
unfolding write_arguments
write_arguments-Inside [] w n h = h
write_arguments-Inside (arg ∷ arguments) w (n, ns) h =
    write_arguments-Inside arguments _ ns (write_text_element-Inside w arg.name arg.value n h)

-- The name of the element that answers `name`.
abbrev response_name : Str → Str
response_name name = codes "u:" ++ name ++ codes "Response"

-- The names of the tags that open and close it.
read_opening :
    (os : List Str) (name : Str)
    → read_all (naming os (codes "u:" ++ name)) (codes "Response xmlns:u=\"")
      ≡ quoted os (response_name name)
unfolding read_all
read_opening os name =
    read_all-append (naming os (codes "u:" ++ name)) (codes "Response") (codes " xmlns:u=\"")
    ∙ ap (λ r. read_all r (codes " xmlns:u=\""))
        (read_name os (codes "u:" ++ name) (codes "Response") refl)

read_closing :
    (os : List Str) (name : Str)
    → read_all (naming (response_name name ∷ os) (codes "/u:" ++ name)) (codes "Response>")
      ≡ text os
unfolding read_all
read_closing os name =
    read_all-append (naming (response_name name ∷ os) (codes "/u:" ++ name)) (codes "Response")
      (codes ">")
    ∙ ap (λ r. read_all r (codes ">"))
        (read_name (response_name name ∷ os) (codes "/u:" ++ name) (codes "Response") refl)
    ∙ closed_name os (response_name name)

-- A response whose service type holds no quote and no `<`, and in which the names are names of XML,
-- is nested, whatever the values of its arguments are.
pub write_action_response-IsNested :
    (s : ServiceTypeRef) (name : Str) (arguments : List ResponseArgumentRef)
    → IsValue (service_type_text s)
    → IsName name
    → All (λ a. IsName a.name) arguments
    → IsNested (write_action_response [] s name arguments)
unfolding write_action_response write_envelope_end read_all
write_action_response-IsNested s name arguments v n ns =
    let h1 =
      write _ name (write _ (codes "<u:") write_envelope_start-Inside refl)
        (read_name in_body (codes "u:") name n) in
    let h2 = write _ (codes "Response xmlns:u=\"") h1 (read_opening in_body name) in
    let h3 =
      write _ (service_type_text s) h2
        (read_all-quoted in_body (response_name name) (service_type_text s) v) in
    let h4 =
      write_arguments-Inside arguments _ {os = response_name name ∷ in_body} ns
        (write _ (codes "\">") h3 refl) in
    let h5 =
      write _ name (write _ (codes "</u:") h4 refl)
        (read_name (response_name name ∷ in_body) (codes "/u:") name n) in
    write _ (codes "</s:Body></s:Envelope>")
      (write _ (codes "Response>") h5 (read_closing in_body name)) refl

-- A fault is nested, whatever its description is.
pub write_fault-IsNested :
    (error_code : ℕ) (error_description : Str)
    → IsNested (write_fault [] error_code error_description)
unfolding write_fault write_envelope_end read_all
write_fault-IsNested error_code error_description =
    let h1 = write _ (codes "<s:Fault>") write_envelope_start-Inside refl in
    let h2 = write_text_element-Inside _ (codes "faultcode") (codes "s:Client") refl h1 in
    let h3 = write_text_element-Inside _ (codes "faultstring") (codes "UPnPError") refl h2 in
    let h4 =
      write _ (codes "<detail><UPnPError xmlns=\"urn:schemas-upnp-org:control-1-0\">") h3 refl in
    let h5 = write_show _ error_code (write _ (codes "<errorCode>") h4 refl) in
    let h6 = write _ (codes "</errorCode><errorDescription>") h5 refl in
    let h7 = write_escaped_text-Inside _ error_description h6 in
    write _ (codes "</s:Body></s:Envelope>")
      (write _ (codes "</errorDescription></UPnPError></detail></s:Fault>") h7 refl) refl
