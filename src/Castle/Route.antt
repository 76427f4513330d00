-- ===== src/Castle/Route.antt =====
-- crates/rusty-castle/src/runtime.rs: the answers to HTTP requests. Parameters are the crate's
-- version, the file system (the media directory for a rescan, and the length and the bytes of a
-- path) and the clock. The outer `none` of a result is a panic.
pub mod Media
use rusty_castle.Prelude.{
  ℕ, Bool, ◌&&◌, ◌||◌, Option, none, some, List, [], if◌then◌else◌, Result, ok, err, ◌>>=◌, ◌>>=?◌,
  take, drop,
}
use rusty_castle.Str.{Str, Bytes, codes, as_bytes, str_eq, strip_prefix}
use rusty_castle.Str.Decimal.{show}
use rusty_castle.Dlna.{write_content_features}
use rusty_castle.MediaHttp.Range.{SatisfiableRange, range_len}
use rusty_castle.MediaHttp.Response.{
  Method, get, head, MediaHeadersRef, MediaResponsePlan, ContentRange, plan_media_response,
}
use rusty_castle.Castle.Control.{handle_control, into_response, ControlResponse}
use rusty_castle.Castle.Description.{
  device_xml, content_directory_scpd_xml, connection_manager_scpd_xml,
}
use rusty_castle.Castle.Http.{
  HttpRequest, HttpResponse, header, empty_response, new_response, push_header, status_code,
  format_content_range, xml_response,
}
use rusty_castle.Castle.Mp4.{IoError}
use rusty_castle.Castle.Scan.{Listing, ServedMedia}
use rusty_castle.Castle.State.{
  SharedRuntimeState, SystemTime, media_by_id_or_legacy_index, rescan_library,
}
use rusty_castle.Castle.Ui.{ui_index_body, ui_library_body, rescan_failed_body}

pub record World : Type 0 where
  pub version : Str
  pub media_dir : Listing
  pub file_len : List Str → Result IoError ℕ
  pub open_file : List Str → Result IoError Bytes
  pub now : SystemTime
  pub scan_duration : ℕ

-- The response and the state behind it, or the error that closes the connection.
abbrev pub Routed : Type 0
Routed = Option (Result IoError HttpResponse × SharedRuntimeState)

abbrev not_found : HttpResponse
not_found = new_response 404 (codes "text/plain; charset=\"utf-8\"") (as_bytes (codes "not found"))

unfoldable pub push_content_range : Option ContentRange → HttpResponse → HttpResponse
unfolding format_content_range push_header
push_content_range none response = response
push_content_range (some range) response =
    push_header (codes "Content-Range") (format_content_range range) response

-- The response of a plan, before its body is read.
unfoldable pub plan_headers : MediaResponsePlan → HttpResponse
unfolding empty_response push_header push_content_range status_code write_content_features
plan_headers plan =
    let r1 = empty_response (status_code plan.status) plan.content_type in
    let r2 = push_header (codes "Accept-Ranges") plan.accept_ranges r1 in
    let r3 = push_header (codes "transferMode.dlna.org") plan.transfer_mode r2 in
    let features = write_content_features [] plan.protocol_info in
    let r4 = push_header (codes "contentFeatures.dlna.org") features r3 in
    push_header (codes "Content-Length") (show plan.content_length)
      (push_content_range plan.content_range r4)

-- `file.seek(range.start)`, and `file.take(range.len())` to its end
unfoldable pub read_range : Bytes → SatisfiableRange → Bytes
unfolding range_len
read_range file range = take (range_len range) (drop range.start file)

unfoldable pub plan_body : Result IoError Bytes → MediaResponsePlan → Result IoError Bytes
unfolding read_range
plan_body opened plan =
    if plan.send_body
    then (elim plan.body_range [
      | none ↦ ok []
      | some range ↦ opened >>= λ file. ok (read_range file range)
    ])
    else ok []

-- The response of a plan, with its body read from the file that `File::open` gives.
unfoldable pub answer_plan : Result IoError Bytes → MediaResponsePlan → Result IoError HttpResponse
unfolding plan_headers plan_body
answer_plan opened plan =
    plan_body opened plan >>= λ body. ok (record (plan_headers plan) { body = body })

abbrev pub headers_of : ℕ → ServedMedia → MediaHeadersRef
headers_of len entry = record {
  len = len;
  content_type = entry.item.mime_type;
  protocol_info = entry.item.protocol_info;
}

-- `media_response` for an entry that is found.
unfoldable pub entry_response :
    World → ServedMedia → Method → Option Str → Result IoError HttpResponse
unfolding plan_media_response answer_plan
entry_response world entry method range = world.file_len entry.path >>= λ len.
    answer_plan (world.open_file entry.path)
      (plan_media_response method (headers_of len entry) range)

unfoldable pub media_response :
    World → SharedRuntimeState → Str → Method → Option Str → Result IoError HttpResponse
unfolding media_by_id_or_legacy_index entry_response new_response
media_response world state id method range = elim (media_by_id_or_legacy_index id state.current) [
  | none ↦ ok not_found
  | some entry ↦ entry_response world entry method range
]

abbrev html_response : ℕ → Str → HttpResponse
html_response status body =
    new_response status (codes "text/html; charset=\"utf-8\"") (as_bytes body)

unfoldable pub ui_rescan_response : World → SharedRuntimeState → Routed
unfolding rescan_library new_response push_header rescan_failed_body
ui_rescan_response world state =
    rescan_library world.media_dir world.now world.scan_duration state >>=? λ outcome.
    elim outcome.0 [
      | ok _ ↦
          let response = new_response 303 (codes "text/plain; charset=\"utf-8\"") [] in
          some (ok (push_header (codes "Location") (codes "/ui/library") response), outcome.1)
      | err e ↦ some (ok (html_response 500 (rescan_failed_body e)), outcome.1)
    ]

abbrev of_control : ControlResponse → HttpResponse
of_control r = new_response r.status_code (codes "text/xml; charset=\"utf-8\"") (as_bytes r.body)

unfoldable pub control_route : HttpRequest → SharedRuntimeState → Routed
unfolding handle_control into_response new_response
control_route request state = handle_control request.body state.current.catalog >>=? λ answer.
    elim answer [
      | ok response ↦ some (ok (of_control response), state)
      | err e ↦ some (ok (of_control (into_response e)), state)
    ]

-- The arms of `route_request`: the method, the path and the state of the web interface.
pub data Action : Type 0 where
  device_document directory_document connection_document : Action
  ui_index ui_library ui_rescan control not_found_action : Action
  media : Str → Method → Action

abbrev media_action : Str → Method → Action
media_action path method = elim (strip_prefix (codes "/media/") path) [
  | none ↦ not_found_action
  | some id ↦ media id method
]

abbrev get_action : Bool → Str → Action
get_action web_ui path =
    if str_eq path (codes "/device.xml")
    then device_document
    else if str_eq path (codes "/ContentDirectory/scpd.xml")
    then directory_document
    else if str_eq path (codes "/ConnectionManager/scpd.xml")
    then connection_document
    else if str_eq path (codes "/ui") && web_ui
    then ui_index
    else if str_eq path (codes "/ui/library") && web_ui
    then ui_library
    else media_action path get

abbrev post_action : Bool → Str → Action
post_action web_ui path =
    if str_eq path (codes "/ui/rescan") && web_ui
    then ui_rescan
    else if str_eq path (codes "/ContentDirectory/control")
        || str_eq path (codes "/ConnectionManager/control")
    then control
    else not_found_action

unfoldable pub action_of : Bool → Str → Str → Action
unfolding str_eq strip_prefix
action_of web_ui method path =
    if str_eq method (codes "GET")
    then get_action web_ui path
    else if str_eq method (codes "POST")
    then post_action web_ui path
    else if str_eq method (codes "HEAD")
    then media_action path head
    else not_found_action

unfoldable pub perform : World → HttpRequest → Action → SharedRuntimeState → Routed
unfolding xml_response new_response media_response header device_xml content_directory_scpd_xml
    connection_manager_scpd_xml ui_index_body ui_library_body ui_rescan_response control_route
perform world request device_document state =
    some (ok (xml_response (device_xml world.version state.current.config)), state)
perform world request directory_document state =
    some (ok (xml_response content_directory_scpd_xml), state)
perform world request connection_document state =
    some (ok (xml_response connection_manager_scpd_xml), state)
perform world request ui_index state =
    some (ok (html_response 200 (ui_index_body state.current state.scan_status)), state)
perform world request ui_library state =
    some (ok (html_response 200 (ui_library_body state.current state.scan_status)), state)
perform world request ui_rescan state = ui_rescan_response world state
perform world request control state = control_route request state
perform world request not_found_action state = some (ok not_found, state)
perform world request (media id method) state =
    some (media_response world state id method (header (codes "range") request), state)

unfoldable pub route_request : World → HttpRequest → SharedRuntimeState → Routed
unfolding action_of perform
route_request world request state =
    perform world request (action_of state.current.web_ui_enabled request.method request.path) state
