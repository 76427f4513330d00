-- ===== src/Castle/Control.antt =====
-- crates/rusty-castle/src/control.rs: the answers to SOAP control requests. The outer `none` of a
-- result is a panic of the number writer. The texts are written to a `String`, whose writes do not
-- fail, so no step returns `write_failed`.
pub mod Answers
pub mod Browse
pub mod Listing
use rusty_castle.Prelude.{
  ℕ, Bool, true, false, ◌||◌, Option, none, some, List, [], ◌∷◌, ◌++◌, map, if◌then◌else◌, Result,
  ok, err, is_empty,
}
use rusty_castle.Str.{Str, codes, str_eq}
use rusty_castle.Dlna.{ProtocolInfoRef, protocol_info_eq, sony_mp4}
use rusty_castle.Upnp.Ids.{ServiceTypeRef}
use rusty_castle.Upnp.Soap.{ActionRequestRef, ArgumentRef, write_action_response, write_fault}
use rusty_castle.Upnp.Soap.Read.{parse_action_request, arguments}
use rusty_castle.Av.Didl.{ObjectRef, ResourceRef, UpnpClass, container, video_item, write_didl}
use rusty_castle.Av.ContentDirectory.{
  BrowseFlag, metadata, direct_children, parse_browse_flag, write_browse_response,
  write_system_update_id_response, content_directory_service,
}
use rusty_castle.Av.ConnectionManager.{
  write_protocol_info_list, write_get_protocol_info_response, write_current_connection_ids_response,
}
use rusty_castle.Castle.Catalog.{
  StaticCatalog, MediaContainer, MediaItem, child_count, child_items, child_containers, find_item,
  find_container,
}

pub record ControlResponse : Type 0 where
  pub body : Str
  pub status_code : ℕ

pub data ControlError : Type 0 where
  bad_request invalid_action no_such_object write_failed : ControlError

unfoldable pub error_code : ControlError → ℕ
error_code bad_request = 402
error_code invalid_action = 401
error_code no_such_object = 701
error_code write_failed = 501

unfoldable pub error_description : ControlError → Str
error_description bad_request = codes "Invalid Args"
error_description invalid_action = codes "Invalid Action"
error_description no_such_object = codes "No Such Object"
error_description write_failed = codes "Action Failed"

unfoldable pub into_response : ControlError → ControlResponse
unfolding error_code error_description write_fault
into_response e = record {
  body = write_fault [] (error_code e) (error_description e);
  status_code = 500;
}

unfoldable pub ok_response : Str → ControlResponse
ok_response body = record { body = body; status_code = 200 }

-- What a handler returns: `none` is a panic.
abbrev pub Answer : Type 0
Answer = Option (Result ControlError ControlResponse)

-- `write(&mut body)…; Ok(ok(body))` where writing may panic
abbrev pub answer_with : Option Str → Answer
answer_with none = none
answer_with (some body) = some (ok (ok_response body))

unfoldable pub find_argument : Str → List ArgumentRef → Option Str
unfolding str_eq
find_argument name [] = none
find_argument name (a ∷ args) =
    let rest = find_argument name args in if str_eq a.name name then some a.value else rest

unfoldable pub arg : ActionRequestRef → Str → Option Str
unfolding find_argument arguments
arg action name = find_argument name (arguments action)

unfoldable pub resource_for_item : MediaItem → ResourceRef
resource_for_item item = record {
  url = item.url;
  protocol_info = item.protocol_info;
  size = item.size;
  duration = item.duration;
}

unfoldable pub object_for_item : MediaItem → List ResourceRef → ObjectRef
object_for_item item resources = record {
  id = item.id;
  parent_id = item.parent_id;
  restricted = true;
  title = item.title;
  class = video_item;
  child_count = none;
  resources = resources;
}

unfoldable pub object_for_container : StaticCatalog → MediaContainer → ObjectRef
unfolding child_count
object_for_container catalog c = record {
  id = c.id;
  parent_id = c.parent_id;
  restricted = true;
  title = c.title;
  class = container;
  child_count = some (child_count catalog c.id);
  resources = [];
}

unfoldable pub root_object : StaticCatalog → ObjectRef
unfolding child_count
root_object catalog = record {
  id = codes "0";
  parent_id = codes "-1";
  restricted = true;
  title = codes "Media";
  class = container;
  child_count = some (child_count catalog (codes "0"));
  resources = [];
}

unfoldable pub root_didl : StaticCatalog → Str
unfolding root_object write_didl
root_didl catalog = write_didl [] (root_object catalog ∷ [])

-- `objects` of `children_didl`; each item has its one resource.
unfoldable pub children_objects : StaticCatalog → Str → List ObjectRef
unfolding child_containers child_items object_for_container object_for_item resource_for_item
children_objects catalog parent_id =
    map (object_for_container catalog) (child_containers catalog parent_id)
    ++ map (λ item. object_for_item item (resource_for_item item ∷ []))
        (child_items catalog parent_id)

unfoldable pub children_didl : StaticCatalog → Str → Str
unfolding children_objects write_didl
children_didl catalog parent_id = write_didl [] (children_objects catalog parent_id)

unfoldable pub container_didl : StaticCatalog → MediaContainer → Str
unfolding object_for_container write_didl
container_didl catalog c = write_didl [] (object_for_container catalog c ∷ [])

unfoldable pub item_didl : MediaItem → Str
unfolding object_for_item resource_for_item write_didl
item_didl item = write_didl [] (object_for_item item (resource_for_item item ∷ []) ∷ [])

unfoldable pub empty_didl : Str
unfolding write_didl
empty_didl = write_didl [] []

-- The `result`, `number_returned` and `total_matches` of `browse` for an object other than the
-- root.
unfoldable pub browse_object : StaticCatalog → Str → BrowseFlag → Result ControlError (Str × ℕ × ℕ)
unfolding find_container find_item container_didl item_didl children_didl empty_didl child_count
browse_object catalog id metadata = elim (find_container id catalog.containers) [
  | some c ↦ ok (container_didl catalog c, 1, 1)
  | none ↦ elim (find_item id catalog.items) [
    | none ↦ err no_such_object
    | some item ↦ ok (item_didl item, 1, 1)
  ]
]
browse_object catalog id direct_children = elim (find_container id catalog.containers) [
  | some _ ↦ ok (children_didl catalog id, child_count catalog id, child_count catalog id)
  | none ↦ elim (find_item id catalog.items) [
    | none ↦ err no_such_object
    | some _ ↦ ok (empty_didl, 0, 0)
  ]
]

unfoldable pub browse_root : StaticCatalog → BrowseFlag → Str × ℕ × ℕ
unfolding root_didl children_didl child_count
browse_root catalog metadata = (root_didl catalog, 1, 1)
browse_root catalog direct_children = (
  children_didl catalog (codes "0"),
  child_count catalog (codes "0"),
  child_count catalog (codes "0"),
)

-- The match of `browse`.
unfoldable pub browse_result : StaticCatalog → Str → BrowseFlag → Result ControlError (Str × ℕ × ℕ)
unfolding browse_root browse_object str_eq
browse_result catalog object_id flag =
    if str_eq object_id (codes "0")
    then ok (browse_root catalog flag)
    else browse_object catalog object_id flag

abbrev pub object_id_of : ActionRequestRef → Str
object_id_of action = elim (arg action (codes "ObjectID")) [ none ↦ codes "0" | some id ↦ id ]

abbrev pub flag_of : ActionRequestRef → BrowseFlag
flag_of action = elim (arg action (codes "BrowseFlag")) [
  | none ↦ direct_children
  | some text ↦ elim (parse_browse_flag text) [ none ↦ direct_children | some flag ↦ flag ]
]

-- What `browse` answers with the values of its match.
abbrev pub browse_answer : Result ControlError (Str × ℕ × ℕ) → ℕ → Answer
browse_answer (err e) update_id = some (err e)
browse_answer (ok (result, number_returned, total_matches)) update_id = answer_with (
    write_browse_response [] record {
      result = result;
      number_returned = number_returned;
      total_matches = total_matches;
      update_id = update_id;
    })

unfoldable pub browse : ActionRequestRef → StaticCatalog → Answer
unfolding arg parse_browse_flag browse_result write_browse_response ok_response
browse action catalog =
    browse_answer (browse_result catalog (object_id_of action) (flag_of action)) catalog.update_id

unfoldable pub empty_cd_response : Str → Str → Answer
unfolding ok_response write_action_response
empty_cd_response action_name arg_name = some (
    ok (
      ok_response (
        write_action_response [] content_directory_service action_name
          (record { name = arg_name; value = [] } ∷ []))))

-- `infos.contains(&info)`
unfoldable pub contains_info : ProtocolInfoRef → List ProtocolInfoRef → Bool
unfolding protocol_info_eq
contains_info info [] = false
contains_info info (i ∷ infos) = protocol_info_eq i info || contains_info info infos

-- The loop over the items.
unfoldable pub collect_infos : List ProtocolInfoRef → List MediaItem → List ProtocolInfoRef
unfolding contains_info
collect_infos infos [] = infos
collect_infos infos (item ∷ items) =
    let next =
      if contains_info item.protocol_info infos then infos else infos ++ item.protocol_info ∷ [] in
    collect_infos next items

unfoldable pub collect_protocol_info : StaticCatalog → List ProtocolInfoRef
unfolding collect_infos
collect_protocol_info catalog =
    let infos = collect_infos [] catalog.items in if is_empty infos then sony_mp4 ∷ [] else infos

unfoldable pub handle_connection_manager : ActionRequestRef → StaticCatalog → Answer
unfolding collect_protocol_info write_protocol_info_list write_get_protocol_info_response
    write_current_connection_ids_response ok_response str_eq
handle_connection_manager action catalog =
    if str_eq action.action_name (codes "GetProtocolInfo")
    then (let source = write_protocol_info_list [] (collect_protocol_info catalog) in
        some (ok (ok_response (write_get_protocol_info_response [] [] source))))
    else if str_eq action.action_name (codes "GetCurrentConnectionIDs")
    then some (ok (ok_response (write_current_connection_ids_response [])))
    else some (err invalid_action)

unfoldable pub handle_content_directory : ActionRequestRef → StaticCatalog → Answer
unfolding browse write_system_update_id_response empty_cd_response ok_response str_eq
handle_content_directory action catalog =
    if str_eq action.action_name (codes "Browse")
    then browse action catalog
    else if str_eq action.action_name (codes "GetSystemUpdateID")
    then answer_with (write_system_update_id_response [] catalog.update_id)
    else if str_eq action.action_name (codes "GetSearchCapabilities")
    then empty_cd_response (codes "GetSearchCapabilities") (codes "SearchCaps")
    else if str_eq action.action_name (codes "GetSortCapabilities")
    then empty_cd_response (codes "GetSortCapabilities") (codes "SortCaps")
    else some (err invalid_action)

unfoldable pub dispatch : ActionRequestRef → StaticCatalog → Answer
unfolding handle_content_directory handle_connection_manager str_eq
dispatch action catalog =
    if str_eq action.service_type.kind (codes "ContentDirectory")
    then handle_content_directory action catalog
    else if str_eq action.service_type.kind (codes "ConnectionManager")
    then handle_connection_manager action catalog
    else some (err invalid_action)

unfoldable pub handle_control : Str → StaticCatalog → Answer
unfolding parse_action_request dispatch
handle_control soap_xml catalog = elim (parse_action_request soap_xml) [
  | err _ ↦ some (err bad_request)
  | ok action ↦ dispatch action catalog
]
