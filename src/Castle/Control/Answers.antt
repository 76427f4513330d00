-- ===== src/Castle/Control/Answers.antt =====
-- crates/rusty-castle/src/control.rs: the answers to control requests, and their documents.
use rusty_castle.Prelude.{
  ℕ, ◌^◌, ◌<◌, refl, inl, inr, Bool, true, false, some, List, [], ◌∷◌, arith, if◌then◌else◌,
  Bool-cases, Option-cases, Result, ok, err, Result-cases, All,
}
use rusty_castle.Str.{Str, codes, str_eq}
use rusty_castle.Str.Decimal.{show, emit}
use rusty_castle.Upnp.Ids.{ServiceTypeRef, service_type_text}
use rusty_castle.Upnp.Soap.{ActionRequestRef, ResponseArgumentRef, write_action_response}
use rusty_castle.Upnp.Soap.Read.{parse_action_request}
use rusty_castle.Upnp.Soap.Nested.{write_action_response-IsNested, write_fault-IsNested}
use rusty_castle.Upnp.Xml.Nesting.{IsNested, IsName, IsValue, IsValue-literal}
use rusty_castle.Av.ContentDirectory.{
  BrowseFlag, metadata, direct_children, BrowseResponseRef, write_browse_response,
  write_system_update_id_response, content_directory_service,
}
use rusty_castle.Av.ContentDirectory.Numbers.{u32_text-show}
use rusty_castle.Av.ConnectionManager.{
  write_protocol_info_list, connection_manager_service, write_get_protocol_info_response,
  write_current_connection_ids_response,
}
use rusty_castle.Castle.Catalog.{StaticCatalog, child_count, find_item, find_container}
use rusty_castle.Castle.Control.{
  Answer, browse_answer, collect_protocol_info, object_id_of, flag_of, error_code,
  error_description, ControlError, ControlResponse, answer_with, browse, browse_object,
  browse_result, browse_root, dispatch, empty_cd_response, handle_connection_manager,
  handle_content_directory, handle_control, into_response, ok_response, bad_request, invalid_action,
}

-- An answer that is no panic, and whose document, or that of its error, is nested.
pub data IsAnswered : Answer → Type 0 where
  success : (r : ControlResponse) → IsNested r.body → IsAnswered (some (ok r))
  failure : (e : ControlError) → IsNested (into_response e).body → IsAnswered (some (err e))

failed : (e : ControlError) → IsAnswered (some (err e))
unfolding into_response
failed e = failure e (write_fault-IsNested (error_code e) (error_description e))

directory_service : IsValue (service_type_text content_directory_service)
unfolding service_type_text show emit
directory_service = IsValue-literal (service_type_text content_directory_service) refl

connection_service : IsValue (service_type_text connection_manager_service)
unfolding service_type_text show emit
connection_service = IsValue-literal (service_type_text connection_manager_service) refl

choose : (b : Bool) {x y : Answer} → IsAnswered x → IsAnswered y → IsAnswered (if b then x else y)
choose true h k = h
choose false h k = k

answered :
    (s : ServiceTypeRef) (name : Str) (arguments : List ResponseArgumentRef)
    → IsValue (service_type_text s)
    → IsName name
    → All (λ a. IsName a.name) arguments
    → IsAnswered (some (ok (ok_response (write_action_response [] s name arguments))))
unfolding ok_response
answered s name arguments v n ns =
    success (ok_response (write_action_response [] s name arguments))
      (write_action_response-IsNested s name arguments v n ns)

browse_response-IsAnswered :
    (r : BrowseResponseRef)
    → r.number_returned < 2 ^ 32
    → r.total_matches < 2 ^ 32
    → r.update_id < 2 ^ 32
    → IsAnswered (answer_with (write_browse_response [] r))
unfolding write_browse_response
browse_response-IsAnswered r n t u =
    let arguments : List ResponseArgumentRef =
      record { name = codes "Result"; value = r.result }
      ∷ record { name = codes "NumberReturned"; value = show r.number_returned }
      ∷ record { name = codes "TotalMatches"; value = show r.total_matches }
      ∷ record { name = codes "UpdateID"; value = show r.update_id }
      ∷ [] in
    rw (u32_text-show r.number_returned n) (
      rw (u32_text-show r.total_matches t) (
        rw (u32_text-show r.update_id u) (
          answered content_directory_service (codes "Browse") arguments directory_service refl
            (refl, (refl, (refl, (refl, tt)))))))

system_update_id-IsAnswered :
    (update_id : ℕ)
    → update_id < 2 ^ 32
    → IsAnswered (answer_with (write_system_update_id_response [] update_id))
unfolding write_system_update_id_response
system_update_id-IsAnswered update_id u = rw (u32_text-show update_id u) (
    answered content_directory_service (codes "GetSystemUpdateID")
      (record { name = codes "Id"; value = show update_id } ∷ []) directory_service refl (refl, tt))

child_count-bound : (catalog : StaticCatalog) (id : Str) → child_count catalog id < 2 ^ 32
unfolding child_count
child_count-bound catalog id = omega arith

-- The counts of an answer to `Browse` are `u32`.
AreU32 : Result ControlError (Str × ℕ × ℕ) → Type 0
AreU32 (err e) = Unit {0}
AreU32 (ok (didl, number_returned, total_matches)) =
    (number_returned < 2 ^ 32) × (total_matches < 2 ^ 32)

browse_object-AreU32 :
    (catalog : StaticCatalog) (id : Str) (flag : BrowseFlag)
    → AreU32 (browse_object catalog id flag)
unfolding browse_object AreU32
browse_object-AreU32 catalog id metadata =
    elim (Option-cases (find_container id catalog.containers)) [
      | inr (c, e) ↦ rw (e, browse_object) (omega arith, omega arith)
      | inl e ↦ elim (Option-cases (find_item id catalog.items)) [
        | inr (i, e') ↦ rw (e, browse_object) (rw e' (omega arith, omega arith))
        | inl e' ↦ rw (e, browse_object) (rw e' tt)
      ]
    ]
browse_object-AreU32 catalog id direct_children =
    let b = child_count-bound catalog id in
    elim (Option-cases (find_container id catalog.containers)) [
      | inr (c, e) ↦ rw (e, browse_object) (b, b)
      | inl e ↦ elim (Option-cases (find_item id catalog.items)) [
        | inr (i, e') ↦ rw (e, browse_object) (rw e' (omega arith, omega arith))
        | inl e' ↦ rw (e, browse_object) (rw e' tt)
      ]
    ]

browse_root-AreU32 :
    (catalog : StaticCatalog) (flag : BrowseFlag) → AreU32 (ok (browse_root catalog flag))
unfolding browse_root AreU32
browse_root-AreU32 catalog metadata = (omega arith, omega arith)
browse_root-AreU32 catalog direct_children =
    (child_count-bound catalog (codes "0"), child_count-bound catalog (codes "0"))

browse_result-AreU32 :
    (catalog : StaticCatalog) (id : Str) (flag : BrowseFlag)
    → AreU32 (browse_result catalog id flag)
unfolding browse_result AreU32 browse_root
browse_result-AreU32 catalog id flag = elim (Bool-cases (str_eq id (codes "0"))) [
  | inr e ↦ rw e (browse_object-AreU32 catalog id flag)
  | inl e ↦ rw e (browse_root-AreU32 catalog flag)
]

respond :
    (r : Result ControlError (Str × ℕ × ℕ)) (update_id : ℕ)
    → AreU32 r
    → update_id < 2 ^ 32
    → IsAnswered (browse_answer r update_id)
unfolding AreU32
respond (err e) update_id h u = failed e
respond (ok (didl, n, t)) update_id (hn, ht) u = browse_response-IsAnswered _ hn ht u

browse-IsAnswered :
    (action : ActionRequestRef) (catalog : StaticCatalog)
    → catalog.update_id < 2 ^ 32
    → IsAnswered (browse action catalog)
unfolding browse
browse-IsAnswered action catalog u =
    respond (browse_result catalog (object_id_of action) (flag_of action)) catalog.update_id
      (browse_result-AreU32 catalog (object_id_of action) (flag_of action)) u

handle_content_directory-IsAnswered :
    (action : ActionRequestRef) (catalog : StaticCatalog)
    → catalog.update_id < 2 ^ 32
    → IsAnswered (handle_content_directory action catalog)
unfolding handle_content_directory empty_cd_response
handle_content_directory-IsAnswered action catalog u =
    choose _ (browse-IsAnswered action catalog u) (
      choose _ (system_update_id-IsAnswered catalog.update_id u) (
        choose _
          (answered content_directory_service (codes "GetSearchCapabilities")
            (record { name = codes "SearchCaps"; value = [] } ∷ []) directory_service refl
            (refl, tt))
          (choose _
            (answered content_directory_service (codes "GetSortCapabilities")
              (record { name = codes "SortCaps"; value = [] } ∷ []) directory_service refl
              (refl, tt))
            (failed invalid_action))))

handle_connection_manager-IsAnswered :
    (action : ActionRequestRef) (catalog : StaticCatalog)
    → IsAnswered (handle_connection_manager action catalog)
unfolding handle_connection_manager write_get_protocol_info_response
    write_current_connection_ids_response
handle_connection_manager-IsAnswered action catalog =
    let source = write_protocol_info_list [] (collect_protocol_info catalog) in
    choose _
      (answered connection_manager_service (codes "GetProtocolInfo")
        (record { name = codes "Source"; value = source }
          ∷ record { name = codes "Sink"; value = [] }
          ∷ [])
        connection_service refl (refl, (refl, tt)))
      (choose _
        (answered connection_manager_service (codes "GetCurrentConnectionIDs")
          (record { name = codes "ConnectionIDs"; value = codes "0" } ∷ []) connection_service refl
          (refl, tt))
        (failed invalid_action))

-- Whatever a client sends, a control request on a catalog with a `u32` as its update id is answered
-- without a panic, by a response or a fault whose document is nested.
pub handle_control-IsAnswered :
    (soap_xml : Str) (catalog : StaticCatalog)
    → catalog.update_id < 2 ^ 32
    → IsAnswered (handle_control soap_xml catalog)
unfolding handle_control dispatch
handle_control-IsAnswered soap_xml catalog u = elim (Result-cases (parse_action_request soap_xml)) [
  | inr (e, h) ↦ rw (h, handle_control) (failed bad_request)
  | inl (action, h) ↦
      rw (h, handle_control)
        (choose _ (handle_content_directory-IsAnswered action catalog u)
          (choose _ (handle_connection_manager-IsAnswered action catalog) (failed invalid_action)))
]
