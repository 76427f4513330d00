-- ===== src/Upnp/Scpd.antt =====
-- crates/upnp-core/src/scpd.rs: the service description and its XML.
pub mod Nested
use rusty_castle.Prelude.{ℕ, Bool, Option, none, some, List, [], ◌∷◌, ◌++◌, if◌then◌else◌, is_empty}
use rusty_castle.Str.{Str, codes}
use rusty_castle.Str.Decimal.{show}
use rusty_castle.Upnp.Xml.{write_text_element}

pub data ArgumentDirection : Type 0 where
  in_ out : ArgumentDirection

unfoldable pub direction_str : ArgumentDirection → Str
direction_str in_ = codes "in"
direction_str out = codes "out"

pub record ArgumentRef : Type 0 where
  pub name : Str
  pub direction : ArgumentDirection
  pub related_state_variable : Str

pub record ActionRef : Type 0 where
  pub name : Str
  pub arguments : List ArgumentRef

pub record AllowedValueListRef : Type 0 where
  pub values : List Str

pub record StateVariableRef : Type 0 where
  pub send_events : Bool
  pub name : Str
  pub data_type : Str
  pub default_value : Option Str
  pub allowed_values : Option AllowedValueListRef

pub record ScpdRef : Type 0 where
  pub major : ℕ
  pub minor : ℕ
  pub actions : List ActionRef
  pub state_variables : List StateVariableRef

-- The loop over `action.arguments`.
unfoldable pub write_argument_loop : Str → List ArgumentRef → Str
unfolding write_text_element direction_str
write_argument_loop w [] = w
write_argument_loop w (arg ∷ args) =
    let w1 = write_text_element (w ++ codes "<argument>") (codes "name") arg.name in
    let w2 = write_text_element w1 (codes "direction") (direction_str arg.direction) in
    let w3 = write_text_element w2 (codes "relatedStateVariable") arg.related_state_variable in
    write_argument_loop (w3 ++ codes "</argument>") args

abbrev pub write_argument_list : Str → List ArgumentRef → Str
write_argument_list w args =
    if is_empty args
    then w
    else write_argument_loop (w ++ codes "<argumentList>") args ++ codes "</argumentList>"

-- The loop over `actions`.
unfoldable pub write_action_loop : Str → List ActionRef → Str
unfolding write_text_element write_argument_loop
write_action_loop w [] = w
write_action_loop w (action ∷ actions) =
    let w1 = write_text_element (w ++ codes "<action>") (codes "name") action.name in
    write_action_loop (write_argument_list w1 action.arguments ++ codes "</action>") actions

unfoldable pub write_actions : Str → List ActionRef → Str
unfolding write_action_loop
write_actions w actions =
    if is_empty actions
    then w
    else write_action_loop (w ++ codes "<actionList>") actions ++ codes "</actionList>"

-- The loop over `list.values`.
unfoldable pub write_value_loop : Str → List Str → Str
unfolding write_text_element
write_value_loop w [] = w
write_value_loop w (value ∷ values) =
    write_value_loop (write_text_element w (codes "allowedValue") value) values

unfoldable pub write_default_value : Str → Option Str → Str
unfolding write_text_element
write_default_value w none = w
write_default_value w (some value) = write_text_element w (codes "defaultValue") value

unfoldable pub write_allowed_values : Str → Option AllowedValueListRef → Str
unfolding write_value_loop
write_allowed_values w none = w
write_allowed_values w (some list) =
    write_value_loop (w ++ codes "<allowedValueList>") list.values ++ codes "</allowedValueList>"

abbrev pub yes_no : Bool → Str
yes_no b = if b then codes "yes" else codes "no"

-- The loop over `vars`.
unfoldable pub write_variable_loop : Str → List StateVariableRef → Str
unfolding write_text_element write_default_value write_allowed_values
write_variable_loop w [] = w
write_variable_loop w (var ∷ vars) =
    let w1 = w ++ codes "<stateVariable sendEvents=\"" ++ yes_no var.send_events ++ codes "\">" in
    let w2 = write_text_element w1 (codes "name") var.name in
    let w3 = write_text_element w2 (codes "dataType") var.data_type in
    let w4 = write_allowed_values (write_default_value w3 var.default_value) var.allowed_values in
    write_variable_loop (w4 ++ codes "</stateVariable>") vars

unfoldable pub write_state_variables : Str → List StateVariableRef → Str
unfolding write_variable_loop
write_state_variables w vars =
    if is_empty vars
    then w
    else write_variable_loop (w ++ codes "<serviceStateTable>") vars ++ codes "</serviceStateTable>"

unfoldable pub write_scpd : Str → ScpdRef → Str
unfolding write_actions write_state_variables
write_scpd w scpd =
    let w1 =
      w ++ codes "<?xml version=\"1.0\"?><scpd xmlns=\"urn:schemas-upnp-org:service-1-0\">" in
    let w2 =
      w1
      ++ codes "<specVersion><major>"
      ++ show scpd.major
      ++ codes "</major><minor>"
      ++ show scpd.minor
      ++ codes "</minor></specVersion>" in
    write_state_variables (write_actions w2 scpd.actions) scpd.state_variables ++ codes "</scpd>"
