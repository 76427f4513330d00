-- ===== src/Upnp/Scpd/Nested.antt =====
-- crates/upnp-core/src/scpd.rs: the tags of the service description.
use rusty_castle.Prelude.{◌≡◌, refl, Bool, true, false, Option, none, some, List, [], ◌∷◌}
use rusty_castle.Str.{Str, codes}
use rusty_castle.Upnp.Xml.Nesting.{
  At, Inside, IsNested, read_all, quoted, write, write_show, write_text_element-Inside,
}
use rusty_castle.Upnp.Scpd.{
  ArgumentRef, ActionRef, AllowedValueListRef, StateVariableRef, ScpdRef, direction_str, yes_no,
  write_argument_loop, write_argument_list, write_action_loop, write_actions, write_value_loop,
  write_default_value, write_allowed_values, write_variable_loop, write_state_variables, write_scpd,
}

write_argument_loop-Inside :
    (args : List ArgumentRef) (w : Str) {os : List Str}
    → Inside w os
    → Inside (write_argument_loop w args) os
unfolding write_argument_loop read_all
write_argument_loop-Inside [] w h = h
write_argument_loop-Inside (arg ∷ args) w h =
    let h1 =
      write_text_element-Inside _ (codes "name") arg.name refl
        (write w (codes "<argument>") h refl) in
    let h2 =
      write_text_element-Inside _ (codes "direction") (direction_str arg.direction) refl h1 in
    let h3 =
      write_text_element-Inside _ (codes "relatedStateVariable") arg.related_state_variable refl
        h2 in
    write_argument_loop-Inside args _ (write _ (codes "</argument>") h3 refl)

write_argument_list-Inside :
    (args : List ArgumentRef) (w : Str) {os : List Str}
    → Inside w os
    → Inside (write_argument_list w args) os
unfolding read_all
write_argument_list-Inside [] w h = h
write_argument_list-Inside (arg ∷ args) w h =
    write _ (codes "</argumentList>")
      (write_argument_loop-Inside (arg ∷ args) _ (write w (codes "<argumentList>") h refl)) refl

write_action_loop-Inside :
    (actions : List ActionRef) (w : Str) {os : List Str}
    → Inside w os
    → Inside (write_action_loop w actions) os
unfolding write_action_loop read_all
write_action_loop-Inside [] w h = h
write_action_loop-Inside (action ∷ actions) w h =
    let h1 =
      write_text_element-Inside _ (codes "name") action.name refl
        (write w (codes "<action>") h refl) in
    write_action_loop-Inside actions _
      (write _ (codes "</action>") (write_argument_list-Inside action.arguments _ h1) refl)

write_actions-Inside :
    (actions : List ActionRef) (w : Str) {os : List Str}
    → Inside w os
    → Inside (write_actions w actions) os
unfolding write_actions read_all
write_actions-Inside [] w h = h
write_actions-Inside (action ∷ actions) w h =
    write _ (codes "</actionList>")
      (write_action_loop-Inside (action ∷ actions) _ (write w (codes "<actionList>") h refl)) refl

write_value_loop-Inside :
    (values : List Str) (w : Str) {os : List Str}
    → Inside w os
    → Inside (write_value_loop w values) os
unfolding write_value_loop
write_value_loop-Inside [] w h = h
write_value_loop-Inside (value ∷ values) w h =
    write_value_loop-Inside values _
      (write_text_element-Inside w (codes "allowedValue") value refl h)

write_default_value-Inside :
    (value : Option Str) (w : Str) {os : List Str}
    → Inside w os
    → Inside (write_default_value w value) os
unfolding write_default_value
write_default_value-Inside none w h = h
write_default_value-Inside (some value) w h =
    write_text_element-Inside w (codes "defaultValue") value refl h

write_allowed_values-Inside :
    (values : Option AllowedValueListRef) (w : Str) {os : List Str}
    → Inside w os
    → Inside (write_allowed_values w values) os
unfolding write_allowed_values read_all
write_allowed_values-Inside none w h = h
write_allowed_values-Inside (some list) w h =
    write _ (codes "</allowedValueList>")
      (write_value_loop-Inside list.values _ (write w (codes "<allowedValueList>") h refl)) refl

read_yes_no :
    (b : Bool) (os : List Str) (name : Str) → read_all (quoted os name) (yes_no b) ≡ quoted os name
unfolding read_all
read_yes_no true os name = refl
read_yes_no false os name = refl

write_variable_loop-Inside :
    (vars : List StateVariableRef) (w : Str) {os : List Str}
    → Inside w os
    → Inside (write_variable_loop w vars) os
unfolding write_variable_loop read_all
write_variable_loop-Inside [] w h = h
write_variable_loop-Inside (var ∷ vars) w {os} h =
    let h1 : At _ (quoted os (codes "stateVariable")) =
      write _ (yes_no var.send_events) (write w (codes "<stateVariable sendEvents=\"") h refl)
        (read_yes_no var.send_events os (codes "stateVariable")) in
    let h2 =
      write_text_element-Inside _ (codes "name") var.name refl (write _ (codes "\">") h1 refl) in
    let h3 = write_text_element-Inside _ (codes "dataType") var.data_type refl h2 in
    let h4 =
      write_allowed_values-Inside var.allowed_values _
        (write_default_value-Inside var.default_value _ h3) in
    write_variable_loop-Inside vars _ (write _ (codes "</stateVariable>") h4 refl)

write_state_variables-Inside :
    (vars : List StateVariableRef) (w : Str) {os : List Str}
    → Inside w os
    → Inside (write_state_variables w vars) os
unfolding write_state_variables read_all
write_state_variables-Inside [] w h = h
write_state_variables-Inside (var ∷ vars) w h =
    write _ (codes "</serviceStateTable>")
      (write_variable_loop-Inside (var ∷ vars) _ (write w (codes "<serviceStateTable>") h refl))
      refl

-- The description of a service is nested, whatever its texts are.
pub write_scpd-IsNested : (scpd : ScpdRef) → IsNested (write_scpd [] scpd)
unfolding write_scpd read_all
write_scpd-IsNested scpd =
    let h1 =
      write [] (codes "<?xml version=\"1.0\"?><scpd xmlns=\"urn:schemas-upnp-org:service-1-0\">")
        record { here = refl } refl in
    let h2 = write_show _ scpd.major (write _ (codes "<specVersion><major>") h1 refl) in
    let h3 = write_show _ scpd.minor (write _ (codes "</major><minor>") h2 refl) in
    let h4 = write _ (codes "</minor></specVersion>") h3 refl in
    write _ (codes "</scpd>")
      (write_state_variables-Inside scpd.state_variables _ (write_actions-Inside scpd.actions _ h4))
      refl
