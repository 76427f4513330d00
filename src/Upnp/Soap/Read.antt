-- ===== src/Upnp/Soap/Read.antt =====
-- crates/upnp-core/src/soap.rs: the parser of a control request. The texts are lists of
-- characters, so its offsets count characters; each is where a character starts, and the slices are
-- the same as with the source's byte offsets.
use rusty_castle.Prelude.{
  ℕ, zero, suc, ◌+◌, ◌-◌, ◌^◌, Bool, true, false, ◌||◌, Option, none, some, List, [], ◌∷◌, ◌++◌,
  ◌==◌, if◌then◌else◌, Result, ok, ◌>>=◌, ok_or, length, is_empty, take, drop,
}
use rusty_castle.Str.{
  Str, codes, trim, trim_start_matches, is_whitespace, str_eq, strip_prefix, split_once,
  split_once_str, parse_uint,
}
use rusty_castle.Str.Words.{starts_with, ends_with, rsplit_once, first_word}
use rusty_castle.Upnp.Ids.{
  ServiceTypeRef, ParseError, missing_body, missing_action, missing_namespace, invalid_urn,
  malformed_xml,
}
use rusty_castle.Upnp.Soap.{ActionRequestRef, ArgumentRef}

abbrev local_name : Str → Str
local_name first = elim (rsplit_once b':' first) [ none ↦ first | some (_, local) ↦ local ]

unfoldable pub element_name : Str → Option Str
unfolding first_word rsplit_once
element_name tag = elim (first_word tag) [
  | none ↦ none
  | some first ↦ if is_empty (local_name first) then none else some (local_name first)
]

unfoldable pub element_prefix : Str → Option Str
unfolding first_word split_once
element_prefix tag = elim (first_word tag) [
  | none ↦ none
  | some first ↦ elim (split_once b':' first) [ none ↦ none | some (prefix, _) ↦ some prefix ]
]

-- `element_name(tag) == Some(name)`
unfoldable pub is_element : Str → Str → Bool
unfolding element_name str_eq
is_element tag name = elim (element_name tag) [ none ↦ false | some n ↦ str_eq n name ]

-- The loop of `find_close_for_name`; the fuel is the length of `rest`, which each turn shortens.
unfoldable pub find_close_loop : ℕ → ℕ → Str → Str → Option (ℕ × ℕ)
unfolding is_element split_once_str split_once
find_close_loop zero offset rest name = none
find_close_loop (suc fuel) offset rest name = elim (split_once_str (codes "</") rest) [
  | none ↦ none
  | some (head, after) ↦ elim (split_once b'>' after) [
    | none ↦ none
    | some (tag, next) ↦ elim (is_element tag name) [
      | true ↦ some (offset + length head, 2 + length tag + 1)
      | false ↦ find_close_loop fuel (offset + (length head + 2 + length tag + 1)) next name
    ]
  ]
]

unfoldable pub find_close_for_name : Str → Str → Option (ℕ × ℕ)
unfolding find_close_loop
find_close_for_name input name = find_close_loop (suc (length input)) 0 input name

unfoldable pub find_element_loop : ℕ → Str → Str → Option Str
unfolding is_element split_once trim find_close_for_name
find_element_loop zero rest name = none
find_element_loop (suc fuel) rest name = elim (split_once b'<' rest) [
  | none ↦ none
  | some (_, after_lt) ↦ elim (split_once b'>' after_lt) [
    | none ↦ none
    | some (tag, content) ↦ elim (is_element (trim tag) name) [
      | true ↦ elim (find_close_for_name content name) [
        | none ↦ none
        | some (close_start, _) ↦ some (take close_start content)
      ]
      | false ↦ find_element_loop fuel content name
    ]
  ]
]

unfoldable pub find_element_body : Str → Str → Option Str
unfolding find_element_loop
find_element_body input name = find_element_loop (suc (length input)) input name

-- `tag.starts_with('/') || tag.starts_with('!') || tag.starts_with('?')`
abbrev starts_special : Str → Bool
starts_special s = starts_with b'/' s || starts_with b'!' s || starts_with b'?' s

unfoldable pub first_child_element : Str → Option (Str × Str)
unfolding split_once trim starts_with ends_with element_name find_close_for_name
first_child_element input = elim (split_once b'<' input) [
  | none ↦ none
  | some (_, after_lt) ↦ elim (split_once b'>' after_lt) [
    | none ↦ none
    | some (raw, content) ↦
        let tag = trim raw in
        elim (starts_special tag || ends_with b'/' tag) [
          | true ↦ none
          | false ↦ elim (element_name tag) [
            | none ↦ none
            | some name ↦ elim (find_close_for_name content name) [
              | none ↦ none
              | some (close_start, _) ↦ some (tag, take close_start content)
            ]
          ]
        ]
  ]
]

abbrev trim_start : Str → Str
trim_start s = trim_start_matches is_whitespace s

unfoldable pub namespace_attr_len : Str → Option Str → Option ℕ
unfolding strip_prefix trim_start_matches is_whitespace starts_with
namespace_attr_len candidate (some prefix) = elim (strip_prefix (codes "xmlns:") candidate) [
  | none ↦ none
  | some after_colon ↦ elim (strip_prefix prefix after_colon) [
    | none ↦ none
    | some _ ↦
        let attr_len : ℕ = 6 + length prefix in
        if starts_with b'=' (trim_start (drop attr_len candidate)) then some attr_len else none
  ]
]
namespace_attr_len candidate none =
    if starts_with b'=' (trim_start (drop 5 candidate)) then some 5 else none

unfoldable pub find_attr_value : Str → Option Str
unfolding strip_prefix trim_start_matches is_whitespace split_once
find_attr_value after_name = elim (strip_prefix (b'=' ∷ []) (trim_start after_name)) [
  | none ↦ none
  | some after ↦ elim (trim_start after) [
    | [] ↦ none
    | quote ∷ value ↦ elim (quote == 0x22 || quote == 0x27) [
      | false ↦ none
      | true ↦ elim (split_once quote value) [ none ↦ none | some (inside, _) ↦ some inside ]
    ]
  ]
]

-- The value of the attribute at `candidate`, when it is the one looked for.
abbrev namespace_at : Str → Option Str → Option Str
namespace_at candidate prefix = elim (namespace_attr_len candidate prefix) [
  | none ↦ none
  | some attr_len ↦ find_attr_value (drop attr_len candidate)
]

unfoldable pub find_namespace_loop : ℕ → Str → Option Str → Option Str
unfolding split_once_str namespace_attr_len find_attr_value
find_namespace_loop zero rest prefix = none
find_namespace_loop (suc fuel) rest prefix = elim (split_once_str (codes "xmlns") rest) [
  | none ↦ none
  | some (_, after) ↦ elim (namespace_at (codes "xmlns" ++ after) prefix) [
    | some value ↦ some value
    | none ↦ find_namespace_loop fuel after prefix
  ]
]

unfoldable pub find_namespace : Str → Option Str → Option Str
unfolding find_namespace_loop
find_namespace tag prefix = find_namespace_loop (suc (length tag)) tag prefix

unfoldable pub parse_service_type_urn : Str → Result ParseError ServiceTypeRef
unfolding strip_prefix split_once_str rsplit_once parse_uint
parse_service_type_urn input = do
  rest ← ok_or (strip_prefix (codes "urn:") input) invalid_urn
  (domain, rest) ← ok_or (split_once_str (codes ":service:") rest) invalid_urn
  (kind, version) ← ok_or (rsplit_once b':' rest) invalid_urn
  version ← ok_or (parse_uint (2 ^ 32 - 1) version) invalid_urn
  ok record { domain = domain; kind = kind; version = version }

unfoldable pub parse_action_request : Str → Result ParseError ActionRequestRef
unfolding find_element_body first_child_element element_name element_prefix find_namespace
    parse_service_type_urn
parse_action_request input = do
  body ← ok_or (find_element_body input (codes "Body")) missing_body
  (tag, inner) ← ok_or (first_child_element body) missing_action
  action_name ← ok_or (element_name tag) malformed_xml
  namespace ← ok_or (find_namespace tag (element_prefix tag)) missing_namespace
  service_type ← parse_service_type_urn namespace
  ok record { service_type = service_type; action_name = action_name; arguments_xml = inner }

-- `ArgumentIter::next` on the iterator's `rest`: the item and the `rest` left. Each turn of the
-- loop shortens it; the fuel is its length.
unfoldable pub next_loop : ℕ → Str → Option ArgumentRef × Str
unfolding split_once starts_with ends_with trim element_name find_close_for_name
next_loop zero rest = (none, rest)
next_loop (suc fuel) rest = elim (split_once b'<' rest) [
  | none ↦ (none, rest)
  | some (_, after_lt) ↦ elim (starts_special after_lt) [
    | true ↦ next_loop fuel (drop 1 after_lt)
    | false ↦ elim (split_once b'>' after_lt) [
      | none ↦ (none, rest)
      | some (raw, content) ↦ elim (ends_with b'/' (trim raw)) [
        | true ↦ next_loop fuel content
        | false ↦ elim (element_name (trim raw)) [
          | none ↦ (none, rest)
          | some name ↦ elim (find_close_for_name content name) [
            | none ↦ (none, rest)
            | some (close_start, close_len) ↦ (
              some record { name = name; value = trim (take close_start content) },
              drop (close_start + close_len) content,
            )
          ]
        ]
      ]
    ]
  ]
]

unfoldable pub next : Str → Option ArgumentRef × Str
unfolding next_loop
next rest = next_loop (suc (length rest)) rest

-- The items of the iterator until it returns `None`.
unfoldable pub collect_loop : ℕ → Str → List ArgumentRef
unfolding next
collect_loop zero rest = []
collect_loop (suc fuel) rest =
    let (item, rest') = next rest in
    elim item [ none ↦ [] | some arg ↦ arg ∷ collect_loop fuel rest' ]

unfoldable pub arguments : ActionRequestRef → List ArgumentRef
unfolding collect_loop
arguments request = collect_loop (suc (length request.arguments_xml)) request.arguments_xml
