-- ===== src/Castle/Ui.antt =====
-- crates/rusty-castle/src/runtime.rs: the pages of the browser interface.
use rusty_castle.Prelude.{
  ℕ, ◌/◌, Option, none, some, List, [], ◌∷◌, ◌++◌, ◌==◌, if◌then◌else◌, length, is_empty,
}
use rusty_castle.Str.{Str, codes}
use rusty_castle.Str.Decimal.{show}
use rusty_castle.Dlna.{write_protocol_info}
use rusty_castle.Castle.Catalog.{MediaContainer, MediaItem}
use rusty_castle.Castle.State.{RuntimeState, ScanStatus, SystemTime, after_epoch, before_epoch}

-- What `html_escape_into` writes for one character.
unfoldable pub html_char : ℕ → Str
html_char c =
    if c == b'&'
    then codes "&amp;"
    else if c == b'<'
    then codes "&lt;"
    else if c == b'>'
    then codes "&gt;"
    else if c == 0x22
    then codes "&quot;"
    else if c == 0x27
    then codes "&#39;"
    else c ∷ []

unfoldable pub html_escape_into : Str → Str → Str
unfolding html_char
html_escape_into out [] = out
html_escape_into out (c ∷ value) = html_escape_into (out ++ html_char c) value

unfoldable pub html_escape : Str → Str
unfolding html_escape_into
html_escape value = html_escape_into [] value

unfoldable pub table_cell : Str → Str → Str
unfolding html_escape_into
table_cell out value = html_escape_into (out ++ codes "<td>") value ++ codes "</td>"

unfoldable pub linked_table_cell : Str → Str → Str
unfolding html_escape_into
linked_table_cell out value =
    let out1 = out ++ codes "<td>" in
    if is_empty value
    then out1 ++ codes "</td>"
    else (let out2 = html_escape_into (out1 ++ codes "<a href=\"") value ++ codes "\">" in
        html_escape_into out2 value ++ codes "</a></td>")

unfoldable pub optional_size : Option ℕ → Str
optional_size none = []
optional_size (some value) = show value

unfoldable pub scan_status_summary : ScanStatus → Str
scan_status_summary status = elim status.last_scan_time [
  | none ↦ codes "never"
  | some _ ↦ elim status.error [
    | some _ ↦ codes "failed"
    | none ↦ show status.item_count ++ codes " items"
  ]
]

abbrev nanos_per_sec : ℕ
nanos_per_sec = 1000000000

unfoldable pub format_scan_time : SystemTime → Str
format_scan_time (after_epoch nanos) = show (nanos / nanos_per_sec) ++ codes "s since epoch"
format_scan_time (before_epoch nanos) = b'-' ∷ show (nanos / nanos_per_sec) ++ codes "s since epoch"

unfoldable pub scan_status_time : ScanStatus → Str
unfolding format_scan_time
scan_status_time status = elim status.last_scan_time [
  | none ↦ codes "never"
  | some time ↦ format_scan_time time
]

unfoldable pub scan_status_duration : ScanStatus → Str
scan_status_duration status = elim status.last_scan_duration [
  | none ↦ []
  | some nanos ↦ show (nanos / 1000000) ++ codes " ms"
]

unfoldable pub scan_error_html : ScanStatus → Str
unfolding html_escape
scan_error_html status = elim status.error [
  | none ↦ []
  | some error ↦ codes "<p class=\"error\">Last scan error: " ++ html_escape error ++ codes "</p>"
]

-- The body of `ui_index_response`.
unfoldable pub ui_index_body : RuntimeState → ScanStatus → Str
unfolding scan_status_summary scan_error_html
ui_index_body current scan_status =
    codes
      "<!doctype html>\n<html lang=\"en\">\n<head>\n<meta charset=\"utf-8\">\n<meta name=\"viewport\" content=\"width=device-width, initial-scale=1\">\n<title>Rusty Castle Observatory</title>\n<style>\n:root { color-scheme: light dark; font-family: system-ui, sans-serif; }\nbody { margin: 0; background: #f7f7f3; color: #202124; }\nmain { max-width: 760px; margin: 0 auto; padding: 48px 24px; }\nh1 { font-size: 2rem; margin: 0 0 12px; }\np { line-height: 1.5; }\n.metric { display: inline-block; margin: 16px 16px 0 0; }\n.metric strong { display: block; font-size: 1.75rem; }\nform { margin-top: 24px; }\nbutton { padding: 8px 12px; font: inherit; }\n.error { color: #b3261e; }\n</style>\n</head>\n<body>\n<main>\n<h1>Rusty Castle Observatory</h1>\n<p>Experimental DLNA MediaServer inspection surface.</p>\n<p><a href=\"/ui/library\">Open library</a></p>\n<div class=\"metric\"><strong>"
    ++ show (length current.catalog.items)
    ++ codes "</strong><span>media items</span></div>\n<div class=\"metric\"><strong>"
    ++ show (length current.catalog.containers)
    ++ codes "</strong><span>containers</span></div>\n<div class=\"metric\"><strong>"
    ++ scan_status_summary scan_status
    ++ codes
        "</strong><span>last scan</span></div>\n<form method=\"post\" action=\"/ui/rescan\"><button type=\"submit\">Rescan library</button></form>\n"
    ++ scan_error_html scan_status
    ++ codes "\n</main>\n</body>\n</html>"

-- The rows of the containers, and of the items.
unfoldable pub container_rows : Str → List MediaContainer → Str
unfolding table_cell
container_rows out [] = out
container_rows out (c ∷ containers) =
    let out1 = table_cell (out ++ codes "<tr>") c.id in
    let out2 = table_cell (table_cell out1 c.parent_id) c.title in
    let out3 = table_cell (table_cell (table_cell out2 []) []) [] in
    container_rows (table_cell (table_cell out3 []) [] ++ codes "</tr>") containers

abbrev or_empty : Option Str → Str
or_empty none = []
or_empty (some s) = s

unfoldable pub item_rows : Str → List MediaItem → Str
unfolding table_cell linked_table_cell optional_size write_protocol_info
item_rows out [] = out
item_rows out (item ∷ items) =
    let out1 = table_cell (out ++ codes "<tr>") item.id in
    let out2 = table_cell (table_cell out1 item.parent_id) item.title in
    let out3 = table_cell (table_cell out2 item.mime_type) (optional_size item.size) in
    let out4 = linked_table_cell (table_cell out3 (or_empty item.duration)) item.url in
    item_rows (table_cell out4 (write_protocol_info [] item.protocol_info) ++ codes "</tr>") items

-- The body of `ui_library_response`, with the rows of its two tables.
unfoldable pub library_page : RuntimeState → ScanStatus → Str → Str → Str
unfolding scan_status_time scan_status_duration scan_error_html
library_page current scan_status containers items =
    codes
      "<!doctype html>\n<html lang=\"en\">\n<head>\n<meta charset=\"utf-8\">\n<meta name=\"viewport\" content=\"width=device-width, initial-scale=1\">\n<title>Rusty Castle Library</title>\n<style>\n:root { color-scheme: light dark; font-family: system-ui, sans-serif; }\nbody { margin: 0; background: #f7f7f3; color: #202124; }\nmain { max-width: 1200px; margin: 0 auto; padding: 32px 24px; }\na { color: #1a5fb4; }\nh1 { font-size: 1.75rem; margin: 16px 0 8px; }\nh2 { font-size: 1.1rem; margin: 32px 0 12px; }\np { line-height: 1.5; }\n.summary { display: flex; flex-wrap: wrap; gap: 16px; margin: 20px 0; }\n.metric strong { display: block; font-size: 1.4rem; }\n.table-wrap { overflow-x: auto; border: 1px solid #d7d7cf; background: #fff; }\ntable { border-collapse: collapse; min-width: 100%; font-size: 0.9rem; }\nth, td { border-bottom: 1px solid #e4e4dc; padding: 10px 12px; text-align: left; vertical-align: top; }\nth { background: #ededdf; font-weight: 650; white-space: nowrap; }\ntd { overflow-wrap: anywhere; }\ncode { font-family: ui-monospace, SFMono-Regular, Menlo, Consolas, monospace; font-size: 0.85em; }\n@media (prefers-color-scheme: dark) {\n  body { background: #191a1a; color: #eeeeea; }\n  a { color: #8ab4f8; }\n  .table-wrap { border-color: #3a3b3b; background: #202124; }\n  th, td { border-bottom-color: #343535; }\n  th { background: #2a2b2b; }\n}\n</style>\n</head>\n<body>\n<main>\n<p><a href=\"/ui\">Observatory</a></p>\n<h1>Library</h1>\n<p>Read-only view of the current ContentDirectory catalog.</p>\n<form method=\"post\" action=\"/ui/rescan\"><button type=\"submit\">Rescan library</button></form>\n<div class=\"summary\">\n<div class=\"metric\"><strong>"
    ++ show (length current.catalog.containers)
    ++ codes "</strong><span>containers</span></div>\n<div class=\"metric\"><strong>"
    ++ show (length current.catalog.items)
    ++ codes "</strong><span>media items</span></div>\n<div class=\"metric\"><strong>"
    ++ show current.catalog.update_id
    ++ codes "</strong><span>update id</span></div>\n<div class=\"metric\"><strong>"
    ++ scan_status_time scan_status
    ++ codes "</strong><span>last scan</span></div>\n<div class=\"metric\"><strong>"
    ++ scan_status_duration scan_status
    ++ codes "</strong><span>scan duration</span></div>\n</div>\n"
    ++ scan_error_html scan_status
    ++ codes
        "\n<h2>Containers</h2>\n<div class=\"table-wrap\">\n<table>\n<thead><tr><th>Object ID</th><th>Parent ID</th><th>Title</th><th>MIME type</th><th>Size</th><th>Duration</th><th>Media URL</th><th>protocolInfo</th></tr></thead>\n<tbody>"
    ++ containers
    ++ codes
        "</tbody>\n</table>\n</div>\n<h2>Media Items</h2>\n<div class=\"table-wrap\">\n<table>\n<thead><tr><th>Object ID</th><th>Parent ID</th><th>Title</th><th>MIME type</th><th>Size</th><th>Duration</th><th>Media URL</th><th>protocolInfo</th></tr></thead>\n<tbody>"
    ++ items
    ++ codes "</tbody>\n</table>\n</div>\n</main>\n</body>\n</html>"

unfoldable pub ui_library_body : RuntimeState → ScanStatus → Str
unfolding library_page container_rows item_rows
ui_library_body current scan_status =
    library_page current scan_status (container_rows [] current.catalog.containers)
      (item_rows [] current.catalog.items)

-- The page of a rescan that failed with the error text `e`.
unfoldable pub rescan_failed_body : Str → Str
unfolding html_escape
rescan_failed_body e =
    codes
      "<!doctype html><html lang=\"en\"><head><meta charset=\"utf-8\"><title>Rescan failed</title></head><body><main><h1>Rescan failed</h1><p>"
    ++ html_escape e
    ++ codes "</p><p><a href=\"/ui/library\">Back to library</a></p></main></body></html>"
