-- ===== src/Core/StringMap.antt =====
-- src/core/string_map.rs: settings as `key=value` lines. A hash map iterates in no fixed order, so
-- `to_bytes` takes the entries in the order of the iteration.
pub mod RoundTrip
use anytls_rs_legacy.Common.{Option, none, some, List, [], ◌∷◌, ◌++◌, map, Text, text_key}
use anytls_rs_legacy.Common.Map.{Map, insert}
use anytls_rs_legacy.Common.Bytes.{Bytes}
use anytls_rs_legacy.Core.Text.{from_utf8_lossy, lines, split_once, join}

abbrev pub StringMap : Type 0
StringMap = Map Text Text

abbrev pub entry_line : Text × Text → Text
entry_line (k, v) = k ++ (b'=' ∷ v)

unfoldable pub to_bytes : StringMap → Bytes
to_bytes iteration = join 10 (map entry_line iteration)

unfoldable pub insert_line : StringMap → Text → StringMap
insert_line m line = elim (split_once b'=' line) [
  | none ↦ m
  | some (key, value) ↦ insert key value m
]

unfoldable pub insert_lines : StringMap → List Text → StringMap
insert_lines m [] = m
insert_lines m (line ∷ rest) = insert_lines (insert_line m line) rest

unfoldable pub from_bytes : Bytes → StringMap
from_bytes b = insert_lines [] (lines (from_utf8_lossy b))
