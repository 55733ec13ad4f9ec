-- ===== src/Core/StringMap/RoundTrip.antt =====
-- src/core/string_map.rs: the peer reads back the settings that were written, in whatever order the
-- hash map listed them.
use anytls_rs_legacy.Common.{
  ℕ, ◌≡◌, refl, ◌∙◌, ap, ◌≢◌, ◌<◌, Option, none, some, [], ◌∷◌, ◌++◌, map, Text, arith, All,
  text_key, text_same_iff, All-append, All-mono,
}
use anytls_rs_legacy.Common.Map.{lookup, insert, lookup-insert}
use anytls_rs_legacy.Core.Text.{lines, join}
use anytls_rs_legacy.Core.Text.Utf8.{IsAscii, from_utf8_lossy_ascii}
use anytls_rs_legacy.Core.Text.Lines.{IsLine, lines-join, split_once-append}
use anytls_rs_legacy.Core.StringMap.{
  StringMap, entry_line, to_bytes, insert_line, insert_lines, from_bytes,
}

-- No key stands twice.
abbrev pub Distinct : StringMap → Type 0
Distinct [] = Unit {0}
Distinct ((k, v) ∷ m) = (lookup k m ≡ none) × Distinct m

-- `es` lists the entries of `m`, each once: what the iteration over a hash map promises.
pub record IsIteration (m es : StringMap) : Type 0 where
  pub once : Distinct es
  pub same_entries : (k : Text) → lookup k es ≡ lookup k m

abbrev pub IsTextByte : ℕ → Type 0
IsTextByte c = (c < 128) × (c ≢ 10) × (c ≢ 13)

-- An ASCII entry without line ends, and without `=` in the key.
abbrev pub IsEntry : Text × Text → Type 0
IsEntry (k, v) = All IsTextByte k × All (λ c. c ≢ b'=') k × All IsTextByte v

text_bytes-entry_line : (e : Text × Text) → IsEntry e → All IsTextByte (entry_line e)
text_bytes-entry_line (k, v) h = All-append IsTextByte k (b'=' ∷ v) h.0 (ground arith, h.2)

entry_line-IsLine : (e : Text × Text) → IsEntry e → IsLine (entry_line e)
entry_line-IsLine (k, v) h =
    (All-mono (λ c p. (p.1, p.2)) (k ++ (b'=' ∷ v)) (text_bytes-entry_line (k, v) h), nonempty k)
  where
    nonempty : (k : Text) → k ++ (b'=' ∷ v) ≢ []
    nonempty [] e = cc
    nonempty (c ∷ k) e = cc

entry_lines-IsLine : (es : StringMap) → All IsEntry es → All IsLine (map entry_line es)
entry_lines-IsLine [] h = tt
entry_lines-IsLine (e ∷ es) h = (entry_line-IsLine e h.0, entry_lines-IsLine es h.1)

to_bytes-IsAscii : (es : StringMap) → All IsEntry es → IsAscii (to_bytes es)
unfolding to_bytes join
to_bytes-IsAscii [] h = tt
to_bytes-IsAscii (e ∷ []) h = All-mono (λ c p. p.0) (entry_line e) (text_bytes-entry_line e h.0)
to_bytes-IsAscii (e ∷ f ∷ es) h =
    All-append (λ b. b < 128) (entry_line e) (10 ∷ join 10 (map entry_line (f ∷ es)))
      (All-mono (λ c p. p.0) (entry_line e) (text_bytes-entry_line e h.0))
      (omega arith, to_bytes-IsAscii (f ∷ es) h.1)

lines-to_bytes : (es : StringMap) → All IsEntry es → lines (to_bytes es) ≡ map entry_line es
unfolding to_bytes
lines-to_bytes es h = lines-join (map entry_line es) (entry_lines-IsLine es h)

abbrev or_else : Option Text → Option Text → Option Text
or_else (some v) o = some v
or_else none o = o

or_else-none : (o : Option Text) → or_else o none ≡ o
or_else-none none = refl
or_else-none (some v) = refl

insert_line-entry :
    (m : StringMap) (k v : Text) → IsEntry (k, v) → insert_line m (entry_line (k, v)) ≡ insert k v m
unfolding insert_line
insert_line-entry m k v h = rw (split_once-append b'=' k v h.1, insert_line)

lookup-insert_lines :
    (j : Text) (m es : StringMap)
    → All IsEntry es
    → Distinct es
    → lookup j (insert_lines m (map entry_line es)) ≡ or_else (lookup j es) (lookup j m)
unfolding insert_lines
lookup-insert_lines j m [] h d = unfold lookup in refl
lookup-insert_lines j m ((k, v) ∷ es) h d =
    ap (λ (n : StringMap). lookup j (insert_lines n (map entry_line es)))
      (insert_line-entry m k v h.0)
    ∙ lookup-insert_lines j (insert k v m) es h.1 d.1
    ∙ (rw (lookup-insert k j v m) (unfold lookup in ground (arith, text_same_iff k j, d.0)))

-- If the entries `es` of the map `m` are written, each once and in any order, and are ASCII without
-- line ends and without `=` in a key, then the settings that a peer reads are those that were
-- written: each key has its value, and no other key has one.
pub lookup-from_bytes-to_bytes :
    (m es : StringMap) (key : Text)
    → IsIteration m es
    → All IsEntry es
    → lookup key (from_bytes (to_bytes es)) ≡ lookup key m
unfolding from_bytes lookup
lookup-from_bytes-to_bytes m es key it h =
    rw
      (
        from_utf8_lossy_ascii (to_bytes es) (to_bytes-IsAscii es h),
        lines-to_bytes es h,
        lookup-insert_lines key [] es h it.once,
      )
      (or_else-none (lookup key es) ∙ it.same_entries key)
