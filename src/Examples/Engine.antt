-- ===== src/Examples/Engine.antt =====
-- The theorems on the handshake, settings and padding at concrete inputs: a client and a server with
-- a small padding scheme.
use anytls_rs_legacy.Common.{
  subst, text_same_iff, ◌≡◌, refl, inl, inr, true, false, some, List, [], ◌∷◌, ◌++◌, arith, length,
  Text, codes, text_same, text_key, Bool-cases,
}
use anytls_rs_legacy.Common.Bytes.{Bytes}
use anytls_rs_legacy.Common.Map.{lookup, insert}
use anytls_rs_legacy.Core.Text.{to_string, decimal, parse_uint, from_utf8_lossy, lines, split_once}
use anytls_rs_legacy.Core.Frame.{Frame, syn, psh, settings, frame_with_data, new_frame}
use anytls_rs_legacy.Core.StringMap.{StringMap, from_bytes, to_bytes, insert_line, insert_lines}
use anytls_rs_legacy.Core.StringMap.RoundTrip.{lookup-from_bytes-to_bytes}
use anytls_rs_legacy.Core.Padding.{PaddingFactory, Rng, new_factory, factory_of}
use anytls_rs_legacy.Core.Padding.Sizes.{InRange}
use anytls_rs_legacy.Core.State.{State}
use anytls_rs_legacy.Core.Engine.{client_settings, protocol_version}
use anytls_rs_legacy.Core.Engine.Rules.{on_frames, NoOpening, on_frames-NoOpening}
use anytls_rs_legacy.Core.Engine.Handshake.{IsPlainClient, handshake, handshake_agrees}

abbrev digest : Bytes → Text
digest b = to_string (length b)

abbrev same_order : StringMap → StringMap
same_order m = m

abbrev raw : Bytes
raw = codes "stop=3" ++ (10 ∷ codes "1=30-30,c")

abbrev pub scheme : PaddingFactory
scheme = record {
  scheme = (codes "stop", codes "3") ∷ (codes "1", codes "30-30,c") ∷ [];
  raw_scheme = raw;
  stop = 3;
  md5 = codes "16";
}

abbrev client : State
client = record {
  padding = record scheme { md5 = codes "0" };
  peer_version = 0;
  received_settings_from_client = false;
}

abbrev server : State
server = record { padding = scheme; peer_version = 0; received_settings_from_client = false }

plain_client : IsPlainClient same_order client (codes "cli")
unfolding client_settings insert lookup text_same to_string decimal
plain_client = record {
  listed = record { once = (refl, (refl, (refl, tt))); same_entries = λ k. refl };
  plain = omega arith;
}

made : new_factory digest raw ≡ some scheme
unfolding new_factory factory_of lookup insert text_same to_string decimal parse_uint
    from_utf8_lossy lines split_once insert_lines insert_line from_bytes
made = refl

handshake_agrees_example :
    let h = handshake digest same_order client server (codes "cli") in
    (h.0.peer_version ≡ protocol_version)
    × (h.1.peer_version ≡ protocol_version)
    × (h.1.received_settings_from_client ≡ true)
    × (h.0.padding.md5 ≡ server.padding.md5)
    × (h.1.padding ≡ server.padding)
handshake_agrees_example =
    handshake_agrees digest same_order client server (codes "cli") plain_client made

abbrev early : List Frame
early = new_frame syn 1 ∷ frame_with_data psh 1 (1 ∷ []) ∷ new_frame settings 0 ∷ []

on_frames-NoOpening_example : NoOpening (on_frames digest server false early).1
on_frames-NoOpening_example = on_frames-NoOpening digest server early refl (ground arith)

abbrev two_entries : StringMap
two_entries = (codes "v", codes "2") ∷ (codes "client", codes "a=b") ∷ []

abbrev two_entries_reversed : StringMap
two_entries_reversed = (codes "client", codes "a=b") ∷ (codes "v", codes "2") ∷ []

reversed_lookup : (k : Text) → lookup k two_entries_reversed ≡ lookup k two_entries
unfolding lookup
reversed_lookup k = elim (Bool-cases (text_same (codes "v") k)) [
  | inl e ↦
      subst (λ (j : Text). lookup j two_entries_reversed ≡ lookup j two_entries)
        ((text_same_iff (codes "v") k).0 e) (unfold text_same in refl)
  | inr e ↦ ground (arith, e)
]

lookup-from_bytes-to_bytes_example :
    lookup (codes "client") (from_bytes (to_bytes two_entries_reversed)) ≡ some (codes "a=b")
unfolding lookup text_same
lookup-from_bytes-to_bytes_example =
    lookup-from_bytes-to_bytes two_entries two_entries_reversed (codes "client")
      (record { once = (refl, (refl, tt)); same_entries = reversed_lookup }) (omega arith)

abbrev lowest : Rng
lowest i lo hi = lo

lowest-InRange : InRange lowest
lowest-InRange i lo hi h = omega arith
