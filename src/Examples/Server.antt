-- ===== src/Examples/Server.antt =====
-- The theorems on the first bytes of a connection at concrete inputs.
use anytls_rs_legacy.Server.Outbound.{
  copies, ForwardUrl, relay, relay_forward_stream, behind_dial, relay_probe_stream,
}
use mathlib.Core.List.{flatten}
use anytls_rs_legacy.Common.{
  ok, codes, ℕ, zero, suc, ◌≡◌, ◌≢◌, refl, false, Option, none, some, [], ◌∷◌, ◌++◌, take, drop,
  length, replicate, All, Text, inr, arith, text_same,
}
use anytls_rs_legacy.Common.Int.{pos}
use anytls_rs_legacy.Common.Bytes.{Bytes}
use anytls_rs_legacy.Server.Preamble.{Incoming, auth_data, fill, read_some}
use anytls_rs_legacy.Server.Preamble.Reading.{fill_lem}
use anytls_rs_legacy.Server.Preamble.ClientId.{IsVisible, id_of}
use anytls_rs_legacy.Server.Connection.{
  Config, ConnCtx, ServerState, shared_password, served, is_rejected, user_of, authenticate_with,
  admit, respond, fall_back, handle_connection,
}
use anytls_rs_legacy.Server.Connection.Admission.{handle_connection-client}
use anytls_rs_legacy.Server.Connection.Fallback.{SameUsers, handle_connection-SameUsers}

abbrev digest : Bytes
digest = replicate 32 7

abbrev id_text : Text
id_text = replicate 36 97

-- A reader of identifiers that gives the length of the text.
abbrev parse : Text → Option ℕ
parse t = some (length t)

abbrev config : Config
config = record { forward_target = some (1 ∷ []); probe_sni_allowlist = []; panel_sync = false }

abbrev server : ServerState
server = record { authenticator = shared_password digest; audit = [] }

abbrev arriving : Incoming
arriving = auth_data digest (pos 30 ∷ []) id_text ∷ (5 ∷ 6 ∷ []) ∷ []

abbrev probing : Incoming
probing = (9 ∷ 9 ∷ []) ∷ (8 ∷ []) ∷ []

letters : (n : ℕ) → All IsVisible (replicate n 97)
letters zero = tt
letters (suc n) = ((omega arith, omega arith), letters n)

arriving-flatten : flatten arriving ≡ auth_data digest (pos 30 ∷ []) id_text ++ (5 ∷ 6 ∷ [])
unfolding flatten
arriving-flatten = refl

digest-accepted : is_rejected (authenticate_with (pos 5) digest server.authenticator).1 ≡ false
unfolding authenticate_with text_same
digest-accepted = refl

abbrev admitted : ConnCtx
admitted = record {
  user = user_of (authenticate_with (pos 5) digest server.authenticator).1;
  client_id = id_of parse id_text;
  panel_sync = false;
}

handle_connection-client_example :
    (later : Incoming) × (handle_connection parse config (pos 5) none arriving server
      ≡ admit (pos 5) admitted later (record server {
        authenticator = (authenticate_with (pos 5) digest server.authenticator).0;
      }))
    × (flatten later ≡ (5 ∷ 6 ∷ []))
handle_connection-client_example =
    handle_connection-client parse config (pos 5) digest (pos 30 ∷ []) id_text (5 ∷ 6 ∷ []) none
      arriving server refl (inr (refl, letters 36)) arriving-flatten digest-accepted

abbrev web : Text → ForwardUrl
web url = record { host_str = some url; port_or_known_default = some 80; scheme = codes "http" }

-- The target gets the bytes of both chunks.
probing_relayed :
    relay web (copies 9 (ok tt)) (handle_connection parse config (pos 5) none probing server).1
    ≡ some (9 ∷ 9 ∷ 8 ∷ [])
unfolding handle_connection respond fill read_some fall_back relay relay_forward_stream behind_dial
    relay_probe_stream text_same flatten
probing_relayed = refl

probing-unserved :
    (ctx : ConnCtx) (rest : Incoming)
    → (handle_connection parse config (pos 5) none probing server).1 ≢ served ctx rest
unfolding handle_connection respond fill read_some fall_back
probing-unserved ctx rest = λ e. cc

handle_connection-SameUsers_example :
    SameUsers server.authenticator
      (handle_connection parse config (pos 5) none probing server).0.authenticator
handle_connection-SameUsers_example =
    handle_connection-SameUsers parse config (pos 5) none probing server probing-unserved

fill_lem_example :
    ((fill 2 2 probing).0 ≡ take 2 (flatten probing))
    × (flatten (fill 2 2 probing).1 ≡ drop 2 (flatten probing))
fill_lem_example = fill_lem 2 2 probing (omega arith)
