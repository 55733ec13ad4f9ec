-- ===== src/Core/Engine/Handshake.antt =====
-- src/core/engine.rs: the settings that a client sends, the server's answer, and what the client
-- makes of it.
use anytls_rs_legacy.Common.{
  ◌≡◌, refl, ◌∙◌, true, false, some, List, [], ◌∷◌, ◌++◌, arith, All, Text, codes, text_key,
  text_same, text_same_iff, if◌then◌else◌, Bool-cases, inl, inr,
}
use anytls_rs_legacy.Common.Bytes.{Bytes}
use anytls_rs_legacy.Common.Map.{lookup, insert}
use anytls_rs_legacy.Core.Frame.{
  Frame, settings, server_settings, update_padding_scheme, frame_with_data,
}
use anytls_rs_legacy.Core.Text.{decimal, to_string, parse_uint, from_utf8_lossy, lines}
use anytls_rs_legacy.Core.Text.Decimal.{parse_uint-to_string}
use anytls_rs_legacy.Core.StringMap.{StringMap, to_bytes, from_bytes, insert_lines}
use anytls_rs_legacy.Core.StringMap.RoundTrip.{IsIteration, IsEntry, lookup-from_bytes-to_bytes}
use anytls_rs_legacy.Core.Padding.{PaddingFactory, new_factory}
use anytls_rs_legacy.Core.State.{
  State, set_padding, set_peer_version, mark_received_settings_from_client,
}
use anytls_rs_legacy.Core.Engine.Rules.{on_frames}
use anytls_rs_legacy.Core.Engine.{
  is_empty, from_utf8_lossy, ProtocolAction, send_frame, send_frame_sync, client_settings, on_frame,
  on_command, on_client_settings, on_server_settings, on_padding_scheme, negotiate, parse_version,
  padding_actions, protocol_version,
}

-- The client's settings frame, its entries written in the order of `iteration`.
abbrev pub settings_frame : (StringMap → StringMap) → State → Text → Frame
settings_frame iteration client client_name =
    frame_with_data settings 0 (to_bytes (iteration (client_settings client_name client)))

abbrev pub server_settings_frame : Frame
server_settings_frame =
    frame_with_data server_settings 0 (to_bytes ((codes "v", to_string protocol_version) ∷ []))

abbrev pub update_frame : State → Frame
update_frame server = frame_with_data update_padding_scheme 0 server.padding.raw_scheme

-- The iteration lists the client's settings, and they are plain ASCII text.
pub record IsPlainClient (iteration : StringMap → StringMap) (client : State) (client_name : Text)
    : Type 0 where
  pub listed :
      IsIteration
        (client_settings client_name client)
        (iteration (client_settings client_name client))
  pub plain : All IsEntry (iteration (client_settings client_name client))

two-IsEntry : IsEntry (codes "v", to_string protocol_version)
unfolding to_string decimal
two-IsEntry = omega arith

parse_two : parse_uint 256 (to_string protocol_version) ≡ some protocol_version
parse_two = parse_uint-to_string 256 protocol_version (omega arith) (omega arith)

not_empty :
    (key : Text) (b : Bytes) {value : Text}
    → lookup key (from_bytes b) ≡ some value
    → is_empty b ≡ false
unfolding from_bytes from_utf8_lossy lines insert_lines lookup
not_empty key [] e = cc
not_empty key (c ∷ b) e = refl

new_factory-not_empty :
    (md5_hex : Bytes → Text) (b : Bytes) {f : PaddingFactory}
    → new_factory md5_hex b ≡ some f
    → is_empty b ≡ false
unfolding new_factory from_bytes from_utf8_lossy lines insert_lines
new_factory-not_empty md5_hex [] e = cc
new_factory-not_empty md5_hex (c ∷ b) e = refl

abbrev answer : StringMap
answer = (codes "v", to_string protocol_version) ∷ []

answer_version :
    lookup (codes "v") (from_bytes (to_bytes answer)) ≡ some (to_string protocol_version)
answer_version =
    lookup-from_bytes-to_bytes answer answer (codes "v")
      (record { once = (unfold lookup in refl, tt); same_entries = λ k. refl }) (two-IsEntry, tt)
    ∙ (unfold lookup text_same in refl)

answer_parsed : parse_version (from_bytes (to_bytes answer)) ≡ some protocol_version
unfolding parse_version
answer_parsed = rw (answer_version, parse_version) parse_two

module _ (md5_hex : Bytes → Text) (iteration : StringMap → StringMap) (client server : State)
    (client_name : Text) where
  received :
      IsPlainClient iteration client client_name
      → (key : Text)
      → lookup key (from_bytes (to_bytes (iteration (client_settings client_name client))))
        ≡ lookup key (client_settings client_name client)
  received p key =
      lookup-from_bytes-to_bytes (client_settings client_name client) _ key p.listed p.plain

  received_digest :
      IsPlainClient iteration client client_name
      → lookup
          (codes "padding-md5")
          (from_bytes (to_bytes (iteration (client_settings client_name client))))
        ≡ some client.padding.md5
  received_digest p =
      received p (codes "padding-md5") ∙ (unfold client_settings lookup insert text_same in refl)

  received_version :
      IsPlainClient iteration client client_name
      → parse_version (from_bytes (to_bytes (iteration (client_settings client_name client))))
        ≡ some protocol_version
  unfolding parse_version
  received_version p =
      rw (received p (codes "v"), parse_version)
        (unfold client_settings lookup insert text_same in parse_two)

  negotiate-two :
      IsPlainClient iteration client client_name
      → negotiate
          (mark_received_settings_from_client server)
          (from_bytes (to_bytes (iteration (client_settings client_name client))))
        ≡ (
          record server { peer_version = protocol_version; received_settings_from_client = true },
          send_frame_sync server_settings_frame ∷ [],
        )
  unfolding negotiate set_peer_version mark_received_settings_from_client insert
  negotiate-two p = rw (received_version p, negotiate)

  padding_actions-digest :
      IsPlainClient iteration client client_name
      → padding_actions
          (mark_received_settings_from_client server)
          (from_bytes (to_bytes (iteration (client_settings client_name client))))
        ≡ (if text_same client.padding.md5 server.padding.md5
            then []
            else send_frame_sync (update_frame server) ∷ [])
  unfolding padding_actions mark_received_settings_from_client
  padding_actions-digest p = rw (received_digest p, padding_actions)

  -- The server answers a client's settings, plain ASCII entries that are each listed once, by the
  -- version that both run, and by its own scheme if the client's digest is another; it then knows
  -- the client's version and lets it open streams.
  on_frame-settings :
      IsPlainClient iteration client client_name
      → on_frame md5_hex server false (settings_frame iteration client client_name) ≡ (
        record server { peer_version = protocol_version; received_settings_from_client = true },
        (if text_same client.padding.md5 server.padding.md5
              then []
              else send_frame_sync (update_frame server) ∷ [])
            ++ (send_frame_sync server_settings_frame ∷ []),
      )
  unfolding on_frame on_command on_client_settings
  on_frame-settings p = ground (
    arith,
    not_empty (codes "padding-md5") (to_bytes (iteration (client_settings client_name client)))
        (received_digest p),
    negotiate-two p,
    padding_actions-digest p,
  )

-- The frames that a list of actions sends.
unfoldable pub sent : List ProtocolAction → List Frame
sent [] = []
sent (send_frame f ∷ as') = f ∷ sent as'
sent (send_frame_sync f ∷ as') = f ∷ sent as'
sent (a ∷ as') = sent as'

module _ (md5_hex : Bytes → Text) (client server : State) where
  on_frame-server_settings :
      on_frame md5_hex client true server_settings_frame
      ≡ (record client { peer_version = protocol_version }, [])
  unfolding on_frame on_command on_server_settings set_peer_version
  on_frame-server_settings =
      ground (arith, not_empty (codes "v") (to_bytes answer) answer_version, answer_parsed)

  on_frame-update :
      new_factory md5_hex server.padding.raw_scheme ≡ some server.padding
      → on_frame md5_hex client true (update_frame server)
        ≡ (record client { padding = server.padding }, [])
  unfolding on_frame on_command on_padding_scheme set_padding
  on_frame-update made =
      ground (arith, made, new_factory-not_empty md5_hex server.padding.raw_scheme made)

module _ (md5_hex : Bytes → Text) (iteration : StringMap → StringMap) (client server : State)
    (client_name : Text) where
  -- A client's settings frame, the server's answer, and the client's handling of the frames in it.
  unfoldable pub handshake : State × State
  handshake =
      let (server', actions) =
        on_frame md5_hex server false (settings_frame iteration client client_name) in
      ((on_frames md5_hex client true (sent actions)).0, server')

  -- If the client's settings are plain ASCII entries, each listed once, and the server's scheme is
  -- what its own bytes parse to, then after the handshake both ends have recorded the protocol
  -- version, the server has the client's settings, and the client's scheme has the digest of the
  -- server's, which is unchanged.
  pub handshake_agrees :
      IsPlainClient iteration client client_name
      → new_factory md5_hex server.padding.raw_scheme ≡ some server.padding
      → (handshake.0.peer_version ≡ protocol_version)
        × (handshake.1.peer_version ≡ protocol_version)
        × (handshake.1.received_settings_from_client ≡ true)
        × (handshake.0.padding.md5 ≡ server.padding.md5)
        × (handshake.1.padding ≡ server.padding)
  unfolding handshake on_frames sent
  handshake_agrees p made = elim (Bool-cases (text_same client.padding.md5 server.padding.md5)) [
    | inl e ↦
        rw (on_frame-settings md5_hex iteration client server client_name p, e)
          (ground (
            arith,
            on_frame-server_settings md5_hex client server,
            text_same_iff client.padding.md5 server.padding.md5,
          ))
    | inr e ↦
        rw (on_frame-settings md5_hex iteration client server client_name p, e)
          (ground (
            arith,
            on_frame-update md5_hex client server made,
            on_frame-server_settings md5_hex (record client { padding = server.padding }) server,
          ))
  ]
