-- ===== src/Core/Engine/Rules.antt =====
-- src/core/engine.rs: what each end may and may not do, over any sequence of frames.
use anytls_rs_legacy.Common.{
  ◌∙◌, Bool-cases, ℕ, ◌≤◌, ◌≡◌, refl, ◌⊎◌, inl, inr, Bool, true, false, List, [], ◌∷◌, ◌++◌, arith,
  All, All-append, Text,
}
use anytls_rs_legacy.Common.Bytes.{Bytes}
use anytls_rs_legacy.Core.Frame.{Command, settings, Frame}
use anytls_rs_legacy.Core.State.{
  State, set_peer_version, mark_received_settings_from_client, set_padding,
}
use anytls_rs_legacy.Core.Engine.{
  min_protocol_version, ProtocolAction, ensure_incoming_stream, on_frame, on_command,
  on_client_settings, negotiate, on_server_settings, on_padding_scheme, is_empty,
}

-- Frames handled one after another: the last state, and all actions in order.
unfoldable pub on_frames : (Bytes → Text) → State → Bool → List Frame → State × List ProtocolAction
on_frames md5_hex s is_client [] = (s, [])
on_frames md5_hex s is_client (f ∷ fs) =
    let (t, first) = on_frame md5_hex s is_client f in
    let (u, later) = on_frames md5_hex t is_client fs in (u, first ++ later)

abbrev pub IsOpening : ProtocolAction → Type 0
IsOpening (ensure_incoming_stream sid) = Unit {0}
IsOpening a = ⊥

abbrev pub NoOpening : List ProtocolAction → Type 0
NoOpening = All (λ a. ¬ IsOpening a)

-- A frame that the server takes for the client's settings.
abbrev pub IsSettings : Frame → Type 0
IsSettings f = (f.cmd ≡ settings) × (is_empty f.payload ≡ false)

module _ (md5_hex : Bytes → Text) where
  on_command-quiet :
      (s : State) (cmd : Command) (sid : ℕ) (payload : Bytes)
      → s.received_settings_from_client ≡ false
      → ¬ ((cmd ≡ settings) × (is_empty payload ≡ false))
      → let r = on_command md5_hex s false cmd sid payload in
        NoOpening r.1 × (r.0.received_settings_from_client ≡ false)
  unfolding on_command
  on_command-quiet s settings sid payload h n = elim (Bool-cases (is_empty payload)) [
    | inl e ↦ rw e (tt, h)
    | inr e ↦ absurd (n (refl, e))
  ]
  on_command-quiet s _ sid payload h n = ground arith

  -- Before its client's settings, a server's answer to another frame opens no stream.
  pub on_frame-quiet :
      (s : State) (f : Frame)
      → s.received_settings_from_client ≡ false
      → ¬ IsSettings f
      → NoOpening (on_frame md5_hex s false f).1
        × ((on_frame md5_hex s false f).0.received_settings_from_client ≡ false)
  unfolding on_frame
  on_frame-quiet s f h n = on_command-quiet s f.cmd f.sid f.payload h n

  -- A server that has seen no settings frame opens no stream, whatever other frames arrive.
  pub on_frames-NoOpening :
      (s : State) (fs : List Frame)
      → s.received_settings_from_client ≡ false
      → All (λ f. ¬ IsSettings f) fs
      → NoOpening (on_frames md5_hex s false fs).1
  unfolding on_frames on_frame
  on_frames-NoOpening s [] h n = tt
  on_frames-NoOpening s (f ∷ fs) h n =
      let (quiet, still) = on_frame-quiet s f h n.0 in
      let t = (on_frame md5_hex s false f).0 in
      All-append (λ a. ¬ IsOpening a) (on_frame md5_hex s false f).1
        (on_frames md5_hex t false fs).1 quiet (on_frames-NoOpening t fs still n.1)

  on_command-client :
      (s : State) (cmd : Command) (sid : ℕ) (payload : Bytes)
      → let r = on_command md5_hex s true cmd sid payload in
        NoOpening r.1 × (r.0.received_settings_from_client ≡ s.received_settings_from_client)
  unfolding on_command on_padding_scheme on_server_settings set_padding set_peer_version
  on_command-client s settings sid payload = (tt, refl)
  on_command-client s _ sid payload = ground arith

  -- A client never opens a stream on behalf of its peer, and never takes settings for a client's.
  on_frames-client :
      (s : State) (fs : List Frame)
      → NoOpening (on_frames md5_hex s true fs).1
        × ((on_frames md5_hex s true fs).0.received_settings_from_client
            ≡ s.received_settings_from_client)
  unfolding on_frames on_frame
  on_frames-client s [] = (tt, refl)
  on_frames-client s (f ∷ fs) =
      let (quiet, same) = on_command-client s f.cmd f.sid f.payload in
      let t = (on_frame md5_hex s true f).0 in
      let (later, kept) = on_frames-client t fs in
      (
        All-append (λ a. ¬ IsOpening a) (on_frame md5_hex s true f).1
            (on_frames md5_hex t true fs).1 quiet later,
        kept ∙ same,
      )

  -- What a server keeps of its peer's version: none, or one that is not below the minimum.
  abbrev pub IsNegotiated : State → Type 0
  IsNegotiated s = (s.peer_version ≡ 0) ⊎ (min_protocol_version ≤ s.peer_version)

  on_command-server :
      (s : State) (cmd : Command) (sid : ℕ) (payload : Bytes)
      → IsNegotiated s
      → let t = (on_command md5_hex s false cmd sid payload).0 in
        IsNegotiated t × (t.padding ≡ s.padding)
  unfolding on_command on_client_settings negotiate set_peer_version
      mark_received_settings_from_client
  on_command-server s cmd sid payload v = ground arith

  -- On the server no frame changes the padding scheme, and if the recorded version is none or one
  -- that is not below the minimum, it stays so.
  on_frames-server :
      (s : State) (fs : List Frame)
      → IsNegotiated s
      → let t = (on_frames md5_hex s false fs).0 in IsNegotiated t × (t.padding ≡ s.padding)
  unfolding on_frames on_frame
  on_frames-server s [] v = (v, refl)
  on_frames-server s (f ∷ fs) v =
      let (w, same) = on_command-server s f.cmd f.sid f.payload v in
      let (last, kept) = on_frames-server (on_frame md5_hex s false f).0 fs w in (last, kept ∙ same)
