-- ===== src/Proxy/Session/Routing.antt =====
-- src/proxy/session/inner.rs and src/runtime/mod.rs: which streams a payload, an end of the session and
-- a client without settings reach.
use anytls_rs_legacy.Common.{
  All, ◌∙◌, Text, ℕ, ◌≡◌, ◌≢◌, refl, inl, inr, ◌⊎◌, true, false, Option, none, some, List, [], ◌∷◌,
  map, arith, ◌==◌, nat_key, Bool-cases, IoError, ok,
}
use anytls_rs_legacy.Common.Bytes.{Bytes}
use anytls_rs_legacy.Common.Map.{Map, lookup}
use anytls_rs_legacy.Core.State.{State}
use anytls_rs_legacy.Core.Engine.{
  ProtocolAction, send_frame, send_frame_sync, close_local_stream, close_remote_stream,
  release_write_buffering, alert_and_fail, on_frame,
}
use anytls_rs_legacy.Core.Engine
use anytls_rs_legacy.Core.Engine.Rules.{on_frame-quiet, IsSettings, NoOpening, IsOpening}
use anytls_rs_legacy.Proxy.Session.{
  Frame, Session, write_frame, remove_stream, close_from_peer, close_removed, close_all, push_to,
  push_stream_data, close_logical_stream, terminate_session, terminate_session_wide,
}
use anytls_rs_legacy.Proxy.Session.Actions.{
  run, recv_frames, handle_frame, apply_actions, Acks, write_frame_sync, apply_action,
}

-- A payload leaves the table, the frames sent and every stream but the one that the table names for
-- its identifier as they were, and is dropped without an error if the table names none.
push_stream_data-others :
    (s : Session) (sid : ℕ) (b : Bytes) (h : ℕ)
    → lookup sid s.streams ≢ some h
    → let (t, r) = push_stream_data s sid b in
      (t.store h ≡ s.store h)
      × (t.streams ≡ s.streams)
      × (t.sent ≡ s.sent)
      × (lookup sid s.streams ≡ none → r ≡ ok tt)
unfolding push_stream_data push_to
push_stream_data-others s sid b h n = ground arith

close_from_peer-closed :
    (s : Session) (h k : ℕ) (e : Option IoError)
    → ((s.store k).closed ≡ true) ⊎ (k ≡ h)
    → ((close_from_peer s h e).store k).closed ≡ true
unfolding close_from_peer
close_from_peer-closed s h k e (inl c) = ground arith
close_from_peer-closed s h k e (inr q) = ground arith

close_all-stays :
    (s : Session) (hs : List ℕ) (k : ℕ)
    → (s.store k).closed ≡ true
    → ((close_all s hs).store k).closed ≡ true
unfolding close_all
close_all-stays s [] k c = c
close_all-stays s (h ∷ hs) k c =
    close_all-stays (close_from_peer s h none) hs k (close_from_peer-closed s h k none (inl c))

close_all-closed :
    (s : Session) (m : Map ℕ ℕ) (sid k : ℕ)
    → lookup sid m ≡ some k
    → ((close_all s (map (λ e. e.1) m)).store k).closed ≡ true
unfolding close_all lookup
close_all-closed s [] sid k e = absurd (ground arith)
close_all-closed s ((i, h) ∷ m) sid k e = elim (Bool-cases (i == sid)) [
  | inl q ↦
      close_all-stays (close_from_peer s h none) (map (λ e. e.1) m) k
        (close_from_peer-closed s h k none (inr (ground arith)))
  | inr q ↦ close_all-closed (close_from_peer s h none) m sid k (ground arith)
]

-- Terminating an open session closes every stream of its table.
terminate-closed :
    (s : Session) (sid h : ℕ)
    → s.closed ≡ false
    → lookup sid s.streams ≡ some h
    → ((terminate_session_wide s).store h).closed ≡ true
unfolding terminate_session_wide
terminate-closed s sid h c e =
    simp c
      (close_all-closed (record s { closed = true; streams = []; idle = true }) s.streams sid h e)

module _ (acks : Acks) where
  -- Only the opening of a stream announces one.
  apply_action-announced :
      (s : Session) (a : ProtocolAction)
      → ¬ IsOpening a
      → (apply_action acks s a).0.announced ≡ s.announced
  unfolding apply_action write_frame_sync write_frame push_stream_data push_to close_logical_stream
      terminate_session close_removed remove_stream close_from_peer
  apply_action-announced s (send_frame f) n = ground arith
  apply_action-announced s (send_frame_sync f) n = ground arith
  apply_action-announced s (Engine.push_stream_data sid b) n = ground arith
  apply_action-announced s (Engine.ensure_incoming_stream sid) n = absurd (n tt)
  apply_action-announced s (close_local_stream sid) n = ground arith
  apply_action-announced s (close_remote_stream sid message) n = ground arith
  apply_action-announced s release_write_buffering n = refl
  apply_action-announced s (alert_and_fail message) n = ground arith

  apply_actions-announced :
      (s : Session) (as' : List ProtocolAction)
      → NoOpening as'
      → (apply_actions acks s as').0.announced ≡ s.announced
  unfolding apply_actions
  apply_actions-announced s [] n = refl
  apply_actions-announced s (a ∷ as') n = ground (
    arith,
    apply_action-announced s a n.0,
    apply_actions-announced (apply_action acks s a).0 as' n.1,
  )

  module _ (md5_hex : Bytes → Text) where
    handle_frame-announced :
        (s : Session) (state : State) (f : Frame)
        → state.received_settings_from_client ≡ false
        → ¬ IsSettings f
        → let ((t, next), r) = handle_frame acks md5_hex s state false f in
          (t.announced ≡ s.announced) × (next.received_settings_from_client ≡ false)
    unfolding handle_frame
    handle_frame-announced s state f h n =
        let (quiet, still) = on_frame-quiet md5_hex state f h n in
        ground (arith, apply_actions-announced s (on_frame md5_hex state false f).1 quiet)

    recv_frames-announced :
        (s : Session) (state : State) (fs : List Frame)
        → state.received_settings_from_client ≡ false
        → All (λ f. ¬ IsSettings f) fs
        → (recv_frames acks md5_hex s state false fs).0.0.announced ≡ s.announced
    unfolding recv_frames
    recv_frames-announced s state [] h n = refl
    recv_frames-announced s state (f ∷ fs) h n =
        let next = (handle_frame acks md5_hex s state false f).0 in
        let (same, still) = handle_frame-announced s state f h n.0 in
        ground (arith, recv_frames-announced next.0 next.1 fs still n.1)

    close_all-announced : (s : Session) (hs : List ℕ) → (close_all s hs).announced ≡ s.announced
    unfolding close_all close_from_peer
    close_all-announced s [] = refl
    close_all-announced s (h ∷ hs) =
        close_all-announced (close_from_peer s h none) hs ∙ ground arith

    close_all-ended : (s : Session) (hs : List ℕ) → (close_all s hs).closed ≡ s.closed
    unfolding close_all close_from_peer
    close_all-ended s [] = refl
    close_all-ended s (h ∷ hs) = close_all-ended (close_from_peer s h none) hs ∙ ground arith

    terminate-announced :
        (s : Session)
        → ((terminate_session_wide s).announced ≡ s.announced)
          × ((terminate_session_wide s).closed ≡ true)
    unfolding terminate_session_wide
    terminate-announced s =
        let t = record s { closed = true; streams = []; idle = true } in
        ground (
          arith,
          close_all-announced t (map (λ e. e.1) s.streams),
          close_all-ended t (map (λ e. e.1) s.streams),
        )

    -- A server that runs a session on which its peer sends frames but never settings hands no stream
    -- to the application, and has closed the session in the end.
    pub run-announced :
        (s : Session) (state : State) (fs : List Frame)
        → state.received_settings_from_client ≡ false
        → All (λ f. ¬ IsSettings f) fs
        → let ((t, last), e) = run acks md5_hex s state false fs in
          (t.announced ≡ s.announced) × (t.closed ≡ true)
    unfolding run
    run-announced s state fs h n =
        let r = recv_frames acks md5_hex s state false fs in
        let (same, ended) = terminate-announced r.0.0 in
        (same ∙ recv_frames-announced s state fs h n, ended)
