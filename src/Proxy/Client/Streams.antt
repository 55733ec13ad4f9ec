-- ===== src/Proxy/Client/Streams.antt =====
-- src/proxy/session/client.rs: the stream that a client hands out.
use anytls_rs_legacy.Common.{
  ℕ, zero, suc, ◌+◌, ◌%◌, ◌^◌, ◌==◌, leb, ◌≡◌, inl, inr, false, some, arith, length, nat_key, Bool,
  Bool-cases, IoError, io_error, other, Result-cases, sym, ap, subst, ◌∙◌, Result, ok, err,
}
use anytls_rs_legacy.Common.Map.{lookup, lookup-insert}
use anytls_rs_legacy.Core.Frame.{Frame, new_frame, syn}
use anytls_rs_legacy.Proxy.Session.{
  Session, is_terminated, open_stream, announce_syn, keep_or_remove, add_stream, write_frame,
}
use anytls_rs_legacy.Proxy.Client.{
  Client, find_or_create_session, try_stream, create_stream, create_stream_tries, put_session,
}

-- A stream that was opened is in the table of a session that still runs, and is open.
abbrev pub IsOpened : Session → ℕ → Type 0
IsOpened s h =
    (is_terminated s ≡ false)
    × ((s.store h).closed ≡ false)
    × (lookup (s.store h).id s.streams ≡ some h)

keep-IsOpened :
    (s t : Session) (sid h k : ℕ) (r : Result ℕ)
    → IsOpened s h
    → keep_or_remove s sid h r ≡ (t, ok k)
    → IsOpened t k
unfolding keep_or_remove
keep-IsOpened s t sid h k (ok n) i e = ground arith
keep-IsOpened s t sid h k (err x) i e = absurd (ground arith)

added-IsOpened :
    (s : Session) (sid : ℕ) (f : Frame)
    → is_terminated s ≡ false
    → IsOpened (write_frame (add_stream s sid).0 f).0 (add_stream s sid).1
unfolding write_frame add_stream
added-IsOpened s sid f r = ground (arith, lookup-insert sid sid s.next_handle s.streams)

-- `open_stream` only returns a stream that is open, in the table of a session that runs.
open_stream-IsOpened : (s t : Session) (max k : ℕ) → open_stream s max ≡ (t, ok k) → IsOpened t k
unfolding open_stream announce_syn
open_stream-IsOpened s t max k e =
    let sid = (s.next_stream_id + 1) % 2 ^ 32 in
    let u = record s { next_stream_id = sid } in
    elim (Bool-cases (is_terminated s)) [
      | inl g ↦ absurd (ground (arith, e, g))
      | inr g ↦ elim (Bool-cases (leb max (length s.streams))) [
        | inl h ↦ absurd (ground (arith, e, g, h))
        | inr h ↦ elim (Bool-cases (sid == 0)) [
          | inl z ↦ absurd (ground (arith, e, g, h, z))
          | inr z ↦
              let w = write_frame (add_stream u sid).0 (new_frame syn sid) in
              keep-IsOpened w.0 t sid (add_stream u sid).1 k w.1
                (added-IsOpened u sid (new_frame syn sid) g) (ground (arith, e, g, h, z))
        ]
      ]
    ]

module _ (dial : ℕ → Bool × Result Session) (timeout min_idle max_streams now : ℕ) where
  try_stream-IsOpened :
      (c d : Client) (h k : ℕ)
      → try_stream dial timeout min_idle max_streams now c h ≡ (d, ok k)
      → IsOpened (d.sessions h) k
  unfolding try_stream
  try_stream-IsOpened c d h k e =
      let s = c.sessions h in
      let o = open_stream s max_streams in
      elim (Result-cases o.1) [
        | inr (x, f) ↦ absurd (ground (arith, e, f))
        | inl (n, f) ↦
            let made : try_stream dial timeout min_idle max_streams now c h
                ≡ (record c { sessions = put_session h o.0 c.sessions }, ok n) =
              rw (f, try_stream) in
            let both = sym made ∙ e in
            let at_h : put_session h o.0 c.sessions h ≡ d.sessions h =
              ap (λ x. x.0.sessions h) both in
            let here : o.0 ≡ d.sessions h = ground (arith, at_h) in
            let same : n ≡ k = ground (arith, both) in
            subst (λ (t : Session). IsOpened t k) here
              (open_stream-IsOpened s o.0 max_streams k (ground (arith, f, same)))
      ]

  tries-IsOpened :
      (n : ℕ) (last : IoError) (c d : Client) (h k : ℕ)
      → create_stream_tries dial timeout min_idle max_streams now n last c ≡ (d, ok (h, k))
      → IsOpened (d.sessions h) k
  unfolding create_stream_tries
  tries-IsOpened zero last c d h k e = absurd (ground arith)
  tries-IsOpened (suc n) last c d h k e = elim (Bool-cases c.closed_flag) [
    | inl z ↦ absurd (ground (arith, e, z))
    | inr z ↦
        let found = find_or_create_session dial timeout min_idle max_streams now c in
        elim (Result-cases found.1) [
          | inr (x, f) ↦ absurd (ground (arith, e, z, f))
          | inl (r, f) ↦
              let tried = try_stream dial timeout min_idle max_streams now found.0 r.0 in
              elim (Result-cases tried.1) [
                | inr (x, g) ↦ tries-IsOpened n x tried.0 d h k (ground (arith, e, z, f, g))
                | inl (m, g) ↦
                    let both : ◌≡◌ {A = Client × Result (ℕ × ℕ)} (tried.0, ok (r.0, m))
                        (d, ok (h, k)) =
                      ground (arith, e, z, f, g) in
                    let here : r.0 ≡ h = ground (arith, both) in
                    let same : tried ≡ (d, ok k) = ground (arith, both, g) in
                    subst (λ (i : ℕ). IsOpened (d.sessions i) k) here
                      (try_stream-IsOpened found.0 d r.0 k same)
              ]
        ]
  ]

  -- A stream that `create_stream` returns is open, and is in the table of a session that has not ended,
  -- whatever the pool, the sessions and the dialer were.
  pub create_stream-IsOpened :
      (c d : Client) (h k : ℕ)
      → create_stream dial timeout min_idle max_streams now c ≡ (d, ok (h, k))
      → IsOpened (d.sessions h) k
  unfolding create_stream
  create_stream-IsOpened c d h k e = elim (Bool-cases c.closed_flag) [
    | inl f ↦ absurd (ground arith)
    | inr f ↦ tries-IsOpened 3 (io_error other "Failed to create stream") c d h k (ground arith)
  ]
