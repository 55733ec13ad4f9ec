-- ===== src/Proxy/Client.antt =====
-- src/proxy/session/client.rs, `Client`: where the stream of a request comes from. Sessions live in a
-- store of handles. What the dialer returns and what happens at the start of a new session stand in
-- `dial`: for each attempt whether `close` runs meanwhile, and the started session or the error. The task that
-- takes a session out of the map when it ends is not modelled.
pub mod Streams
pub mod Closing
use anytls_rs_legacy.Common.{
  ◌++◌, map, zero, suc, ℕ, ◌+◌, ◌%◌, ◌^◌, Bool, true, false, not, ◌&&◌, Option, none, some, List,
  [], ◌∷◌, ltb, length, ◌==◌, if◌then◌else◌, nat_key, IoError, io_error, broken_pipe, would_block,
  ErrorKind, other, Result, ok, err,
}
use anytls_rs_legacy.Common.Map.{Map, insert}
use anytls_rs_legacy.Proxy.Pool.{Entry, drain, Pool, Ended, take_reusable}
use anytls_rs_legacy.Proxy.Session.{Session, is_terminated, open_stream, terminate_session_wide}

-- `dialed` counts the attempts, `session_seq_number` the sessions made.
pub record Client : Type 0 where
  pub active_sessions : Map ℕ ℕ
  pub idle_session_pool : Pool
  pub sessions : ℕ → Session
  pub session_seq_number : ℕ
  pub closed_flag : Bool
  pub dialed : ℕ

abbrev pub put_session : ℕ → Session → (ℕ → Session) → ℕ → Session
put_session h s sessions k = if k == h then s else sessions k

abbrev pub client_closed : IoError
client_closed = io_error broken_pipe "Client closed"

-- The sessions that a call on the pool ended are terminated.
abbrev pub end_sessions : Ended → (ℕ → Session) → ℕ → Session
end_sessions ended sessions h =
    if ended h && not (is_terminated (sessions h))
    then terminate_session_wide (sessions h)
    else sessions h

unfoldable pub terminate_each : List ℕ → (ℕ → Session) → ℕ → Session
terminate_each [] sessions = sessions
terminate_each (h ∷ hs) sessions =
    terminate_each hs (put_session h (terminate_session_wide (sessions h)) sessions)

unfoldable pub close : Client → Client
close c = if c.closed_flag then c else record c {
  closed_flag = true;
  active_sessions = [];
  idle_session_pool = (drain c.idle_session_pool).1;
  sessions =
      terminate_each
        (map (λ e. e.1) c.active_sessions
          ++ map (λ (e : Entry). e.session) (drain c.idle_session_pool).0)
        c.sessions;
}

-- `create_session` behind the dial, with whether `close` ran meanwhile.
unfoldable pub when_dialed : Client → Bool × Result Session → Client × Result (ℕ × ℕ)
when_dialed c (closing, dialed) =
    let attempt = c.dialed in
    let dialing = record c { dialed = attempt + 1 } in
    let next = if closing then close dialing else dialing in
    elim dialed [
      | err e ↦ (next, err e)
      | ok s ↦
          if next.closed_flag
          then (
            record next { sessions = put_session attempt (terminate_session_wide s) next.sessions },
            err client_closed,
          )
          else (
            record next {
              sessions = put_session attempt s next.sessions;
              session_seq_number = (next.session_seq_number + 1) % 2 ^ 64;
              active_sessions = insert next.session_seq_number attempt next.active_sessions;
            },
            ok (attempt, next.session_seq_number),
          )
    ]

module _ (dial : ℕ → Bool × Result Session) (timeout min_idle max_streams now : ℕ) where
  unfoldable pub take_reusable_session : Client → Client × Option (ℕ × ℕ)
  take_reusable_session c =
      let t =
        take_reusable timeout min_idle now c.idle_session_pool
          (λ h. is_terminated (c.sessions h)) in
      (record c { idle_session_pool = t.pool; sessions = end_sessions t.ended c.sessions }, t.found)

  unfoldable pub find_active : Client → Map ℕ ℕ → Option (ℕ × ℕ)
  find_active c [] = none
  find_active c ((seq, h) ∷ rest) =
      if not (is_terminated (c.sessions h)) && ltb (length (c.sessions h).streams) max_streams
      then some (h, seq)
      else find_active c rest

  unfoldable pub create_session : Client → Client × Result (ℕ × ℕ)
  create_session c = when_dialed c (dial c.dialed)

  unfoldable pub find_or_create_session : Client → Client × Result (ℕ × ℕ)
  find_or_create_session c =
      if c.closed_flag
      then (c, err client_closed)
      else (let (d, found) = take_reusable_session c in
          elim found [
            | some r ↦ (d, ok r)
            | none ↦ elim (find_active d d.active_sessions) [
              | some r ↦ (d, ok r)
              | none ↦ if d.closed_flag then (d, err client_closed) else create_session d
            ]
          ])

  abbrev pub is_would_block : ErrorKind → Bool
  is_would_block would_block = true
  is_would_block k = false

  -- What a try does with the session that it found.
  unfoldable pub try_stream : Client → ℕ → Client × Result ℕ
  try_stream c h =
      let (s, r) = open_stream (c.sessions h) max_streams in
      let d = record c { sessions = put_session h s c.sessions } in
      elim r [
        | ok stream ↦ (d, ok stream)
        | err e ↦ if is_would_block e.kind then (d, err e) else (
          record c { sessions = put_session h (terminate_session_wide s) c.sessions },
          err e,
        )
      ]

  -- `for _ in 0..3`; the answer is the handle of the session and that of the stream.
  unfoldable pub create_stream_tries : ℕ → IoError → Client → Client × Result (ℕ × ℕ)
  create_stream_tries zero last c = (c, err last)
  create_stream_tries (suc n) last c = elim c.closed_flag [
    | true ↦ (c, err client_closed)
    | false ↦
        let (d, found) = find_or_create_session c in
        elim found [
          | err e ↦ (d, err e)
          | ok r ↦
              let (f, opened) = try_stream d r.0 in
              elim opened [ ok stream ↦ (f, ok (r.0, stream)) | err e ↦ create_stream_tries n e f ]
        ]
  ]

  unfoldable pub create_stream : Client → Client × Result (ℕ × ℕ)
  create_stream c =
      if c.closed_flag
      then (c, err client_closed)
      else create_stream_tries 3 (io_error other "Failed to create stream") c
