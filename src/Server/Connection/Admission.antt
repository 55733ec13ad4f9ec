-- ===== src/Server/Connection/Admission.antt =====
-- bin/server.rs, `handle_connection`, for a client that is let in.
use mathlib.Core.List.{flatten}
use anytls_rs_legacy.Common.{
  ℕ, ◌-◌, ◌≡◌, refl, ◌∙◌, sym, ap, false, Option, List, ◌++◌, take, drop, length, replicate, Text,
  ok, arith, append_assoc, length-append, take-append, drop-append,
}
use anytls_rs_legacy.Common.Int.{ℤ}
use anytls_rs_legacy.Common.Bytes.{Bytes, put_u16}
use anytls_rs_legacy.Server.Preamble.{Incoming, auth_data, padding_len, fill, read_client_id}
use anytls_rs_legacy.Server.Preamble.Reading.{fill_lem}
use anytls_rs_legacy.Server.Preamble.ClientId.{IsIdText, id_of, read_client_id-sent}
use anytls_rs_legacy.Server.Connection.{
  Config, ConnCtx, ServerState, is_rejected, user_of, authenticate_with, admit, welcome, respond,
  handle_connection,
}

module _ (parse_str : Text → Option ℕ) (config : Config) (now : ℤ) where
  respond-accepted :
      (probe : Option Text) (auth sha : Bytes) (later last : Incoming) (id : Option ℕ)
      (s : ServerState)
      → length auth ≡ 34
      → take 32 auth ≡ sha
      → is_rejected (authenticate_with now sha s.authenticator).1 ≡ false
      → read_client_id parse_str auth later ≡ ok (id, last)
      → let (a, outcome) = authenticate_with now sha s.authenticator in
        respond parse_str config now probe auth later s
        ≡ admit now
            (record { user = user_of outcome; client_id = id; panel_sync = config.panel_sync })
            last
            (record s { authenticator = a })
  unfolding respond welcome
  respond-accepted probe auth sha later last id s l d h r =
      let here : is_rejected (authenticate_with now (take 32 auth) s.authenticator).1 ≡ false =
        rw d h in
      rw (respond, l, here, welcome, r, d) refl

  -- A client that sends its digest, its padding and its identifier, and then `rest`, however the bytes
  -- are cut into reads, and whose digest authenticates: the server comes to the check of a connection
  -- of that user with that identifier, and what the session would read is `rest`.
  pub handle_connection-client :
      (password_sha256 : Bytes) (sizes : List ℤ) (id_text : Text) (rest : Bytes)
      (probe_target : Option Text) (incoming : Incoming) (s : ServerState)
      → length password_sha256 ≡ 32
      → IsIdText id_text
      → flatten incoming ≡ auth_data password_sha256 sizes id_text ++ rest
      → is_rejected (authenticate_with now password_sha256 s.authenticator).1 ≡ false
      → let (a, outcome) = authenticate_with now password_sha256 s.authenticator in
        let ctx : ConnCtx = record {
          user = user_of outcome;
          client_id = id_of parse_str id_text;
          panel_sync = config.panel_sync;
        } in
        (later : Incoming) × (handle_connection parse_str config now probe_target incoming s
          ≡ admit now ctx later (record s { authenticator = a }))
        × (flatten later ≡ rest)
  unfolding handle_connection auth_data
  handle_connection-client sha sizes t rest probe incoming s l i e h =
      let n = padding_len sizes t in
      let head = sha ++ put_u16 n in
      let tail = (t ++ replicate {A = ℕ} (n - length t) 0) ++ rest in
      let whole : flatten incoming ≡ head ++ tail = e ∙ simp append_assoc refl in
      let size : length head ≡ 34 = length-append sha (put_u16 n) ∙ omega (arith, l) in
      let (got, left) = fill_lem 34 34 incoming (omega arith) in
      let auth : (fill 34 34 incoming).0 ≡ head =
        got
        ∙ ap (λ x. take 34 x) whole
        ∙ ap (λ k. take k (head ++ tail)) (sym size)
        ∙ take-append head tail in
      let later : flatten (fill 34 34 incoming).1 ≡ tail =
        left
        ∙ ap (λ x. drop 34 x) whole
        ∙ ap (λ k. drop k (head ++ tail)) (sym size)
        ∙ drop-append head tail in
      let digest : take 32 head ≡ sha =
        ap (λ k. take k head) (sym l) ∙ take-append sha (put_u16 n) in
      let (last, r, f) =
        read_client_id-sent parse_str sha sizes t (fill 34 34 incoming).1 rest l i later in
      (
        last,
        respond-accepted probe (fill 34 34 incoming).0 sha (fill 34 34 incoming).1 last
            (id_of parse_str t) s (ap length auth ∙ size) (ap (λ x. take 32 x) auth ∙ digest) h
            (ap (λ x. read_client_id parse_str x (fill 34 34 incoming).1) auth ∙ r),
        f,
      )
