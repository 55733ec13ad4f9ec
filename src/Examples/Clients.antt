-- ===== src/Examples/Clients.antt =====
-- The theorems on the client and on the users of a node at concrete inputs.
use anytls_rs_legacy.Common.{Bool, ◌==◌, nat_key, ℕ, ◌≡◌, refl, false, [], ◌∷◌, Result, ok}
use anytls_rs_legacy.Common.Int.{pos}
use anytls_rs_legacy.Proxy.Session.{
  Session, new_session, open_stream, announce_syn, keep_or_remove, write_frame, add_stream,
}
use anytls_rs_legacy.Proxy.Pool.{take_reusable, take_loop, swap_remove_index}
use anytls_rs_legacy.Proxy.Client.{
  Client, create_stream, create_stream_tries, find_or_create_session, take_reusable_session,
  find_active, create_session, when_dialed, try_stream,
}
use anytls_rs_legacy.Proxy.Client.Streams.{IsOpened, create_stream-IsOpened}
use anytls_rs_legacy.Node.Users.{UserEntry}

abbrev dial : ℕ → Bool × Result Session
dial n = (n == 2, ok new_session)

abbrev fresh : Client
fresh = record {
  active_sessions = [];
  idle_session_pool = [];
  sessions = λ h. new_session;
  session_seq_number = 0;
  closed_flag = false;
  dialed = 0;
}

abbrev served : Client × Result (ℕ × ℕ)
served = create_stream dial 30 1 8 100 fresh

served-ok : served ≡ (served.0, ok (0, 0))
unfolding create_stream create_stream_tries find_or_create_session take_reusable_session
    take_reusable take_loop swap_remove_index find_active create_session when_dialed try_stream
    open_stream announce_syn keep_or_remove write_frame add_stream
served-ok = refl

create_stream-IsOpened_example : IsOpened (served.0.sessions 0) 0
create_stream-IsOpened_example = create_stream-IsOpened dial 30 1 8 100 fresh served.0 0 0 served-ok

abbrev user : UserEntry
user = record {
  email = [];
  generation = 0;
  up = 1000;
  down = 500;
  connections = pos 1;
  quota_bytes = 30;
  quota_base = 0;
  expires_unix = pos 0;
  is_revoked = false;
}

abbrev busy : Client
busy = record fresh { active_sessions = (0, 0) ∷ (1, 1) ∷ []; session_seq_number = 2; dialed = 2 }
