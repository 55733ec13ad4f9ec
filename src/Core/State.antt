-- ===== src/Core/State.antt =====
-- src/core/state.rs: what both ends of a session remember of their peer. The locks guard single
-- reads and writes, so the state is a plain record.
use anytls_rs_legacy.Common.{ℕ, Bool, true, false}
use anytls_rs_legacy.Core.Padding.{PaddingFactory}

pub record State : Type 0 where
  pub padding : PaddingFactory
  pub peer_version : ℕ
  pub received_settings_from_client : Bool

unfoldable pub new_state : PaddingFactory → State
new_state p = record { padding = p; peer_version = 0; received_settings_from_client = false }

unfoldable pub set_padding : State → PaddingFactory → State
set_padding s p = record s { padding = p }

unfoldable pub set_peer_version : State → ℕ → State
set_peer_version s v = record s { peer_version = v }

unfoldable pub mark_received_settings_from_client : State → State
mark_received_settings_from_client s = record s { received_settings_from_client = true }
