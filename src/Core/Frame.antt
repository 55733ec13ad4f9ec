-- ===== src/Core/Frame.antt =====
-- src/core/frame.rs: the commands, the frame and its wire form.
pub mod RoundTrip
use anytls_rs_legacy.Common.{
  ℕ, ◌%◌, Option, none, some, [], ◌∷◌, ◌++◌, if◌then◌else◌, ltb, ◌==◌, length, take, drop,
}
use anytls_rs_legacy.Common.Bytes.{Bytes, put_u16, put_u32, get_u8, get_u16, get_u32}

abbrev pub header_overhead_size : ℕ
header_overhead_size = 7

pub data Command : Type 0 where
  waste syn psh fin settings alert update_padding_scheme syn_ack : Command
  heart_request heart_response server_settings : Command
  unknown : ℕ → Command

unfoldable pub command_of_u8 : ℕ → Command
command_of_u8 v =
    if v == 0
    then waste
    else if v == 1
    then syn
    else if v == 2
    then psh
    else if v == 3
    then fin
    else if v == 4
    then settings
    else if v == 5
    then alert
    else if v == 6
    then update_padding_scheme
    else if v == 7
    then syn_ack
    else if v == 8
    then heart_request
    else if v == 9
    then heart_response
    else if v == 10
    then server_settings
    else unknown v

unfoldable pub u8_of_command : Command → ℕ
u8_of_command waste = 0
u8_of_command syn = 1
u8_of_command psh = 2
u8_of_command fin = 3
u8_of_command settings = 4
u8_of_command alert = 5
u8_of_command update_padding_scheme = 6
u8_of_command syn_ack = 7
u8_of_command heart_request = 8
u8_of_command heart_response = 9
u8_of_command server_settings = 10
u8_of_command (unknown value) = value

pub record Frame : Type 0 where
  pub cmd : Command
  pub sid : ℕ
  pub payload : Bytes

abbrev pub new_frame : Command → ℕ → Frame
new_frame c s = record { cmd = c; sid = s; payload = [] }

abbrev pub frame_with_data : Command → ℕ → Bytes → Frame
frame_with_data c s d = record { cmd = c; sid = s; payload = d }

-- `self.data.len() as u16` keeps the low sixteen bits.
unfoldable pub to_bytes : Frame → Bytes
to_bytes f =
    u8_of_command f.cmd ∷ (put_u32 f.sid ++ (put_u16 (length f.payload % 65536) ++ f.payload))

pub record RawHeader : Type 0 where
  pub cmd : Command
  pub sid : ℕ
  pub len : ℕ

unfoldable pub raw_header_from_bytes : Bytes → Option RawHeader
raw_header_from_bytes b =
    if ltb (length b) header_overhead_size
    then none
    else some (record {
      cmd = command_of_u8 (get_u8 b);
      sid = get_u32 (drop 1 b);
      len = get_u16 (drop 5 b);
    })

unfoldable pub frame_of_header : RawHeader → Bytes → Option Frame
frame_of_header h b =
    if ltb (length b) h.len
    then none
    else some (record { cmd = h.cmd; sid = h.sid; payload = take h.len b })

unfoldable pub from_bytes : Bytes → Option Frame
from_bytes b = elim (raw_header_from_bytes b) [
  | none ↦ none
  | some h ↦ frame_of_header h (drop header_overhead_size b)
]
