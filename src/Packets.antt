-- ===== src/Packets.antt =====
-- core-crypto/src/packets.rs: the messages that the devices exchange inside ratchet messages.
-- A string is its bytes, and a float its 64 bits.
pub mod Caps
use kyber_pipe.Base.{
  ℕ, Bool, true, false, ◌&&◌, Option, none, some, length, is_empty, ltb, if◌then◌else◌, Bytes,
}
use kyber_pipe.Error.{Result, ok, err, ok_or, ◌>>=◌, serialization_error}
use kyber_pipe.Frame.{max_message_size}

pub record SensorPacket : Type 0 where
  pub lux : ℕ
  pub timestamp : ℕ

pub record ClipboardPacket : Type 0 where
  pub content : Bytes
  pub hash : Bytes
  pub timestamp : ℕ

pub record BinaryClipboardPacket : Type 0 where
  pub mime_type : Bytes
  pub data_base64 : Bytes
  pub hash : Bytes
  pub timestamp : ℕ

pub record SmsPacket : Type 0 where
  pub sender : Bytes
  pub body : Bytes
  pub timestamp : ℕ

pub record OutboundSmsPacket : Type 0 where
  pub recipient : Bytes
  pub body : Bytes
  pub timestamp : ℕ

pub record NotificationPacket : Type 0 where
  pub sbn_key : Bytes
  pub title : Bytes
  pub text : Bytes
  pub app_package : Bytes
  pub icon_base64 : Option Bytes
  pub timestamp : ℕ

pub record NotificationActionPacket : Type 0 where
  pub sbn_key : Bytes
  pub action_index : ℕ
  pub action_title : Bytes
  pub timestamp : ℕ

pub record HardwareCommandPacket : Type 0 where
  pub command_type : Bytes
  pub payload_json : Bytes
  pub timestamp : ℕ

pub record FileChunkPacket : Type 0 where
  pub file_id : Bytes
  pub filename : Bytes
  pub chunk_index : ℕ
  pub total_chunks : ℕ
  pub data_base64 : Bytes
  pub timestamp : ℕ

pub data KyberMessage : Type 0 where
  sensor : SensorPacket → KyberMessage
  clipboard_text : ClipboardPacket → KyberMessage
  clipboard_binary : BinaryClipboardPacket → KyberMessage
  sms : SmsPacket → KyberMessage
  outbound_sms : OutboundSmsPacket → KyberMessage
  notification : NotificationPacket → KyberMessage
  notification_action : NotificationActionPacket → KyberMessage
  hardware_command : HardwareCommandPacket → KyberMessage
  file_chunk : FileChunkPacket → KyberMessage
  path_challenge path_response : Bytes → KyberMessage
  ping pong rekey_ack synchronize : ℕ → KyberMessage

-- The crate serde_json at this type, and the standard library's decoders of UTF-8: the bytes of a
-- string are given back as they are, or are refused or repaired.
pub record PacketJson : Type 0 where
  pub write : KyberMessage → Option Bytes
  pub read : Bytes → Option KyberMessage
  pub from_utf8 : Bytes → Option Bytes
  pub from_utf8_lossy : Bytes → Bytes

unfoldable pub to_json : PacketJson → KyberMessage → Result Bytes
to_json json message = ok_or (json.write message) serialization_error

unfoldable pub from_json : PacketJson → Bytes → Result KyberMessage
from_json json text = ok_or (json.read text) serialization_error

abbrev pub max_icon_base64_chars : ℕ
max_icon_base64_chars = 350_000

abbrev pub max_file_chunk_base64_chars : ℕ
max_file_chunk_base64_chars = 1_400_000

unfoldable pub icon_too_large : Option Bytes → Bool
icon_too_large none = false
icon_too_large (some icon) = ltb max_icon_base64_chars (length icon)

unfoldable pub within_caps : KyberMessage → Result KyberMessage
unfolding icon_too_large
within_caps (notification n) =
    if icon_too_large n.icon_base64 then err serialization_error else ok (notification n)
within_caps (file_chunk f) =
    if ltb max_file_chunk_base64_chars (length f.data_base64)
    then err serialization_error
    else ok (file_chunk f)
within_caps message = ok message

unfoldable pub safe_decode_packet : PacketJson → Bytes → Result KyberMessage
unfolding from_json within_caps
safe_decode_packet json bytes =
    if is_empty bytes
    then err serialization_error
    else if ltb max_message_size (length bytes)
    then err serialization_error
    else (ok_or (json.from_utf8 bytes) serialization_error >>= λ text.
        from_json json text >>= within_caps)
