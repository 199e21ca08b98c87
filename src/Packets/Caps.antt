-- ===== src/Packets/Caps.antt =====
-- What the decoder of packets accepts.
use kyber_pipe.Base.{
  ◌≤◌, ◌<◌, ◌≡◌, subst, false, Option, none, some, length, [], ◌∷◌, Bytes, arith, inl, inr, ltb,
  ltb→le, Bool-cases, Option-cases,
}
use kyber_pipe.Error.{ok}
use kyber_pipe.Frame.{max_message_size}
use kyber_pipe.Packets.{
  KyberMessage, PacketJson, notification, file_chunk, sensor, clipboard_text, clipboard_binary, sms,
  outbound_sms, notification_action, hardware_command, path_challenge, path_response, ping, pong,
  rekey_ack, synchronize, icon_too_large, within_caps, from_json, max_icon_base64_chars,
  max_file_chunk_base64_chars, safe_decode_packet,
}

abbrev pub IconFits : Option Bytes → Type 0
IconFits none = Unit
IconFits (some icon) = length icon ≤ max_icon_base64_chars

-- The two fields with a cap.
abbrev pub Fits : KyberMessage → Type 0
Fits (notification n) = IconFits n.icon_base64
Fits (file_chunk f) = length f.data_base64 ≤ max_file_chunk_base64_chars
Fits _ = Unit

icon_fits : (icon : Option Bytes) → icon_too_large icon ≡ false → IconFits icon
unfolding icon_too_large
icon_fits none h = tt
icon_fits (some icon) h = ground arith

-- What is kept as it is, and fits.
abbrev Kept : KyberMessage → KyberMessage → Type 0
Kept m m' = (m ≡ m') × Fits m'

ok-Kept : (m : KyberMessage) {m' : KyberMessage} → Fits m → ok m ≡ ok m' → Kept m m'
ok-Kept m {m'} fits h = let e : m ≡ m' = ground arith in (e, subst Fits e fits)

within_caps_fits : (m : KyberMessage) {m' : KyberMessage} → within_caps m ≡ ok m' → Kept m m'
unfolding within_caps
within_caps_fits (notification n) {m'} h = elim (Bool-cases (icon_too_large n.icon_base64)) [
  | inl large ↦ absurd (ground (arith, large))
  | inr fits ↦ ok-Kept (notification n) (icon_fits n.icon_base64 fits) (ground (arith, fits))
]
within_caps_fits (file_chunk f) {m'} h =
    elim (Bool-cases (ltb max_file_chunk_base64_chars (length f.data_base64))) [
      | inl large ↦ absurd (ground (arith, large))
      | inr fits ↦
          ok-Kept (file_chunk f) (ltb→le max_file_chunk_base64_chars (length f.data_base64) fits)
            (ground (arith, fits))
    ]
within_caps_fits (sensor x) h = ok-Kept (sensor x) tt h
within_caps_fits (clipboard_text x) h = ok-Kept (clipboard_text x) tt h
within_caps_fits (clipboard_binary x) h = ok-Kept (clipboard_binary x) tt h
within_caps_fits (sms x) h = ok-Kept (sms x) tt h
within_caps_fits (outbound_sms x) h = ok-Kept (outbound_sms x) tt h
within_caps_fits (notification_action x) h = ok-Kept (notification_action x) tt h
within_caps_fits (hardware_command x) h = ok-Kept (hardware_command x) tt h
within_caps_fits (path_challenge x) h = ok-Kept (path_challenge x) tt h
within_caps_fits (path_response x) h = ok-Kept (path_response x) tt h
within_caps_fits (ping x) h = ok-Kept (ping x) tt h
within_caps_fits (pong x) h = ok-Kept (pong x) tt h
within_caps_fits (rekey_ack x) h = ok-Kept (rekey_ack x) tt h
within_caps_fits (synchronize x) h = ok-Kept (synchronize x) tt h

-- A packet that is decoded comes from at least one byte and at most 1048576, which are UTF-8 text
-- and JSON of this very packet; its notification icon has at most 350000 characters, and its file
-- chunk at most 1400000.
pub safe_decode_packet_caps :
    (json : PacketJson) (bytes : Bytes) {m : KyberMessage}
    → safe_decode_packet json bytes ≡ ok m
    → (0 < length bytes)
      × (length bytes ≤ max_message_size)
      × ((text : Bytes) × (json.from_utf8 bytes ≡ some text) × (json.read text ≡ some m))
      × Fits m
unfolding safe_decode_packet from_json
safe_decode_packet_caps json [] h = absurd (ground arith)
safe_decode_packet_caps json (b ∷ bytes) {m} h =
    elim (Bool-cases (ltb max_message_size (length (b ∷ bytes)))) [
      | inl large ↦ absurd (ground (arith, large))
      | inr fits ↦ elim (Option-cases (json.from_utf8 (b ∷ bytes))) [
        | inl bad ↦ absurd (ground (arith, fits, bad))
        | inr (text, good) ↦ elim (Option-cases (json.read text)) [
          | inl bad ↦ absurd (ground (arith, fits, good, bad))
          | inr (m0, parsed) ↦
              let k : Kept m0 m = within_caps_fits m0 (ground (arith, fits, good, parsed)) in
              (
                omega arith,
                ltb→le max_message_size (length (b ∷ bytes)) fits,
                (text, good, rw (← k.0) parsed),
                k.1,
              )
        ]
      ]
    ]
