-- ===== src/Messages/LinkAuth.antt =====
-- spicemsg.js: SpiceLinkReply, SpiceLinkAuthTicket and SpiceLinkAuthReply, the messages that link a
-- channel. The key of a link reply is its bytes, of which create_rsa_from_mb makes an RSA key.
use vm_automation_deployment.Common.{ℕ, zero, suc, ◌+◌, List, [], ◌∷◌, take, drop}
use vm_automation_deployment.Common.Int.{ℤ, pos, pos_part}
use vm_automation_deployment.Constants.{spice_ticket_pubkey_bytes}
use vm_automation_deployment.Wire.{Bytes}
use vm_automation_deployment.Messages.Cursor.{M, ret, ◌>>=◌, ◌>>◌, u32, put8, put32}

pub record SpiceLinkReply : Type 0 where
  pub error : ℤ
  pub pub_key : Bytes
  pub common_caps : List ℤ
  pub channel_caps : List ℤ

-- The loops that read capabilities put each in front of those before it.
unfoldable pub unshift_words : ℕ → List ℤ → M (List ℤ)
unshift_words zero caps = ret caps
unshift_words (suc n) caps = do w ← u32; unshift_words n (w ∷ caps)

abbrev pub key_bytes : M Bytes
key_bytes c = (
  take spice_ticket_pubkey_bytes (drop c.at c.buf),
  record c { at = c.at + spice_ticket_pubkey_bytes },
)

abbrev pub seek : ℕ → M (Unit {0})
seek at c = (tt, record c { at = at })

-- A message with a number of 2 ^ 31 or more, which the source reads as negative, is outside the
-- model: 0 stands for it.
unfoldable pub read_reply : ℕ → M SpiceLinkReply
unfolding unshift_words
read_reply orig_at = do
  error ← u32
  pub_key ← key_bytes
  num_common_caps ← u32
  num_channel_caps ← u32
  caps_offset ← u32
  seek (orig_at + pos_part caps_offset)
  common_caps ← unshift_words (pos_part num_common_caps) []
  channel_caps ← unshift_words (pos_part num_channel_caps) []
  ret (record {
    error = error;
    pub_key = pub_key;
    common_caps = common_caps;
    channel_caps = channel_caps;
  })

unfoldable pub reply_from_buffer : Bytes → ℕ → SpiceLinkReply
unfolding read_reply
reply_from_buffer a at = (read_reply at (record { buf = a; at = at })).0

pub record SpiceLinkAuthTicket : Type 0 where
  pub auth_mechanism : ℕ
  pub encrypted_data : Bytes

-- The first `n` bytes of the data, and zeros where there are none.
unfoldable pub put_padded : ℕ → Bytes → M (Unit {0})
put_padded zero bs = ret tt
put_padded (suc n) [] = do put8 (pos 0); put_padded n []
put_padded (suc n) (b ∷ bs) = do put8 (pos b); put_padded n bs

unfoldable pub write_ticket : SpiceLinkAuthTicket → M (Unit {0})
unfolding put_padded
write_ticket t = do put32 (pos t.auth_mechanism); put_padded 128 t.encrypted_data

abbrev pub ticket_buffer_size : ℕ
ticket_buffer_size = 132

unfoldable pub ticket_to_buffer : SpiceLinkAuthTicket → Bytes → ℕ → Bytes
unfolding write_ticket
ticket_to_buffer t a at = (write_ticket t (record { buf = a; at = at })).1.buf

unfoldable pub auth_code_of : Bytes → ℕ → ℤ
auth_code_of a at = (u32 (record { buf = a; at = at })).0
