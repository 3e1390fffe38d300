-- ===== src/Tests/Startup.antt =====
-- Concrete packets before a session.
use pg_proto.Base.{ℕ, [], ◌∷◌, ◌++◌, ◌≡◌, refl, some, true, Bytes, ok, arith}
use pg_proto.Tests.{big_endian}
use pg_proto.OrderedMap.{bytes_lt}
use pg_proto.Codec.Primitives.{contains_nul}
use pg_proto.Startup.{StartupMessage, put_cstr, put_parameters, with_length, encode, decode}
use pg_proto.Startup.RoundTrip.{decode-encode}
use pg_proto.PreStartup.{PreStartupMessage, cancel_packet, to_packet, decode_pre_startup_with_limit}
use pg_proto.PreStartup.Packets.{decode_pre_startup-to_packet}
use pg_proto.PreStartup.Policy.{
  EncryptionReply, try_from, reply_ok, SslMode, CertificateVerification, strategy, Phase, Conn,
  conn_transition, plaintext,
}
use pg_proto.PreStartup.Policy.Negotiate.{
  IsAgreed, apply_ssl_reply, accept_ssl, reject_ssl, legacy_ssl_error, accept_gss, reject_gss,
  legacy_gss_error, receive_ssl_reply, receive_gss_reply, negotiation-agrees,
  apply_ssl_reply-plaintext,
}

abbrev login : StartupMessage
login = record {
  version = record { major = 3; minor = 0 };
  parameters = (b'd' ∷ [], b'x' ∷ []) ∷ (b'u' ∷ [], b'y' ∷ b'z' ∷ []) ∷ [];
}

abbrev login_packet : Bytes
login_packet =
    0 ∷ 0 ∷ 0 ∷ 18 ∷ 0 ∷ 3 ∷ 0 ∷ 0 ∷ b'd' ∷ 0 ∷ b'x' ∷ 0 ∷ b'u' ∷ 0 ∷ b'y' ∷ b'z' ∷ 0 ∷ 0 ∷ []

login_encoded : encode login ≡ ok login_packet
unfolding encode put_parameters put_cstr contains_nul with_length
login_encoded = refl

decode-encode_example : decode login_packet ≡ ok login
unfolding bytes_lt
decode-encode_example =
    decode-encode login (omega arith, omega arith) ((refl, tt), (tt, tt))
      ((λ h. cc h), ((λ h. cc h), tt)) login_encoded

abbrev cancel_login : PreStartupMessage
cancel_login = PreStartupMessage.cancel_request 7 (1 ∷ 2 ∷ 3 ∷ 4 ∷ [])

abbrev cancel_login_packet : Bytes
cancel_login_packet = 0 ∷ 0 ∷ 0 ∷ 16 ∷ 4 ∷ 210 ∷ 22 ∷ 46 ∷ 0 ∷ 0 ∷ 0 ∷ 7 ∷ 1 ∷ 2 ∷ 3 ∷ 4 ∷ []

cancel_login_encoded : to_packet cancel_login ≡ ok cancel_login_packet
unfolding to_packet cancel_packet
cancel_login_encoded = refl

decode_pre_startup-to_packet_example :
    decode_pre_startup_with_limit (cancel_login_packet ++ (9 ∷ [])) 100
    ≡ (ok (some cancel_login), 9 ∷ [])
decode_pre_startup-to_packet_example =
    decode_pre_startup-to_packet cancel_login cancel_login_packet (9 ∷ []) 100 (omega arith)
      cancel_login_encoded (omega arith) (omega arith)

abbrev at_phase : (p : Phase) → Conn Bytes p
at_phase p = record { transport = [] }

negotiation-agrees_example :
    IsAgreed
      (receive_ssl_reply (at_phase Phase.awaiting_ssl_reply))
      (accept_ssl (at_phase Phase.server_ssl_decision))
    × IsAgreed
        (receive_ssl_reply (at_phase Phase.awaiting_ssl_reply))
        (reject_ssl (at_phase Phase.server_ssl_decision))
    × IsAgreed
        (receive_ssl_reply (at_phase Phase.awaiting_ssl_reply))
        (legacy_ssl_error (at_phase Phase.server_ssl_decision))
    × IsAgreed
        (receive_gss_reply (at_phase Phase.awaiting_gss_reply))
        (accept_gss (at_phase Phase.server_gss_decision))
    × IsAgreed
        (receive_gss_reply (at_phase Phase.awaiting_gss_reply))
        (reject_gss (at_phase Phase.server_gss_decision))
    × IsAgreed
        (receive_gss_reply (at_phase Phase.awaiting_gss_reply))
        (legacy_gss_error (at_phase Phase.server_gss_decision))
negotiation-agrees_example =
    negotiation-agrees (at_phase Phase.awaiting_ssl_reply) (at_phase Phase.awaiting_gss_reply)
      (at_phase Phase.server_ssl_decision) (at_phase Phase.server_gss_decision)

abbrev n_byte : ℕ
n_byte = 78

n_read : try_from n_byte ≡ reply_ok EncryptionReply.rejected
unfolding try_from
n_read = refl

prefer_goes_on :
    apply_ssl_reply (at_phase Phase.awaiting_ssl_reply) EncryptionReply.rejected SslMode.prefer
    ≡ plaintext (at_phase Phase.pre_startup)
unfolding apply_ssl_reply strategy conn_transition
prefer_goes_on = refl

apply_ssl_reply-plaintext_example :
    (n_byte ≡ 78)
    × ((strategy SslMode.prefer).allow_server_rejection ≡ true)
    × ((strategy SslMode.prefer).verification ≡ CertificateVerification.no_verification)
    × ((at_phase Phase.pre_startup).transport ≡ (at_phase Phase.awaiting_ssl_reply).transport)
apply_ssl_reply-plaintext_example =
    apply_ssl_reply-plaintext (at_phase Phase.awaiting_ssl_reply) n_byte EncryptionReply.rejected
      SslMode.prefer (at_phase Phase.pre_startup) n_read prefer_goes_on
