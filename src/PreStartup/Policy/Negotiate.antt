-- ===== src/PreStartup/Policy/Negotiate.antt =====
-- src/pre_startup.rs: the transitions of the negotiation, on the side of the client and of the
-- server.
use pg_proto.Base.{ℕ, ◌≡◌, refl, sym, ap, arith, true, if◌then◌else◌, Bytes}
use pg_proto.Startup.{StartupMessage}
use pg_proto.PreStartup.{PreStartupMessage, request_packet, ssl_request_code, gssenc_request_code}
use pg_proto.PreStartup.Policy.{
  EncryptionReply, as_byte, reply_ok, try_from, SslMode, CertificateVerification, strategy, Phase,
  Conn, conn_transition, Negotiation, negotiation_accepted, negotiation_rejected,
  negotiation_legacy_error, SslModeNegotiation, ssl_accepted, plaintext, required_rejected,
  ssl_legacy_error,
}

module _ {ℓ} {S : Type ℓ} where
  unfoldable pub ssl_request : Conn S Phase.pre_startup → Conn S Phase.awaiting_ssl_reply × Bytes
  unfolding request_packet
  ssl_request c = (conn_transition c, request_packet ssl_request_code)

  unfoldable pub gssenc_request : Conn S Phase.pre_startup → Conn S Phase.awaiting_gss_reply × Bytes
  unfolding request_packet
  gssenc_request c = (conn_transition c, request_packet gssenc_request_code)

  unfoldable pub reject_ssl : Conn S Phase.server_ssl_decision → Conn S Phase.pre_startup × ℕ
  unfolding as_byte
  reject_ssl c = (conn_transition c, as_byte EncryptionReply.rejected)

  unfoldable pub accept_ssl : Conn S Phase.server_ssl_decision → Conn S Phase.tls_handshake × ℕ
  unfolding as_byte
  accept_ssl c = (conn_transition c, as_byte EncryptionReply.accepted)

  unfoldable pub legacy_ssl_error : Conn S Phase.server_ssl_decision → Conn S Phase.terminated × ℕ
  unfolding as_byte
  legacy_ssl_error c = (conn_transition c, as_byte EncryptionReply.legacy_error)

  unfoldable pub reject_gss : Conn S Phase.server_gss_decision → Conn S Phase.pre_startup × ℕ
  unfolding as_byte
  reject_gss c = (conn_transition c, as_byte EncryptionReply.rejected)

  unfoldable pub accept_gss : Conn S Phase.server_gss_decision → Conn S Phase.gss_handshake × ℕ
  unfolding as_byte
  accept_gss c = (conn_transition c, as_byte EncryptionReply.accepted)

  unfoldable pub legacy_gss_error : Conn S Phase.server_gss_decision → Conn S Phase.terminated × ℕ
  unfolding as_byte
  legacy_gss_error c = (conn_transition c, as_byte EncryptionReply.legacy_error)

  unfoldable pub receive_ssl_reply :
      Conn S Phase.awaiting_ssl_reply → EncryptionReply → Negotiation S Phase.tls_handshake
  receive_ssl_reply c EncryptionReply.accepted = negotiation_accepted (conn_transition c)
  receive_ssl_reply c EncryptionReply.rejected = negotiation_rejected (conn_transition c)
  receive_ssl_reply c EncryptionReply.legacy_error = negotiation_legacy_error (conn_transition c)

  unfoldable pub receive_gss_reply :
      Conn S Phase.awaiting_gss_reply → EncryptionReply → Negotiation S Phase.gss_handshake
  receive_gss_reply c EncryptionReply.accepted = negotiation_accepted (conn_transition c)
  receive_gss_reply c EncryptionReply.rejected = negotiation_rejected (conn_transition c)
  receive_gss_reply c EncryptionReply.legacy_error = negotiation_legacy_error (conn_transition c)

  unfoldable pub apply_ssl_reply :
      Conn S Phase.awaiting_ssl_reply → EncryptionReply → SslMode → SslModeNegotiation S
  unfolding strategy
  apply_ssl_reply c EncryptionReply.accepted mode = ssl_accepted (conn_transition c)
  apply_ssl_reply c EncryptionReply.rejected mode =
      if (strategy mode).allow_server_rejection
      then plaintext (conn_transition c)
      else required_rejected (conn_transition c) mode
  apply_ssl_reply c EncryptionReply.legacy_error mode = ssl_legacy_error (conn_transition c)

  -- `finish_tls` and `finish_server_tls`, with the upgrade of the transport.
  unfoldable pub finish_tls {κ} :
      {T : Type κ} → Conn S Phase.tls_handshake → (S → T) → Conn T Phase.pre_startup
  finish_tls c upgrade = record { transport = upgrade c.transport }

-- The side of the server of the client's first packet.
pub data PreStartupOffer {ℓ} (S : Type ℓ) : Type ℓ where
  ssl_offer : Conn S Phase.server_ssl_decision → PreStartupOffer S
  gss_offer : Conn S Phase.server_gss_decision → PreStartupOffer S
  cancel_offer : Conn S Phase.terminated → ℕ → Bytes → PreStartupOffer S
  startup_offer : Conn S Phase.startup_phase → StartupMessage → PreStartupOffer S

unfoldable pub offer_pre_startup {ℓ} :
    {S : Type ℓ} → Conn S Phase.pre_startup → PreStartupMessage → PreStartupOffer S
offer_pre_startup c PreStartupMessage.ssl_request = ssl_offer (conn_transition c)
offer_pre_startup c PreStartupMessage.gss_enc_request = gss_offer (conn_transition c)
offer_pre_startup c (PreStartupMessage.cancel_request process_id secret_key) =
    cancel_offer (conn_transition c) process_id secret_key
offer_pre_startup c (PreStartupMessage.startup message) = startup_offer (conn_transition c) message

-- The index of the connection that a negotiation leaves.
abbrev pub client_phase {ℓ} : {S : Type ℓ} {handshake : Phase} → Negotiation S handshake → Phase
client_phase {handshake = handshake} (negotiation_accepted c) = handshake
client_phase (negotiation_rejected c) = Phase.pre_startup
client_phase (negotiation_legacy_error c) = Phase.terminated

-- A byte that the server sends as it enters a phase takes a client that decides by `receive` there.
abbrev pub IsAgreed {ℓ κ} :
    {S : Type ℓ} {T : Type κ} {handshake p : Phase}
    → (EncryptionReply → Negotiation S handshake)
    → Conn T p × ℕ
    → Type 0
IsAgreed {p = p} receive answer =
    (reply : EncryptionReply) × (try_from (answer.1) ≡ reply_ok reply)
    × (client_phase (receive reply) ≡ p)

-- Whatever the server answers to a request for encryption, TLS or GSS, its byte is a reply to the
-- client, which enters the phase that the server enters.
pub negotiation-agrees {ℓ κ} :
    {S : Type ℓ} {T : Type κ} (awaiting_ssl : Conn S Phase.awaiting_ssl_reply)
    (awaiting_gss : Conn S Phase.awaiting_gss_reply) (ssl : Conn T Phase.server_ssl_decision)
    (gss : Conn T Phase.server_gss_decision)
    → IsAgreed (receive_ssl_reply awaiting_ssl) (accept_ssl ssl)
      × IsAgreed (receive_ssl_reply awaiting_ssl) (reject_ssl ssl)
      × IsAgreed (receive_ssl_reply awaiting_ssl) (legacy_ssl_error ssl)
      × IsAgreed (receive_gss_reply awaiting_gss) (accept_gss gss)
      × IsAgreed (receive_gss_reply awaiting_gss) (reject_gss gss)
      × IsAgreed (receive_gss_reply awaiting_gss) (legacy_gss_error gss)
unfolding accept_ssl reject_ssl legacy_ssl_error accept_gss reject_gss legacy_gss_error
    receive_ssl_reply receive_gss_reply try_from
negotiation-agrees awaiting_ssl awaiting_gss ssl gss = (
  (EncryptionReply.accepted, refl, refl),
  (EncryptionReply.rejected, refl, refl),
  (EncryptionReply.legacy_error, refl, refl),
  (EncryptionReply.accepted, refl, refl),
  (EncryptionReply.rejected, refl, refl),
  (EncryptionReply.legacy_error, refl, refl),
)

rejected_byte : (byte : ℕ) → try_from byte ≡ reply_ok EncryptionReply.rejected → byte ≡ 78
unfolding try_from
rejected_byte byte h = ground arith

transport_of {ℓ} :
    {S : Type ℓ} (c : Conn S Phase.awaiting_ssl_reply) (d : Conn S Phase.pre_startup)
    → plaintext (conn_transition c) ≡ plaintext d
    → d.transport ≡ c.transport
unfolding conn_transition
transport_of c d h = let e : conn_transition c ≡ d = cc in ap (λ x. Conn.transport x) (sym e)

rejected_case {ℓ} :
    {S : Type ℓ} (c : Conn S Phase.awaiting_ssl_reply) (mode : SslMode)
    (d : Conn S Phase.pre_startup)
    → apply_ssl_reply c EncryptionReply.rejected mode ≡ plaintext d
    → ((strategy mode).allow_server_rejection ≡ true)
      × ((strategy mode).verification ≡ CertificateVerification.no_verification)
      × (d.transport ≡ c.transport)
unfolding apply_ssl_reply strategy
rejected_case c SslMode.disable d h = (refl, refl, transport_of c d h)
rejected_case c SslMode.allow d h = (refl, refl, transport_of c d h)
rejected_case c SslMode.prefer d h = (refl, refl, transport_of c d h)
rejected_case c SslMode.require d h = cc
rejected_case c SslMode.verify_ca d h = cc
rejected_case c SslMode.verify_full d h = cc

-- A client continues in plaintext after it has asked for TLS only when the byte it read was the
-- rejection `N`, and then under no mode that asks for a certificate to be verified.
pub apply_ssl_reply-plaintext {ℓ} :
    {S : Type ℓ} (c : Conn S Phase.awaiting_ssl_reply) (byte : ℕ) (reply : EncryptionReply)
    (mode : SslMode) (d : Conn S Phase.pre_startup)
    → try_from byte ≡ reply_ok reply
    → apply_ssl_reply c reply mode ≡ plaintext d
    → (byte ≡ 78)
      × ((strategy mode).allow_server_rejection ≡ true)
      × ((strategy mode).verification ≡ CertificateVerification.no_verification)
      × (d.transport ≡ c.transport)
unfolding apply_ssl_reply
apply_ssl_reply-plaintext c byte EncryptionReply.accepted mode d read h = cc
apply_ssl_reply-plaintext c byte EncryptionReply.rejected mode d read h =
    let (permitted, unverified, same) = rejected_case c mode d h in
    (rejected_byte byte read, permitted, unverified, same)
apply_ssl_reply-plaintext c byte EncryptionReply.legacy_error mode d read h = cc
