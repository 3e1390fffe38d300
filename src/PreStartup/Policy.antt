-- ===== src/PreStartup/Policy.antt =====
-- src/pre_startup.rs: the encryption decision, its byte, and the policy of a client on it.
pub mod Negotiate
use pg_proto.Base.{ℕ, ◌≡◌, Bool, true, false, if◌then◌else◌, ◌==◌}

pub data EncryptionReply : Type 0 where
  accepted rejected legacy_error : EncryptionReply

unfoldable pub as_byte : EncryptionReply → ℕ
as_byte EncryptionReply.accepted = 83
as_byte EncryptionReply.rejected = 78
as_byte EncryptionReply.legacy_error = 69

-- `Result<EncryptionReply, InvalidEncryptionReply>`.
pub data ReplyOfByte : Type 0 where
  reply_ok : EncryptionReply → ReplyOfByte
  invalid_encryption_reply : ℕ → ReplyOfByte

unfoldable pub try_from : ℕ → ReplyOfByte
try_from value =
    if value == 83
    then reply_ok EncryptionReply.accepted
    else if value == 78
    then reply_ok EncryptionReply.rejected
    else if value == 69
    then reply_ok EncryptionReply.legacy_error
    else invalid_encryption_reply value

pub data SslMode : Type 0 where
  disable allow prefer require verify_ca verify_full : SslMode

-- `none` of the source is `no_verification`.
pub data CertificateVerification : Type 0 where
  no_verification certificate_authority certificate_authority_and_host : CertificateVerification

pub record SslStrategy : Type 0 where
  pub request_on_first_connection : Bool
  pub retry_with_ssl_after_plaintext_failure : Bool
  pub allow_server_rejection : Bool
  pub verification : CertificateVerification

unfoldable pub strategy : SslMode → SslStrategy
strategy SslMode.disable = record {
  request_on_first_connection = false;
  retry_with_ssl_after_plaintext_failure = false;
  allow_server_rejection = true;
  verification = CertificateVerification.no_verification;
}
strategy SslMode.allow = record {
  request_on_first_connection = false;
  retry_with_ssl_after_plaintext_failure = true;
  allow_server_rejection = true;
  verification = CertificateVerification.no_verification;
}
strategy SslMode.prefer = record {
  request_on_first_connection = true;
  retry_with_ssl_after_plaintext_failure = false;
  allow_server_rejection = true;
  verification = CertificateVerification.no_verification;
}
strategy SslMode.require = record {
  request_on_first_connection = true;
  retry_with_ssl_after_plaintext_failure = false;
  allow_server_rejection = false;
  verification = CertificateVerification.no_verification;
}
strategy SslMode.verify_ca = record {
  request_on_first_connection = true;
  retry_with_ssl_after_plaintext_failure = false;
  allow_server_rejection = false;
  verification = CertificateVerification.certificate_authority;
}
strategy SslMode.verify_full = record {
  request_on_first_connection = true;
  retry_with_ssl_after_plaintext_failure = false;
  allow_server_rejection = false;
  verification = CertificateVerification.certificate_authority_and_host;
}

-- The type that indexes `Conn`, which is all that the transitions change.
pub data Phase : Type 0 where
  pre_startup startup_phase awaiting_ssl_reply awaiting_gss_reply : Phase
  tls_handshake gss_handshake terminated server_ssl_decision server_gss_decision : Phase

-- A connection with its transport and its index.
pub record Conn {ℓ} (S : Type ℓ) (phase : Phase) : Type ℓ where
  pub transport : S

unfoldable pub conn_transition {ℓ} : {S : Type ℓ} {p q : Phase} → Conn S p → Conn S q
conn_transition c = record { transport = c.transport }

pub data Negotiation {ℓ} (S : Type ℓ) (handshake : Phase) : Type ℓ where
  negotiation_accepted : Conn S handshake → Negotiation S handshake
  negotiation_rejected : Conn S Phase.pre_startup → Negotiation S handshake
  negotiation_legacy_error : Conn S Phase.terminated → Negotiation S handshake

pub data SslModeNegotiation {ℓ} (S : Type ℓ) : Type ℓ where
  ssl_accepted : Conn S Phase.tls_handshake → SslModeNegotiation S
  plaintext : Conn S Phase.pre_startup → SslModeNegotiation S
  required_rejected : Conn S Phase.terminated → SslMode → SslModeNegotiation S
  ssl_legacy_error : Conn S Phase.terminated → SslModeNegotiation S
