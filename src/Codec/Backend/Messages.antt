-- ===== src/Codec/Backend/Messages.antt =====
-- src/codec.rs, the backend messages, and `ProtocolVersion` of src/startup.rs.
use pg_proto.Base.{ℕ, List, Option, Bytes, ℤ}

pub record ProtocolVersion : Type 0 where
  pub major : ℕ
  pub minor : ℕ

pub record FieldDescription : Type 0 where
  pub name : Bytes
  pub table_oid : ℕ
  pub column : ℤ
  pub type_oid : ℕ
  pub type_size : ℤ
  pub type_modifier : ℤ
  pub format : ℤ

pub record RowDescription : Type 0 where
  pub fields : List FieldDescription

-- The salt is four bytes.
pub data Authentication : Type 0 where
  authentication_ok kerberos_v5 cleartext_password : Authentication
  md5_password : ℕ → ℕ → ℕ → ℕ → Authentication
  gss : Authentication
  gss_continue : Bytes → Authentication
  sspi : Authentication
  sasl : List Bytes → Authentication
  sasl_continue : Bytes → Authentication
  sasl_final : Bytes → Authentication

pub data TransactionStatus : Type 0 where
  idle in_transaction failed_transaction : TransactionStatus

pub record NegotiateProtocolVersion : Type 0 where
  pub newest : ProtocolVersion
  pub unsupported_options : List Bytes

pub record DiagnosticField : Type 0 where
  pub code : ℕ
  pub value : Bytes

pub record DiagnosticResponse : Type 0 where
  pub fields : List DiagnosticField

pub record CopyResponse : Type 0 where
  pub overall_format : ℕ
  pub column_formats : List ℤ

pub record DataRow : Type 0 where
  pub columns : List (Option Bytes)

pub data BackendMessage : Type 0 where
  row_description : RowDescription → BackendMessage
  authentication : Authentication → BackendMessage
  parse_complete bind_complete close_complete : BackendMessage
  command_complete : Bytes → BackendMessage
  copy_data : Bytes → BackendMessage
  copy_done : BackendMessage
  copy_in_response : CopyResponse → BackendMessage
  copy_out_response : CopyResponse → BackendMessage
  copy_both_response : CopyResponse → BackendMessage
  data_row : DataRow → BackendMessage
  empty_query_response : BackendMessage
  error_response : DiagnosticResponse → BackendMessage
  no_data : BackendMessage
  parameter_status : Bytes → Bytes → BackendMessage
  notice_response : DiagnosticResponse → BackendMessage
  notification_response : ℕ → Bytes → Bytes → BackendMessage
  backend_key_data : ℕ → Bytes → BackendMessage
  ready_for_query : TransactionStatus → BackendMessage
  parameter_description : List ℕ → BackendMessage
  portal_suspended : BackendMessage
  function_call_response : Bytes → BackendMessage
  negotiate_protocol_version : NegotiateProtocolVersion → BackendMessage
