-- ===== src/Codec/Frontend/Messages.antt =====
-- src/codec.rs, the frontend messages.
use pg_proto.Base.{ℕ, List, Option, Bytes, ℤ}

pub record Parse : Type 0 where
  pub statement : Bytes
  pub query : Bytes
  pub parameter_types : List ℕ

pub record Bind : Type 0 where
  pub portal : Bytes
  pub statement : Bytes
  pub parameter_formats : List ℤ
  pub parameters : List (Option Bytes)
  pub result_formats : List ℤ

pub data DescribeTarget : Type 0 where
  statement portal : DescribeTarget

pub record Describe : Type 0 where
  pub target : DescribeTarget
  pub name : Bytes

pub record Close : Type 0 where
  pub target : DescribeTarget
  pub name : Bytes

pub record Execute : Type 0 where
  pub portal : Bytes
  pub max_rows : ℤ

pub record FunctionCall : Type 0 where
  pub function_oid : ℕ
  pub argument_formats : List ℤ
  pub arguments : List (Option Bytes)
  pub result_format : ℤ

pub data FrontendMessage : Type 0 where
  parse : Parse → FrontendMessage
  bind : Bind → FrontendMessage
  describe : Describe → FrontendMessage
  close : Close → FrontendMessage
  execute : Execute → FrontendMessage
  function_call : FunctionCall → FrontendMessage
  query : Bytes → FrontendMessage
  flush : FrontendMessage
  sync : FrontendMessage
  terminate : FrontendMessage
  copy_data : Bytes → FrontendMessage
  copy_done : FrontendMessage
  copy_fail : Bytes → FrontendMessage
  password_response : Bytes → FrontendMessage
