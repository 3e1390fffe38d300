-- ===== src/Resources/Requests.antt =====
-- src/resources.rs: the messages on a live token, and the tokens of a client's names.
use pg_proto.Base.{ℤ, not, if◌then◌else◌, Option, none, some, Bytes, Outcome, done, failed}
use pg_proto.HashMap.{bytes_key, get}
use pg_proto.Codec.Frontend.{Describe, Execute, DescribeTarget}
use pg_proto.Resources.{ResourceScope, PreparedStatement, Portal, ResourceError, is_live}

unfoldable pub execute : ResourceScope → Portal → ℤ → Outcome Execute ResourceError
unfolding get
execute s t max_rows =
    if not (is_live s.portals t.upstream_name t.generation)
    then failed ResourceError.unknown_portal
    else done (record { portal = t.upstream_name; max_rows = max_rows })

unfoldable pub describe_portal : ResourceScope → Portal → Outcome Describe ResourceError
unfolding get
describe_portal s t =
    if not (is_live s.portals t.upstream_name t.generation)
    then failed ResourceError.unknown_portal
    else done (record { target = DescribeTarget.portal; name = t.upstream_name })

unfoldable pub describe_statement :
    ResourceScope → PreparedStatement → Outcome Describe ResourceError
unfolding get
describe_statement s t =
    if not (is_live s.statements t.upstream_name t.generation)
    then failed ResourceError.unknown_statement
    else done (record { target = DescribeTarget.statement; name = t.upstream_name })

unfoldable pub statement_named : ResourceScope → Bytes → Option PreparedStatement
unfolding get
statement_named s client_name = elim (get s.client_statements client_name) [
  | none ↦ none
  | some (upstream_name, generation) ↦
      some (record {
        client_name = client_name;
        upstream_name = upstream_name;
        generation = generation;
      })
]

unfoldable pub portal_named : ResourceScope → Bytes → Option Portal
unfolding get
portal_named s client_name = elim (get s.client_portals client_name) [
  | none ↦ none
  | some (upstream_name, generation) ↦
      some (record {
        client_name = client_name;
        upstream_name = upstream_name;
        generation = generation;
      })
]
