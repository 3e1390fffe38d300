-- ===== src/Resources.antt =====
-- src/resources.rs: the prepared statements and the portals of a connection, under the names of the
-- client and under those sent upstream. The brand of the scope, a lifetime, has no value.
pub mod Requests
pub mod Tokens
pub mod Lookup
use pg_proto.Base.{
  ℕ, ℤ, ◌≡◌, Bool, true, false, ◌&&◌, ◌||◌, not, ◌==◌, if◌then◌else◌, Option, none, some, is_some,
  List, [], Bytes, is_empty, Outcome, done, failed,
}
use pg_proto.OrderedMap.{bytes_eq}
use pg_proto.HashMap.{HashMap, bytes_key, get, contains_key, insert, remove, retain}
use pg_proto.Codec.Frontend.{Parse, Bind, Close, Describe, Execute, DescribeTarget}
use pg_proto.Pipeline.{saturating_suc}

pub record ResourceScope : Type 0 where
  pub statements : HashMap Bytes ℕ
  pub client_statements : HashMap Bytes (Bytes × ℕ)
  pub portals : HashMap Bytes ℕ
  pub client_portals : HashMap Bytes (Bytes × ℕ)
  pub next_generation : ℕ

pub record PreparedStatement : Type 0 where
  pub client_name : Bytes
  pub upstream_name : Bytes
  pub generation : ℕ

pub record Portal : Type 0 where
  pub client_name : Bytes
  pub upstream_name : Bytes
  pub generation : ℕ

pub data ResourceError : Type 0 where
  statement_name_collision portal_name_collision : ResourceError
  unknown_statement unknown_portal : ResourceError

unfoldable pub new : ResourceScope
new = record {
  statements = [];
  client_statements = [];
  portals = [];
  client_portals = [];
  next_generation = 0;
}

-- The entries of a named resource upstream.
abbrev pub is_named : Bytes × ℕ → Bool
is_named (upstream, generation) = not (is_empty upstream)

-- The entries other than those of one generation of a name.
abbrev pub is_other : Bytes → ℕ → Bytes × ℕ → Bool
is_other name closed (upstream, generation) =
    not (bytes_eq upstream name) || not (generation == closed)

unfoldable pub simple_query_boundary : ResourceScope → ResourceScope
unfolding remove retain
simple_query_boundary s = record s {
  statements = remove s.statements [];
  client_statements = retain s.client_statements is_named;
}

unfoldable pub transaction_ended : ResourceScope → ResourceScope
unfolding remove retain
transaction_ended s = record s {
  portals = remove s.portals [];
  client_portals = retain s.client_portals is_named;
}

-- The names that `allocate` refuses.
abbrev pub collides : HashMap Bytes ℕ → HashMap Bytes (Bytes × ℕ) → Bytes → Bytes → Bool
collides resources client_resources client_name upstream_name =
    (not (is_empty upstream_name) && contains_key resources upstream_name)
    || (not (is_empty client_name) && contains_key client_resources client_name)

unfoldable pub allocate :
    ResourceScope → Bytes → Bytes → Bool → ResourceScope × Outcome ℕ ResourceError
unfolding contains_key
allocate s client_name upstream_name statement =
    if (if statement
      then collides s.statements s.client_statements client_name upstream_name
      else collides s.portals s.client_portals client_name upstream_name)
    then (
      s,
      failed (
          if statement
          then ResourceError.statement_name_collision
          else ResourceError.portal_name_collision),
    )
    else (record s { next_generation = saturating_suc s.next_generation }, done s.next_generation)

-- `prepare` after the allocation of a generation. The entry is put in before the test of what it
-- replaced.
unfoldable pub prepare_allocated :
    Bytes
    → Bytes
    → Bytes
    → List ℕ
    → ResourceScope × Outcome ℕ ResourceError
    → ResourceScope × Outcome (PreparedStatement × Parse) ResourceError
unfolding contains_key insert
prepare_allocated client_name upstream_name query parameter_types (s, failed e) = (s, failed e)
prepare_allocated client_name upstream_name query parameter_types (s, done generation) =
    let inserted = record s { statements = insert s.statements upstream_name generation } in
    if contains_key s.statements upstream_name && not (is_empty upstream_name)
    then (inserted, failed ResourceError.statement_name_collision)
    else (
      record inserted {
        client_statements =
            insert inserted.client_statements client_name (upstream_name, generation);
      },
      done (
        record {
          client_name = client_name;
          upstream_name = upstream_name;
          generation = generation;
        },
        record { statement = upstream_name; query = query; parameter_types = parameter_types },
      ),
    )

unfoldable pub prepare :
    ResourceScope
    → Bytes
    → Bytes
    → Bytes
    → List ℕ
    → ResourceScope × Outcome (PreparedStatement × Parse) ResourceError
unfolding allocate prepare_allocated
prepare s client_name upstream_name query parameter_types =
    prepare_allocated client_name upstream_name query parameter_types
      (allocate s client_name upstream_name true)

-- Whether a map holds the generation of a token under its name.
abbrev pub is_live : HashMap Bytes ℕ → Bytes → ℕ → Bool
is_live resources name generation = elim (get resources name) [
  | none ↦ false
  | some g ↦ g == generation
]

unfoldable pub bind_allocated :
    PreparedStatement
    → Bytes
    → Bytes
    → List ℤ
    → List (Option Bytes)
    → List ℤ
    → ResourceScope × Outcome ℕ ResourceError
    → ResourceScope × Outcome (Portal × Bind) ResourceError
unfolding contains_key insert
bind_allocated t client_name upstream_name parameter_formats parameters result_formats
      (s, failed e) =
    (s, failed e)
bind_allocated t client_name upstream_name parameter_formats parameters result_formats
      (s, done generation) =
    let inserted = record s { portals = insert s.portals upstream_name generation } in
    if contains_key s.portals upstream_name && not (is_empty upstream_name)
    then (inserted, failed ResourceError.portal_name_collision)
    else (
      record inserted {
        client_portals = insert inserted.client_portals client_name (upstream_name, generation);
      },
      done (
        record {
          client_name = client_name;
          upstream_name = upstream_name;
          generation = generation;
        },
        record {
          portal = upstream_name;
          statement = t.upstream_name;
          parameter_formats = parameter_formats;
          parameters = parameters;
          result_formats = result_formats;
        },
      ),
    )

unfoldable pub bind :
    ResourceScope
    → PreparedStatement
    → Bytes
    → Bytes
    → List ℤ
    → List (Option Bytes)
    → List ℤ
    → ResourceScope × Outcome (Portal × Bind) ResourceError
unfolding get allocate bind_allocated
bind s t client_name upstream_name parameter_formats parameters result_formats =
    if not (is_live s.statements t.upstream_name t.generation)
    then (s, failed ResourceError.unknown_statement)
    else bind_allocated t client_name upstream_name parameter_formats parameters result_formats
        (allocate s client_name upstream_name false)

unfoldable pub close_statement :
    ResourceScope → PreparedStatement → ResourceScope × Outcome Close ResourceError
unfolding get remove retain
close_statement s t =
    if not (is_live s.statements t.upstream_name t.generation)
    then (s, failed ResourceError.unknown_statement)
    else (
      record s {
        statements = remove s.statements t.upstream_name;
        client_statements = retain s.client_statements (is_other t.upstream_name t.generation);
      },
      done (record { target = DescribeTarget.statement; name = t.upstream_name }),
    )

unfoldable pub close_portal : ResourceScope → Portal → ResourceScope × Outcome Close ResourceError
unfolding get remove retain
close_portal s t =
    if not (is_live s.portals t.upstream_name t.generation)
    then (s, failed ResourceError.unknown_portal)
    else (
      record s {
        portals = remove s.portals t.upstream_name;
        client_portals = retain s.client_portals (is_other t.upstream_name t.generation);
      },
      done (record { target = DescribeTarget.portal; name = t.upstream_name }),
    )
