-- ===== src/Tests/Resources.antt =====
-- Concrete scopes of prepared statements.
use pg_proto.Base.{
  ℤ, ◌-◌, ◌^◌, ◌<◌, ◌≤◌, [], ◌∷◌, ◌≡◌, ◌≢◌, refl, some, Bytes, List, Option, arith, done, failed,
}
use pg_proto.HashMap.{bytes_key, get}
use pg_proto.Codec.Frontend.{Parse, DescribeTarget}
use pg_proto.Resources.{
  ResourceScope, PreparedStatement, ResourceError, new, allocate, prepare_allocated, prepare,
  close_statement, bind,
}
use pg_proto.Resources.Requests.{describe_statement, statement_named}
use pg_proto.Resources.Tokens.{
  ResourceCall, after, transaction_call, prepare_call, close_statement-final,
}
use pg_proto.Resources.Lookup.{prepare-found}

abbrev one : ResourceScope
one = (prepare new (b'a' ∷ []) (b'u' ∷ []) [] []).0

abbrev first : PreparedStatement
first = record { client_name = b'a' ∷ []; upstream_name = b'u' ∷ []; generation = 0 }

abbrev parse : Parse
parse = record { statement = b'u' ∷ []; query = []; parameter_types = [] }

first_prepared : (prepare new (b'a' ∷ []) (b'u' ∷ []) [] []).1 ≡ done (first, parse)
unfolding prepare allocate prepare_allocated new
first_prepared = refl

prepare-found_example :
    (describe_statement one first
      ≡ done (record { target = DescribeTarget.statement; name = b'u' ∷ [] }))
    × (statement_named one (b'a' ∷ []) ≡ some first)
    × ((name : Bytes) → b'u' ∷ [] ≢ name → get one.statements name ≡ get new.statements name)
    × ((name : Bytes) → b'a' ∷ [] ≢ name → statement_named one name ≡ statement_named new name)
prepare-found_example = prepare-found new (b'a' ∷ []) (b'u' ∷ []) [] [] first parse first_prepared

given : first.generation < one.next_generation
unfolding prepare allocate prepare_allocated new
given = omega arith

small : one.next_generation ≤ 2 ^ 64 - 1
unfolding prepare allocate prepare_allocated new
small = omega arith

-- The names are used again after the close.
abbrev again : List ResourceCall
again = prepare_call (b'a' ∷ []) (b'u' ∷ []) [] [] ∷ transaction_call ∷ []

close_statement-final_example :
    (describe_statement (after (close_statement one first).0 again) first
      ≡ failed ResourceError.unknown_statement)
    × (close_statement (after (close_statement one first).0 again) first
        ≡ (after (close_statement one first).0 again, failed ResourceError.unknown_statement))
    × ((client upstream : Bytes) (formats : List ℤ) (parameters : List (Option Bytes))
          (results : List ℤ)
        → bind
            (after (close_statement one first).0 again)
            first
            client
            upstream
            formats
            parameters
            results
          ≡ (after (close_statement one first).0 again, failed ResourceError.unknown_statement))
close_statement-final_example = close_statement-final one first again given small
