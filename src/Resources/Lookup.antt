-- ===== src/Resources/Lookup.antt =====
-- src/resources.rs: a prepared statement is found again, under its token and its client's name.
use pg_proto.Base.{
  ℕ, ◌≡◌, ◌≢◌, refl, sym, ap, ◌∙◌, true, false, ◌&&◌, not, some, List, Bytes, is_empty, arith,
  Bool-cases, inl, inr, done, failed,
}
use pg_proto.HashMap.{bytes_key, get, contains_key, insert, get-insert, get-insert_other}
use pg_proto.Pipeline.{saturating_suc}
use pg_proto.Codec.Frontend.{Parse, DescribeTarget}
use pg_proto.Resources.{
  ResourceScope, PreparedStatement, ResourceError, collides, allocate, prepare_allocated, prepare,
  is_live,
}
use pg_proto.Resources.Requests.{describe_statement, statement_named}

abbrev token : ResourceScope → Bytes → Bytes → PreparedStatement
token s client upstream = record {
  client_name = client;
  upstream_name = upstream;
  generation = s.next_generation;
}

-- The scope that a successful `prepare` leaves.
abbrev prepared : ResourceScope → Bytes → Bytes → ResourceScope
prepared s client upstream = record s {
  statements = insert s.statements upstream s.next_generation;
  client_statements = insert s.client_statements client (upstream, s.next_generation);
  next_generation = saturating_suc s.next_generation;
}

allocate-free :
    (s : ResourceScope) (client upstream : Bytes)
    → collides s.statements s.client_statements client upstream ≡ false
    → allocate s client upstream true
      ≡ (record s { next_generation = saturating_suc s.next_generation }, done s.next_generation)
unfolding allocate
allocate-free s client upstream e = rw (allocate, e) refl

allocate-taken :
    (s : ResourceScope) (client upstream : Bytes)
    → collides s.statements s.client_statements client upstream ≡ true
    → allocate s client upstream true ≡ (s, failed ResourceError.statement_name_collision)
unfolding allocate
allocate-taken s client upstream e = rw (allocate, e) refl

prepare-free :
    (s : ResourceScope) (client upstream query : Bytes) (types : List ℕ)
    → collides s.statements s.client_statements client upstream ≡ false
    → prepare s client upstream query types
      ≡ prepare_allocated client upstream query types
          (record s { next_generation = saturating_suc s.next_generation }, done s.next_generation)
unfolding prepare
prepare-free s client upstream query types e =
    ap (prepare_allocated client upstream query types) (allocate-free s client upstream e)

prepare-taken :
    (s : ResourceScope) (client upstream query : Bytes) (types : List ℕ)
    → collides s.statements s.client_statements client upstream ≡ true
    → (prepare s client upstream query types).1 ≡ failed ResourceError.statement_name_collision
unfolding prepare prepare_allocated
prepare-taken s client upstream query types e =
    ap (λ r. (prepare_allocated client upstream query types r).1)
      (allocate-taken s client upstream e)

prepare_allocated-new :
    (s : ResourceScope) (client upstream query : Bytes) (types : List ℕ)
    → (contains_key s.statements upstream && not (is_empty upstream)) ≡ false
    → prepare_allocated client upstream query types
        (record s { next_generation = saturating_suc s.next_generation }, done s.next_generation)
      ≡ (
        prepared s client upstream,
        done (
          token s client upstream,
          record { statement = upstream; query = query; parameter_types = types },
        ),
      )
unfolding prepare_allocated
prepare_allocated-new s client upstream query types f = rw (f, prepare_allocated) refl

prepare_allocated-taken :
    (s : ResourceScope) (client upstream query : Bytes) (types : List ℕ)
    → (contains_key s.statements upstream && not (is_empty upstream)) ≡ true
    → (prepare_allocated client upstream query types
        (record s { next_generation = saturating_suc s.next_generation }, done s.next_generation)).1
      ≡ failed ResourceError.statement_name_collision
unfolding prepare_allocated
prepare_allocated-taken s client upstream query types f = rw (f, prepare_allocated) refl

prepare-eq-done :
    (s : ResourceScope) (client upstream query : Bytes) (types : List ℕ) {t : PreparedStatement}
    {m : Parse}
    → (prepare s client upstream query types).1 ≡ done (t, m)
    → ((prepare s client upstream query types).0 ≡ prepared s client upstream)
      × (t ≡ token s client upstream)
      × (m ≡ record { statement = upstream; query = query; parameter_types = types })
prepare-eq-done s client upstream query types {t} {m} h =
    elim (Bool-cases (collides s.statements s.client_statements client upstream)) [
      | inl e ↦
          let taken = prepare-taken s client upstream query types e in absurd (cc (sym taken ∙ h))
      | inr e ↦ elim (Bool-cases (contains_key s.statements upstream && not (is_empty upstream))) [
        | inl f ↦
            let free = prepare-free s client upstream query types e in
            let taken = prepare_allocated-taken s client upstream query types f in
            absurd (cc (sym taken ∙ sym (ap (λ r. r.1) free) ∙ h))
        | inr f ↦
            let result =
              prepare-free s client upstream query types e
              ∙ prepare_allocated-new s client upstream query types f in
            let answer : PreparedStatement × Parse = (
              token s client upstream,
              record { statement = upstream; query = query; parameter_types = types },
            ) in
            let found : answer ≡ (t, m) = cc (sym (ap (λ r. r.1) result) ∙ h) in
            (ap (λ r. r.0) result, sym (ap (λ x. x.0) found), sym (ap (λ x. x.1) found))
      ]
    ]

described :
    (s : ResourceScope) (client upstream : Bytes)
    → describe_statement (prepared s client upstream) (token s client upstream)
      ≡ done (record { target = DescribeTarget.statement; name = upstream })
unfolding describe_statement
described s client upstream =
    let live : is_live (insert s.statements upstream s.next_generation) upstream s.next_generation
        ≡ true =
      rw (is_live, get-insert s.statements upstream s.next_generation) (ground arith) in
    rw (describe_statement, live) refl

named :
    (s : ResourceScope) (client upstream : Bytes)
    → statement_named (prepared s client upstream) client ≡ some (token s client upstream)
unfolding statement_named
named s client upstream =
    rw (statement_named, get-insert s.client_statements client (upstream, s.next_generation)) refl

named_other :
    (s : ResourceScope) (client upstream name : Bytes)
    → client ≢ name
    → statement_named (prepared s client upstream) name ≡ statement_named s name
unfolding statement_named
named_other s client upstream name ne =
    rw
      (
        statement_named,
        get-insert_other s.client_statements client name (upstream, s.next_generation) ne,
      )
      refl

-- The token that a successful `prepare` returns is live: it can be described under its name upstream,
-- which its `Parse` carries, and the client's name leads to it. Another name upstream keeps its
-- statement, and another name of the client its token.
pub prepare-found :
    (s : ResourceScope) (client upstream query : Bytes) (types : List ℕ) (t : PreparedStatement)
    (m : Parse)
    → (prepare s client upstream query types).1 ≡ done (t, m)
    → let q = (prepare s client upstream query types).0 in
      (describe_statement q t
        ≡ done (record { target = DescribeTarget.statement; name = m.statement }))
      × (statement_named q client ≡ some t)
      × ((name : Bytes) → upstream ≢ name → get q.statements name ≡ get s.statements name)
      × ((name : Bytes) → client ≢ name → statement_named q name ≡ statement_named s name)
prepare-found s client upstream query types t m h =
    let (scope, is_token, is_parse) = prepare-eq-done s client upstream query types h in
    (
      rw (scope, is_token, is_parse) (described s client upstream),
      rw (scope, is_token) (named s client upstream),
      (λ name ne. rw scope (get-insert_other s.statements upstream name s.next_generation ne)),
      (λ name ne. rw scope (named_other s client upstream name ne)),
    )
