-- ===== src/Host/Packet/Queries.antt =====
-- The queries that come in a packet.
use cw_ibc_demo.Prelude.{◌≡◌, ◌↔◌, inl, inr, refl, List, [], ◌∷◌, ok, arith, Outcome-cases, subst}
use cw_ibc_demo.Std.{Binary, QueryRequest, value}
use cw_ibc_demo.Platform.{Platform, Deps}
use cw_ibc_demo.Host.Packet.{unparsed_query, run_queries}

module _ (p : Platform) (deps : Deps) where
  -- The querier answers each query with its result, in order.
  pub data Answers : List QueryRequest → List Binary → Type 0 where
    done : Answers [] []
    more :
        {q : QueryRequest} {qs : List QueryRequest} {r : Binary} {rs : List Binary}
        → (raw : Binary) → p.request.to_binary q ≡ ok raw
        → deps.raw_query raw ≡ value r
        → Answers qs rs
        → Answers (q ∷ qs) (r ∷ rs)

  unparsed_query-ok :
      (q : QueryRequest) (r : Binary)
      → unparsed_query p deps q ≡ ok r
      → (raw : Binary) × (p.request.to_binary q ≡ ok raw) × (deps.raw_query raw ≡ value r)
  unfolding unparsed_query
  unparsed_query-ok q r h = elim (Outcome-cases (p.request.to_binary q)) [
    | inl (raw, e) ↦ (raw, e, ground arith)
    | inr failed ↦ absurd (ground arith)
  ]

  run_queries_sound :
      (qs : List QueryRequest) (rs : List Binary) → run_queries p deps qs ≡ ok rs → Answers qs rs
  unfolding run_queries
  run_queries_sound [] [] h = done
  run_queries_sound [] (r ∷ rs) h = cc
  run_queries_sound (q ∷ qs) rs h = elim (Outcome-cases (unparsed_query p deps q)) [
    | inr failed ↦ absurd (ground arith)
    | inl (r, one) ↦ elim (Outcome-cases (run_queries p deps qs)) [
      | inr failed ↦ absurd (ground arith)
      | inl (rest, later) ↦
          let (raw, e, v) = unparsed_query-ok q r one in
          let whole : r ∷ rest ≡ rs = ground arith in
          subst (Answers (q ∷ qs)) whole (more raw e v (run_queries_sound qs rest later))
    ]
  ]

  run_queries_complete :
      {qs : List QueryRequest} {rs : List Binary} → Answers qs rs → run_queries p deps qs ≡ ok rs
  unfolding run_queries unparsed_query
  run_queries_complete done = refl
  run_queries_complete (more raw e v rest) = ground (arith, run_queries_complete rest)

  -- A packet of queries is answered exactly if the querier answers every query, and then with all
  -- the results in the order of the queries: one failure fails the packet.
  pub run_queries_iff :
      (qs : List QueryRequest) (rs : List Binary) → (run_queries p deps qs ≡ ok rs) ↔ Answers qs rs
  run_queries_iff qs rs = (run_queries_sound qs rs, run_queries_complete)
