-- ===== src/Decomposition/Decomposed.antt =====
-- What `decompose` (core/domain_decomposition/decomposer.py) returns, and when it asks the provider.
use synapse_os.Base.{
  arith, Bool, true, false, not, ◌&&◌, List, Option, none, some, String, all, any, if◌then◌else◌,
  Result, ok, err, mem, is_subset, is_subset-mem, Bool-cases, Option-cases, inl, inr, ◌≡◌, ◌↔◌,
  refl, subst,
}
use synapse_os.Decomposition.Graph.{require_valid_dependency_graph}
use synapse_os.Decomposition.Decomposer.{
  DomainDecompositionErrorCode, DecompositionStop, DomainDecompositionRequest, WorkstreamProposal,
  ProviderReply, DecomposerParts, is_actionable, workstreams, approved_domains, covered_domains,
  require_unique_members, is_accepted, is_valid_decomposition, check_answer, read_content, answer,
  check_request, send, decompose_valid, decompose,
}

module _ {W : Type 0} (parts : DecomposerParts W) where
  -- The workstreams are valid and their graph is accepted, and they cover the request's domains.
  pub record Decomposes (request : DomainDecompositionRequest) (proposals : List WorkstreamProposal)
      : Type 0 where
    pub actionable : is_actionable request ≡ true
    pub no_secret : any parts.contains_obvious_secret request.texts ≡ false
    pub members : all (require_unique_members parts) proposals ≡ true
    pub graph : require_valid_dependency_graph parts.casefold (workstreams proposals) ≡ some (ok tt)
    pub domains :
        (domain : String)
        → (mem domain (covered_domains parts proposals) ≡ true)
          ↔ (mem domain (approved_domains parts request) ≡ true)

  is_accepted-graph :
      (proposals : List WorkstreamProposal)
      → is_accepted parts proposals ≡ true
      → require_valid_dependency_graph parts.casefold (workstreams proposals) ≡ some (ok tt)
  is_accepted-graph proposals h = ground arith

  check_answer-Decomposes :
      (r : DomainDecompositionRequest) (parsed : Option (List WorkstreamProposal))
      (proposals : List WorkstreamProposal)
      → is_actionable r ≡ true
      → any parts.contains_obvious_secret r.texts ≡ false
      → check_answer parts r parsed ≡ some proposals
      → Decomposes r proposals
  unfolding check_answer
  check_answer-Decomposes r none proposals a b h = absurd (cc)
  check_answer-Decomposes r (some found) proposals a b h =
      elim (Bool-cases (
        is_valid_decomposition parts found
        && is_subset (covered_domains parts found) (approved_domains parts r)
        && is_subset (approved_domains parts r) (covered_domains parts found))) [
          | inr e ↦ absurd (ground arith)
          | inl e ↦
              let same : found ≡ proposals = ground arith in
              subst (Decomposes r) same (record {
                actionable = a;
                no_secret = b;
                members = ground arith;
                graph = is_accepted-graph found (ground arith);
                domains = λ domain. (
                  is_subset-mem domain (covered_domains parts found) (approved_domains parts r)
                      (ground arith),
                  is_subset-mem domain (approved_domains parts r) (covered_domains parts found)
                      (ground arith),
                );
              })
        ]

  read_content-Decomposes :
      (r : DomainDecompositionRequest) (content : Option String)
      (proposals : List WorkstreamProposal)
      → is_actionable r ≡ true
      → any parts.contains_obvious_secret r.texts ≡ false
      → read_content parts r content ≡ some proposals
      → Decomposes r proposals
  unfolding read_content
  read_content-Decomposes r none proposals a b h = absurd (cc)
  read_content-Decomposes r (some content) proposals a b h =
      check_answer-Decomposes r (parts.parse content) proposals a b (ground arith)

  answer-Decomposes :
      (r : DomainDecompositionRequest) (reply : ProviderReply) (w : W)
      (proposals : List WorkstreamProposal)
      → is_actionable r ≡ true
      → any parts.contains_obvious_secret r.texts ≡ false
      → (answer parts r reply w).0 ≡ ok proposals
      → Decomposes r proposals
  unfolding answer
  answer-Decomposes r (ProviderReply.response content) w proposals a b h =
      read_content-Decomposes r content proposals a b (ground arith)
  answer-Decomposes r ProviderReply.late w proposals a b h = absurd (cc)
  answer-Decomposes r ProviderReply.stopped w proposals a b h = absurd (cc)
  answer-Decomposes r ProviderReply.broken w proposals a b h = absurd (cc)

  check_request-secret :
      (r : DomainDecompositionRequest)
      → check_request parts r ≡ ok tt
      → any parts.contains_obvious_secret r.texts ≡ false
  unfolding check_request
  check_request-secret r h = ground arith

  send-Decomposes :
      (r : DomainDecompositionRequest) (checked : Result DomainDecompositionErrorCode (Unit {0}))
      (w : W) (proposals : List WorkstreamProposal)
      → check_request parts r ≡ checked
      → is_actionable r ≡ true
      → (send parts r checked w).0 ≡ ok proposals
      → Decomposes r proposals
  unfolding send
  send-Decomposes r (err code) w proposals e a h = absurd (cc)
  send-Decomposes r (ok tt) w proposals e a h =
      answer-Decomposes r (parts.generate r w).0 (parts.generate r w).1 proposals a
        (check_request-secret r e) h

  decompose_valid-Decomposes :
      (canonical : Option DomainDecompositionRequest) (w : W) (proposals : List WorkstreamProposal)
      → (decompose_valid parts canonical w).0 ≡ ok proposals
      → (r : DomainDecompositionRequest) × (canonical ≡ some r) × Decomposes r proposals
  unfolding decompose_valid
  decompose_valid-Decomposes none w proposals h = absurd (cc)
  decompose_valid-Decomposes (some r) w proposals h = elim (Bool-cases (is_actionable r)) [
    | inr e ↦ absurd (ground arith)
    | inl e ↦ (r, refl, send-Decomposes r (check_request parts r) w proposals refl e (ground arith))
  ]

  -- If `decompose` returns workstreams, the request as validated may be implemented, its
  -- architecture is proposed and not escalated, and it holds no obvious secret; each workstream has
  -- passed its validator, the validator of the graph accepts them all, and the domains they come
  -- from are exactly those of the architecture, without regard to case.
  pub decompose-Decomposes :
      (request : DomainDecompositionRequest) (w : W) (proposals : List WorkstreamProposal)
      → (decompose parts request w).0 ≡ ok proposals
      → (canonical : DomainDecompositionRequest) × (parts.validate request ≡ some canonical)
        × Decomposes canonical proposals
  unfolding decompose
  decompose-Decomposes request w proposals h =
      decompose_valid-Decomposes (parts.validate request) w proposals h

  abbrev pub is_sendable : Option DomainDecompositionRequest → Bool
  is_sendable none = false
  is_sendable (some r) = is_actionable r && not (any parts.contains_obvious_secret r.texts)

  -- A request that is not valid, may not be implemented or holds an obvious secret never reaches the
  -- provider: `decompose` fails, and the world stays as it was.
  pub decompose-unasked :
      (request : DomainDecompositionRequest) (w : W)
      → is_sendable (parts.validate request) ≡ false
      → (code : DomainDecompositionErrorCode) × (decompose parts request w
          ≡ (err (DecompositionStop.failure code), w))
  unfolding decompose decompose_valid send check_request
  decompose-unasked request w h = elim (Option-cases (parts.validate request)) [
    | inl e ↦ (DomainDecompositionErrorCode.invalid_input, rw (e, decompose_valid) refl)
    | inr (r, e) ↦ elim (Bool-cases (is_actionable r)) [
      | inr no_go ↦ (
        DomainDecompositionErrorCode.architecture_blocked,
        rw (e, decompose_valid, no_go, if◌then◌else◌) refl,
      )
      | inl go ↦
          let h' = subst (λ o. is_sendable o ≡ false) e h in
          let secret : any parts.contains_obvious_secret r.texts ≡ true = ground arith in
          (
            DomainDecompositionErrorCode.sensitive_input,
            rw (e, decompose_valid, go, if◌then◌else◌, check_request, secret, if◌then◌else◌) refl,
          )
    ]
  ]
