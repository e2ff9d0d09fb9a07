-- ===== src/Decomposition/Examples.antt =====
-- Two workstreams, the second of which depends on the first.
use synapse_os.Base.{
  ℕ, ◌+◌, true, false, List, [], ◌∷◌, some, String, Result, ok, err, ◌≡◌, ◌↔◌, refl, is_unique,
}
use synapse_os.Decomposition.Graph.{
  DomainWorkstream, GraphError, identifiers, has_unique_names, has_known_dependencies,
  is_fragmented, require_valid_dependency_graph,
}
use synapse_os.Decomposition.Accepted.{
  IsAcyclic, require_valid_dependency_graph-returns, require_valid_dependency_graph_iff,
}
use synapse_os.Decomposition.Decomposer.{
  DomainDecompositionErrorCode, DecompositionStop, ArchitectureStatus, DomainDecompositionRequest,
  WorkstreamProposal, ProviderReply, DecomposerParts, require_unique_members, check_answer,
  read_content, answer, check_request, send, decompose_valid, decompose,
}
use synapse_os.Decomposition.Decomposed.{Decomposes, decompose-Decomposes, decompose-unasked}

abbrev same_text : String → String
same_text s = s

abbrev billing : DomainWorkstream
billing = record {
  id = "billing";
  name = "billing";
  source_domains = "payments" ∷ [];
  dependencies = "accounts" ∷ [];
}

abbrev accounts : DomainWorkstream
accounts = record {
  id = "accounts";
  name = "accounts";
  source_domains = "users" ∷ [];
  dependencies = [];
}

abbrev two : List DomainWorkstream
two = billing ∷ accounts ∷ []

accepts : require_valid_dependency_graph same_text two ≡ some (ok tt)
unfolding require_valid_dependency_graph
accepts = refl

abbrev circular : List DomainWorkstream
circular =
    record {
      id = "accounts";
      name = "accounts";
      source_domains = "users" ∷ [];
      dependencies = "billing" ∷ [];
    }
    ∷ billing
    ∷ []

rejects : require_valid_dependency_graph same_text circular ≡ some (err GraphError.cyclic)
unfolding require_valid_dependency_graph
rejects = refl

require_valid_dependency_graph-returns_example :
    (r : Result GraphError (Unit {0})) × (require_valid_dependency_graph same_text circular
      ≡ some r)
require_valid_dependency_graph-returns_example =
    require_valid_dependency_graph-returns same_text circular

require_valid_dependency_graph_iff_example :
    (require_valid_dependency_graph same_text two ≡ some (ok tt)) ↔ (
      (is_unique (identifiers two) ≡ true)
      × (has_unique_names same_text two ≡ true)
      × (has_known_dependencies same_text two ≡ true)
      × (is_fragmented same_text two ≡ false)
      × IsAcyclic two)
require_valid_dependency_graph_iff_example = require_valid_dependency_graph_iff same_text two

abbrev request : DomainDecompositionRequest
request = record {
  can_start_implementation = true;
  status = ArchitectureStatus.proposed;
  requires_escalation = false;
  domains = "users" ∷ "payments" ∷ [];
  texts = "Bill the users." ∷ [];
}

abbrev proposal : DomainWorkstream → WorkstreamProposal
proposal w = record {
  workstream = w;
  purpose = "One domain.";
  responsibilities = "It." ∷ [];
  required_capabilities = "python" ∷ [];
}

abbrev proposals : List WorkstreamProposal
proposals = proposal billing ∷ proposal accounts ∷ []

abbrev parts : DecomposerParts ℕ
parts = record {
  casefold = same_text;
  canonical_workstream_id = same_text;
  has_technical_granularity = λ s. false;
  contains_obvious_secret = λ s. false;
  validate = λ r. some r;
  message_bytes = λ r. some 900;
  content_bytes = λ s. 900;
  parse = λ s. some proposals;
  generate = λ r w. (ProviderReply.response (some "{}"), w + 1);
}

decomposes : (decompose parts request 0).0 ≡ ok proposals
unfolding decompose decompose_valid check_request send answer read_content check_answer
    require_unique_members require_valid_dependency_graph
decomposes = refl

decompose-Decomposes_example :
    (canonical : DomainDecompositionRequest) × (some request ≡ some canonical)
    × Decomposes parts canonical proposals
decompose-Decomposes_example = decompose-Decomposes parts request 0 proposals decomposes

abbrev blocked : DomainDecompositionRequest
blocked = record {
  can_start_implementation = false;
  status = ArchitectureStatus.proposed;
  requires_escalation = false;
  domains = [];
  texts = [];
}

decompose-unasked_example :
    (code : DomainDecompositionErrorCode) × (decompose parts blocked 7
      ≡ (err (DecompositionStop.failure code), 7))
decompose-unasked_example = decompose-unasked parts blocked 7 refl
