-- ===== src/Decomposition/Decomposer.antt =====
-- `DomainDecomposer` of core/domain_decomposition/decomposer.py, with the workstream's own validator
-- of core/domain_decomposition/types.py. The provider, the encoding of a request, the parsing of an
-- answer and the texts' methods are parameters.
use synapse_os.Base.{
  ℕ, Bool, true, false, not, ◌&&◌, List, [], ◌∷◌, ◌++◌, map, Option, none, some, String, str_eq,
  leb, length, any, all, if◌then◌else◌, Result, ok, err, mem, is_subset, is_unique,
}
use synapse_os.Effects.{Effect, ◌>>=◌, pure, raise, lift}
use synapse_os.Decomposition.Graph.{DomainWorkstream, require_valid_dependency_graph}

pub data DomainDecompositionErrorCode : Type 0 where
  invalid_input sensitive_input architecture_blocked provider_failure invalid_decomposition
        timeout :
      DomainDecompositionErrorCode

-- How `decompose` ends without a result: by its error, or because the task is cancelled.
pub data DecompositionStop : Type 0 where
  failure : DomainDecompositionErrorCode → DecompositionStop
  cancelled : DecompositionStop

pub data ArchitectureStatus : Type 0 where
  proposed needs_human : ArchitectureStatus

-- `DomainDecompositionRequest`: what `decompose` reads of the intake and the architecture, and every
-- text of the request.
pub record DomainDecompositionRequest : Type 0 where
  pub can_start_implementation : Bool
  pub status : ArchitectureStatus
  pub requires_escalation : Bool
  pub domains : List String
  pub texts : List String

-- A workstream with the texts that its own validator reads.
pub record WorkstreamProposal : Type 0 where
  pub workstream : DomainWorkstream
  pub purpose : String
  pub responsibilities : List String
  pub required_capabilities : List String

-- What waiting for the provider gives: the content of its response, if that is a text.
pub data ProviderReply : Type 0 where
  response : Option String → ProviderReply
  late stopped broken : ProviderReply

-- `validate` is the strict validation of the request, `message_bytes` the size of the prompts, or
-- nothing where the encoding raises; `parse` reads the structured answer.
pub record DecomposerParts (W : Type 0) : Type 0 where
  pub casefold : String → String
  pub canonical_workstream_id : String → String
  pub has_technical_granularity : String → Bool
  pub contains_obvious_secret : String → Bool
  pub validate : DomainDecompositionRequest → Option DomainDecompositionRequest
  pub message_bytes : DomainDecompositionRequest → Option ℕ
  pub content_bytes : String → ℕ
  pub parse : String → Option (List WorkstreamProposal)
  pub generate : DomainDecompositionRequest → W → ProviderReply × W

abbrev pub is_proposed : ArchitectureStatus → Bool
is_proposed ArchitectureStatus.proposed = true
is_proposed ArchitectureStatus.needs_human = false

abbrev pub is_actionable : DomainDecompositionRequest → Bool
is_actionable r = r.can_start_implementation && is_proposed r.status && not r.requires_escalation

abbrev pub concat : List (List String) → List String
concat [] = []
concat (x ∷ xs) = x ++ concat xs

abbrev pub workstreams : List WorkstreamProposal → List DomainWorkstream
workstreams proposals = map (λ (p : WorkstreamProposal). p.workstream) proposals

abbrev pub failed : {W A : Type 0} → DomainDecompositionErrorCode → Effect W DecompositionStop A
failed code = raise (DecompositionStop.failure code)

module _ {W : Type 0} (parts : DecomposerParts W) where
  -- `frozenset(domain.casefold() for domain in domains)`
  abbrev pub approved_domains : DomainDecompositionRequest → List String
  approved_domains r = map parts.casefold r.domains

  abbrev pub covered_domains : List WorkstreamProposal → List String
  covered_domains proposals =
      map parts.casefold
        (concat (map (λ (w : DomainWorkstream). w.source_domains) (workstreams proposals)))

  abbrev pub repeats_nothing : List String → Bool
  repeats_nothing values = is_unique (map parts.casefold values)

  -- `require_unique_members`
  unfoldable pub require_unique_members : WorkstreamProposal → Bool
  require_unique_members p =
      str_eq p.workstream.id (parts.canonical_workstream_id p.workstream.name)
      && not
          (any parts.has_technical_granularity (p.workstream.name ∷ p.purpose ∷ p.responsibilities))
      && repeats_nothing p.responsibilities
      && repeats_nothing p.workstream.source_domains
      && repeats_nothing p.required_capabilities
      && repeats_nothing p.workstream.dependencies
      && not (mem p.workstream.id p.workstream.dependencies)

  -- The validator of the graph as a test.
  abbrev pub is_accepted : List WorkstreamProposal → Bool
  is_accepted proposals =
      elim (require_valid_dependency_graph parts.casefold (workstreams proposals)) [
        | some (ok tt) ↦ true
        | some (err e) ↦ false
        | none ↦ false
      ]

  abbrev pub is_valid_decomposition : List WorkstreamProposal → Bool
  is_valid_decomposition proposals =
      leb 1 (length proposals)
      && leb (length proposals) 32
      && all require_unique_members proposals
      && is_accepted proposals

  -- `decode_structured_output`, and the two tests of the domains.
  unfoldable pub check_answer :
      DomainDecompositionRequest
      → Option (List WorkstreamProposal)
      → Option (List WorkstreamProposal)
  check_answer r none = none
  check_answer r (some proposals) =
      if is_valid_decomposition proposals
        && is_subset (covered_domains proposals) (approved_domains r)
        && is_subset (approved_domains r) (covered_domains proposals)
      then some proposals
      else none

  unfoldable pub read_content :
      DomainDecompositionRequest → Option String → Option (List WorkstreamProposal)
  read_content r none = none
  read_content r (some content) =
      if leb (parts.content_bytes content) 131_072
      then check_answer r (parts.parse content)
      else none

  unfoldable pub answer :
      DomainDecompositionRequest
      → ProviderReply
      → Effect W DecompositionStop (List WorkstreamProposal)
  answer r (ProviderReply.response content) = elim (read_content r content) [
    | none ↦ failed DomainDecompositionErrorCode.invalid_decomposition
    | some proposals ↦ pure proposals
  ]
  answer r ProviderReply.late = failed DomainDecompositionErrorCode.timeout
  answer r ProviderReply.stopped = raise DecompositionStop.cancelled
  answer r ProviderReply.broken = failed DomainDecompositionErrorCode.provider_failure

  -- `_build_provider_request`: no secret may be in it, and it must be encoded and not be too long.
  unfoldable pub check_request :
      DomainDecompositionRequest → Result DomainDecompositionErrorCode (Unit {0})
  check_request r =
      if any parts.contains_obvious_secret r.texts
      then err DomainDecompositionErrorCode.sensitive_input
      else elim (parts.message_bytes r) [
        | none ↦ err DomainDecompositionErrorCode.invalid_input
        | some bytes ↦
            if leb bytes 131_072 then ok tt else err DomainDecompositionErrorCode.invalid_input
      ]

  unfoldable pub send :
      DomainDecompositionRequest
      → Result DomainDecompositionErrorCode (Unit {0})
      → Effect W DecompositionStop (List WorkstreamProposal)
  send r (err code) = failed code
  send r (ok tt) = do reply ← lift (parts.generate r); answer r reply

  unfoldable pub decompose_valid :
      Option DomainDecompositionRequest → Effect W DecompositionStop (List WorkstreamProposal)
  decompose_valid none = failed DomainDecompositionErrorCode.invalid_input
  decompose_valid (some r) =
      if is_actionable r
      then send r (check_request r)
      else failed DomainDecompositionErrorCode.architecture_blocked

  -- `decompose`
  unfoldable pub decompose :
      DomainDecompositionRequest → Effect W DecompositionStop (List WorkstreamProposal)
  decompose request = decompose_valid (parts.validate request)
