-- ===== src/Runtime/Stagnation.antt =====
-- core/runtime/stagnation.py: the detector keeps the fingerprints of equal steps in a row.
use synapse_os.Base.{
  ℕ, suc, Bool, true, false, List, [], ◌∷◌, Option, none, some, String, ◌==◌, length, take,
  if◌then◌else◌,
}
use Prim.Native.String
use Prim.Native.Nat.{Ordering}
use synapse_os.Runtime.Types.{
  JsonValue, JsonItems, JsonFields, RuntimeAction, RuntimeVerificationOutcome, RuntimeDecision,
  RuntimeVerification, ToolErrorCode,
}

-- `_Shape`
mutual
  pub data Shape : Type 0 where
    word : String → Shape
    shapes : Shapes → Shape
    keyed : KeyedShapes → Shape

  pub data Shapes : Type 0 where
    nil : Shapes
    cons : Shape → Shapes → Shapes

  pub data KeyedShapes : Type 0 where
    end : KeyedShapes
    key : String → Shape → KeyedShapes → KeyedShapes

is_before : String → String → Bool
is_before s t = elim (String.compare s t) [ Ordering.lt ↦ true | _ ↦ false ]

-- A key put at its place among sorted keys.
insert_key : String → Shape → KeyedShapes → KeyedShapes
insert_key k s end = key k s end
insert_key k s (key j t rest) =
    if is_before j k then key j t (insert_key k s rest) else key k s (key j t rest)

-- `_shape`
unfoldable mutual
  unfolding insert_key is_before

  pub shape : JsonValue → Shape
  shape JsonValue.null = word "null"
  shape JsonValue.number = word "number"
  shape (JsonValue.boolean b) = word "boolean"
  shape (JsonValue.string s) = word "string"
  shape (JsonValue.integer n) = word "integer"
  shape (JsonValue.list xs) = shapes (shape_items xs)
  shape (JsonValue.object fs) = keyed (shape_fields fs)

  pub shape_items : JsonItems → Shapes
  shape_items JsonItems.nil = Shapes.nil
  shape_items (JsonItems.cons x xs) = Shapes.cons (shape x) (shape_items xs)

  pub shape_fields : JsonFields → KeyedShapes
  shape_fields JsonFields.end = end
  shape_fields (JsonFields.field k v fs) = insert_key k (shape v) (shape_fields fs)

-- The dictionary `canonical` of `observe`.
pub record Canonical : Type 0 where
  pub action : RuntimeAction
  pub tool_name : Option String
  pub argument_shape : Shape
  pub verification_outcome : Option RuntimeVerificationOutcome
  pub tool_error_code : Option ToolErrorCode

abbrev pub canonical :
    RuntimeDecision → Option RuntimeVerification → Option ToolErrorCode → Canonical
canonical decision verification code = record {
  action = decision.action;
  tool_name = decision.tool_name;
  argument_shape = shape decision.arguments;
  verification_outcome = elim verification [ none ↦ none | some v ↦ some v.outcome ];
  tool_error_code = code;
}

-- `clear` where the newest digest is another one.
unfoldable pub keep_equal : ℕ → List ℕ → List ℕ
keep_equal digest [] = []
keep_equal digest (newest ∷ older) = if newest == digest then newest ∷ older else []

-- `observe` on the deque of digests, the newest first, which holds `window` of them at most: the
-- digests afterwards, and whether the loop stagnates.
unfoldable pub observe_digest : ℕ → ℕ → List ℕ → List ℕ × Bool
unfolding keep_equal
observe_digest window digest digests =
    let retained = take window (digest ∷ keep_equal digest digests) in
    (retained, length retained == window)

-- The digests that are newest and equal, counted up to the window.
abbrev pub observe_all : ℕ → List ℕ → List ℕ × Bool
observe_all window [] = ([], false)
observe_all window (digest ∷ older) = observe_digest window digest (observe_all window older).0

-- How many of the newest digests are equal to the given one.
abbrev pub streak : ℕ → List ℕ → ℕ
streak digest [] = 0
streak digest (newest ∷ older) = if newest == digest then suc (streak digest older) else 0
