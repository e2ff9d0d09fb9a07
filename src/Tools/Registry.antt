-- ===== src/Tools/Registry.antt =====
-- `ToolRegistry` of core/tools/registry.py. The checks that only a dynamic language needs are left
-- out.
use Prim.Native.String
use synapse_os.Base.{
  ℕ, zero, suc, Bool, true, false, ◌&&◌, not, List, [], ◌∷◌, ◌++◌, Option, none, some, String,
  str_eq, eq_iff, strip, is_empty, leb, length, any, if◌then◌else◌, Result, ok, err, ◌≡◌, refl, sym,
  subst, ◌∙◌, append_assoc, append_nil, arith, get_elem?,
}
use synapse_os.Tools.Types.{Tool}

-- `ToolDefinitionError`
pub data ToolDefinitionError : Type 0 where
  invalid_definition duplicate_name : ToolDefinitionError

-- `_validate_tool`; `matches` is the test of a text against a pattern.
unfoldable pub is_valid_tool : {W : Type 0} → (String → String → Bool) → Tool W → Bool
is_valid_tool matches tool =
    matches "^[a-z0-9][a-z0-9._:-]{0,127}$" tool.name
    && not (is_empty (strip tool.description))
    && leb (String.count tool.description) 1024
    && leb 1 (length tool.required_permissions)
    && leb (length tool.required_permissions) 11
    && leb 1 tool.timeout
    && leb tool.timeout 30_000_000
    && tool.has_closed_schema

-- `get`
abbrev pub get : {W : Type 0} → List (Tool W) → String → Option (Tool W)
get [] name = none
get (t ∷ rest) name = let later = get rest name in if str_eq t.name name then some t else later

abbrev pub is_registered : {W : Type 0} → List (Tool W) → String → Bool
is_registered registered name = any (λ t. str_eq t.name name) registered

-- The loop of `__init__`, with the tools registered so far.
abbrev pub register_all :
    {W : Type 0}
    → (String → String → Bool)
    → List (Tool W)
    → List (Tool W)
    → Result ToolDefinitionError (List (Tool W))
register_all matches registered [] = ok registered
register_all matches registered (t ∷ rest) =
    let later = register_all matches (registered ++ t ∷ []) rest in
    if is_valid_tool matches t
    then if is_registered registered t.name then err duplicate_name else later
    else err invalid_definition

-- `ToolRegistry(tools)`
unfoldable pub build_registry :
    {W : Type 0}
    → (String → String → Bool)
    → List (Tool W)
    → Result ToolDefinitionError (List (Tool W))
build_registry matches tools = register_all matches [] tools

get-append :
    {W : Type 0} (before rest : List (Tool W)) (t : Tool W)
    → is_registered before t.name ≡ false
    → get (before ++ t ∷ rest) t.name ≡ some t
get-append [] rest t h = rw ((eq_iff t.name t.name).1 refl) refl
get-append (x ∷ before) rest t h =
    let later = get-append before rest t (ground arith) in ground (arith, later)

register_all-appends :
    {W : Type 0} (matches : String → String → Bool) (registered tools out : List (Tool W))
    → register_all matches registered tools ≡ ok out
    → out ≡ registered ++ tools
register_all-appends matches registered [] out h =
    let p : registered ≡ out = cc in sym p ∙ sym (append_nil registered)
register_all-appends matches registered (t ∷ rest) out h =
    register_all-appends matches (registered ++ t ∷ []) rest out (ground arith)
    ∙ append_assoc registered (t ∷ []) rest

registered_get :
    {W : Type 0} (matches : String → String → Bool) (registered tools out : List (Tool W)) (i : ℕ)
    (t : Tool W)
    → register_all matches registered tools ≡ ok out
    → get_elem? tools i ≡ some t
    → (get out t.name ≡ some t) × (is_valid_tool matches t ≡ true)
registered_get matches registered [] out i t h e = absurd (cc)
registered_get {W} matches registered (x ∷ rest) out zero t h e =
    let p : x ≡ t = cc in
    let new : is_registered registered x.name ≡ false = ground arith in
    let valid : is_valid_tool matches x ≡ true = ground arith in
    let q = register_all-appends matches registered (x ∷ rest) out h in
    let found = subst (λ l. get l x.name ≡ some x) (sym q) (get-append registered rest x new) in
    subst (λ (y : Tool W). (get out y.name ≡ some y) × (is_valid_tool matches y ≡ true)) p
      (found, valid)
registered_get matches registered (x ∷ rest) out (suc i) t h e =
    registered_get matches (registered ++ x ∷ []) rest out i t (ground arith) e

-- A registry that is built gives each of its tools under the tool's name, and each is valid.
pub build_registry-get :
    {W : Type 0} (matches : String → String → Bool) (tools out : List (Tool W)) (i : ℕ) (t : Tool W)
    → build_registry matches tools ≡ ok out
    → get_elem? tools i ≡ some t
    → (get out t.name ≡ some t) × (is_valid_tool matches t ≡ true)
unfolding build_registry
build_registry-get matches tools out i t h e = registered_get matches [] tools out i t h e
