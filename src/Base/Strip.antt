-- ===== src/Base/Strip.antt =====
-- A text that `strip` leaves non-empty stays non-empty when it is stripped again.
use Prim.Native.Char.{code}
use Prim.Native.String.{String}
use mathlib.Core.Path.{◌≡◌, refl, ◌∙◌, ap, sym}
use mathlib.Core.Bool.{Bool, false, not, ◌||◌}
use native.Mathlib.Omega.{arith}
use synapse_os.Base.Text.{is_space, is_empty, lstrip, rstrip, strip}

-- Some character is not a space.
abbrev has_text : String → Bool
has_text String.[] = false
has_text (String.◌∷◌ c s) = not (is_space (code c)) || has_text s

has_text-lstrip : (s : String) → has_text (lstrip s) ≡ has_text s
has_text-lstrip String.[] = refl
has_text-lstrip (String.◌∷◌ c s) = ground (arith, has_text-lstrip s)

is_empty-rstrip : (s : String) → is_empty (rstrip s) ≡ not (has_text s)
is_empty-rstrip String.[] = refl
is_empty-rstrip (String.◌∷◌ c s) = ground (arith, is_empty-rstrip s)

has_text-rstrip : (s : String) → has_text (rstrip s) ≡ has_text s
has_text-rstrip String.[] = refl
has_text-rstrip (String.◌∷◌ c s) = ground (arith, has_text-rstrip s, is_empty-rstrip s)

pub is_empty-strip-strip : (s : String) → is_empty (strip (strip s)) ≡ is_empty (strip s)
unfolding strip
is_empty-strip-strip s =
    is_empty-rstrip (lstrip (rstrip (lstrip s)))
    ∙ ap not (has_text-lstrip (rstrip (lstrip s)) ∙ has_text-rstrip (lstrip s))
    ∙ sym (is_empty-rstrip (lstrip s))
