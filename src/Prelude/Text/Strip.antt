-- ===== src/Prelude/Text/Strip.antt =====
-- On the stripping of a text.
use Prim.Native.Char.{code}
use Prim.Native.String.{String}
use mathlib.Core.Path.{◌≡◌, refl}
use mathlib.Core.Bool.{◌&&◌}
use mathlib.Core.Logic.{inl, inr}
use native.Mathlib.Omega.{arith}
use galaxz.Prelude.Tests.{Bool-cases}
use galaxz.Prelude.Text.{is_space, lstrip, rstrip, strip, str_eq}

rstrip-rstrip : (s : String) → rstrip (rstrip s) ≡ rstrip s
unfolding rstrip
rstrip-rstrip String.[] = refl
rstrip-rstrip (String.◌∷◌ c s) = elim (Bool-cases (is_space (code c) && str_eq (rstrip s) "")) [
  | inl gone ↦ rw gone refl
  | inr kept ↦ rw (kept, rstrip-rstrip s, kept) refl
]

lstrip-rstrip-lstrip : (s : String) → lstrip (rstrip (lstrip s)) ≡ rstrip (lstrip s)
unfolding lstrip rstrip
lstrip-rstrip-lstrip String.[] = refl
lstrip-rstrip-lstrip (String.◌∷◌ c s) = elim (Bool-cases (is_space (code c))) [
  | inl space ↦ rw space (lstrip-rstrip-lstrip s)
  | inr other ↦ ground (arith, other)
]

pub strip-strip : (s : String) → strip (strip s) ≡ strip s
unfolding strip
strip-strip s = rw (lstrip-rstrip-lstrip s) (rstrip-rstrip (lstrip s))
