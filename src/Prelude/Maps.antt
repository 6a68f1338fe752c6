-- ===== src/Prelude/Maps.antt =====
-- A `Map` from ids: the list of its values in the order of their first insertion.
use Prim.Native.String.{String}
use mathlib.Core.List.{List, [], ◌∷◌}
use cueloop.Prelude.Tests.{◌==◌, string_eq, if◌then◌else◌}

-- `map.set(id, value)` keeps the place of an id that is there.
module _ {ℓ} {A : Type ℓ} (id : A → String) where
  unfoldable pub put : A → List A → List A
  put x [] = x ∷ []
  put x (y ∷ ys) = if id y == id x then x ∷ ys else y ∷ put x ys

  -- `new Map(values.map((value) => [value.id, value]))`
  unfoldable pub map_of : List A → List A → List A
  map_of done [] = done
  map_of done (x ∷ xs) = map_of (put x done) xs
