-- ===== src/Dict.antt =====
-- Go maps with string keys as association lists with one entry to a key.
pub mod Laws
use zetproxy_turbo.Base.{Option, none, some, List, [], ◌∷◌, if◌then◌else◌}
use zetproxy_turbo.Text.{Bytes, equal}

module _ {V : Type 0} where
  -- `m[k]`, with the second result of `v, ok := m[k]`
  unfoldable pub lookup : Bytes → List (Bytes × V) → Option V
  lookup k [] = none
  lookup k ((j, v) ∷ m) = if equal j k then some v else lookup k m

  -- `delete(m, k)`
  unfoldable pub delete : Bytes → List (Bytes × V) → List (Bytes × V)
  delete k [] = []
  delete k ((j, v) ∷ m) = let rest = delete k m in if equal j k then rest else (j, v) ∷ rest

  -- `m[k] = v`
  unfoldable pub insert : Bytes → V → List (Bytes × V) → List (Bytes × V)
  insert k v m = (k, v) ∷ delete k m
