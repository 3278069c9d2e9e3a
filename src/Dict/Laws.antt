-- ===== src/Dict/Laws.antt =====
-- What a map holds after a change.
use zetproxy_turbo.Base.{◌≡◌, none, some, List, [], ◌∷◌, arith, if◌then◌else◌}
use zetproxy_turbo.Text.{Bytes, equal}
use zetproxy_turbo.Text.Laws.{equal_iff, equal_self}
use zetproxy_turbo.Dict.{lookup, delete, insert}

pub equal_sym : (a b : Bytes) → equal a b ≡ equal b a
equal_sym a b = ground (arith, equal_iff a b, equal_iff b a)

module _ {V : Type 0} where
  pub lookup-delete :
      (k j : Bytes) (m : List (Bytes × V))
      → lookup j (delete k m) ≡ (if equal k j then none else lookup j m)
  unfolding lookup delete
  lookup-delete k j [] = ground arith
  lookup-delete k j ((i, v) ∷ m) =
      ground (arith, equal_iff i k, equal_iff i j, equal_iff k j, lookup-delete k j m)

  pub lookup-insert :
      (k j : Bytes) (v : V) (m : List (Bytes × V))
      → lookup j (insert k v m) ≡ (if equal k j then some v else lookup j m)
  unfolding lookup insert
  lookup-insert k j v m = ground (arith, lookup-delete k j m)

  pub lookup-delete_self : (k : Bytes) (m : List (Bytes × V)) → lookup k (delete k m) ≡ none
  lookup-delete_self k m = rw (lookup-delete k k m, equal_self k)

  pub lookup-insert_self :
      (k : Bytes) (v : V) (m : List (Bytes × V)) → lookup k (insert k v m) ≡ some v
  lookup-insert_self k v m = rw (lookup-insert k k v m, equal_self k)
