-- ===== src/Udp/Blocks.antt =====
-- What is needed to follow each client's packets: places of a list, the packets of one client, and
-- which sessions the map's entries name.
use mathlib.Core.Option
use zetproxy_turbo.Base.{
  ℕ, zero, suc, ◌≡◌, refl, sym, ap, ◌∙◌, ◌⊎◌, inl, inr, some, List, [], ◌∷◌, ◌++◌, append-nil,
  append_assoc, arith, ◌==◌, if◌then◌else◌, Bool-cases, Option-cases, length, get_elem?,
}
use zetproxy_turbo.Text.{Bytes, equal}
use zetproxy_turbo.Text.Laws.{equal_iff}
use zetproxy_turbo.Dict.{lookup, delete}
use zetproxy_turbo.Udp.{UdpSession, modify}

module _ {A : Type 0} where
  pub get_elem?-modify :
      (i j : ℕ) (f : A → A) (xs : List A)
      → get_elem? (modify i f xs) j
        ≡ (if i == j then Option.map f (get_elem? xs j) else get_elem? xs j)
  unfolding modify
  get_elem?-modify i j f [] = ground arith
  get_elem?-modify zero zero f (x ∷ xs) = refl
  get_elem?-modify zero (suc j) f (x ∷ xs) = ground arith
  get_elem?-modify (suc i) zero f (x ∷ xs) = ground arith
  get_elem?-modify (suc i) (suc j) f (x ∷ xs) = ground (arith, get_elem?-modify i j f xs)

  -- An entry of the changed list is one of the old list, changed or not.
  pub modified :
      (i j : ℕ) (f : A → A) (xs : List A) (y : A)
      → get_elem? (modify i f xs) j ≡ some y
      → (x : A) × (get_elem? xs j ≡ some x) × (y ≡ (if i == j then f x else x))
  modified i j f xs y h = elim (Option-cases (get_elem? xs j)) [
    | inl e ↦ absurd (ground (arith, get_elem?-modify i j f xs))
    | inr (x, e) ↦ (x, e, ground (arith, get_elem?-modify i j f xs))
  ]

  pub get_elem?-append :
      (xs : List A) (x : A) (j : ℕ) (y : A)
      → get_elem? xs j ≡ some y
      → get_elem? (xs ++ x ∷ []) j ≡ some y
  get_elem?-append [] x j y h = ground arith
  get_elem?-append (z ∷ xs) x zero y h = h
  get_elem?-append (z ∷ xs) x (suc j) y h = get_elem?-append xs x j y h

  pub get_elem?-length : (xs : List A) (x : A) → get_elem? (xs ++ x ∷ []) (length xs) ≡ some x
  get_elem?-length [] x = refl
  get_elem?-length (z ∷ xs) x = get_elem?-length xs x

  -- An entry of the longer list is the new one or one of the old list.
  pub appended :
      (xs : List A) (x : A) (j : ℕ) (y : A)
      → get_elem? (xs ++ x ∷ []) j ≡ some y
      → ((j ≡ length xs) × (y ≡ x)) ⊎ (get_elem? xs j ≡ some y)
  appended [] x zero y h = inl (refl, ground arith)
  appended [] x (suc j) y h = absurd (ground arith)
  appended (z ∷ xs) x zero y h = inr h
  appended (z ∷ xs) x (suc j) y h = elim (appended xs x j y h) [
    | inl (a, b) ↦ inl (ap suc a, b)
    | inr a ↦ inr a
  ]

-- The payloads of the packets of one client, in order.
abbrev pub from : Bytes → List (Bytes × Bytes) → List Bytes
from key [] = []
from key ((k, p) ∷ r) = (if equal k key then p ∷ [] else []) ++ from key r

pub from-append :
    (key k p : Bytes) (r : List (Bytes × Bytes))
    → from key (r ++ ((k, p) ∷ [])) ≡ from key r ++ (if equal k key then p ∷ [] else [])
from-append key k p [] = append-nil (if equal k key then p ∷ [] else [])
from-append key k p ((j, q) ∷ r) =
    ap (◌++◌ (if equal j key then q ∷ [] else [])) (from-append key k p r)
    ∙ sym (append_assoc (if equal j key then q ∷ [] else []) (from key r) _)

-- `w` are packets of the client one after the other with no other between, and `l` all behind them.
abbrev pub IsBlock : Bytes → List Bytes → List Bytes → List (Bytes × Bytes) → Type 0
IsBlock key w l r = (e : List Bytes) × (from key r ≡ e ++ (w ++ l))

-- The session of an entry is one of the entry's client.
abbrev pub Owns : List UdpSession → Bytes → ℕ → Type 0
Owns os key id = (o : UdpSession) × (get_elem? os id ≡ some o) × (o.remote ≡ key)

abbrev pub Owned : List UdpSession → List (Bytes × ℕ) → Type 0
Owned os [] = Unit
Owned os ((key, id) ∷ es) = Owns os key id × Owned os es

-- Sessions stay where they are and keep their clients.
abbrev pub Stays : List UdpSession → List UdpSession → Type 0
Stays os ps = (key : Bytes) (id : ℕ) → Owns os key id → Owns ps key id

pub Stays-Owned :
    (os ps : List UdpSession) (es : List (Bytes × ℕ)) → Stays os ps → Owned os es → Owned ps es
Stays-Owned os ps [] s h = h
Stays-Owned os ps ((key, id) ∷ es) s (a, b) = (s key id a, Stays-Owned os ps es s b)

pub modify-Stays :
    (i : ℕ) (f : UdpSession → UdpSession) (os : List UdpSession)
    → ((o : UdpSession) → (f o).remote ≡ o.remote)
    → Stays os (modify i f os)
modify-Stays i f os h key id (o, e, k) =
    (if i == id then f o else o, ground (arith, get_elem?-modify i id f os), ground (arith, h o))

pub append-Stays : (os : List UdpSession) (o : UdpSession) → Stays os (os ++ o ∷ [])
append-Stays os o key id (p, e, k) = (p, get_elem?-append os o id p e, k)

pub delete-Owned :
    (k : Bytes) (os : List UdpSession) (es : List (Bytes × ℕ))
    → Owned os es
    → Owned os (delete k es)
unfolding delete
delete-Owned k os [] h = h
delete-Owned k os ((key, id) ∷ es) (a, b) =
    let rest = delete-Owned k os es b in
    elim (Bool-cases (equal key k)) [ inl e ↦ rw e rest | inr e ↦ rw e (a, rest) ]

pub lookup-Owned :
    (key : Bytes) (id : ℕ) (os : List UdpSession) (es : List (Bytes × ℕ))
    → Owned os es
    → lookup key es ≡ some id
    → Owns os key id
unfolding lookup
lookup-Owned key id os [] h e = absurd (ground arith)
lookup-Owned key id os ((k, i) ∷ es) (a, b) e = elim (Bool-cases (equal k key)) [
  | inl q ↦ let (o, g, r) = a in (o, ground arith, ground (arith, equal_iff k key))
  | inr q ↦ lookup-Owned key id os es b (ground arith)
]
