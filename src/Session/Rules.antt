-- ===== src/Session/Rules.antt =====
-- A rule for each statement of a handler: a relation between the session before and after that is
-- reflexive and transitive, and that holds of the statements, holds of the whole handler.
use zetproxy_turbo.Base.{ℕ, ◌≡◌, refl, Bool, true, false, Option, none, some, arith, if◌then◌else◌}
use zetproxy_turbo.Text.{Bytes}
use zetproxy_turbo.Session.{
  World, Target, Session, Exit, value, returned, panicked, M, and_then, ◌>>=◌, ◌>>◌, pure, return,
  panic, check, or_return, try, on_server, set_deadline, read_full, read, write, write_ignore,
  write_target, relay,
}

-- What is asked of the relation; it may speak of the server and of the open targets only.
pub record IsFrame {S : Type 0} (R : Session S → Session S → Type 0) : Type 0 where
  pub client : (s t : Session S) → t.server ≡ s.server → t.targets ≡ s.targets → R s t
  pub trans : (s t u : Session S) → R s t → R t u → R s u

module _ {S : Type 0} (R : Session S → Session S → Type 0) (frame : IsFrame R) where
  pub record Keeps {A : Type 0} (m : M S A) : Type 0 where
    pub apply : (s : Session S) → R s (m s).1

  and_then-R :
      {A B : Type 0} (s : Session S) (r : Exit A × Session S) (f : A → M S B)
      → R s r.1
      → ((a : A) → Keeps (f a))
      → R s (and_then r f).1
  and_then-R s (value a, t) f h k = frame.trans s t _ h ((k a).apply t)
  and_then-R s (returned, t) f h k = h
  and_then-R s (panicked, t) f h k = h

  pub bind :
      {A B : Type 0} {m : M S A} {f : A → M S B}
      → Keeps m
      → ((a : A) → Keeps (f a))
      → Keeps (m >>= f)
  bind {m} {f} h k = record { apply = λ s. and_then-R s (m s) f (h.apply s) k }

  pub seq : {A B : Type 0} {m : M S A} {k : M S B} → Keeps m → Keeps k → Keeps (m >> k)
  seq h k = bind h (λ _. k)

  pub pure-Keeps : {A : Type 0} {a : A} → Keeps (pure a)
  pure-Keeps = record { apply = λ s. frame.client s s refl refl }

  pub return-Keeps : {A : Type 0} → Keeps {A = A} return
  return-Keeps = record { apply = λ s. frame.client s s refl refl }

  pub panic-Keeps : {A : Type 0} → Keeps {A = A} panic
  panic-Keeps = record { apply = λ s. frame.client s s refl refl }

  pub check-Keeps : (b : Bool) {m : M S (Unit {0})} → Keeps m → Keeps (check b m)
  unfolding check
  check-Keeps true h = pure-Keeps
  check-Keeps false h = bind h (λ _. return-Keeps)

  or_return-Keeps :
      {A : Type 0} (o : Option A) {f : M S (Unit {0})} → Keeps f → Keeps {A = A} (or_return o f)
  unfolding or_return
  or_return-Keeps (some a) h = pure-Keeps
  or_return-Keeps none h = bind h (λ _. return-Keeps)

  pub try-Keeps :
      {A : Type 0} {m : M S (Option A)} {f : M S (Unit {0})} → Keeps m → Keeps f → Keeps (try m f)
  unfolding try
  try-Keeps {f} h k = bind h (λ o. or_return-Keeps o {f = f} k)

  pub set_deadline-Keeps : (d : Option ℕ) → Keeps (set_deadline d)
  unfolding set_deadline
  set_deadline-Keeps d = record { apply = λ s. frame.client s _ refl refl }

  pub read_full-Keeps : (n : ℕ) → Keeps (read_full n)
  unfolding read_full
  read_full-Keeps n = record { apply = λ s. frame.client s _ (ground arith) (ground arith) }

  pub read-Keeps : (w : World) (n : ℕ) → Keeps (read w n)
  unfolding read
  read-Keeps w n = record { apply = λ s. frame.client s _ (ground arith) (ground arith) }

  pub write-Keeps : (w : World) (b : Bytes) → Keeps (write w b)
  unfolding write
  write-Keeps w b = record { apply = λ s. frame.client s _ (ground arith) (ground arith) }

  pub write_ignore-Keeps : (w : World) (b : Bytes) → Keeps (write_ignore w b)
  unfolding write_ignore
  write_ignore-Keeps w b = bind (write-Keeps w b) (λ _. pure-Keeps)

  pub write_target-Keeps : (t : Target) (b : Bytes) → Keeps (write_target t b)
  unfolding write_target
  write_target-Keeps t b = record { apply = λ s. frame.client s _ (ground arith) (ground arith) }

  pub relay-Keeps : (t : Target) → Keeps (relay t)
  unfolding relay
  relay-Keeps t = record { apply = λ s. frame.client s _ refl refl }

  pub on_server-Keeps :
      (f : S → S) → ((s : Session S) → R s (record s { server = f s.server })) → Keeps (on_server f)
  unfolding on_server
  on_server-Keeps f h = record { apply = h }

  pub if-Keeps :
      {A : Type 0} (b : Bool) {m n : M S A} → Keeps m → Keeps n → Keeps (if b then m else n)
  if-Keeps true h k = h
  if-Keeps false h k = k
