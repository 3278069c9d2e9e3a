-- ===== src/Proxy/Accept.antt =====
-- The server over time: the accept loop and the handlers that run beside it, in any interleaving of
-- their statements. The statements of a handler's body leave the semaphore and the counts of
-- connections alone; its deferred function returns the token, closes the connection and then
-- decrements the active count, and the loop may go on between these.
use zetproxy_turbo.Base.{
  ℕ, suc, ◌+◌, ◌%◌, ◌^◌, ◌≤◌, ◌<◌, ◌≡◌, refl, ap, Bool, true, false, arith, if◌then◌else◌,
}
use zetproxy_turbo.Session.{World, Session, Exit, value, returned, panicked, defer}
use zetproxy_turbo.Proxy.{
  Server, new, set_max_conns, count_failed, body, return_token, uncount, release, finish, recover,
  handle, take_token, count_active, count_total,
}
use zetproxy_turbo.Proxy.Cleanup.{body-Frame}

-- Where the loop stands: in `Accept`, behind the `select` with a token, or behind the increment of the
-- active count.
pub data Loop : Type 0 where
  accepting granted admitted : Loop

-- The tokens that it holds itself, and the connections that it has counted as active itself.
abbrev pub holds : Loop → ℕ
holds accepting = 0
holds _ = 1

abbrev pub done : Loop → ℕ
done admitted = 1
done _ = 0

-- What the statements of a handler's body leave alone.
pub record Undisturbed (t u : Server) : Type 0 where
  pub sem_kept : u.sem ≡ t.sem
  pub max_kept : u.max_conns ≡ t.max_conns
  pub active_kept : u.stats.conns_active ≡ t.stats.conns_active
  pub total_kept : u.stats.conns_total ≡ t.stats.conns_total
  pub rejected_kept : u.stats.conns_rejected ≡ t.stats.conns_rejected

-- Along the way are counted the connections that came in, the handlers that run, and those that have
-- returned their token and not yet decremented the active count.
pub data Reach (s : Server) : ℕ → Loop → ℕ → ℕ → Server → Type 0 where
  here : Reach s 0 accepting 0 0 s
  grants :
      {n r c : ℕ} {t u : Server}
      → Reach s n accepting r c t
      → take_token t ≡ (u, true)
      → Reach s (suc n) granted r c u
  rejects :
      {n r c : ℕ} {t u : Server}
      → Reach s n accepting r c t
      → take_token t ≡ (u, false)
      → Reach s (suc n) accepting r c u
  counts :
      {n r c : ℕ} {t u : Server}
      → Reach s n granted r c t
      → u ≡ count_active t
      → Reach s n admitted r c u
  starts :
      {n r c : ℕ} {t u : Server}
      → Reach s n admitted r c t
      → u ≡ count_total t
      → Reach s n accepting (suc r) c u
  works :
      {n r c : ℕ} {l : Loop} {t u : Server}
      → Reach s n l r c t
      → Undisturbed t u
      → Reach s n l r c u
  returns :
      {n r c : ℕ} {l : Loop} {t u : Server}
      → Reach s n l (suc r) c t
      → u ≡ return_token t
      → Reach s n l r (suc c) u
  ends :
      {n r c : ℕ} {l : Loop} {t u : Server}
      → Reach s n l r (suc c) t
      → u ≡ uncount t
      → Reach s n l r c u

record Inv (max n : ℕ) (l : Loop) (r c : ℕ) (s : Server) : Type 0 where
  max_small : max < 2 ^ 31
  limit : s.max_conns ≡ max
  tokens : s.sem ≡ r + holds l
  within : s.sem ≤ s.max_conns
  active : s.stats.conns_active ≡ (r + c + done l) % 2 ^ 32
  counted : (s.stats.conns_total + s.stats.conns_rejected + holds l) % 2 ^ 64 ≡ n % 2 ^ 64

start-Inv : (max : ℕ) → max < 2 ^ 31 → Inv max 0 accepting 0 0 (set_max_conns new max)
unfolding set_max_conns new
start-Inv max h = omega arith

module _ {max n r c : ℕ} (s : Server) where
  grant-Inv :
      (b : Bool)
      → Inv max n accepting r c s
      → (take_token s).1 ≡ b
      → Inv max (suc n) (if b then granted else accepting) r c (take_token s).0
  unfolding take_token
  grant-Inv true v e = ground arith
  grant-Inv false v e = ground arith

  count-Inv : Inv max n granted r c s → Inv max n admitted r c (count_active s)
  unfolding count_active
  count-Inv v = ground arith

  start_handler-Inv : Inv max n admitted r c s → Inv max n accepting (suc r) c (count_total s)
  unfolding count_total
  start_handler-Inv v = ground arith

  return-Inv : (l : Loop) → Inv max n l (suc r) c s → Inv max n l r (suc c) (return_token s)
  unfolding return_token
  return-Inv l v = ground arith

  end-Inv : (l : Loop) → Inv max n l r (suc c) s → Inv max n l r c (uncount s)
  unfolding uncount
  end-Inv l v = ground arith

Reach-keeps :
    {max : ℕ} {s t : Server} {n r c : ℕ} {l : Loop}
    → Inv max 0 accepting 0 0 s
    → Reach s n l r c t
    → Inv max n l r c t
Reach-keeps v here = v
Reach-keeps v (grants {t = t} q e) =
    rw (ap (λ (p : Server × Bool). p.0) e) at
      (grant-Inv t true (Reach-keeps v q) (ap (λ (p : Server × Bool). p.1) e))
Reach-keeps v (rejects {t = t} q e) =
    rw (ap (λ (p : Server × Bool). p.0) e) at
      (grant-Inv t false (Reach-keeps v q) (ap (λ (p : Server × Bool). p.1) e))
Reach-keeps v (counts {t = t} q e) = rw e (count-Inv t (Reach-keeps v q))
Reach-keeps v (starts {t = t} q e) = rw e (start_handler-Inv t (Reach-keeps v q))
Reach-keeps v (works q u) = let ih = Reach-keeps v q in omega arith
Reach-keeps v (returns {l = l} {t = t} q e) = rw e (return-Inv t l (Reach-keeps v q))
Reach-keeps v (ends {l = l} {t = t} q e) = rw e (end-Inv t l (Reach-keeps v q))

-- In every interleaving of the statements of the accept loop and of the handlers, from a server set to
-- at most `max` connections, `max` below 2 ^ 31: the tokens in the semaphore are those of the handlers
-- that run and the one that the loop may hold, and there are never more than `max`; the active count
-- is, modulo 2 ^ 32, the number of the handlers that run, of those that have returned their token and
-- not yet decremented it, and of the connection that the loop has counted and not yet given to a
-- handler; and the totals of taken and rejected connections, with the one that the loop has not yet
-- counted, add up to the arrivals modulo 2 ^ 64.
pub Reach-Inv :
    (max : ℕ) {n r c : ℕ} {l : Loop} {t : Server}
    → max < 2 ^ 31
    → Reach (set_max_conns new max) n l r c t
    → (t.sem ≡ r + holds l)
      × (t.sem ≤ max)
      × (t.stats.conns_active ≡ (r + c + done l) % 2 ^ 32)
      × ((t.stats.conns_total + t.stats.conns_rejected + holds l) % 2 ^ 64 ≡ n % 2 ^ 64)
Reach-Inv max h q =
    let v = Reach-keeps (start-Inv max h) q in
    (v.tokens, rw (v.limit) at (v.within), v.active, v.counted)

recover-Reach :
    {s : Server} {n r c : ℕ} {l : Loop} (x : Exit (Unit {0})) (t : Session Server)
    → Reach s n l r c t.server
    → Reach s n l r c (recover (x, t)).server
unfolding recover count_failed
recover-Reach (value _) t q = q
recover-Reach returned t q = q
recover-Reach panicked t q = works q (omega arith)

-- A run of the whole handler is such a path: statements of its body, the return of its token, the
-- decrement of the active count, and at most one more statement, the count of a panic.
pub handle-Reach :
    {s : Server} {n r c : ℕ} {l : Loop} (w : World) (x : Session Server)
    → Reach s n l (suc r) c x.server
    → Reach s n l r c (handle w x).server
unfolding handle defer finish release
handle-Reach w x q =
    let f = body-Frame w x in
    let t = (body w x).1 in
    let b : Reach _ _ _ _ _ t.server = works q (ground arith) in
    recover-Reach (body w x).0 (finish t) (ends (returns b refl) refl)
