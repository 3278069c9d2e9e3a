-- ===== src/Lifecycle/Errors.antt =====
-- The cancelled context, and the errors that `Start` of the tunnel server gets.
use zetproxy_turbo.Base.{
  ℕ, zero, suc, ◌+◌, ◌≡◌, refl, sym, subst, ap, ◌⊎◌, inl, inr, Bool, true, false, not, ◌||◌, List,
  [], ◌∷◌, arith, if◌then◌else◌, Bool-cases,
}
use zetproxy_turbo.Lifecycle.{
  Which, tcp, udp, socks, dash, same, Loop, not_begun, serving, returned, failed, Stage, awaiting,
  stopping, stopped, ended, Program, put, fail, listen, close_if, close_listener, admit, go_on,
  next, report, signal, stop, finish, Event, listens, closes, goes_on, reports, signals, stops,
  finishes, step, run,
}
use zetproxy_turbo.Lifecycle.Ends.{same_lem}

abbrev pub has_failed : Loop → ℕ
has_failed failed = 1
has_failed _ = 0

-- The tunnel server's loops whose listen failed.
abbrev pub failures : Program → ℕ
failures p = has_failed (p.at tcp).loop + has_failed (p.at udp).loop

abbrev pub is_awaiting : Stage → Bool
is_awaiting awaiting = true
is_awaiting _ = false

abbrev pub Inv : Program → Type 0
Inv p =
    (p.cancelled ≡ (p.start_returned || not (is_awaiting p.stage)))
    × (p.errors + (if p.start_returned then 1 else 0) ≡ failures p)

listen-Inv :
    (o : Loop) (v : Which) (ok : Bool) (p : Program)
    → (p.at v).loop ≡ o
    → Inv p
    → Inv (listen v ok p)
unfolding listen fail
listen-Inv not_begun tcp ok p e i = ground (arith, e, i)
listen-Inv not_begun udp ok p e i = ground (arith, e, i)
listen-Inv not_begun socks ok p e i = ground (arith, e, i)
listen-Inv not_begun dash ok p e i = ground (arith, e, i)
listen-Inv serving v ok p e i = rw (e, listen) i
listen-Inv returned v ok p e i = rw (e, listen) i
listen-Inv failed v ok p e i = rw (e, listen) i

put_at :
    (o : Loop) (v w : Which) (p : Program)
    → (p.at v).loop ≡ o
    → ((put v (record { loop = (p.at v).loop; is_open = false }) p).at w).loop ≡ (p.at w).loop
put_at o v w p h = elim (Bool-cases (same v w)) [
  | inl e ↦ rw e (ap (λ u. (p.at u).loop) (same_lem v w e))
  | inr e ↦ rw e refl
]

pub close_if-keeps :
    (o : Loop) (v w : Which) (p : Program)
    → (p.at v).loop ≡ o
    → (((close_if v p).at w).loop ≡ (p.at w).loop)
      × ((close_if v p).cancelled ≡ p.cancelled)
      × ((close_if v p).errors ≡ p.errors)
      × ((close_if v p).start_returned ≡ p.start_returned)
      × ((close_if v p).stage ≡ p.stage)
unfolding close_if
close_if-keeps not_begun v w p e = rw (e, close_if) (refl, refl, refl, refl, refl)
close_if-keeps serving v w p e = rw (e, close_if) (put_at serving v w p e, refl, refl, refl, refl)
close_if-keeps returned v w p e = rw (e, close_if) (put_at returned v w p e, refl, refl, refl, refl)
close_if-keeps failed v w p e = rw (e, close_if) (put_at failed v w p e, refl, refl, refl, refl)

close_if-Inv : (v : Which) (p : Program) → Inv p → Inv (close_if v p)
close_if-Inv v p i =
    let (a, c, n, r, s) = close_if-keeps (p.at v).loop v tcp p refl in
    let (b, _, _, _, _) = close_if-keeps (p.at v).loop v udp p refl in rw (a, b, c, n, r, s) i

pub close_listener_lem :
    (v : Which) (p : Program) → (close_listener v p ≡ close_if v p) ⊎ (close_listener v p ≡ p)
unfolding close_listener
close_listener_lem v p = elim (Bool-cases p.cancelled) [
  | inl e ↦ inl (ap (λ b. if b then close_if v p else p) e)
  | inr e ↦ inr (ap (λ b. if b then close_if v p else p) e)
]

close_listener-Inv : (v : Which) (p : Program) → Inv p → Inv (close_listener v p)
close_listener-Inv v p i = elim (close_listener_lem v p) [
  | inl e ↦ subst Inv (sym e) (close_if-Inv v p i)
  | inr e ↦ subst Inv (sym e) i
]

next-Inv :
    (o : Loop) (v : Which) (arrives : Bool) (p : Program)
    → (p.at v).loop ≡ o
    → Inv p
    → Inv (next v arrives p)
unfolding next go_on admit
next-Inv not_begun v arrives p e i = rw (e, next) i
next-Inv serving tcp arrives p e i = ground (arith, e, i)
next-Inv serving udp arrives p e i = ground (arith, e, i)
next-Inv serving socks arrives p e i = ground (arith, e, i)
next-Inv serving dash arrives p e i = ground (arith, e, i)
next-Inv returned v arrives p e i = rw (e, next) i
next-Inv failed v arrives p e i = rw (e, next) i

stop-Inv : (o : Stage) (p : Program) → p.stage ≡ o → Inv p → Inv (stop p)
unfolding stop
stop-Inv stopping p e i =
    rw (e, stop)
      (close_if-Inv socks _ (
        close_if-Inv udp _
          (close_if-Inv tcp (record p { stage = stopped }) (ground (arith, e, i)))))
stop-Inv awaiting p e i = rw (e, stop) i
stop-Inv stopped p e i = rw (e, stop) i
stop-Inv ended p e i = rw (e, stop) i

report-Inv : (n : ℕ) (p : Program) → p.errors ≡ n → Inv p → Inv (report p)
unfolding report
report-Inv zero p k i = ground (arith, k, i)
report-Inv (suc n) p k i = ground (arith, k, i)

main-Inv : (o : Stage) (p : Program) → p.stage ≡ o → Inv p → Inv (signal p) × Inv (finish p)
unfolding signal finish
main-Inv awaiting p e i = ground (arith, e, i)
main-Inv stopping p e i = ground (arith, e, i)
main-Inv stopped p e i = ground (arith, e, i)
main-Inv ended p e i = ground (arith, e, i)

pub step-Inv : (e : Event) (p : Program) → Inv p → Inv (step e p)
unfolding step
step-Inv (listens v ok) p i = listen-Inv (p.at v).loop v ok p refl i
step-Inv (closes v) p i = close_listener-Inv v p i
step-Inv (goes_on v arrives) p i = next-Inv (p.at v).loop v arrives p refl i
step-Inv reports p i = report-Inv p.errors p refl i
step-Inv signals p i = (main-Inv p.stage p refl i).0
step-Inv stops p i = stop-Inv p.stage p refl i
step-Inv finishes p i = (main-Inv p.stage p refl i).1

pub run-Inv : (es : List Event) (p : Program) → Inv p → Inv (run es p)
unfolding run
run-Inv [] p i = i
run-Inv (e ∷ es) p i = run-Inv es (step e p) (step-Inv e p i)
