-- ===== src/Lifecycle/Stages.antt =====
-- Where `main` is.
use zetproxy_turbo.Base.{
  ℕ, zero, suc, ◌≡◌, refl, ap, ◌∙◌, inl, inr, Bool, true, false, List, [], ◌∷◌, arith,
}
use zetproxy_turbo.Lifecycle.{
  Which, tcp, udp, socks, Loop, not_begun, serving, returned, failed, Stage, awaiting, stopping,
  stopped, ended, Program, fail, listen, close_if, close_listener, admit, go_on, next, report,
  signal, stop, finish, Event, listens, closes, goes_on, reports, signals, stops, finishes, step,
  run,
}
use zetproxy_turbo.Lifecycle.Errors.{is_awaiting, close_if-keeps, close_listener_lem}

-- No signal comes.
abbrev pub is_quiet : List Event → Bool
is_quiet [] = true
is_quiet (signals ∷ es) = false
is_quiet (e ∷ es) = is_quiet es

listen_stage :
    (o : Loop) (v : Which) (ok : Bool) (p : Program)
    → (p.at v).loop ≡ o
    → (listen v ok p).stage ≡ p.stage
unfolding listen fail
listen_stage not_begun v ok p e = ground (arith, e)
listen_stage serving v ok p e = ground (arith, e)
listen_stage returned v ok p e = ground (arith, e)
listen_stage failed v ok p e = ground (arith, e)

next_stage :
    (o : Loop) (v : Which) (arrives : Bool) (p : Program)
    → (p.at v).loop ≡ o
    → (next v arrives p).stage ≡ p.stage
unfolding next go_on admit
next_stage not_begun v arrives p e = ground (arith, e)
next_stage serving v arrives p e = ground (arith, e)
next_stage returned v arrives p e = ground (arith, e)
next_stage failed v arrives p e = ground (arith, e)

close_stage : (v : Which) (p : Program) → (close_listener v p).stage ≡ p.stage
close_stage v p = elim (close_listener_lem v p) [
  | inl e ↦ ap (λ (q : Program). q.stage) e ∙ (close_if-keeps (p.at v).loop v v p refl).4
  | inr e ↦ ap (λ (q : Program). q.stage) e
]

report_stage : (n : ℕ) (p : Program) → p.errors ≡ n → (report p).stage ≡ p.stage
unfolding report
report_stage zero p e = ground (arith, e)
report_stage (suc n) p e = ground (arith, e)

close_if_stage : (v : Which) (p : Program) → (close_if v p).stage ≡ p.stage
close_if_stage v p = (close_if-keeps (p.at v).loop v v p refl).4

stop_stage :
    (o : Stage) (p : Program) → p.stage ≡ o → is_awaiting (stop p).stage ≡ is_awaiting p.stage
unfolding stop
stop_stage awaiting p e = rw (e, stop) (ap is_awaiting e)
stop_stage stopping p e =
    rw (e, stop)
      (ap is_awaiting (
        close_if_stage socks (close_if udp (close_if tcp (record p { stage = stopped })))
        ∙ close_if_stage udp (close_if tcp (record p { stage = stopped }))
        ∙ close_if_stage tcp (record p { stage = stopped })))
stop_stage stopped p e = rw (e, stop) (ap is_awaiting e)
stop_stage ended p e = rw (e, stop) (ap is_awaiting e)

finish_stage :
    (o : Stage) (p : Program) → p.stage ≡ o → is_awaiting (finish p).stage ≡ is_awaiting p.stage
unfolding finish
finish_stage awaiting p e = rw (e, finish) (ap is_awaiting e)
finish_stage stopping p e = rw (e, finish) refl
finish_stage stopped p e = rw (e, finish) refl
finish_stage ended p e = rw (e, finish) refl

-- Only a signal ends the waiting.
pub step-awaiting :
    (e : Event) (p : Program)
    → is_quiet (e ∷ []) ≡ true
    → is_awaiting (step e p).stage ≡ is_awaiting p.stage
unfolding step
step-awaiting (listens v ok) p q = ap is_awaiting (listen_stage (p.at v).loop v ok p refl)
step-awaiting (closes v) p q = ap is_awaiting (close_stage v p)
step-awaiting (goes_on v arrives) p q = ap is_awaiting (next_stage (p.at v).loop v arrives p refl)
step-awaiting reports p q = ap is_awaiting (report_stage p.errors p refl)
step-awaiting signals p q = absurd (ground (arith, q))
step-awaiting stops p q = stop_stage p.stage p refl
step-awaiting finishes p q = finish_stage p.stage p refl

pub signal_stage : (o : Stage) (p : Program) → p.stage ≡ o → is_awaiting (signal p).stage ≡ false
unfolding signal
signal_stage awaiting p e = rw (e, signal) refl
signal_stage stopping p e = rw (e, signal) (rw e refl)
signal_stage stopped p e = rw (e, signal) (rw e refl)
signal_stage ended p e = rw (e, signal) (rw e refl)

quiet_parts :
    (e : Event) (es : List Event)
    → is_quiet (e ∷ es) ≡ true
    → (is_quiet (e ∷ []) ≡ true) × (is_quiet es ≡ true)
quiet_parts signals es q = absurd (ground (arith, q))
quiet_parts (listens v ok) es q = (refl, q)
quiet_parts (closes v) es q = (refl, q)
quiet_parts (goes_on v arrives) es q = (refl, q)
quiet_parts reports es q = (refl, q)
quiet_parts stops es q = (refl, q)
quiet_parts finishes es q = (refl, q)

pub signal_cancels : (p : Program) → p.stage ≡ awaiting → (signal p).cancelled ≡ true
unfolding signal
signal_cancels p h = rw (h, signal) refl

pub run-awaiting :
    (es : List Event) (p : Program)
    → is_quiet es ≡ true
    → is_awaiting (run es p).stage ≡ is_awaiting p.stage
unfolding run
run-awaiting [] p q = refl
run-awaiting (e ∷ es) p q =
    let (first, rest) = quiet_parts e es q in
    run-awaiting es (step e p) rest ∙ step-awaiting e p first

step_left :
    (e : Event) (p : Program) → is_awaiting p.stage ≡ false → is_awaiting (step e p).stage ≡ false
unfolding step
step_left signals p h = signal_stage p.stage p refl
step_left (listens v ok) p h = step-awaiting (listens v ok) p refl ∙ h
step_left (closes v) p h = step-awaiting (closes v) p refl ∙ h
step_left (goes_on v arrives) p h = step-awaiting (goes_on v arrives) p refl ∙ h
step_left reports p h = step-awaiting reports p refl ∙ h
step_left stops p h = step-awaiting stops p refl ∙ h
step_left finishes p h = step-awaiting finishes p refl ∙ h

pub run_left :
    (es : List Event) (p : Program)
    → is_awaiting p.stage ≡ false
    → is_awaiting (run es p).stage ≡ false
unfolding run
run_left [] p h = h
run_left (e ∷ es) p h = run_left es (step e p) (step_left e p h)

pub finish_ended :
    (o : Stage) (p : Program) → p.stage ≡ o → is_awaiting p.stage ≡ false → (finish p).stage ≡ ended
unfolding finish
finish_ended awaiting p e h = absurd (ground (arith, e, h))
finish_ended stopping p e h = rw (e, finish) refl
finish_ended stopped p e h = rw (e, finish) refl
finish_ended ended p e h = rw (e, finish) refl

pub awaiting_lem : (o : Stage) → is_awaiting o ≡ true → o ≡ awaiting
awaiting_lem awaiting h = refl
awaiting_lem stopping h = absurd (ground (arith, h))
awaiting_lem stopped h = absurd (ground (arith, h))
awaiting_lem ended h = absurd (ground (arith, h))
