-- ===== src/Lifecycle/Ends.antt =====
-- After a signal everything ends.
use zetproxy_turbo.Base.{
  ℕ, zero, suc, ◌≤◌, ◌≡◌, refl, sym, subst, ◌⊎◌, inl, inr, Bool, true, false, ◌&&◌, List, [], ◌∷◌,
  arith, ◌==◌, if◌then◌else◌, Bool-cases,
}
use zetproxy_turbo.Lifecycle.{
  Which, tcp, udp, socks, dash, same, Loop, not_begun, serving, returned, failed, Listener, Stage,
  awaiting, stopping, stopped, ended, Program, put, fail, listen, close_if, close_listener, admit,
  go_on, next, report, signal, stop, finish, Event, listens, closes, goes_on, reports, signals,
  stops, finishes, step, run,
}

abbrev pub is_over : Loop → Bool
is_over returned = true
is_over failed = true
is_over _ = false

-- Steps that a goroutine still has to make once the context is cancelled.
abbrev pub phase : Listener → ℕ
phase l = elim l.loop [ not_begun ↦ 3 | serving ↦ if l.is_open then 2 else 1 | _ ↦ 0 ]

-- The step that a goroutine in that phase waits for.
abbrev pub is_due : Which → ℕ → Event → Bool
is_due w n (listens v ok) = n == 3 && same v w
is_due w n (closes v) = n == 2 && same v w
is_due w n (goes_on v arrives) = n == 1 && same v w
is_due w n _ = false

-- The steps for which it waits come, in this order, whatever else comes before, between and behind.
abbrev pub goes_through : Which → ℕ → List Event → Bool
goes_through w zero es = true
goes_through w (suc n) [] = false
goes_through w (suc n) (e ∷ es) =
    if is_due w (suc n) e then goes_through w n es else goes_through w (suc n) es

phase_zero_at : (o : Loop) (l : Listener) → l.loop ≡ o → phase l ≤ 0 → is_over l.loop ≡ true
phase_zero_at not_begun l e h = ground arith
phase_zero_at serving l e h = ground arith
phase_zero_at returned l e h = ground arith
phase_zero_at failed l e h = ground arith

phase-zero : (l : Listener) → phase l ≤ 0 → is_over l.loop ≡ true
phase-zero l h = phase_zero_at l.loop l refl h

pub same_self : (w : Which) → same w w ≡ true
same_self tcp = refl
same_self udp = refl
same_self socks = refl
same_self dash = refl

pub same_lem : (v w : Which) → same v w ≡ true → v ≡ w
same_lem tcp tcp e = refl
same_lem udp udp e = refl
same_lem socks socks e = refl
same_lem dash dash e = refl
same_lem v w e = absurd (ground (arith, e))

put_lem :
    (v w : Which) (l : Listener) (p : Program)
    → phase l ≤ phase (p.at v)
    → phase ((put v l p).at w) ≤ phase (p.at w)
put_lem v w l p h = elim (Bool-cases (same v w)) [
  | inl e ↦ rw e (subst (λ u. phase l ≤ phase (p.at u)) (same_lem v w e) h)
  | inr e ↦ rw e (omega arith)
]

abbrev Advances : Which → Program → Program → Type 0
Advances w p q = (q.cancelled ≡ true) × (phase (q.at w) ≤ phase (p.at w))

listen-Advances :
    (o : Loop) (v w : Which) (ok : Bool) (p : Program)
    → (p.at v).loop ≡ o
    → p.cancelled ≡ true
    → Advances w p (listen v ok p)
unfolding listen fail
listen-Advances not_begun v w ok p e h = ground (
  arith,
  h,
  e,
  put_lem v w (record { loop = serving; is_open = true }) p,
  put_lem v w (record { loop = failed; is_open = false }) p,
)
listen-Advances serving v w ok p e h = ground arith
listen-Advances returned v w ok p e h = ground arith
listen-Advances failed v w ok p e h = ground arith

close-Advances :
    (o : Loop) (v w : Which) (p : Program)
    → (p.at v).loop ≡ o
    → p.cancelled ≡ true
    → Advances w p (close_listener v p) × Advances w p (close_if v p)
unfolding close_listener close_if
close-Advances not_begun v w p e h = ground arith
close-Advances serving v w p e h =
    ground (arith, h, e, put_lem v w (record { loop = (p.at v).loop; is_open = false }) p)
close-Advances returned v w p e h =
    ground (arith, h, e, put_lem v w (record { loop = (p.at v).loop; is_open = false }) p)
close-Advances failed v w p e h =
    ground (arith, h, e, put_lem v w (record { loop = (p.at v).loop; is_open = false }) p)

next-Advances :
    (o : Loop) (v w : Which) (arrives : Bool) (p : Program)
    → (p.at v).loop ≡ o
    → p.cancelled ≡ true
    → Advances w p (next v arrives p)
unfolding next go_on admit
next-Advances not_begun v w arrives p e h = ground arith
next-Advances serving v w arrives p e h = ground (
  arith,
  h,
  e,
  put_lem v w (record { loop = returned; is_open = (p.at v).is_open }) p,
  put_lem v w (record { loop = returned; is_open = false }) p,
)
next-Advances returned v w arrives p e h = ground arith
next-Advances failed v w arrives p e h = ground arith

pub stop_lem :
    (o : Stage) (p : Program)
    → p.stage ≡ o
    → (stop p ≡ close_if socks (close_if udp (close_if tcp (record p { stage = stopped }))))
      ⊎ (stop p ≡ p)
unfolding stop
stop_lem awaiting p e = inr (rw e refl)
stop_lem stopping p e = inl (rw e refl)
stop_lem stopped p e = inr (rw e refl)
stop_lem ended p e = inr (rw e refl)

stop-Advances : (w : Which) (p : Program) → p.cancelled ≡ true → Advances w p (stop p)
stop-Advances w p h =
    let q = record p { stage = stopped } in
    let a = (close-Advances (q.at tcp).loop tcp w q refl h).1 in
    let b = (close-Advances ((close_if tcp q).at udp).loop udp w (close_if tcp q) refl (a.0)).1 in
    let r = close_if udp (close_if tcp q) in
    let c = (close-Advances (r.at socks).loop socks w r refl (b.0)).1 in
    elim (stop_lem p.stage p refl) [
      | inl e ↦ rw e (c.0, omega (arith, a, b, c))
      | inr e ↦ rw e (h, omega arith)
    ]

-- In a cancelled program no step takes a goroutine back.
step-Advances : (e : Event) (w : Which) (p : Program) → p.cancelled ≡ true → Advances w p (step e p)
unfolding step report signal finish
step-Advances (listens v ok) w p h = listen-Advances (p.at v).loop v w ok p refl h
step-Advances (closes v) w p h = (close-Advances (p.at v).loop v w p refl h).0
step-Advances (goes_on v arrives) w p h = next-Advances (p.at v).loop v w arrives p refl h
step-Advances reports w p h = ground arith
step-Advances signals w p h = ground arith
step-Advances stops w p h = stop-Advances w p h
step-Advances finishes w p h = ground arith

listen_due :
    (o : Loop) (w : Which) (ok : Bool) (p : Program)
    → (p.at w).loop ≡ o
    → phase ((listen w ok p).at w) ≤ 2
unfolding listen fail
listen_due not_begun w ok p e = ground (arith, e, same_self w)
listen_due serving w ok p e = ground (arith, e)
listen_due returned w ok p e = ground (arith, e)
listen_due failed w ok p e = ground (arith, e)

close_due :
    (o : Loop) (w : Which) (p : Program)
    → (p.at w).loop ≡ o
    → p.cancelled ≡ true
    → phase (p.at w) ≤ 2
    → phase ((close_listener w p).at w) ≤ 1
unfolding close_listener close_if
close_due not_begun w p e h k = ground (arith, e)
close_due serving w p e h k = ground (arith, e, same_self w)
close_due returned w p e h k = ground (arith, e, same_self w)
close_due failed w p e h k = ground (arith, e, same_self w)

next_due :
    (o : Loop) (w : Which) (arrives : Bool) (p : Program)
    → (p.at w).loop ≡ o
    → p.cancelled ≡ true
    → phase (p.at w) ≤ 1
    → phase ((next w arrives p).at w) ≤ 0
unfolding next go_on admit
next_due not_begun w arrives p e h k = ground (arith, e)
next_due serving w arrives p e h k = ground (arith, e, same_self w)
next_due returned w arrives p e h k = ground (arith, e)
next_due failed w arrives p e h k = ground (arith, e)

-- The due step takes it on.
step_due :
    (e : Event) (w : Which) (n : ℕ) (p : Program)
    → p.cancelled ≡ true
    → phase (p.at w) ≤ suc n
    → is_due w (suc n) e ≡ true
    → phase ((step e p).at w) ≤ n
unfolding step
step_due (listens v ok) w n p h k d =
    let at_two : n ≡ 2 = ground (arith, d) in
    subst (λ v. phase ((listen v ok p).at w) ≤ n) (sym (same_lem v w (ground (arith, d))))
      (omega (arith, at_two, listen_due (p.at w).loop w ok p refl))
step_due (closes v) w n p h k d =
    let at_one : n ≡ 1 = ground (arith, d) in
    subst (λ v. phase ((close_listener v p).at w) ≤ n) (sym (same_lem v w (ground (arith, d))))
      (omega (arith, at_one, close_due (p.at w).loop w p refl h (omega arith)))
step_due (goes_on v arrives) w n p h k d =
    let at_zero : n ≡ 0 = ground (arith, d) in
    subst (λ v. phase ((next v arrives p).at w) ≤ n) (sym (same_lem v w (ground (arith, d))))
      (omega (arith, at_zero, next_due (p.at w).loop w arrives p refl h (omega arith)))
step_due reports w n p h k d = absurd (ground (arith, d))
step_due signals w n p h k d = absurd (ground (arith, d))
step_due stops w n p h k d = absurd (ground (arith, d))
step_due finishes w n p h k d = absurd (ground (arith, d))

-- In a cancelled program a goroutine that gets its due steps ends, whatever happens meanwhile.
pub run-over :
    (es : List Event) (n : ℕ) (w : Which) (p : Program)
    → p.cancelled ≡ true
    → phase (p.at w) ≤ n
    → goes_through w n es ≡ true
    → is_over ((run es p).at w).loop ≡ true
unfolding run
run-over [] zero w p h k g = phase-zero (p.at w) k
run-over [] (suc n) w p h k g = absurd (ground (arith, g))
run-over (e ∷ es) zero w p h k g =
    let (c, d) = step-Advances e w p h in run-over es zero w (step e p) c (omega (arith, d, k)) refl
run-over (e ∷ es) (suc n) w p h k g =
    let (c, d) = step-Advances e w p h in
    elim (Bool-cases (is_due w (suc n) e)) [
      | inl due ↦ run-over es n w (step e p) c (step_due e w n p h k due) (ground arith)
      | inr other ↦ run-over es (suc n) w (step e p) c (omega (arith, d, k)) (ground arith)
    ]
