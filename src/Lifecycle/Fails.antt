-- ===== src/Lifecycle/Fails.antt =====
-- What ends the program's goroutines: a signal, or a listen of the tunnel server that fails.
use zetproxy_turbo.Tunnel
use zetproxy_turbo.Proxy
use zetproxy_turbo.Base.{◌+◌, ◌≤◌, ◌≡◌, refl, ◌∙◌, true, false, ◌||◌, List, arith, if◌then◌else◌}
use zetproxy_turbo.Lifecycle.{
  Which, tcp, udp, socks, dash, same, Loop, not_begun, serving, returned, failed, Listener,
  awaiting, ended, Program, fail, listen, report, Event, listens, reports, signals, finishes, step,
  run, begun,
}
use zetproxy_turbo.Lifecycle.Ends.{is_over, phase, goes_through, run-over}
use zetproxy_turbo.Lifecycle.Errors.{failures, Inv, step-Inv, run-Inv}
use zetproxy_turbo.Lifecycle.Stages.{
  is_quiet, step-awaiting, signal_stage, signal_cancels, run-awaiting, run_left, finish_ended,
  awaiting_lem,
}

phase_three : (o : Loop) (l : Listener) → l.loop ≡ o → phase l ≤ 3
phase_three not_begun l e = ground (arith, e)
phase_three serving l e = ground (arith, e)
phase_three returned l e = ground (arith, e)
phase_three failed l e = ground (arith, e)

-- After steps in a cancelled program the listening goroutines have returned.
all_over :
    (es : List Event) (p : Program)
    → p.cancelled ≡ true
    → ((w : Which) → goes_through w 3 es ≡ true)
    → (w : Which) → is_over ((run es p).at w).loop ≡ true
all_over es p h g w = run-over es 3 w p h (phase_three (p.at w).loop (p.at w) refl) (g w)

begun-Inv : (tun : Tunnel.Server) (socks_server : Proxy.Server) → Inv (begun tun socks_server)
begun-Inv tun socks_server = (refl, refl)

-- The failed listen of the tunnel server, and what `Start` makes of it.
report_cancels :
    (w : Which) (p : Program)
    → (same w tcp || same w udp) ≡ true
    → (p.at w).loop ≡ not_begun
    → Inv p
    → (report (listen w false p)).cancelled ≡ true
unfolding report listen fail
report_cancels tcp p k n i = ground (arith, n, i)
report_cancels udp p k n i = ground (arith, n, i)
report_cancels socks p k n i = absurd (ground (arith, k))
report_cancels dash p k n i = absurd (ground (arith, k))

-- In the program as it is after any steps, a signal ends everything: every goroutine that listens and
-- gets the steps that it waits for, listening, the closing of its listener and one more round, in this
-- order among any other steps, has returned; and `main` is at its end when the time limit is over.
-- `Start` of the tunnel server has returned only if a listen of it has failed.
pub shutdown :
    (before es : List Event) (tun : Tunnel.Server) (socks_server : Proxy.Server)
    → (run before (begun tun socks_server)).stage ≡ awaiting
    → ((w : Which) → goes_through w 3 es ≡ true)
    → let p = run es (step signals (run before (begun tun socks_server))) in
      ((w : Which) → is_over (p.at w).loop ≡ true)
      × ((step finishes p).stage ≡ ended)
      × (p.errors + (if p.start_returned then 1 else 0) ≡ failures p)
unfolding step
shutdown before es tun socks_server h g =
    let p = run before (begun tun socks_server) in
    let i = run-Inv before (begun tun socks_server) (begun-Inv tun socks_server) in
    let left = run_left es (step signals p) (signal_stage p.stage p refl) in
    let q = run es (step signals p) in
    (
      all_over es (step signals p) (signal_cancels p h) g,
      finish_ended q.stage q refl left,
      (run-Inv es (step signals p) (step-Inv signals p i)).1,
    )

-- If a listen of the tunnel server fails, for TCP or for UDP, and its error is taken, then without a
-- signal every goroutine that listens ends all the same, the SOCKS5 server and the dashboard
-- included, when they get their steps among any others; but `main` goes on waiting for a signal, so
-- that the program runs on and serves nobody.
pub serves_nobody :
    (before es : List Event) (tun : Tunnel.Server) (socks_server : Proxy.Server) (w : Which)
    → (same w tcp || same w udp) ≡ true
    → ((run before (begun tun socks_server)).at w).loop ≡ not_begun
    → is_quiet before ≡ true
    → is_quiet es ≡ true
    → ((v : Which) → goes_through v 3 es ≡ true)
    → let p =
        run es (step reports (step (listens w false) (run before (begun tun socks_server)))) in
      ((v : Which) → is_over (p.at v).loop ≡ true) × (p.stage ≡ awaiting)
unfolding step
serves_nobody before es tun socks_server w k n q r g =
    let start = begun tun socks_server in
    let p = run before start in
    let i = run-Inv before start (begun-Inv tun socks_server) in
    let waits = run-awaiting before start q in
    let s = run-awaiting es (step reports (step (listens w false) p)) r in
    (
      all_over es (step reports (step (listens w false) p)) (report_cancels w p k n i) g,
      awaiting_lem _ (
          s
          ∙ step-awaiting reports (step (listens w false) p) refl
          ∙ step-awaiting (listens w false) p refl
          ∙ waits),
    )
