-- ===== src/Examples/Lives.antt =====
-- Ends of the program of cmd/zetproxyd/main.go.
use zetproxy_turbo.Tunnel
use zetproxy_turbo.Proxy
use zetproxy_turbo.Base.{◌+◌, ◌≡◌, refl, true, false, List, [], ◌∷◌, if◌then◌else◌}
use zetproxy_turbo.Lifecycle.{
  Which, tcp, udp, socks, dash, awaiting, ended, listen, admit, go_on, next, Event, listens, closes,
  goes_on, reports, signals, stops, finishes, step, run, begun,
}
use zetproxy_turbo.Lifecycle.Ends.{is_over, goes_through}
use zetproxy_turbo.Lifecycle.Errors.{failures}
use zetproxy_turbo.Lifecycle.Fails.{shutdown, serves_nobody}

-- Every goroutine gets its steps.
abbrev rounds : List Event
rounds =
    listens tcp true
    ∷ listens udp true
    ∷ listens socks true
    ∷ listens dash true
    ∷ closes tcp
    ∷ closes udp
    ∷ closes socks
    ∷ closes dash
    ∷ stops
    ∷ goes_on tcp false
    ∷ goes_on udp false
    ∷ goes_on socks false
    ∷ goes_on dash false
    ∷ []

abbrev all_through : (w : Which) → goes_through w 3 rounds ≡ true
all_through tcp = refl
all_through udp = refl
all_through socks = refl
all_through dash = refl

-- The TCP side listens, takes a connection, and the UDP side has not begun.
abbrev before : List Event
before = listens tcp true ∷ goes_on tcp true ∷ listens socks true ∷ []

shutdown_example :
    let p = run rounds (step signals (run before (begun Tunnel.new Proxy.new))) in
    ((w : Which) → is_over (p.at w).loop ≡ true)
    × ((step finishes p).stage ≡ ended)
    × (p.errors + (if p.start_returned then 1 else 0) ≡ failures p)
unfolding run step listen next go_on admit
shutdown_example = shutdown before rounds Tunnel.new Proxy.new refl all_through

serves_nobody_example :
    let p =
      run rounds
        (step reports (step (listens udp false) (run before (begun Tunnel.new Proxy.new)))) in
    ((v : Which) → is_over (p.at v).loop ≡ true) × (p.stage ≡ awaiting)
unfolding run step listen next go_on admit
serves_nobody_example =
    serves_nobody before rounds Tunnel.new Proxy.new udp refl refl refl refl all_through
