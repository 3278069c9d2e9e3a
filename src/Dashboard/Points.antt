-- ===== src/Dashboard/Points.antt =====
-- The points that the dashboard has collected.
use mathlib.Core.List.{map-append}
use zetproxy_turbo.Tunnel
use zetproxy_turbo.Proxy
use zetproxy_turbo.Base.{
  ℕ, ◌+◌, ◌-◌, ◌/◌, ◌%◌, ◌^◌, ◌≡◌, refl, ap, ◌∙◌, List, [], ◌∷◌, ◌++◌, map, arith, ltb,
  if◌then◌else◌, length, drop, keep_last, keep_all, keep_all-keep_last, map-keep_last,
}
use zetproxy_turbo.Text.{Bytes, codes, equal}
use zetproxy_turbo.Speed.{Floats, Meter, tunnel_get_stats, socks_get_stats}
use zetproxy_turbo.Dashboard.{
  MetricPoint, Dashboard, second, Host, points, new, beside, collect, handle_stats, serve,
}

-- What happens to the dashboard, each with the servers as they are by then.
pub data Event : Type 0 where
  tick : ℕ → Tunnel.Server → Proxy.Server → Event
  asked : ℕ → Bytes → Tunnel.Server → Proxy.Server → Event  -- a request for a path

-- A point without its throughput: time in seconds, bytes in and out, connections.
abbrev pub Counters : Type 0
Counters = ℕ × ℕ × ℕ × ℕ

-- What a tick should record.
abbrev pub sums : ℕ → Tunnel.Server → Proxy.Server → Counters
sums now tun socks = (
  now / second,
  (tun.stats.bytes_in + socks.stats.bytes_in) % 2 ^ 64,
  (tun.stats.bytes_out + socks.stats.bytes_out) % 2 ^ 64,
  (tun.stats.conns_active + socks.stats.conns_active) % 2 ^ 32,
)

abbrev pub recorded : List Event → List Counters
recorded [] = []
recorded (tick now tun socks ∷ es) = sums now tun socks ∷ recorded es
recorded (asked now path tun socks ∷ es) = recorded es

module _ (fl : Floats) (host : Host) where
  open fl use {F}

  abbrev pub counters : MetricPoint F → Counters
  counters p = (p.timestamp, p.bytes_in, p.bytes_out, p.conns)

  unfoldable pub step : Dashboard F → Event → Dashboard F
  step d (tick now tun socks) = collect fl now (beside tun socks d)
  step d (asked now path tun socks) = (serve fl host now path (beside tun socks d)).1

  unfoldable pub run : Dashboard F → List Event → Dashboard F
  run d [] = d
  run d (e ∷ es) = run (step d e) es

  kept_lem :
      (n : ℕ) (l : List (MetricPoint F))
      → (if ltb n (length l) then drop (length l - n) l else l) ≡ keep_last n l
  kept_lem n l = ground arith

  collect-keep_last :
      (now : ℕ) (d : Dashboard F)
      → (map counters (collect fl now d).metrics
          ≡ keep_last d.max_metrics (map counters d.metrics ++ sums now d.tun d.socks ∷ []))
        × ((collect fl now d).max_metrics ≡ d.max_metrics)
  unfolding collect tunnel_get_stats socks_get_stats
  collect-keep_last now d = (
    ap (map counters) (kept_lem d.max_metrics _)
        ∙ map-keep_last counters d.max_metrics _
        ∙ ap (keep_last d.max_metrics) (map-append counters d.metrics _),
    refl,
  )

  -- A request changes the meters only.
  asked_lem :
      (now : ℕ) (path : Bytes) (d : Dashboard F)
      → ((serve fl host now path d).1.metrics ≡ d.metrics)
        × ((serve fl host now path d).1.max_metrics ≡ d.max_metrics)
  unfolding serve handle_stats
  asked_lem now path d = ground arith

  run-keep_all :
      (es : List Event) (d : Dashboard F)
      → map counters (run d es).metrics
        ≡ keep_all d.max_metrics (map counters d.metrics) (recorded es)
  unfolding run step
  run-keep_all [] d = refl
  run-keep_all (tick now tun socks ∷ es) d =
      let (e, m) = collect-keep_last now (beside tun socks d) in
      run-keep_all es (collect fl now (beside tun socks d)) ∙ rw (e, m) refl
  run-keep_all (asked now path tun socks ∷ es) d =
      let (e, m) = asked_lem now path (beside tun socks d) in
      run-keep_all es (serve fl host now path (beside tun socks d)).1 ∙ rw (e, m) refl

  -- After any ticks and requests in any order, with the servers in any states meanwhile, `/api/metrics`
  -- answers with the points of the last 360 ticks, in order: of each tick its time and the sums of the
  -- two servers' counters at that tick, modulo 2 ^ 64, and 2 ^ 32 for the connections. No request adds
  -- or removes a point.
  pub metrics_lem :
      (tun : Tunnel.Server) (socks : Proxy.Server) (tm sm : Meter F) (begun now : ℕ)
      (es : List Event)
      → let d = run (new tun tm socks sm begun) es in
        (l : List (MetricPoint F)) × ((serve fl host now (codes "/api/metrics") d).0 ≡ points l)
        × (map counters l ≡ keep_last 360 (recorded es))
  unfolding serve new equal
  metrics_lem tun socks tm sm begun now es =
      let d = run (new tun tm socks sm begun) es in
      (
        d.metrics,
        refl,
        run-keep_all es (new tun tm socks sm begun) ∙ keep_all-keep_last 360 [] (recorded es),
      )
