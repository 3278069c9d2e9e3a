-- ===== src/Proxy/Log.antt =====
-- The connection log against the list of all entries ever added.
use zetproxy_turbo.Base.{
  ◌≡◌, refl, sym, ap, ◌∙◌, List, [], ◌∷◌, ◌++◌, append-nil, append_assoc, arith, keep_last,
  keep_last-snoc,
}
use zetproxy_turbo.Proxy.{ConnLog, Server, new, add_conn_log}

abbrev pub add_all : List ConnLog → Server → Server
add_all [] s = s
add_all (e ∷ es) s = add_all es (add_conn_log e s)

pub add_conn_log-keep_last :
    (e : ConnLog) (s : Server)
    → (add_conn_log e s).conn_log ≡ keep_last s.max_log_size (s.conn_log ++ e ∷ [])
unfolding add_conn_log
add_conn_log-keep_last e s = ground arith

add_conn_log_max : (e : ConnLog) (s : Server) → (add_conn_log e s).max_log_size ≡ s.max_log_size
unfolding add_conn_log
add_conn_log_max e s = refl

add_all_from :
    (es past : List ConnLog) (s : Server)
    → s.conn_log ≡ keep_last s.max_log_size past
    → (add_all es s).conn_log ≡ keep_last s.max_log_size (past ++ es)
add_all_from [] past s h = rw (append-nil past) h
add_all_from (e ∷ es) past s h =
    let t = add_conn_log e s in
    let step : t.conn_log ≡ keep_last t.max_log_size (past ++ e ∷ []) =
      add_conn_log-keep_last e s
      ∙ ap (λ l. keep_last s.max_log_size (l ++ e ∷ [])) h
      ∙ keep_last-snoc s.max_log_size past e
      ∙ ap (λ n. keep_last n (past ++ e ∷ [])) (sym (add_conn_log_max e s)) in
    add_all_from es (past ++ e ∷ []) t step
    ∙ rw (append_assoc past (e ∷ []) es, add_conn_log_max e s)

-- After any entries the log of a new server holds the last `maxLogSize` of them, in order.
pub add_all-new : (es : List ConnLog) → (add_all es new).conn_log ≡ keep_last 1000 es
unfolding new
add_all-new es = add_all_from es [] new refl
