-- ===== src/Sender/Failover.antt =====
-- sender_manager.py: which servers are contacted, and when nothing is sent at all.
use mathlib.Core.List.{flatten}
use zabbig.Prelude.{
  ℕ, ◌≤◌, ◌≡◌, refl, sym, ap, ◌∙◌, true, String, List, [], ◌∷◌, ◌++◌, map, length, length-append,
  ok, Raises, append-nil, arith,
}
use zabbig.Prelude.Float.{pos, negsuc}
use zabbig.Models.{ClientConfig, MetricResult, RunSummary}
use zabbig.Sender.{
  Network, Response, Item, item_of, answered, try_hosts, do_send, send_results, add_batch,
  send_chunks, chunks, send_batch,
}
use zabbig.Sender.Chunks.{chunks_lem}

module _ (net : Network) (config : ClientConfig) where
  -- The state after each of the hosts has been tried.
  abbrev pub after_hosts : List String → List Item → net.State → net.State
  after_hosts [] items s = s
  after_hosts (host ∷ hosts) items s =
      after_hosts hosts items (net.send host config.zabbix.server_port items s).1

  -- Each of the hosts raises an exception when it is tried.
  abbrev pub AreDown : List String → List Item → net.State → Type 0
  AreDown [] items s = Unit
  AreDown (host ∷ hosts) items s =
      Raises (net.send host config.zabbix.server_port items s).0
      × AreDown hosts items (net.send host config.zabbix.server_port items s).1

  try_hosts-append :
      (down hosts : List String) (items : List Item) (s : net.State)
      → AreDown down items s
      → try_hosts net config (down ++ hosts) items s
        ≡ try_hosts net config hosts items (after_hosts down items s)
  unfolding try_hosts
  try_hosts-append [] hosts items s h = refl
  try_hosts-append (host ∷ down) hosts items s ((e, p), h) = ground (
    arith,
    try_hosts-append down hosts items (net.send host config.zabbix.server_port items s).1 h,
  )

  try_hosts-none :
      (items : List Item) (s : net.State)
      → try_hosts net config [] items s ≡ (ok (0, length items), s)
  unfolding try_hosts
  try_hosts-none items s = refl

  try_hosts-first :
      (host : String) (others : List String) (items : List Item) (s : net.State) (r : Response)
      → (net.send host config.zabbix.server_port items s).0 ≡ ok r
      → try_hosts net config (host ∷ others) items s
        ≡ (answered r (length items), (net.send host config.zabbix.server_port items s).1)
  unfolding try_hosts
  try_hosts-first host others items s r e = ground arith

  -- `_do_send` goes through the servers in order and stops at the first that answers: the result is
  -- what that server answered, and the servers behind it are not contacted.
  pub do_send-failover :
      (rs : List MetricResult) (s : net.State) (down others : List String) (host : String)
      (r : Response)
      → let items = map (item_of config.zabbix.host_name) rs in
        config.zabbix.server_hosts ≡ down ++ host ∷ others
        → AreDown down items s
        → (net.send host config.zabbix.server_port items (after_hosts down items s)).0 ≡ ok r
        → do_send net config rs s ≡ (
          answered r (length items),
          (net.send host config.zabbix.server_port items (after_hosts down items s)).1,
        )
  unfolding do_send
  do_send-failover rs s down others host r split h e =
      let items = map (item_of config.zabbix.host_name) rs in
      ap (λ hosts. try_hosts net config hosts items s) split
      ∙ try_hosts-append down (host ∷ others) items s h
      ∙ try_hosts-first host others items (after_hosts down items s) r e

  -- If every server is down, all results count as failed.
  pub do_send-all_down :
      (rs : List MetricResult) (s : net.State)
      → let items = map (item_of config.zabbix.host_name) rs in
        AreDown config.zabbix.server_hosts items s
        → do_send net config rs s
          ≡ (ok (0, length items), after_hosts config.zabbix.server_hosts items s)
  unfolding do_send
  do_send-all_down rs s h =
      let items = map (item_of config.zabbix.host_name) rs in
      let hosts = config.zabbix.server_hosts in
      ap (λ l. try_hosts net config l items s) (sym (append-nil hosts))
      ∙ try_hosts-append hosts [] items s h
      ∙ try_hosts-none items (after_hosts hosts items s)

module _ (net : Network) (config : ClientConfig) (dry : config.runtime.dry_run ≡ true) where
  send_chunks-dry :
      (cs : List (List MetricResult)) (summary : RunSummary) (s : net.State)
      → send_chunks net config summary cs s ≡ (ok (add_batch summary (length (flatten cs), 0)), s)
  unfolding send_chunks send_results flatten
  send_chunks-dry [] summary s = ground arith
  send_chunks-dry (c ∷ cs) summary s =
      ground (
        arith,
        send_chunks-dry cs (add_batch summary (length c, 0)) s,
        length-append c (flatten cs),
      )

  -- In a dry run no server is contacted, and every result of a batch counts as sent.
  pub send_batch-dry :
      (rs : List MetricResult) (summary : RunSummary) (s : net.State) (n : ℕ)
      → config.batching.batch_send_max_size ≡ pos n
      → 1 ≤ n
      → send_batch net config rs summary s ≡ (ok (add_batch summary (length rs, 0)), s)
  unfolding send_batch
  send_batch-dry [] summary s n e h = ground arith
  send_batch-dry (r ∷ rs) summary s n e h =
      let (cs, p, joined, _) = chunks_lem n (r ∷ rs) h in
      ground (arith, send_chunks-dry cs summary s, ap length joined)

pub send_batch-negative :
    (net : Network) (config : ClientConfig) (rs : List MetricResult) (summary : RunSummary)
    (s : net.State) (n : ℕ)
    → config.batching.batch_send_max_size ≡ negsuc n
    → send_batch net config rs summary s ≡ (ok summary, s)
unfolding send_batch chunks send_chunks
send_batch-negative net config [] summary s n e = refl
send_batch-negative net config (r ∷ rs) summary s n e = ground arith
