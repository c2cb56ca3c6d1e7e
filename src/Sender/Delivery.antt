-- ===== src/Sender/Delivery.antt =====
-- sender_manager.py: what is counted as sent and as failed.
use mathlib.Core.List.{flatten}
use mathlib.Core.Path.{subst}
use zabbig.Prelude.{
  ℕ, ◌+◌, ◌≤◌, ◌≡◌, refl, ap, ◌∙◌, Bool, true, false, String, List, [], ◌∷◌, map, length,
  length-map, length-append, Result, ok, err, Bool-cases, inl, inr, arith,
}
use zabbig.Prelude.Float.{ℤ, pos}
use zabbig.Models.{ClientConfig, MetricResult, RunSummary}
use zabbig.Sender.{
  Network, Response, Item, answered, next_host, try_hosts, do_send, settle_send, send_results,
  add_batch, send_chunks, send_batch, item_of, add_immediate, send_immediate,
}
use zabbig.Sender.Chunks.{chunks_lem}

-- A server answers for every item: processed or failed.
abbrev pub IsHonest : Network → Type 0
IsHonest net =
    (host : String) (port : ℤ) (items : List Item) (s : net.State) (r : Response)
    → (net.send host port items s).0 ≡ ok r
    → r.processed + r.failed ≡ length items

-- Counts, if there are any, that add up to a number of items.
abbrev AddUp : ℕ → Result (ℕ × ℕ) → Type 0
AddUp n r = (c : ℕ × ℕ) → r ≡ ok c → c.0 + c.1 ≡ n

answered-AddUp : (r : Response) (n : ℕ) → r.processed + r.failed ≡ n → AddUp n (answered r n)
unfolding answered
answered-AddUp r n h c e = ground arith

next_host-AddUp :
    {S : Type 0} (response : Result Response) (n : ℕ) (s : S) (rest : Result (ℕ × ℕ) × S)
    → ((r : Response) → response ≡ ok r → r.processed + r.failed ≡ n)
    → AddUp n rest.0
    → AddUp n (next_host response n s rest).0
unfolding next_host
next_host-AddUp (ok r) n s rest honest h = answered-AddUp r n (honest r refl)
next_host-AddUp (err e) n s rest honest h = h

settle_send-AddUp :
    (late : Bool) (r : Result (ℕ × ℕ)) (n : ℕ)
    → AddUp n r
    → (settle_send late r n).0 + (settle_send late r n).1 ≡ n
unfolding settle_send
settle_send-AddUp true r n h = omega arith
settle_send-AddUp false (ok c) n h = h c refl
settle_send-AddUp false (err e) n h = omega arith

module _ (net : Network) (config : ClientConfig) (honest : IsHonest net) where
  try_hosts-AddUp :
      (hosts : List String) (items : List Item) (s : net.State)
      → AddUp (length items) (try_hosts net config hosts items s).0
  unfolding try_hosts
  try_hosts-AddUp [] items s c e = ground arith
  try_hosts-AddUp (host ∷ hosts) items s c e =
      next_host-AddUp (net.send host config.zabbix.server_port items s).0 (length items) _ _
        (λ r. honest host config.zabbix.server_port items s r) (try_hosts-AddUp hosts items _) c e

  do_send-AddUp :
      (rs : List MetricResult) (s : net.State) → AddUp (length rs) (do_send net config rs s).0
  unfolding do_send
  do_send-AddUp rs s =
      let items = map (item_of config.zabbix.host_name) rs in
      subst (λ n. AddUp n (try_hosts net config config.zabbix.server_hosts items s).0)
        (length-map (item_of config.zabbix.host_name) rs)
        (try_hosts-AddUp config.zabbix.server_hosts items s)

  -- The counts of one `_send`.
  pub send_results-AddUp :
      (rs : List MetricResult) (s : net.State)
      → (c : ℕ × ℕ) × ((send_results net config rs s).0 ≡ ok c) × (c.0 + c.1 ≡ length rs)
  unfolding send_results
  send_results-AddUp rs s = elim (Bool-cases config.runtime.dry_run) [
    | inl dry ↦ ((length rs, 0), ground arith, omega arith)
    | inr wet ↦
        let late = net.outlasts (map (item_of config.zabbix.host_name) rs) s in
        let r = (do_send net config rs s).0 in
        (
          settle_send late r (length rs),
          ground arith,
          settle_send-AddUp late r (length rs) (do_send-AddUp rs s),
        )
  ]

  send_chunks-AddUp :
      (cs : List (List MetricResult)) (summary : RunSummary) (s : net.State)
      → (c : ℕ × ℕ) × ((send_chunks net config summary cs s).0 ≡ ok (add_batch summary c))
        × (c.0 + c.1 ≡ length (flatten cs))
  unfolding send_chunks flatten
  send_chunks-AddUp [] summary s = ((0, 0), ground arith, refl)
  send_chunks-AddUp (part ∷ cs) summary s =
      let (c, p, n) = send_results-AddUp part s in
      let after = (send_results net config part s).1 in
      let (d, q, k) = send_chunks-AddUp cs (add_batch summary c) after in
      ((c.0 + d.0, c.1 + d.1), ground arith, omega (arith, n, k, length-append part (flatten cs)))

  -- If every server that answers accounts for each item, then a batch of any size whose maximal chunk
  -- size is positive is sent without an exception, and each of its results is counted once, as sent
  -- or as failed; nothing else of the summary changes.
  pub send_batch-AddUp :
      (rs : List MetricResult) (summary : RunSummary) (s : net.State) (n : ℕ)
      → config.batching.batch_send_max_size ≡ pos n
      → 1 ≤ n
      → (c : ℕ × ℕ) × ((send_batch net config rs summary s).0 ≡ ok (add_batch summary c))
        × (c.0 + c.1 ≡ length rs)
  unfolding send_batch
  send_batch-AddUp [] summary s n e h = ((0, 0), ground arith, refl)
  send_batch-AddUp (r ∷ rs) summary s n e h =
      let (cs, p, joined, _) = chunks_lem n (r ∷ rs) h in
      let (c, q, k) = send_chunks-AddUp cs summary s in (c, ground arith, k ∙ ap length joined)

  -- Likewise for the immediate results.
  pub send_immediate-AddUp :
      (rs : List MetricResult) (summary : RunSummary) (s : net.State)
      → (c : ℕ × ℕ) × ((send_immediate net config rs summary s).0 ≡ ok (add_immediate summary c))
        × (c.0 + c.1 ≡ length rs)
  unfolding send_immediate
  send_immediate-AddUp [] summary s = ((0, 0), ground arith, refl)
  send_immediate-AddUp (r ∷ rs) summary s =
      let (c, p, n) = send_results-AddUp (r ∷ rs) s in (c, ground arith, n)
