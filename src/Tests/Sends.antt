-- ===== src/Tests/Sends.antt =====
-- Delivery and a whole cycle, on two servers of which the first is down.
use mathlib.Core.List.{flatten}
use zabbig.Prelude.{
  ℕ, ◌+◌, ◌≤◌, ◌≡◌, refl, false, List, [], ◌∷◌, map, length, All, ok, arith, string_eq,
}
use zabbig.Prelude.Float.{pos}
use zabbig.Models.{ClientConfig, RunSummary, fresh_summary}
use zabbig.Runner.{in_time}
use zabbig.Sender.{add_batch, chunks, do_send, send_batch, item_of, answered, Item}
use zabbig.Sender.Chunks.{chunks_lem}
use zabbig.Sender.Delivery.{send_batch-AddUp}
use zabbig.Sender.Failover.{after_hosts, AreDown, do_send-failover}
use zabbig.Main.{deliver, run_async}
use zabbig.Main.Cycle.{delivered, deliver-Delivers, ExitFits, run_async-Completes}
use zabbig.Tests.Runs.{cpu_metric-IsServed, disk_metric-IsServed}
use zabbig.Main.Dry.{run_async-dry}
use zabbig.Tests.Data.{
  config_with, sample_config, dry_config, sample_metrics, sample_results, sample_net,
  sample_net-IsHonest, world, sample_clock,
}

chunks_lem_example :
    (cs : List (List ℕ)) × (chunks (pos 2) (1 ∷ 2 ∷ 3 ∷ []) ≡ ok cs)
    × (flatten cs ≡ 1 ∷ 2 ∷ 3 ∷ [])
    × All (λ c. (1 ≤ length c) × (length c ≤ 2)) cs
chunks_lem_example = chunks_lem 2 (1 ∷ 2 ∷ 3 ∷ []) (omega arith)

send_batch-AddUp_example :
    (c : ℕ × ℕ) × ((send_batch sample_net sample_config sample_results fresh_summary 0).0
      ≡ ok (add_batch fresh_summary c))
    × (c.0 + c.1 ≡ length sample_results)
send_batch-AddUp_example =
    send_batch-AddUp sample_net sample_config sample_net-IsHonest sample_results fresh_summary 0 2
      refl (omega arith)

abbrev sample_items : List Item
sample_items = map (item_of "web1") sample_results

first_is_down : AreDown sample_net sample_config ("down" ∷ []) sample_items 0
unfolding string_eq
first_is_down = ((_, refl), tt)

second_answers :
    (sample_net.send "up"
      (pos 10051)
      sample_items
      (after_hosts sample_net sample_config ("down" ∷ []) sample_items 0)).0
    ≡ ok (record { processed = 3; failed = 0; total = 3; details = [] })
unfolding string_eq
second_answers = refl

do_send-failover_example : do_send sample_net sample_config sample_results 0 ≡ (
  answered (record { processed = 3; failed = 0; total = 3; details = [] }) (length sample_items),
  (sample_net.send "up"
      (pos 10051)
      sample_items
      (after_hosts sample_net sample_config ("down" ∷ []) sample_items 0)).1,
)
do_send-failover_example =
    do_send-failover sample_net sample_config sample_results 0 ("down" ∷ []) [] "up"
      (record { processed = 3; failed = 0; total = 3; details = [] }) refl first_is_down
      second_answers

hosts-AreDown :
    AreDown sample_net (config_with ("a" ∷ "b" ∷ []) false (pos 2)) ("a" ∷ "b" ∷ []) sample_items 0
unfolding string_eq
hosts-AreDown = ((_, refl), ((_, refl), tt))

abbrev unflushed_config : ClientConfig
unflushed_config =
    let batching = sample_config.batching in
    record sample_config { batching = record batching { flush_immediate_separately = false } }

deliver-Delivers_example :
    (c : ℕ × ℕ × ℕ) × ((deliver sample_net sample_config sample_results sample_results fresh_summary
        0).0
      ≡ ok (delivered fresh_summary c))
    × (c.0 + c.1 + c.2 ≡ length sample_results + length sample_results)
deliver-Delivers_example =
    deliver-Delivers sample_net sample_config sample_net-IsHonest 2 refl (omega arith)
      sample_results sample_results fresh_summary 0

run_async-dry_example :
    (run_async sample_net dry_config
      (world in_time)
      (λ results. ok tt)
      sample_clock
      sample_metrics
      fresh_summary
      3).1
    ≡ 3
run_async-dry_example =
    run_async-dry sample_net dry_config refl (world in_time) (λ results. ok tt) sample_clock
      sample_metrics fresh_summary 3

run_async-Completes_example :
    (r : RunSummary × ℕ) × ((run_async sample_net sample_config
        (world in_time)
        (λ results. ok tt)
        sample_clock
        sample_metrics
        fresh_summary
        0).0
      ≡ ok r)
    × ExitFits r
run_async-Completes_example =
    run_async-Completes sample_net sample_config (world in_time) (λ results. ok tt) sample_clock
      sample_metrics fresh_summary 0 2 sample_net-IsHonest refl (omega arith)
      (cpu_metric-IsServed, (disk_metric-IsServed, tt)) refl (λ results. refl)
