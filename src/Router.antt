-- ===== src/Router.antt =====
-- zabbig_client/src/zabbig_client/result_router.py: `route` splits results into two queues.
pub mod Split
use zabbig.Prelude.{Bool, List, [], ◌∷◌, ◌++◌, ◌==◌, if◌then◌else◌}
use zabbig.Models.{MetricResult, is_sendable, Delivery, delivery_eq}

-- The loop of `route`, with the two lists that it fills.
route_loop :
    List MetricResult
    → List MetricResult
    → List MetricResult
    → List MetricResult × List MetricResult
route_loop batch immediate [] = (batch, immediate)
route_loop batch immediate (r ∷ results) =
    let to_immediate = route_loop batch (immediate ++ (r ∷ [])) results in
    let to_batch = route_loop (batch ++ (r ∷ [])) immediate results in
    let dropped = route_loop batch immediate results in
    if is_sendable r
    then if r.delivery == Delivery.immediate then to_immediate else to_batch
    else dropped

-- (batch_sendable, immediate_sendable)
unfoldable pub route : List MetricResult → List MetricResult × List MetricResult
unfolding route_loop
route results = route_loop [] [] results
