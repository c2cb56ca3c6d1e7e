-- ===== src/Router/Split.antt =====
-- What `route` puts into each queue.
use zabbig.Prelude.{
  ◌+◌, ◌≡◌, refl, Bool, not, ◌&&◌, List, [], ◌∷◌, ◌++◌, append_assoc, append-nil, keep, length,
  ◌==◌, arith,
}
use zabbig.Models.{MetricResult, is_sendable, Delivery, delivery_eq}
use zabbig.Router.{route_loop, route}

abbrev pub goes_immediate : MetricResult → Bool
goes_immediate r = is_sendable r && (r.delivery == Delivery.immediate)

abbrev pub goes_batch : MetricResult → Bool
goes_batch r = is_sendable r && not (r.delivery == Delivery.immediate)

route_loop-keep :
    (b i rs : List MetricResult)
    → route_loop b i rs ≡ (b ++ keep goes_batch rs, i ++ keep goes_immediate rs)
unfolding route_loop keep
route_loop-keep b i [] = ground (arith, append-nil b, append-nil i)
route_loop-keep b i (r ∷ rs) = ground (
  arith,
  route_loop-keep b i rs,
  route_loop-keep (b ++ (r ∷ [])) i rs,
  route_loop-keep b (i ++ (r ∷ [])) rs,
  append_assoc b (r ∷ []) (keep goes_batch rs),
  append_assoc i (r ∷ []) (keep goes_immediate rs),
)

length-route_parts :
    (rs : List MetricResult)
    → length (keep goes_batch rs) + length (keep goes_immediate rs) ≡ length (keep is_sendable rs)
unfolding keep
length-route_parts [] = refl
length-route_parts (r ∷ rs) = ground (arith, length-route_parts rs)

-- The batch queue holds the sendable results that are not immediate, the immediate queue the
-- sendable ones that are, each in the order of the input, and no sendable result is lost or sent
-- twice: the queues are as long together as the list of sendable results.
pub route_lem :
    (rs : List MetricResult)
    → ((route rs).0 ≡ keep goes_batch rs)
      × ((route rs).1 ≡ keep goes_immediate rs)
      × (length (route rs).0 + length (route rs).1 ≡ length (keep is_sendable rs))
unfolding route
route_lem rs = ground (arith, route_loop-keep [] [] rs, length-route_parts rs)
