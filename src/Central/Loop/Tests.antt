-- ===== src/Central/Loop/Tests.antt =====
-- A netmap change on a concrete central: the theorem at work.
use tailscale_metrics_discov.Common.{◌≡◌, refl, true, false, List, [], ◌∷◌, ◌++◌, none}
use tailscale_metrics_discov.Central.Collector.{new_collector}
use tailscale_metrics_discov.Central.Refresh.{refresh}
use tailscale_metrics_discov.Central.Loop.{Event, netmap_changed, ticked, connected, triggered, run}
use tailscale_metrics_discov.Central.Loop.Wakeup.{unseen, run-triggered}
use tailscale_metrics_discov.Central.Tests.{world, discoverer}

abbrev events : List Event
events = connected none ∷ ticked world ∷ netmap_changed none ∷ []

not_seen : unseen false events ≡ true
unfolding unseen
not_seen = refl

run-triggered_example :
    ((run true world (events ++ triggered world ∷ []) (new_collector []) discoverer).col
      ≡ refresh world
          (run true world events (new_collector []) discoverer).disc
          (run true world events (new_collector []) discoverer).col)
    × ((run true world (events ++ triggered world ∷ []) (new_collector []) discoverer).queued
        ≡ false)
run-triggered_example = run-triggered true world events (new_collector []) discoverer world not_seen
