-- ===== src/Central/Loop.antt =====
-- `Run` of internal/central/collector.go: the watcher of the local Tailscale daemon and the loop that
-- refreshes. The channel between them holds one signal. An event is what `select` takes, or what the
-- watcher is told, in the order in which they happen; a refresh runs to its end before the next event.
pub mod Wakeup
pub mod Tests
use tailscale_metrics_discov.Common.{
  ℕ, ◌*◌, Bool, true, false, List, [], ◌∷◌, Option, none, some, ℤ, pos, negsuc, is_positive,
  if◌then◌else◌,
}
use tailscale_metrics_discov.Agent.Registry.{second}
use tailscale_metrics_discov.Central.Discovery.{Discoverer, NodeAttrs, refresh_self_attrs}
use tailscale_metrics_discov.Central.Collector.{Collector}
use tailscale_metrics_discov.Central.Refresh.{World, refresh}

unfoldable pub normalize_refresh_interval : ℤ → ℤ
normalize_refresh_interval interval = if is_positive interval then interval else pos (5 * second)

pub record Loop : Type 0 where
  pub col : Collector
  pub disc : Discoverer
  -- whether triggerCh holds a signal
  pub queued : Bool

-- What `RefreshSelfAttrs` brings comes with the events of the watcher, what a refresh finds with those
-- of the loop.
pub data Event : Type 0 where
  connected : Option (Option NodeAttrs) → Event
  netmap_changed : Option (Option NodeAttrs) → Event
  ticked : World → Event
  triggered : World → Event

abbrev pub attrs_read : Bool → Option (Option NodeAttrs) → Discoverer → Discoverer
attrs_read node_attrs attrs d = if node_attrs then refresh_self_attrs attrs d else d

abbrev pub refreshed_loop : World → Loop → Loop
refreshed_loop w l = record l { col = refresh w l.disc l.col }

-- A case of `select` that is not ready is not taken.
unfoldable pub run_event : Bool → Event → Loop → Loop
run_event node_attrs (connected attrs) l = record l { disc = attrs_read node_attrs attrs l.disc }
run_event node_attrs (netmap_changed attrs) l = record l {
  disc = attrs_read node_attrs attrs l.disc;
  queued = true;
}
run_event node_attrs (ticked w) l = refreshed_loop w l
run_event node_attrs (triggered w) l =
    if l.queued then refreshed_loop w (record l { queued = false }) else l

unfoldable pub run_events : Bool → List Event → Loop → Loop
run_events node_attrs [] l = l
run_events node_attrs (e ∷ es) l = run_events node_attrs es (run_event node_attrs e l)

-- The refresh at the start, and the loop.
unfoldable pub run : Bool → World → List Event → Collector → Discoverer → Loop
run node_attrs w es c d =
    run_events node_attrs es (refreshed_loop w (record { col = c; disc = d; queued = false }))
