-- ===== src/Central/Loop/Wakeup.antt =====
-- No change of the netmap is lost.
use tailscale_metrics_discov.Common.{◌≡◌, refl, Bool, true, false, List, [], ◌∷◌, ◌++◌, arith}
use tailscale_metrics_discov.Central.Collector.{Collector}
use tailscale_metrics_discov.Central.Discovery.{Discoverer}
use tailscale_metrics_discov.Central.Refresh.{World, refresh}
use tailscale_metrics_discov.Central.Loop.{
  Loop, Event, connected, netmap_changed, ticked, triggered, run_event, run_events, run,
  refreshed_loop,
}

-- Whether a change has come that no refresh has followed.
unfoldable pub unseen : Bool → List Event → Bool
unseen before [] = before
unseen before (connected attrs ∷ es) = unseen before es
unseen before (netmap_changed attrs ∷ es) = unseen true es
unseen before (ticked w ∷ es) = unseen false es
unseen before (triggered w ∷ es) = unseen false es

-- A change that is not seen is queued.
unseen_queued :
    (node_attrs : Bool) (before : Bool) (es : List Event) (l : Loop)
    → (before ≡ true → l.queued ≡ true)
    → unseen before es ≡ true
    → (run_events node_attrs es l).queued ≡ true
unfolding unseen run_events run_event
unseen_queued node_attrs before [] l h u = h u
unseen_queued node_attrs before (connected attrs ∷ es) l h u =
    unseen_queued node_attrs before es _ h u
unseen_queued node_attrs before (netmap_changed attrs ∷ es) l h u =
    unseen_queued node_attrs true es _ (λ t. refl) u
unseen_queued node_attrs before (ticked w ∷ es) l h u =
    unseen_queued node_attrs false es _ (λ f. ground (arith, f)) u
unseen_queued node_attrs before (triggered w ∷ es) l h u =
    unseen_queued node_attrs false es _ (λ f. ground (arith, f)) u

run_events-append :
    (node_attrs : Bool) (es fs : List Event) (l : Loop)
    → run_events node_attrs (es ++ fs) l ≡ run_events node_attrs fs (run_events node_attrs es l)
unfolding run_events
run_events-append node_attrs [] fs l = refl
run_events-append node_attrs (e ∷ es) fs l =
    run_events-append node_attrs es fs (run_event node_attrs e l)

-- Whatever happens before: if the netmap has changed and no refresh has followed, then the loop is ready
-- to take the signal, and taking it refreshes with what is found then and empties the queue.
pub run-triggered :
    (node_attrs : Bool) (first : World) (es : List Event) (c : Collector) (d : Discoverer)
    (w : World)
    → unseen false es ≡ true
    → let l = run node_attrs first es c d in
      ((run node_attrs first (es ++ triggered w ∷ []) c d).col ≡ refresh w l.disc l.col)
      × ((run node_attrs first (es ++ triggered w ∷ []) c d).queued ≡ false)
unfolding run run_events run_event
run-triggered node_attrs first es c d w u =
    let start : Loop = refreshed_loop first (record { col = c; disc = d; queued = false }) in
    let ready = unseen_queued node_attrs false es start (λ f. ground (arith, f)) u in
    rw (run_events-append node_attrs es (triggered w ∷ []) start) (simp ready (refl, refl))
