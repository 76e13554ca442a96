-- ===== src/Agent/Registry/Tests.antt =====
-- The registry on concrete services: the theorems at work.
use mathlib.Core.Option
use tailscale_metrics_discov.Common.{ℕ, ◌≡◌, refl, true, List, [], ◌∷◌, none, some, arith}
use tailscale_metrics_discov.Common.Text.{Text, text, ◌==◌, ==_iff}
use tailscale_metrics_discov.Common.Dict.{lookup, insert, delete, Same}
use tailscale_metrics_discov.Common.Sorting.{find_by, IsSorted}
use tailscale_metrics_discov.Protocol.{
  ServiceEntry, ServiceType, ServiceHealth, ServiceHealthStatus,
}
use tailscale_metrics_discov.Agent.Registry.{
  Registry, Op, added, removed, health_updated, new_registry, add, update, remove, run, apply, get,
  update_health, health_changed, sorted_entries, list_without_health, entry_name, next_modified_at,
}
use tailscale_metrics_discov.Agent.Registry.Order.{
  IsValid, run-IsValid, sorted_entries_complete, sorted_entries-Same, shown,
}
use tailscale_metrics_discov.Agent.Registry.Modified.{
  IsAligned, not_modified_since, svc_not_modified_sound, structural-Bumped, Bumped, run-IsAligned,
}
use tailscale_metrics_discov.Agent.Registry.Health.{
  health_not_modified_sound, health_updates, health_shown, remove_unseen, visible,
}

abbrev entry : Text → ServiceEntry
entry name = record {
  name = name;
  type = ServiceType.static;
  target = record { targets = text "10.0.0.1:9100" ∷ []; labels = [] };
  health = none;
}

abbrev web_up : ServiceHealthStatus
web_up = record {
  status = ServiceHealth.healthy;
  check_url = text "http://10.0.0.1/";
  last_check = some 7;
  status_code = 200;
  message = [];
}

abbrev started : Registry
started = new_registry 5

abbrev two_added : List (ℕ × Op)
two_added = (6, added (entry (text "web"))) ∷ (7, added (entry (text "db"))) ∷ []

abbrev two_services : Registry
two_services = run two_added started

abbrev other_order : Registry
other_order = run ((6, added (entry (text "db"))) ∷ (7, added (entry (text "web"))) ∷ []) started

started-IsValid : IsValid started
unfolding new_registry
started-IsValid = record { distinct = tt; named = tt }

started-IsAligned : IsAligned started
unfolding new_registry
started-IsAligned = (refl, refl)

two_services-IsAligned : IsAligned two_services
two_services-IsAligned = run-IsAligned two_added started started-IsAligned

sorted_entries_complete_example :
    IsSorted entry_name (sorted_entries true two_services)
    × ((k : Text)
        → find_by entry_name k (sorted_entries true two_services)
          ≡ Option.map (shown true) (get k two_services))
sorted_entries_complete_example =
    sorted_entries_complete true two_services (run-IsValid two_added started started-IsValid)

services_agree : Same two_services.entries other_order.entries
unfolding run apply add insert lookup ◌==◌ text new_registry
services_agree k = ground (arith, ==_iff (text "web") k, ==_iff (text "db") k)

sorted_entries-Same_example : sorted_entries true two_services ≡ sorted_entries true other_order
sorted_entries-Same_example =
    sorted_entries-Same true two_services other_order
      (run-IsValid two_added started started-IsValid) (run-IsValid _ started started-IsValid)
      services_agree

abbrev a_check_and_a_failure : List (ℕ × Op)
a_check_and_a_failure = (8, health_updated (text "web") web_up) ∷ (9, removed (text "mail")) ∷ []

nothing_changed :
    not_modified_since
      (run a_check_and_a_failure two_services).svc_modified_at
      two_services.svc_modified_at
    ≡ true
unfolding run apply add remove insert lookup delete ◌==◌ text new_registry not_modified_since
    next_modified_at update_health health_changed
nothing_changed = refl

svc_not_modified_sound_example :
    list_without_health (run a_check_and_a_failure two_services) ≡ list_without_health two_services
svc_not_modified_sound_example =
    svc_not_modified_sound a_check_and_a_failure two_services two_services-IsAligned nothing_changed

structural-Bumped_example :
    Bumped two_services (add 9 (entry (text "web")) two_services)
    × Bumped two_services (update 9 (entry (text "web")) two_services)
    × Bumped two_services (remove 9 (text "db") two_services)
structural-Bumped_example =
    structural-Bumped 9 (entry (text "web")) (text "db") two_services two_services-IsAligned

abbrev checked : Registry
checked = run ((8, health_updated (text "web") web_up) ∷ []) two_services

checked-IsValid : IsValid checked
checked-IsValid = run-IsValid _ two_services (run-IsValid two_added started started-IsValid)

checked-IsAligned : IsAligned checked
checked-IsAligned = run-IsAligned _ two_services two_services-IsAligned

-- The same outcome once more.
abbrev again : List (ℕ × Text × ServiceHealthStatus)
again = (12, text "web", web_up) ∷ []

health_unchanged :
    not_modified_since
      (run (health_updates again) checked).health_modified_at
      checked.health_modified_at
    ≡ true
unfolding run apply add insert lookup ◌==◌ text new_registry not_modified_since next_modified_at
    update_health health_changed
health_unchanged = refl

health_not_modified_sound_example :
    health_shown (run (health_updates again) checked) (text "web")
    ≡ health_shown checked (text "web")
health_not_modified_sound_example =
    health_not_modified_sound again checked checked-IsValid checked-IsAligned health_unchanged
      (text "web")

abbrev web_entry : ServiceEntry
web_entry = record (entry (text "web")) { health = some web_up }

web_found : lookup (text "web") checked.entries ≡ some web_entry
unfolding run apply add insert lookup ◌==◌ text new_registry update_health
web_found = refl

web_health : web_entry.health ≡ some web_up
web_health = refl

remove_unseen_example :
    (not_modified_since
        (remove 9 (text "web") checked).0.health_modified_at
        checked.health_modified_at
      ≡ true)
    × (health_shown checked (text "web") ≡ some (visible web_up))
    × (health_shown (remove 9 (text "web") checked).0 (text "web") ≡ none)
remove_unseen_example =
    remove_unseen 9 (text "web") checked web_entry web_up checked-IsValid web_found web_health
