-- ===== src/Agent/Registry.antt =====
-- internal/agent/registry.go: the table of registered services and its two modification times.
-- Every operation that reads the clock takes the time of the call in nanoseconds.
pub mod Order
pub mod Modified
pub mod Health
pub mod Tests
use tailscale_metrics_discov.Common.{
  ℕ, ◌+◌, ◌*◌, ◌/◌, Bool, true, false, not, ◌||◌, List, [], ◌∷◌, map, Option, none, some, leb, eqb,
  if◌then◌else◌,
}
use tailscale_metrics_discov.Common.Text.{Text, ◌==◌}
use tailscale_metrics_discov.Common.Dict.{Dict, lookup, insert, delete, has}
use tailscale_metrics_discov.Common.Sorting.{sort_by}
use tailscale_metrics_discov.Protocol.{ServiceEntry, ServiceHealth, ServiceHealthStatus}
use tailscale_metrics_discov.Agent.Error.{Error, service_exists, service_not_found}

pub record Registry : Type 0 where
  pub entries : Dict ServiceEntry
  pub svc_modified_at : ℕ
  pub health_modified_at : ℕ

abbrev pub second : ℕ
second = 1000000000

-- t.Truncate(time.Second)
abbrev pub truncate : ℕ → ℕ
truncate t = t / second * second

unfoldable pub next_modified_at : ℕ → ℕ → ℕ
next_modified_at now prev = let t = truncate now in if leb t prev then prev + second else t

unfoldable pub new_registry : ℕ → Registry
new_registry now = record {
  entries = [];
  svc_modified_at = truncate now;
  health_modified_at = truncate now;
}

-- The registry after a structural change.
abbrev pub changed : ℕ → Dict ServiceEntry → Registry → Registry
changed now m r = record r { entries = m; svc_modified_at = next_modified_at now r.svc_modified_at }

unfoldable pub add : ℕ → ServiceEntry → Registry → Registry × Option Error
add now e r =
    if has e.name r.entries
    then (r, some (service_exists e.name))
    else (changed now (insert e.name e r.entries) r, none)

unfoldable pub remove : ℕ → Text → Registry → Registry × Option Error
remove now name r =
    if has name r.entries
    then (changed now (delete name r.entries) r, none)
    else (r, some (service_not_found name))

unfoldable pub update : ℕ → ServiceEntry → Registry → Registry × Option Error
update now e r =
    if has e.name r.entries
    then (changed now (insert e.name e r.entries) r, none)
    else (r, some (service_not_found e.name))

unfoldable pub get : Text → Registry → Option ServiceEntry
get name r = lookup name r.entries

abbrev pub without_health : ServiceEntry → ServiceEntry
without_health e = record e { health = none }

-- The copies that the loop over the map appends to `out`.
unfoldable pub copies : Bool → Dict ServiceEntry → List ServiceEntry
copies include_health [] = []
copies include_health ((k, e) ∷ m) =
    (if include_health then e else without_health e) ∷ copies include_health m

abbrev pub entry_name : ServiceEntry → Text
entry_name e = e.name

unfoldable pub sorted_entries : Bool → Registry → List ServiceEntry
sorted_entries include_health r = sort_by entry_name (copies include_health r.entries)

abbrev pub list : Registry → List ServiceEntry
list = sorted_entries true

abbrev pub list_without_health : Registry → List ServiceEntry
list_without_health = sorted_entries false

unfoldable pub touch_services : ℕ → Registry → Registry
touch_services now r = changed now r.entries r

-- The loop of `listHealth` over the map.
unfoldable pub health_of : Dict ServiceEntry → Dict ServiceHealthStatus
health_of [] = []
health_of ((k, e) ∷ m) = elim e.health [ none ↦ health_of m | some h ↦ (k, h) ∷ health_of m ]

unfoldable pub list_health : Registry → Dict ServiceHealthStatus
list_health r = health_of r.entries

abbrev pub same_status : ServiceHealth → ServiceHealth → Bool
same_status ServiceHealth.unknown ServiceHealth.unknown = true
same_status ServiceHealth.healthy ServiceHealth.healthy = true
same_status ServiceHealth.unhealthy ServiceHealth.unhealthy = true
same_status _ _ = false

-- The test `changed` of `updateHealth`.
unfoldable pub health_changed : Option ServiceHealthStatus → ServiceHealthStatus → Bool
health_changed none h = true
health_changed (some o) h =
    not (same_status o.status h.status)
    || not (eqb o.status_code h.status_code)
    || not (o.message == h.message)

unfoldable pub update_health : ℕ → Text → ServiceHealthStatus → Registry → Registry
update_health now name h r = elim (lookup name r.entries) [
  | none ↦ r
  | some e ↦ record r {
    entries = insert name (record e { health = some h }) r.entries;
    health_modified_at =
        if health_changed e.health h
        then next_modified_at now r.health_modified_at
        else r.health_modified_at;
  }
]

-- The calls that other parts of the agent make on the registry, as events.
pub data Op : Type 0 where
  added updated : ServiceEntry → Op
  removed : Text → Op
  touched : Op
  health_updated : Text → ServiceHealthStatus → Op

unfoldable pub apply : ℕ → Op → Registry → Registry
apply now (added e) r = (add now e r).0
apply now (updated e) r = (update now e r).0
apply now (removed name) r = (remove now name r).0
apply now touched r = touch_services now r
apply now (health_updated name h) r = update_health now name h r

unfoldable pub run : List (ℕ × Op) → Registry → Registry
run [] r = r
run ((now, o) ∷ ops) r = run ops (apply now o r)
