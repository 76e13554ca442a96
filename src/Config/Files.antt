-- ===== src/Config/Files.antt =====
-- internal/config: how configurations and caches are written to and read from files. A file system maps
-- paths to contents; the outcome of each call of the operating system is an argument, and so are the
-- name of the temporary file and what the encoder and the decoder bring.
pub mod Durable
pub mod Tests
use tailscale_metrics_discov.Common.{
  Bool, true, false, List, [], ◌∷◌, Option, none, some, if◌then◌else◌,
}
use tailscale_metrics_discov.Common.Text.{Text, ◌==◌}
use tailscale_metrics_discov.Common.Dict.{Dict, lookup, insert, delete}

abbrev pub Files : Type 0
Files = Dict Text

-- Which calls succeed, and what a write that fails has written.
pub record Calls : Type 0 where
  pub makes_dir : Bool
  pub creates : Bool
  pub chmods : Bool
  pub writes : Bool
  pub partial_write : Text
  pub syncs : Bool
  pub closes : Bool
  pub renames : Bool
  -- the removal of the temporary file after an error
  pub removes : Bool

-- The states in between, in which a crash would leave the files, the state at the end, and whether
-- there is no error.
pub record Outcome : Type 0 where
  pub passed : List Files
  pub last : Files
  pub ok : Bool

abbrev pub refused : Files → Outcome
refused fs = record { passed = []; last = fs; ok = false }

-- After an error the temporary file is removed, and an error of the removal ignored.
abbrev pub given_up : Calls → List Files → Text → Files → Outcome
given_up x passed tmp fs = record {
  passed = passed;
  last = if x.removes then delete tmp fs else fs;
  ok = false;
}

-- `atomicWrite`
unfoldable pub atomic_write : Calls → Text → Text → Text → Files → Outcome
atomic_write x tmp path data' fs =
    let opened = insert tmp [] fs in
    let written = insert tmp (if x.writes then data' else x.partial_write) opened in
    if x.creates
    then (if x.chmods
        then (if x.writes
            then (if x.syncs
                then (if x.closes
                    then (if x.renames
                        then record {
                          passed = opened ∷ written ∷ [];
                          last = insert path data' (delete tmp written);
                          ok = true;
                        }
                        else given_up x (opened ∷ written ∷ []) tmp written)
                    else given_up x (opened ∷ written ∷ []) tmp written)
                else given_up x (opened ∷ written ∷ []) tmp written)
            else given_up x (opened ∷ written ∷ []) tmp written)
        else given_up x (opened ∷ []) tmp opened)
    else refused fs

-- `atomicWriteTOML` and `AtomicWriteJSON`, of what the encoder brings.
unfoldable pub write_encoded : Calls → Text → Text → Option Text → Files → Outcome
write_encoded x tmp path none fs = refused fs
write_encoded x tmp path (some data') fs =
    if x.makes_dir then atomic_write x tmp path data' fs else refused fs

-- `SaveAgentConfig` and `SaveCentralConfig`
unfoldable pub save_config :
    {A : Type 0} → (A → Option Text) → Calls → Text → Text → A → Files → Outcome
save_config encode x tmp path cfg fs = write_encoded x tmp path (encode cfg) fs

-- `initConfigFile`; the Boolean is whether the directory and the new file can be made. A file that is
-- there already stays.
unfoldable pub init_config_file : Bool → Text → Option Text → Files → Files
init_config_file makes path encoded fs = elim (lookup path fs) [
  | some old ↦ fs
  | none ↦ if makes then insert path (elim encoded [ none ↦ [] | some e ↦ e ]) fs else fs
]

-- `LoadAgentConfig` and `LoadCentralConfig`: the files afterwards, and the configuration or an error.
-- The decoder fills the defaults that it is given.
unfoldable pub load_config :
    {A : Type 0}
    → (A → Option Text)
    → (A → Text → Option A)
    → Bool
    → A
    → Text
    → Files
    → Files × Option A
load_config encode decode makes defaults path fs =
    if path == [] then (fs, some defaults) else (elim (lookup path fs) [
      | none ↦ (init_config_file makes path (encode defaults) fs, some defaults)
      | some data' ↦ (fs, decode defaults data')
    ])
