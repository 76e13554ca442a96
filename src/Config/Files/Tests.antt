-- ===== src/Config/Files/Tests.antt =====
-- A configuration that is saved over an old one: the theorem at work.
use tailscale_metrics_discov.Common.{
  ◌≡◌, refl, sym, true, false, [], ◌∷◌, Option, none, some, All, ◌||◌, if◌then◌else◌,
}
use tailscale_metrics_discov.Common.Text.{Text, text, ◌==◌}
use tailscale_metrics_discov.Common.Dict.{lookup}
use tailscale_metrics_discov.Config.Files.{Files, Calls, save_config}
use tailscale_metrics_discov.Config.Files.Durable.{loaded, left_behind, save_config-durable}

-- Configurations that are their own text.
abbrev as_text : Text → Option Text
as_text t = some t

abbrev of_text : Text → Text → Option Text
of_text defaults t = some t

abbrev tmp : Text
tmp = text "agent.toml.1.tmp"

abbrev path : Text
path = text "agent.toml"

abbrev files : Files
files = (path, text "old") ∷ []

-- All goes well but the renaming, and the removal of the temporary file.
abbrev calls : Calls
calls = record {
  makes_dir = true;
  creates = true;
  chmods = true;
  writes = true;
  partial_write = [];
  syncs = true;
  closes = true;
  renames = false;
  removes = false;
}

tmp_new : lookup tmp files ≡ none
unfolding lookup text ◌==◌
tmp_new = refl

tmp_other : (tmp == path) ≡ false
unfolding text ◌==◌
tmp_other = refl

path_named : (path == []) ≡ false
unfolding text ◌==◌
path_named = refl

text_read : (d cfg t : Text) → as_text cfg ≡ some t → of_text d t ≡ some cfg
text_read d cfg t e = sym e

save_config-durable_example :
    let o = save_config as_text calls tmp path (text "new") files in
    (loaded as_text of_text [] path o.last
      ≡ (if o.ok then some (text "new") else loaded as_text of_text [] path files))
    × All (λ g. loaded as_text of_text [] path g ≡ loaded as_text of_text [] path files) o.passed
    × ((k : Text)
        → lookup k o.last
          ≡ (if path == k || left_behind calls tmp o k then lookup k o.last else lookup k files))
save_config-durable_example =
    save_config-durable tmp files tmp_new as_text of_text [] text_read calls path (text "new")
      tmp_other path_named
