-- ===== src/Agent/Bucket/GroupKey.antt =====
-- Grouping keys of internal/agent/bucket.go: `parseGroupKey` and its helpers.
pub mod Canonical
pub mod Parse
use tailscale_metrics_discov.Common.{
  ℕ, suc, ◌%◌, ◌≡◌, refl, Bool, true, false, not, ◌&&◌, List, [], ◌∷◌, ◌++◌, map, Option, none,
  some, eqb, ltb, length, is_some, or_else, if◌then◌else◌,
}
use tailscale_metrics_discov.Common.Decimal.{show}
use tailscale_metrics_discov.Common.Result.{Result, ok, err, ◌>>=◌, ◌>>◌, fail_if}
use tailscale_metrics_discov.Common.Text.{
  Text, text, ◌==◌, cut_prefix, trim_suffix, cut_suffix, trim, split,
}
use tailscale_metrics_discov.Common.Dict.{Dict, lookup, insert, has}
use tailscale_metrics_discov.Common.Sorting.{sort_by}
use tailscale_metrics_discov.Agent.Bucket.Base64.{decode_base64_url}

pub data GroupError : Type 0 where
  bad_path odd_path empty_label empty_job : GroupError
  bad_encoding duplicate_label : Text → GroupError

pub record ParsedGroupKey : Type 0 where
  pub canonical : Text
  pub labels : Dict Text

unfoldable pub base_label_name : Text → Text
unfolding trim_suffix
base_label_name name = trim_suffix (text "@base64") name

unfoldable pub parse_grouping_label : Text → Text → Result GroupError (Text × Text)
unfolding base_label_name cut_suffix
parse_grouping_label name_part value_part =
    let name = base_label_name name_part in
    if is_some (cut_suffix (text "@base64") name_part)
    then (elim (decode_base64_url value_part) [
      | none ↦ err (bad_encoding name_part)
      | some decoded ↦ ok (name, decoded)
    ])
    else ok (name, value_part)

-- One round of the loop: the label that the pair adds.
unfoldable pub parse_pair : Bool → Text → Text → Dict Text → Result GroupError (Text × Text)
unfolding parse_grouping_label
parse_pair first name_part value_part labels = do
  pair ← parse_grouping_label name_part value_part
  fail_if (first && not (pair.0 == text "job")) bad_path
  fail_if (pair.0 == []) empty_label
  fail_if (first && (pair.1 == [])) empty_job
  fail_if (has pair.0 labels) (duplicate_label pair.0)
  ok pair

unfoldable pub parse_pairs : Bool → List Text → Dict Text → Result GroupError (Dict Text)
parse_pairs first [] labels = ok labels
parse_pairs first (n ∷ []) labels = ok labels
parse_pairs first (n ∷ v ∷ parts) labels = do
  pair ← parse_pair first n v labels
  parse_pairs false parts (insert pair.0 pair.1 labels)

-- fmt.Fprintf(&b, "%d:%s=%d:%s;", len(name), name, len(value), value), in front of what follows.
abbrev pub frame : Text → Text → Text → Text
frame name value rest =
    show (length name)
    ++ b':' ∷ (name ++ b'=' ∷ (show (length value) ++ b':' ∷ (value ++ b';' ∷ rest)))

-- The loop over the sorted names; a missing name would read as the empty text.
unfoldable pub write_names : Dict Text → List Text → Text
write_names labels [] = []
write_names labels (name ∷ names) =
    frame name (or_else (lookup name labels) []) (write_names labels names)

abbrev pub own_name : Text → Text
own_name name = name

abbrev pub label_names : Dict Text → List Text
label_names [] = []
label_names ((name, value) ∷ labels) = name ∷ label_names labels

unfoldable pub canonical_group_key : Dict Text → Text
unfolding write_names
canonical_group_key labels = write_names labels (sort_by own_name (label_names labels))

abbrev pub is_job_path : List Text → Bool
is_job_path [] = false
is_job_path (p ∷ []) = false
is_job_path (p ∷ q ∷ parts) = base_label_name p == text "job"

unfoldable pub parse_group_key : Text → Result GroupError ParsedGroupKey
parse_group_key rest = do
  let parts = split b'/' (trim b'/' rest)
  fail_if (not (is_job_path parts)) bad_path
  fail_if (not (eqb (length parts % 2) 0)) odd_path
  labels ← parse_pairs true parts []
  ok (record { canonical = canonical_group_key labels; labels = labels })
