-- ===== src/Agent/Bucket/Tests.antt =====
-- Pushes to a concrete bucket: the theorems at work.
use tailscale_metrics_discov.Common.{
  ◌≡◌, ◌≢◌, ◌↔◌, refl, [], ◌∷◌, none, some, arith, is_some, if◌then◌else◌, ◌⊎◌,
}
use tailscale_metrics_discov.Common.Decimal.{show}
use tailscale_metrics_discov.Common.Result.{ok}
use tailscale_metrics_discov.Common.Text.{
  Text, text, text_lt, ◌==◌, split, trim, cut_prefix, to_lower, trim_space,
}
use tailscale_metrics_discov.Common.Dict.{Dict, lookup, insert, Distinct, Same}
use tailscale_metrics_discov.Common.Sorting.{sort_by}
use tailscale_metrics_discov.Agent.Bucket.{
  MetricFamily, Bucket, Decoders, Method, PushRequest, new_bucket, read_push, parse_push_body,
  push_body_reader, decode_body, collect_families, inject_labels, inject_metrics, set_labels,
  set_label, push, served_families,
}
use tailscale_metrics_discov.Agent.Bucket.Base64.{decode_base64_url}
use tailscale_metrics_discov.Agent.Bucket.GroupKey.{
  ParsedGroupKey, parse_group_key, parse_pairs, parse_pair, canonical_group_key,
}
use tailscale_metrics_discov.Agent.Bucket.GroupKey.Parse.{parse_group_key_iff}
use tailscale_metrics_discov.Agent.Bucket.Labels.{IsValid, push-IsValid}
use tailscale_metrics_discov.Agent.Bucket.Push.{push_accepted, family_in, is_post}
use tailscale_metrics_discov.Agent.Bucket.Merge.{
  served_families_complete, metrics_of, bucket_metrics,
}

abbrev pub path : Text
path = text "/job/app/zone/b/rack/1"

abbrev other_path : Text
other_path = text "/job/app/rack@base64/MQ/zone/b/"

abbrev pub key : ParsedGroupKey
key = record {
  canonical = text "3:job=3:app;4:rack=1:1;4:zone=1:b;";
  labels = (text "job", text "app") ∷ (text "zone", text "b") ∷ (text "rack", text "1") ∷ [];
}

abbrev other_key : ParsedGroupKey
other_key = record {
  canonical = text "3:job=3:app;4:rack=1:1;4:zone=1:b;";
  labels = (text "job", text "app") ∷ (text "rack", text "1") ∷ (text "zone", text "b") ∷ [];
}

path_run : parse_group_key path ≡ ok key
unfolding parse_group_key parse_pairs parse_pair canonical_group_key split trim show
    decode_base64_url text cut_prefix lookup insert sort_by ◌==◌ text_lt
path_run = refl

other_path_run : parse_group_key other_path ≡ ok other_key
unfolding parse_group_key parse_pairs parse_pair canonical_group_key split trim show
    decode_base64_url text cut_prefix lookup insert sort_by ◌==◌ text_lt
other_path_run = refl

parse_group_key_iff_example :
    (key.canonical ≡ other_key.canonical) ↔ Same key.labels other_key.labels
parse_group_key_iff_example =
    parse_group_key_iff path other_path key other_key path_run other_path_run

abbrev up : MetricFamily
up = record {
  name = text "up";
  help = [];
  type = text "gauge";
  metric = record { label = []; sample = text "1" } ∷ [];
}

-- Decoders that know the one body `up 1`.
abbrev pub decoders : Decoders
decoders = record {
  gunzip = λ s. some s;
  media_type = λ s. some s;
  text_plain = λ s. if s == text "up 1" then some (up ∷ []) else none;
  proto_delim = λ s. none;
}

abbrev pub request : Method → PushRequest
request method = record {
  method = method;
  content_encoding = text "gzip";
  content_type = [];
  body = text "up 1";
}

abbrev pub pushed_families : Dict MetricFamily
pushed_families =
    (text "up", record up { metric = record { label = key.labels; sample = text "1" } ∷ [] }) ∷ []

pub push_run : read_push decoders (request Method.post) path ≡ ok (key, pushed_families)
unfolding read_push parse_push_body push_body_reader decode_body collect_families inject_labels
    inject_metrics set_labels set_label to_lower trim_space parse_group_key parse_pairs parse_pair
    canonical_group_key split trim show decode_base64_url text cut_prefix lookup insert sort_by ◌==◌
    text_lt
push_run = refl

abbrev pub after_put : Bucket
after_put = (push decoders (request Method.put) path new_bucket).0

push-IsValid_example :
    IsValid after_put
    × (((push decoders (request Method.put) path new_bucket).1 ≡ 202)
        ⊎ (((push decoders (request Method.put) path new_bucket).1 ≡ 400)
            × (after_put ≡ new_bucket)))
push-IsValid_example = push-IsValid decoders (request Method.put) path new_bucket tt

pub not_the_key : text "other" ≢ key.canonical
unfolding text
not_the_key e = ground arith

push_accepted_example :
    ((push decoders (request Method.post) path after_put).1 ≡ 202)
    × (lookup (text "other") (push decoders (request Method.post) path after_put).0.groups
        ≡ lookup (text "other") after_put.groups)
    × (family_in key.canonical (text "down") (push decoders (request Method.post) path after_put).0
        ≡ (if is_some (lookup (text "down") pushed_families)
            then lookup (text "down") pushed_families
            else if is_post Method.post
            then family_in key.canonical (text "down") after_put
            else none))
push_accepted_example =
    push_accepted decoders (request Method.post) path after_put (key, pushed_families)
      (text "other") (text "down") push_run not_the_key

served_families_complete_example :
    Distinct (served_families after_put)
    × ((n : Text)
        → metrics_of (lookup n (served_families after_put)) ≡ bucket_metrics n after_put.groups)
served_families_complete_example = served_families_complete after_put
