-- ===== src/Agent/Bucket.antt =====
-- internal/agent/bucket.go: the push buckets. The decoders of third-party packages are a parameter.
pub mod Base64
pub mod GroupKey
pub mod Push
pub mod Labels
pub mod Merge
pub mod Tests
use tailscale_metrics_discov.Common.{
  ℕ, ◌≡◌, Bool, true, false, List, [], ◌∷◌, ◌++◌, Option, none, some, if◌then◌else◌,
}
use tailscale_metrics_discov.Common.Result.{Result, ok, err, ◌>>=◌}
use tailscale_metrics_discov.Common.Text.{Text, text, ◌==◌, to_lower, trim_space}
use tailscale_metrics_discov.Common.Dict.{Dict, lookup, insert, delete}
use tailscale_metrics_discov.Agent.Bucket.GroupKey.{ParsedGroupKey, GroupError, parse_group_key}

-- dto.Metric: its labels, and all that the code does not read as one value.
pub record Metric : Type 0 where
  pub label : List (Text × Text)
  pub sample : Text

-- dto.MetricFamily
pub record MetricFamily : Type 0 where
  pub name : Text
  pub help : Text
  pub type : Text
  pub metric : List Metric

pub record MetricGroup : Type 0 where
  pub labels : Dict Text
  pub families : Dict MetricFamily

pub record Bucket : Type 0 where
  pub groups : Dict MetricGroup

abbrev pub new_bucket : Bucket
new_bucket = record { groups = [] }

-- gzip, mime and expfmt: `none` is their error; the decoders return the families of a whole body.
pub record Decoders : Type 0 where
  pub gunzip : Text → Option Text
  pub media_type : Text → Option Text
  pub text_plain : Text → Option (List MetricFamily)
  pub proto_delim : Text → Option (List MetricFamily)

pub data Method : Type 0 where
  get put post del : Method
  another : Text → Method

pub record PushRequest : Type 0 where
  pub method : Method
  pub content_encoding : Text
  pub content_type : Text
  pub body : Text

pub data PushError : Type 0 where
  group : GroupError → PushError
  gzip_body unsupported_encoding decoding_metrics : PushError

unfoldable pub set_label : Text → Text → List (Text × Text) → List (Text × Text)
set_label name value [] = (name, value) ∷ []
set_label name value ((n, v) ∷ ls) =
    if n == name then (n, value) ∷ ls else (n, v) ∷ set_label name value ls

-- for name, value := range key.labels { setLabel(m, name, value) }
unfoldable pub set_labels : Dict Text → List (Text × Text) → List (Text × Text)
set_labels [] ls = ls
set_labels ((name, value) ∷ labels) ls = set_labels labels (set_label name value ls)

unfoldable pub inject_metrics : Dict Text → List Metric → List Metric
inject_metrics labels [] = []
inject_metrics labels (m ∷ ms) =
    record m { label = set_labels labels m.label } ∷ inject_metrics labels ms

-- A family with the labels on each metric.
abbrev pub labelled : Dict Text → MetricFamily → MetricFamily
labelled labels mf = record mf { metric = inject_metrics labels mf.metric }

unfoldable pub inject_labels : Dict Text → Dict MetricFamily → Dict MetricFamily
inject_labels labels [] = []
inject_labels labels ((name, mf) ∷ fs) = (name, labelled labels mf) ∷ inject_labels labels fs

-- The loop of `parsePushBody` over the decoded families.
unfoldable pub collect_families : Dict MetricFamily → List MetricFamily → Dict MetricFamily
collect_families families [] = families
collect_families families (mf ∷ rest) =
    collect_families
      (elim (lookup mf.name families) [
        | none ↦ insert mf.name mf families
        | some old ↦ insert mf.name (record old { metric = old.metric ++ mf.metric }) families
      ])
      rest

-- g.families[name] = mf for each pushed family
unfoldable pub replace_families : Dict MetricFamily → Dict MetricFamily → Dict MetricFamily
replace_families [] families = families
replace_families ((name, mf) ∷ pushed) families = replace_families pushed (insert name mf families)

abbrev pub or_err : {A : Type 0} → Option A → PushError → Result PushError A
or_err none e = err e
or_err (some a) e = ok a

abbrev pub in_group : {A : Type 0} → Result GroupError A → Result PushError A
in_group (ok a) = ok a
in_group (err e) = err (group e)

module _ (d : Decoders) where
  unfoldable pub push_body_reader : PushRequest → Result PushError Text
  push_body_reader r =
      let encoding = to_lower (trim_space r.content_encoding) in
      if encoding == []
      then ok r.body
      else if encoding == text "identity"
      then ok r.body
      else if encoding == text "gzip"
      then or_err (d.gunzip r.body) gzip_body
      else err unsupported_encoding

  abbrev format_of : PushRequest → Option Text
  format_of r = d.media_type (if r.content_type == [] then text "text/plain" else r.content_type)

  unfoldable pub decode_body : PushRequest → Text → Option (List MetricFamily)
  decode_body r body = elim (format_of r) [
    | none ↦ d.text_plain body
    | some media ↦
        if media == text "application/vnd.google.protobuf"
        then d.proto_delim body
        else d.text_plain body
  ]

  unfoldable pub parse_push_body : PushRequest → Result PushError (Dict MetricFamily)
  parse_push_body r = do
    body ← push_body_reader r
    families ← or_err (decode_body r body) decoding_metrics
    ok (collect_families [] families)

  -- The key and the labelled families of a request, or the error that is answered with 400.
  unfoldable pub read_push :
      PushRequest → Text → Result PushError (ParsedGroupKey × Dict MetricFamily)
  read_push r rest = do
    key ← in_group (parse_group_key rest)
    families ← parse_push_body r
    ok (key, inject_labels key.labels families)

-- The group that a push of families leaves.
unfoldable pub pushed_group : Method → ParsedGroupKey → Dict MetricFamily → Bucket → MetricGroup
pushed_group post key families b = elim (lookup key.canonical b.groups) [
  | none ↦ record { labels = key.labels; families = families }
  | some g ↦ record g { families = replace_families families g.families }
]
pushed_group _ key families b = record { labels = key.labels; families = families }

-- PUT and POST: the bucket afterwards, and the status code.
unfoldable pub push : Decoders → PushRequest → Text → Bucket → Bucket × ℕ
push d r rest b = elim (read_push d r rest) [
  | err e ↦ (b, 400)
  | ok p ↦
      (record b { groups = insert p.0.canonical (pushed_group r.method p.0 p.1 b) b.groups }, 202)
]

unfoldable pub delete_group : Text → Bucket → Bucket × ℕ
delete_group rest b = elim (parse_group_key rest) [
  | err e ↦ (b, 400)
  | ok key ↦ (record b { groups = delete key.canonical b.groups }, 202)
]

unfoldable pub clear : Bucket → Bucket
clear b = record b { groups = [] }

-- One family of one group, in the loops of `serveMetrics`.
unfoldable pub merge_family : Text → MetricFamily → Dict MetricFamily → Dict MetricFamily
merge_family name mf merged = elim (lookup name merged) [
  | none ↦ insert name mf merged
  | some old ↦ insert name (record old { metric = old.metric ++ mf.metric }) merged
]

unfoldable pub merge_families : Dict MetricFamily → Dict MetricFamily → Dict MetricFamily
merge_families [] merged = merged
merge_families ((name, mf) ∷ fs) merged = merge_families fs (merge_family name mf merged)

unfoldable pub merge_groups : Dict MetricGroup → Dict MetricFamily → Dict MetricFamily
merge_groups [] merged = merged
merge_groups ((k, g) ∷ gs) merged = merge_groups gs (merge_families g.families merged)

-- The families that `serveMetrics` merges, before it encodes them up to the first error.
unfoldable pub served_families : Bucket → Dict MetricFamily
served_families b = merge_groups b.groups []
