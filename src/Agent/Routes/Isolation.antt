-- ===== src/Agent/Routes/Isolation.antt =====
-- What a push changes, and what scrapes show of it.
use tailscale_metrics_discov.Common.{
  ℕ, ◌≡◌, ◌≢◌, ◌∙◌, sym, subst, refl, Option, none, some, arith, Option-cases, inl, inr,
  if◌then◌else◌, is_some, or_else,
}
use tailscale_metrics_discov.Common.Text.{Text, text, ◌==◌, ==_self}
use tailscale_metrics_discov.Common.Dict.{Dict, lookup, insert, lookup-insert}
use tailscale_metrics_discov.Agent.Bucket.{
  Bucket, Decoders, Method, MetricFamily, PushRequest, new_bucket, push, delete_group, read_push,
  served_families,
}
use tailscale_metrics_discov.Common.Result.{ok}
use tailscale_metrics_discov.Agent.Bucket.GroupKey.{ParsedGroupKey}
use tailscale_metrics_discov.Agent.Bucket.Push.{family_in, push_accepted, delete_group_accepted}
use tailscale_metrics_discov.Agent.Services.{Services}
use tailscale_metrics_discov.Agent.Routes.{
  push_path, change_bucket, written, push_to, handle_push, scraped_name, handle_bucket_metrics,
}

pub handle_push-reg :
    (k : Decoders) (r : PushRequest) (path : Text) (s : Services)
    → (handle_push k r path s).0.reg ≡ s.reg
unfolding handle_push push_to
handle_push-reg k r path s = elim (Option-cases (push_path path)) [
  | inl e ↦ rw (e, handle_push) refl
  | inr ((name, rest), e) ↦ (elim (Option-cases (lookup name s.buckets)) [
    | inl f ↦ rw (e, f, handle_push, push_to) refl
    | inr (b, f) ↦ rw (e, f, handle_push, push_to) refl
  ])
]

-- What a scrape of a bucket answers, by the bucket's name.
abbrev pub scrape : Text → Services → ℕ × Option (Dict MetricFamily)
scrape name s = elim (lookup name s.buckets) [
  | none ↦ (404, none)
  | some b ↦ (200, some (served_families b))
]

scrape-written :
    (name j : Text) (b : Bucket) (s : Services)
    → scrape j (record s { buckets = insert name b s.buckets })
      ≡ (if name == j then (200, some (served_families b)) else scrape j s)
scrape-written name j b s = ground (arith, lookup-insert name j b s.buckets)

-- What a request leaves under a family name in the group of its path, by its method, of what it brings
-- under the name and of what was there: PUT replaces the group, POST the families that it brings, DELETE
-- removes the group, and any other method changes nothing.
abbrev pub left_by : Method → Option MetricFamily → Option MetricFamily → Option MetricFamily
left_by Method.get brought old = old
left_by Method.put brought old = brought
left_by Method.post brought old = if is_some brought then brought else old
left_by Method.del brought old = none
left_by (Method.another name) brought old = old

abbrev pub code_of : Method → ℕ
code_of Method.get = 405
code_of Method.put = 202
code_of Method.post = 202
code_of Method.del = 202
code_of (Method.another name) = 405

-- The bucket of a name; an empty one stands for none.
abbrev pub bucket_at : Text → Services → Bucket
bucket_at name s = or_else (lookup name s.buckets) new_bucket

-- A bucket after a request that could be read: the code, the family of a name in the group of the path,
-- and the group of another key.
Changed : Method → ParsedGroupKey × Dict MetricFamily → Text → Text → Bucket → Bucket × ℕ → Type 0
Changed m p n k b after =
    (after.1 ≡ code_of m)
    × (family_in p.0.canonical n after.0 ≡ left_by m (lookup n p.1) (family_in p.0.canonical n b))
    × (lookup k after.0.groups ≡ lookup k b.groups)

-- What is done for a method.
done_by : Method → Decoders → PushRequest → Text → Bucket → Bucket × ℕ
done_by Method.get d r rest b = (b, 405)
done_by Method.put d r rest b = push d r rest b
done_by Method.post d r rest b = push d r rest b
done_by Method.del d r rest b = delete_group rest b
done_by (Method.another name) d r rest b = (b, 405)

change_bucket-done_by :
    (m : Method) (d : Decoders) (r : PushRequest) (rest : Text) (b : Bucket)
    → r.method ≡ m
    → change_bucket d r rest b ≡ done_by m d r rest b
unfolding change_bucket done_by
change_bucket-done_by Method.get d r rest b e = rw e refl
change_bucket-done_by Method.put d r rest b e = rw e refl
change_bucket-done_by Method.post d r rest b e = rw e refl
change_bucket-done_by Method.del d r rest b e = rw e refl
change_bucket-done_by (Method.another name) d r rest b e = rw e refl

done_by-Changed :
    (d : Decoders) (r : PushRequest) (rest : Text) (b : Bucket)
    (p : ParsedGroupKey × Dict MetricFamily) (n k : Text) (m : Method)
    → r.method ≡ m
    → read_push d r rest ≡ ok p
    → k ≢ p.0.canonical
    → Changed m p n k b (done_by m d r rest b)
unfolding done_by Changed lookup
done_by-Changed d r rest b p n k Method.get e h ne = (refl, refl, refl)
done_by-Changed d r rest b p n k (Method.another name) e h ne = (refl, refl, refl)
done_by-Changed d r rest b p n k Method.put e h ne =
    let (code, others, family) = push_accepted d r rest b p k n h ne in
    (code, family ∙ simp e (ground arith), others)
done_by-Changed d r rest b p n k Method.post e h ne =
    let (code, others, family) = push_accepted d r rest b p k n h ne in
    (code, family ∙ simp e (ground arith), others)
done_by-Changed d r rest b p n k Method.del e h ne =
    let (code, others, gone) = delete_group_accepted d r rest b p k h ne in
    (code, rw gone refl, others)

change_bucket-push_to :
    (d : Decoders) (r : PushRequest) (path name rest : Text) (s : Services) (b : Bucket)
    → push_path path ≡ some (name, rest)
    → lookup name s.buckets ≡ some b
    → handle_push d r path s ≡ written name (change_bucket d r rest b) s
unfolding handle_push push_to
change_bucket-push_to d r path name rest s b e f = rw (e, f, handle_push, push_to) refl

-- A request to a bucket that exists, whose path names a group and whose body can be read: PUT, POST and
-- DELETE are answered with 202 and any other method with 405. Under each family name, the group of the
-- path has what PUT brings, what POST brings or else what it had, nothing after DELETE, and what it
-- had after any other method; every other group of the bucket is as before. The families that a scrape
-- then merges for the encoder are those of the bucket after the request, and for every other name the
-- answer is as before.
pub handle_push-scrape :
    (d : Decoders) (r : PushRequest) (path name rest : Text) (s : Services) (b : Bucket)
    (p : ParsedGroupKey × Dict MetricFamily) (n k scraped : Text)
    → push_path path ≡ some (name, rest)
    → lookup name s.buckets ≡ some b
    → read_push d r rest ≡ ok p
    → k ≢ p.0.canonical
    → ((handle_push d r path s).1 ≡ code_of r.method)
      × (family_in p.0.canonical n (bucket_at name (handle_push d r path s).0)
          ≡ left_by r.method (lookup n p.1) (family_in p.0.canonical n b))
      × (lookup k (bucket_at name (handle_push d r path s).0).groups ≡ lookup k b.groups)
      × (handle_bucket_metrics Method.get scraped (handle_push d r path s).0 ≡ (
          if name == scraped_name (text "/bucket/") scraped
          then (200, some (served_families (bucket_at name (handle_push d r path s).0)))
          else handle_bucket_metrics Method.get scraped s))
unfolding handle_bucket_metrics Changed
handle_push-scrape d r path name rest s b p n k scraped e f h ne =
    let after = change_bucket d r rest b in
    let (code, family, others) =
      subst (Changed r.method p n k b) (sym (change_bucket-done_by r.method d r rest b refl))
        (done_by-Changed d r rest b p n k r.method refl h ne) in
    let held : lookup name (insert name after.0 s.buckets) ≡ some after.0 =
      ground (arith, lookup-insert name name after.0 s.buckets, ==_self name) in
    rw (change_bucket-push_to d r path name rest s b e f) (
      code,
      rw held family,
      rw held others,
      rw held (scrape-written name (scraped_name (text "/bucket/") scraped) after.0 s),
    )
