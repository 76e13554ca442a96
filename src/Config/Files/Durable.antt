-- ===== src/Config/Files/Durable.antt =====
-- A file is written as a whole or not at all, and read back as it was written.
use tailscale_metrics_discov.Common.{
  ◌≡◌, inl, inr, refl, sym, ap, ◌∙◌, Bool, not, ◌||◌, true, false, ◌&&◌, List, [], ◌∷◌, Option,
  none, some, arith, All, Bool-cases, Option-cases, if◌then◌else◌,
}
use tailscale_metrics_discov.Common.Text.{Text, ◌==◌, ==_iff, ==_self}
use tailscale_metrics_discov.Common.Dict.{lookup, insert, delete, lookup-insert, lookup-delete}
use tailscale_metrics_discov.Config.Files.{
  Files, Calls, Outcome, refused, atomic_write, write_encoded, save_config, load_config,
}

-- Whether a temporary file may be left behind at a path: after an error, if its removal fails too.
abbrev pub left_behind : Calls → Text → Outcome → Text → Bool
left_behind x tmp o k = tmp == k && not o.ok && not x.removes

-- What a path holds after a write, unless it is a temporary file left behind, and in every state that
-- the write passes.
abbrev pub Durable : Calls → Text → Text → Text → Files → Outcome → Type 0
Durable x tmp path data' fs o =
    ((k : Text)
      → lookup k o.last ≡ (
          if left_behind x tmp o k
          then lookup k o.last
          else if o.ok && path == k
          then some data'
          else lookup k fs))
    × All (λ g. lookup path g ≡ lookup path fs) o.passed

module _ {A : Type 0} (encode : A → Option Text) (decode : A → Text → Option A) (defaults : A) where
  -- What a load finds.
  abbrev pub loaded : Text → Files → Option A
  loaded path g = (load_config encode decode true defaults path g).1

  read_as : Option Text → Option A
  read_as none = some defaults
  read_as (some t) = decode defaults t

  loaded-lookup :
      (path : Text) (g : Files)
      → (path == []) ≡ false
      → (load_config encode decode true defaults path g).1 ≡ read_as (lookup path g)
  unfolding load_config read_as
  loaded-lookup path g named = elim (Option-cases (lookup path g)) [
    | inl e ↦ rw (named, e, load_config) refl
    | inr (t, e) ↦ rw (named, e, load_config) refl
  ]

module _ (tmp : Text) (fs : Files) (new : lookup tmp fs ≡ none) where
  -- The temporary file comes and goes.
  opened_gone : (k c : Text) → lookup k (delete tmp (insert tmp c fs)) ≡ lookup k fs
  opened_gone k c =
      ground
        (arith, new, lookup-delete tmp k (insert tmp c fs), lookup-insert tmp k c fs, ==_iff tmp k)

  opened_else : (k c : Text) → (tmp == k) ≡ false → lookup k (insert tmp c fs) ≡ lookup k fs
  opened_else k c h = ground (arith, h, lookup-insert tmp k c fs)

  written_else :
      (k b c : Text) → (tmp == k) ≡ false → lookup k (insert tmp c (insert tmp b fs)) ≡ lookup k fs
  written_else k b c h =
      ground (arith, h, lookup-insert tmp k c (insert tmp b fs), lookup-insert tmp k b fs)

  written_gone :
      (k b c : Text) → lookup k (delete tmp (insert tmp c (insert tmp b fs))) ≡ lookup k fs
  written_gone k b c = ground (
    arith,
    new,
    lookup-delete tmp k (insert tmp c (insert tmp b fs)),
    lookup-insert tmp k c (insert tmp b fs),
    lookup-insert tmp k b fs,
    ==_iff tmp k,
  )

  atomic_write-Durable :
      (x : Calls) (path data' : Text)
      → (tmp == path) ≡ false
      → Durable x tmp path data' fs (atomic_write x tmp path data' fs)
  unfolding atomic_write
  atomic_write-Durable x path data' other =
      let c = if x.writes then data' else x.partial_write in
      let written = insert tmp c (insert tmp [] fs) in
      (
        λ k. ground (
          arith,
          opened_gone k [],
          opened_else k [],
          written_else k [] c,
          written_gone k [] c,
          written_gone k [] data',
          lookup-insert path k data' (delete tmp written),
        ),
        ground (
          arith,
          other,
          lookup-insert tmp path [] fs,
          lookup-insert tmp path c (insert tmp [] fs),
        ),
      )

  module _ {A : Type 0} (encode : A → Option Text) (decode : A → Text → Option A)
      (defaults : A) where
    -- What is said of an outcome.
    Kept : Calls → Text → A → Outcome → Type 0
    Kept x path cfg o =
        (loaded encode decode defaults path o.last
          ≡ (if o.ok then some cfg else loaded encode decode defaults path fs))
        × All (λ g. loaded encode decode defaults path g ≡ loaded encode decode defaults path fs)
            o.passed
        × ((k : Text)
            → lookup k o.last
              ≡ (if path == k || left_behind x tmp o k then lookup k o.last else lookup k fs))

    loaded-All :
        (path : Text) (gs : List Files)
        → (path == []) ≡ false
        → All (λ g. lookup path g ≡ lookup path fs) gs
        → All (λ g. loaded encode decode defaults path g ≡ loaded encode decode defaults path fs) gs
    loaded-All path [] named h = tt
    loaded-All path (g ∷ gs) named h = (
      loaded-lookup encode decode defaults path g named
          ∙ ap (read_as encode decode defaults) h.0
          ∙ sym (loaded-lookup encode decode defaults path fs named),
      loaded-All path gs named h.1,
    )

    refused-Kept : (x : Calls) (path : Text) (cfg : A) → Kept x path cfg (refused fs)
    unfolding Kept
    refused-Kept x path cfg = (refl, tt, λ k. ground arith)

    Durable-Kept :
        (x : Calls) (path data' : Text) (cfg : A) (o : Outcome)
        → (tmp == path) ≡ false
        → (path == []) ≡ false
        → decode defaults data' ≡ some cfg
        → Durable x tmp path data' fs o
        → Kept x path cfg o
    unfolding Kept read_as
    Durable-Kept x path data' cfg o other named read h =
        let held : lookup path o.last ≡ (if o.ok then some data' else lookup path fs) =
          ground (arith, other, h.0 path, ==_self path) in
        (
          loaded-lookup encode decode defaults path o.last named
              ∙ ap (read_as encode decode defaults) held
              ∙ ground (arith, read, loaded-lookup encode decode defaults path fs named),
          loaded-All path o.passed named h.1,
          λ k. ground (arith, h.0 k),
        )

    -- Whatever calls fail while a configuration is saved, and wherever a crash interrupts it: a load finds
    -- the configuration that was saved if the save reports no error, and in every state before the end,
    -- or after an error, what it found before. At the end no other path holds anything else than before,
    -- but for the temporary file, which is left behind if after an error its removal fails too. Asked of
    -- the temporary name is that it is new and not the path, of the path that it is not empty, and of the
    -- encoder that a decoder brings back what it encoded.
    pub save_config-durable :
        (inverse : (d cfg : A) (t : Text) → encode cfg ≡ some t → decode d t ≡ some cfg)
        → (x : Calls) (path : Text) (cfg : A) → (tmp == path) ≡ false
        → (path == []) ≡ false
        → let o = save_config encode x tmp path cfg fs in
          (loaded encode decode defaults path o.last
            ≡ (if o.ok then some cfg else loaded encode decode defaults path fs))
          × All
              (λ g. loaded encode decode defaults path g ≡ loaded encode decode defaults path fs)
              o.passed
          × ((k : Text)
              → lookup k o.last
                ≡ (if path == k || left_behind x tmp o k then lookup k o.last else lookup k fs))
    unfolding save_config write_encoded Kept
    save_config-durable inverse x path cfg other named = elim (Option-cases (encode cfg)) [
      | inl e ↦ rw e (refused-Kept x path cfg)
      | inr (t, e) ↦ (elim (Bool-cases x.makes_dir) [
        | inl made ↦
            simp (e, made)
              (Durable-Kept x path t cfg (atomic_write x tmp path t fs) other named
                (inverse defaults cfg t e) (atomic_write-Durable x path t other))
        | inr failed ↦ simp (e, failed) (refused-Kept x path cfg)
      ])
    ]
