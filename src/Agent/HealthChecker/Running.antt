-- ===== src/Agent/HealthChecker/Running.antt =====
-- The running health checks: at most one for each service, and the one that can be cancelled.
use tailscale_metrics_discov.Common.{
  ℕ, suc, ◌<◌, ◌≡◌, ◌≢◌, refl, ap, ◌∙◌, subst, Bool, true, false, not, List, [], ◌∷◌, Option, none,
  some, arith, eqb, All, keep_if, Option-cases, Bool-cases, inl, inr,
}
use tailscale_metrics_discov.Common.Text.{Text, ◌==◌, ==_iff, ==_self}
use tailscale_metrics_discov.Common.Dict.{
  Dict, lookup, insert, delete, lookup-insert, lookup-delete,
}
use tailscale_metrics_discov.Config.{HealthcheckConfig}
use tailscale_metrics_discov.Agent.Registry.{Registry}
use tailscale_metrics_discov.Agent.HealthChecker.{
  Check, HealthChecker, cancel, register_check, register, unregister,
}

-- Every running check is the one that its service's cancel function stops.
abbrev Owned : Dict ℕ → Check → Type 0
Owned cancels c = lookup c.name cancels ≡ some c.id

-- Numbers of goroutines are below the next one, and each belongs to one service.
abbrev Numbered : ℕ → Dict ℕ → Type 0
Numbered n cancels =
    ((k : Text) (i : ℕ) → lookup k cancels ≡ some i → i < n)
    × ((j k : Text) (i : ℕ) → lookup j cancels ≡ some i → lookup k cancels ≡ some i → j ≡ k)

-- The checks for one service.
abbrev pub checks_of : Text → List Check → List Check
checks_of name = keep_if (λ c. c.name == name)

-- The URLs that are polled for a service.
abbrev pub urls : List Check → List Text
urls [] = []
urls (c ∷ cs) = c.url ∷ urls cs

abbrev pub urls_of : Text → HealthChecker → List Text
urls_of name h = urls (checks_of name h.running)

pub record IsValid (h : HealthChecker) : Type 0 where
  pub owned : All (Owned h.cancels) h.running
  pub numbered : Numbered h.next_id h.cancels
  pub idle : h.started ≡ false → h.cancels ≡ []

keep_if-All :
    {A : Type 0} (P : A → Type 0) (p : A → Bool) (xs : List A) → All P xs → All P (keep_if p xs)
unfolding keep_if
keep_if-All P p [] h = tt
keep_if-All P p (x ∷ xs) h = elim (Bool-cases (p x)) [
  | inl hit ↦ rw hit (h.0, keep_if-All P p xs h.1)
  | inr miss ↦ rw miss (keep_if-All P p xs h.1)
]

cancel-All : (P : Check → Type 0) (o : Option ℕ) (cs : List Check) → All P cs → All P (cancel o cs)
unfolding cancel
cancel-All P none cs h = h
cancel-All P (some i) cs h = keep_if-All P (λ c. not (eqb c.id i)) cs h

Owned-by :
    (name : Text) (cancels : Dict ℕ) (c : Check)
    → Owned cancels c
    → (c.name == name) ≡ true
    → lookup name cancels ≡ some c.id
Owned-by name cancels c h e = subst (λ k. lookup k cancels ≡ some c.id) ((==_iff c.name name).0 e) h

-- Cancelling a service's check leaves none for it.
cancel_own :
    (name : Text) (cancels : Dict ℕ) (o : Option ℕ) (cs : List Check)
    → lookup name cancels ≡ o
    → All (Owned cancels) cs
    → checks_of name (cancel o cs) ≡ []
unfolding cancel keep_if
cancel_own name cancels none [] e h = refl
cancel_own name cancels (some i) [] e h = refl
cancel_own name cancels none (c ∷ cs) e h =
    ground (arith, Owned-by name cancels c h.0, cancel_own name cancels none cs e h.1)
cancel_own name cancels (some i) (c ∷ cs) e h =
    ground (arith, Owned-by name cancels c h.0, cancel_own name cancels (some i) cs e h.1)

-- It leaves those of every other service.
cancel_other :
    (n : ℕ) (name k : Text) (cancels : Dict ℕ) (o : Option ℕ) (cs : List Check)
    → Numbered n cancels
    → lookup name cancels ≡ o
    → k ≢ name
    → All (Owned cancels) cs
    → checks_of k (cancel o cs) ≡ checks_of k cs
unfolding cancel keep_if
cancel_other n name k cancels none cs u e ne h = refl
cancel_other n name k cancels (some i) [] u e ne h = refl
cancel_other n name k cancels (some i) (c ∷ cs) u e ne h = ground (
  arith,
  Owned-by k cancels c h.0,
  u.1 name k i e,
  cancel_other n name k cancels (some i) cs u e ne h.1,
)

-- After a cancellation, what is left is not of that service.
NotNamed-cancel :
    (name : Text) (cancels : Dict ℕ) (o : Option ℕ) (cs : List Check)
    → lookup name cancels ≡ o
    → All (Owned cancels) cs
    → All (λ c. Owned cancels c × ((c.name == name) ≡ false)) (cancel o cs)
unfolding cancel keep_if
NotNamed-cancel name cancels none [] e h = tt
NotNamed-cancel name cancels (some i) [] e h = tt
NotNamed-cancel name cancels none (c ∷ cs) e h =
    ((h.0, ground (arith, Owned-by name cancels c h.0)), NotNamed-cancel name cancels none cs e h.1)
NotNamed-cancel name cancels (some i) (c ∷ cs) e h =
    ground (arith, Owned-by name cancels c h.0, NotNamed-cancel name cancels (some i) cs e h.1)

Owned-insert :
    (name : Text) (i : ℕ) (cancels : Dict ℕ) (cs : List Check)
    → All (λ c. Owned cancels c × ((c.name == name) ≡ false)) cs
    → All (Owned (insert name i cancels)) cs
Owned-insert name i cancels [] h = tt
Owned-insert name i cancels (c ∷ cs) h = (
  ground (arith, lookup-insert name c.name i cancels, ==_iff c.name name, ==_iff name c.name, h.0),
  Owned-insert name i cancels cs h.1,
)

Owned-delete :
    (name : Text) (cancels : Dict ℕ) (cs : List Check)
    → All (λ c. Owned cancels c × ((c.name == name) ≡ false)) cs
    → All (Owned (delete name cancels)) cs
Owned-delete name cancels [] h = tt
Owned-delete name cancels (c ∷ cs) h = (
  ground (arith, lookup-delete name c.name cancels, ==_iff c.name name, ==_iff name c.name, h.0),
  Owned-delete name cancels cs h.1,
)

Numbered-insert :
    (name : Text) (n : ℕ) (cancels : Dict ℕ)
    → Numbered n cancels
    → Numbered (suc n) (insert name n cancels)
Numbered-insert name n cancels u = (
  λ k i e. ground (arith, lookup-insert name k n cancels, u.0 k i),
  λ j k i e f. ground (
    arith,
    lookup-insert name j n cancels,
    lookup-insert name k n cancels,
    ==_iff name j,
    ==_iff name k,
    u.0 j i,
    u.0 k i,
    u.1 j k i,
  ),
)

Numbered-delete :
    (name : Text) (n : ℕ) (cancels : Dict ℕ) → Numbered n cancels → Numbered n (delete name cancels)
Numbered-delete name n cancels u = (
  λ k i e. ground (arith, lookup-delete name k cancels, u.0 k i),
  λ j k i e f.
      ground (arith, lookup-delete name j cancels, lookup-delete name k cancels, u.1 j k i),
)

url_test : (u : Text) → u ≢ [] → (u == []) ≡ false
url_test u h = ground (arith, ==_iff u [])

name_test : (name k : Text) → k ≢ name → (name == k) ≡ false
name_test name k h = ground (arith, ==_iff name k)

-- What a call does to the checks of its service and of the others.
abbrev pub Sets : Text → List Text → HealthChecker → HealthChecker → Type 0
Sets name polled h h' =
    (urls_of name h' ≡ polled)
    × ((k : Text) → k ≢ name → checks_of k h'.running ≡ checks_of k h.running)

-- With `Start` called: registering a check sets the checks of its service.
pub register-Sets :
    (now : ℕ) (name : Text) (cfg : HealthcheckConfig) (h : HealthChecker) (reg : Registry)
    → IsValid h
    → h.started ≡ true
    → cfg.url ≢ []
    → IsValid (register now name (some cfg) (h, reg)).0
      × Sets name (cfg.url ∷ []) h (register now name (some cfg) (h, reg)).0
unfolding register register_check keep_if
register-Sets now name cfg h reg v on url =
    let rest : List Check = cancel (lookup name h.cancels) h.running in
    let others = NotNamed-cancel name h.cancels (lookup name h.cancels) h.running refl v.owned in
    rw (url_test cfg.url url, on)
      (
        record {
          owned = (
            rw (lookup-insert name name h.next_id h.cancels, ==_self name) refl,
            Owned-insert name h.next_id h.cancels rest others,
          );
          numbered = Numbered-insert name h.next_id h.cancels v.numbered;
          idle = λ off. cc;
        },
        (
          rw (==_self name) (
              ap (λ cs. cfg.url ∷ urls cs)
                (cancel_own name h.cancels (lookup name h.cancels) h.running refl v.owned)),
          λ k ne. rw (name_test name k ne) (
              cancel_other h.next_id name k h.cancels (lookup name h.cancels) h.running v.numbered
                refl ne v.owned),
        ),
      )

-- Unregistering leaves no check of the service.
pub unregister-Sets :
    (name : Text) (h : HealthChecker)
    → IsValid h
    → IsValid (unregister name h) × Sets name [] h (unregister name h)
unfolding unregister cancel
unregister-Sets name h v = elim (Option-cases (lookup name h.cancels)) [
  | inl e ↦
      rw (e, unregister)
        (v, (ap urls (cancel_own name h.cancels none h.running e v.owned), λ k ne. refl))
  | inr (i, e) ↦
      rw (e, unregister)
        (
          record {
            owned =
                Owned-delete name h.cancels _
                  (NotNamed-cancel name h.cancels (some i) h.running e v.owned);
            numbered = Numbered-delete name h.next_id h.cancels v.numbered;
            idle = λ off. ap (delete name) (v.idle off) ∙ (unfold delete in refl);
          },
          (
            ap urls (cancel_own name h.cancels (some i) h.running e v.owned),
            λ k ne.
                cancel_other h.next_id name k h.cancels (some i) h.running v.numbered e ne v.owned,
          ),
        )
]
