-- ===== src/Toy/Calls/Durability.antt =====
-- No call of the toy runtime loses or changes a stored chapter.
use swf_go.Prelude.{
  ℕ, ◌≡◌, refl, sym, ap, ◌∙◌, Bool, true, false, not, ◌||◌, String, Option, none, some, List, [],
  ◌∷◌, ◌++◌, length, str_eq, leb, if◌then◌else◌, ok, err, arith, some-inj,
}
use swf_go.Runtime.{JobKey, Try, in_cap_set}
use swf_go.Sqlite.Acquire.{LeaseRequest}
use swf_go.Toy.{ToyJob, Engine, Outcome, find_job, is_ready, advance, awake, release}
use swf_go.Toy.Chapters.{find_chapter}
use swf_go.Toy.Leases.{
  ToyLease, offered, lease_job, set_job, Polled, poll_found, poll_tested, toy_lease, get_found,
  poll_jobs,
}
use swf_go.Toy.Chapters.Append.{find_job-key, find_job-update_job, Durable, Durable-update_job}

pub Durable-refl : (engine : Engine) → Durable engine engine
Durable-refl engine key n c h = h

pub Durable-trans : (a b c : Engine) → Durable a b → Durable b c → Durable a c
Durable-trans a b c p q key n x h = q key n x (p key n x h)

pub if-Durable :
    {A : Type 0} (b : Bool) (e : Engine) (x y : Outcome A)
    → Durable e x.0
    → Durable e y.0
    → Durable e (if b then x else y).0
if-Durable true e x y p q = p
if-Durable false e x y p q = q

awake_same :
    (now : ℕ) (job : ToyJob)
    → ((awake now job).key ≡ job.key) × ((awake now job).chapters ≡ job.chapters)
unfolding awake
awake_same now job = ground arith

release_same :
    (engine : Engine) (now : ℕ) (job : ToyJob)
    → ((release engine now job).key ≡ job.key) × ((release engine now job).chapters ≡ job.chapters)
unfolding release
release_same engine now job = ground arith

advance_same :
    (engine : Engine) (now : ℕ) (job : ToyJob)
    → ((advance engine now job).key ≡ job.key) × ((advance engine now job).chapters ≡ job.chapters)
unfolding advance
advance_same engine now job =
    let (a, b) = awake_same now job in
    let (c, d) = release_same engine now (awake now job) in (c ∙ a, d ∙ b)

lease_job_same :
    (id : String) (job : ToyJob)
    → ((lease_job id job).key ≡ job.key) × ((lease_job id job).chapters ≡ job.chapters)
unfolding lease_job
lease_job_same id job = (refl, refl)

set_job-Durable :
    (current job : ToyJob) (engine : Engine)
    → find_job current.key engine ≡ some job
    → current.chapters ≡ job.chapters
    → Durable engine (set_job current engine)
set_job-Durable current job engine f e =
    Durable-update_job current.key (λ old. current) engine (λ j k. refl)
      (λ j g n c h.
        ap (find_chapter n) e
        ∙ ap (λ (q : ToyJob). find_chapter n q.chapters) (some-inj (sym f ∙ g))
        ∙ h)

-- A record is advanced, and may be leased after it.
module _ (engine : Engine) (now : ℕ) (job : ToyJob) (id : String)
    (f : find_job job.key engine ≡ some job) where
  at_current : find_job (advance engine now job).key engine ≡ some job
  at_current = ap (λ k. find_job k engine) (advance_same engine now job).0 ∙ f

  advanced-Durable : Durable engine (set_job (advance engine now job) engine)
  advanced-Durable =
      set_job-Durable (advance engine now job) job engine at_current (advance_same engine now job).1

  leased-Durable :
      Durable engine
        (set_job (lease_job id (advance engine now job)) (set_job (advance engine now job) engine))
  leased-Durable =
      let current : ToyJob = advance engine now job in
      let advanced : Engine = set_job current engine in
      Durable-trans engine advanced _ advanced-Durable (
        set_job-Durable (lease_job id current) current advanced
          (ap (λ k. find_job k advanced) (lease_job_same id current).0
            ∙ find_job-update_job current.key (λ old. current) (λ j k. refl) engine at_current)
          (lease_job_same id current).1)

pub Located : Engine → Option ToyJob → Type 0
Located engine found = (job : ToyJob) → found ≡ some job → find_job job.key engine ≡ some job

pub find_job-Located : (key : JobKey) (engine : Engine) → Located engine (find_job key engine)
unfolding Located
find_job-Located key engine job f = ap (λ k. find_job k engine) (find_job-key key engine f) ∙ f

poll_found-Durable :
    (req : LeaseRequest) (id : String) (limit now : ℕ) (rest : Engine → List ToyLease → Polled)
    (engine : Engine) (out : List ToyLease) (found : Option ToyJob)
    → ((e : Engine) (o : List ToyLease) → Durable e (rest e o).0)
    → Located engine found
    → Durable engine (poll_found req id limit now rest engine out found).0
unfolding Located
poll_found-Durable req id limit now rest engine out none r l = r engine out
poll_found-Durable req id limit now rest engine out (some job) r l = tested (offered req current)
  where
    current : ToyJob
    current = advance engine now job

    advanced : Engine
    advanced = set_job current engine

    leased : Engine
    leased = set_job (lease_job id current) advanced

    tested :
        (t : Try Bool) → Durable engine (poll_tested req id limit now current rest advanced out t).0
    tested (err e) = advanced-Durable engine now job id (l job refl)
    tested (ok false) =
        Durable-trans engine advanced _ (advanced-Durable engine now job id (l job refl))
          (r advanced out)
    tested (ok true) =
        let d : Durable engine leased = leased-Durable engine now job id (l job refl) in
        if-Durable (leb limit (length (out ++ toy_lease id req.lease_duration now current ∷ [])))
          engine _ _ d
          (Durable-trans engine leased _ d
            (r leased (out ++ toy_lease id req.lease_duration now current ∷ [])))

pub poll_jobs-Durable :
    (req : LeaseRequest) (ids : ℕ → String) (limit now : ℕ) (keys : List JobKey) (engine : Engine)
    (out : List ToyLease)
    → Durable engine (poll_jobs req ids limit now keys engine out).0
unfolding poll_jobs
poll_jobs-Durable req ids limit now [] engine out = Durable-refl engine
poll_jobs-Durable req ids limit now (key ∷ keys) engine out =
    if-Durable (not (str_eq key.tenant_id req.tenant_id)) engine _ _
      (poll_jobs-Durable req ids limit now keys engine out)
      (poll_found-Durable req (ids (length out)) limit now
        (λ e o. poll_jobs req ids limit now keys e o) engine out (find_job key engine)
        (λ e o. poll_jobs-Durable req ids limit now keys e o) (find_job-Located key engine))

pub get_found-Durable :
    (capabilities : List String) (id : String) (duration now : ℕ) (engine : Engine)
    (found : Option ToyJob)
    → Located engine found
    → Durable engine (get_found capabilities id duration now engine found).0
unfolding Located
get_found-Durable capabilities id duration now engine none l = Durable-refl engine
get_found-Durable capabilities id duration now engine (some job) l =
    let current : ToyJob = advance engine now job in
    let d : Durable engine (set_job current engine) =
      advanced-Durable engine now job id (l job refl) in
    if-Durable (current.leased || not (is_ready current.status)) engine _ _ d (
      if-Durable (not (in_cap_set capabilities current.capability)) engine _ _ d
        (leased-Durable engine now job id (l job refl)))
