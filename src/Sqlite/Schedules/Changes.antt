-- ===== src/Sqlite/Schedules/Changes.antt =====
-- What the calls of schedule.go change of a stored schedule.
use swf_go.Prelude.{
  ℕ, ◌<◌, ◌≡◌, refl, sym, ap, ◌∙◌, subst, Bool, true, false, not, ◌&&◌, String, Option, none, some,
  [], ◌∷◌, str_eq, str_eq_iff, ok, err, fail_if, arith, Bool-cases, none-some, some-injective, inl,
  inr,
}
use swf_go.Runtime.{Try, RuntimeError, conflict}
use swf_go.Schedule.Trigger.{initial_schedule_fire}
use swf_go.Sqlite.Lease.Holder.{first_passes, ok-inj}
use swf_go.Sqlite.Schedules.{
  ScheduleState, active, paused, archived, ScheduleRow, Schedules, is_schedule, find_schedule,
  store_schedule, state_eq, Occurrence, of_fire, Names, UpsertScheduleRequest, upserted,
  check_existing, changed, found_schedule, is_expected, upsert_schedule, mutate_schedule_state,
}

-- The generation of a schedule has grown, and an archived one is still archived.
pub record Newer (before after : ScheduleRow) : Type 0 where
  pub grown : before.generation < after.generation
  pub stays : before.state ≡ archived → after.state ≡ archived

-- What a call does to the row of a schedule that is there: nothing, or it makes it newer.
pub data Kept (tenant id : String) (row : ScheduleRow) (rows : Schedules) : Type 0 where
  untouched : find_schedule tenant id rows ≡ some row → Kept tenant id row rows
  renewed :
      (new : ScheduleRow)
      → find_schedule tenant id rows ≡ some new
      → Newer row new
      → Kept tenant id row rows

is_schedule-eq :
    (t i : String) (a b : ScheduleRow)
    → is_schedule t i a ≡ true
    → is_schedule a.tenant_id a.schedule_id b ≡ is_schedule t i b
is_schedule-eq t i a b h = ground (arith, str_eq_iff a.tenant_id t, str_eq_iff a.schedule_id i)

is_schedule-other :
    (t i : String) (a b : ScheduleRow)
    → is_schedule t i a ≡ false
    → is_schedule a.tenant_id a.schedule_id b ≡ true
    → is_schedule t i b ≡ false
is_schedule-other t i a b h e = ground (
  arith,
  str_eq_iff a.tenant_id t,
  str_eq_iff a.schedule_id i,
  str_eq_iff b.tenant_id t,
  str_eq_iff b.schedule_id i,
  str_eq_iff b.tenant_id a.tenant_id,
  str_eq_iff b.schedule_id a.schedule_id,
)

find_schedule-key :
    (t i : String) (rows : Schedules) {row : ScheduleRow}
    → find_schedule t i rows ≡ some row
    → is_schedule t i row ≡ true
unfolding find_schedule
find_schedule-key t i [] h = absurd (none-some h)
find_schedule-key t i (r ∷ rows) h = elim (Bool-cases (is_schedule t i r)) [
  | inl e ↦ subst (λ (x : ScheduleRow). is_schedule t i x ≡ true) (some-injective (rw e at h)) e
  | inr e ↦ find_schedule-key t i rows (rw e at h)
]

-- Storing a row is seen under its own key, and under no other.
find-store_own :
    (t i : String) (new : ScheduleRow) (rows : Schedules)
    → is_schedule t i new ≡ true
    → find_schedule t i (store_schedule new rows) ≡ some new
unfolding find_schedule store_schedule
find-store_own t i new [] e = rw e refl
find-store_own t i new (r ∷ rows) e = elim (Bool-cases (is_schedule t i r)) [
  | inl q ↦ rw (is_schedule-eq t i new r e, q, e) refl
  | inr q ↦ rw (is_schedule-eq t i new r e, q, q) (find-store_own t i new rows e)
]

find-store_other :
    (t i : String) (new : ScheduleRow) (rows : Schedules)
    → is_schedule t i new ≡ false
    → find_schedule t i (store_schedule new rows) ≡ find_schedule t i rows
unfolding find_schedule store_schedule
find-store_other t i new [] e = rw e refl
find-store_other t i new (r ∷ rows) e =
    elim (Bool-cases (is_schedule new.tenant_id new.schedule_id r)) [
      | inl q ↦ rw (q, e, is_schedule-other t i new r e q) refl
      | inr q ↦ rw q (elim (Bool-cases (is_schedule t i r)) [
        | inl p ↦ rw p refl
        | inr p ↦ rw p (find-store_other t i new rows e)
      ])
    ]

-- A call that stores a row which is newer than the row that it finds keeps every schedule.
store-Kept :
    (t i : String) (row new : ScheduleRow) (rows : Schedules)
    → find_schedule t i rows ≡ some row
    → (is_schedule t i new ≡ true → Newer row new)
    → Kept t i row (store_schedule new rows)
store-Kept t i row new rows h n = elim (Bool-cases (is_schedule t i new)) [
  | inl e ↦ renewed new (find-store_own t i new rows e) (n e)
  | inr e ↦ untouched (find-store_other t i new rows e ∙ h)
]

err-ok : {A : Type 0} {e : RuntimeError} {a : A} → ◌≡◌ {A = Try A} (err e) (ok a) → ⊥
err-ok p = cc

module _ (names : Names) where
  -- A change of the stored schedules by a call, with any clock and any spec hash.
  pub data Change (rows after : Schedules) : Type 0 where
    upserts :
        (req : UpsertScheduleRequest) (spec_hash : String) (now : ℕ) (run : Option Occurrence)
        → upsert_schedule names req spec_hash now rows ≡ ok (after, run)
        → Change rows after
    mutates :
        (tenant id : String) (expected : Option ℕ) (state : ScheduleState) (submit : Bool) (now : ℕ)
        (run : Option Occurrence)
        → mutate_schedule_state names tenant id expected state submit now rows ≡ ok (after, run)
        → Change rows after

  -- Any number of such calls.
  pub data Changes : Schedules → Schedules → Type 0 where
    no_change : {rows : Schedules} → Changes rows rows
    then_changes :
        {rows middle after : Schedules}
        → Change rows middle
        → Changes middle after
        → Changes rows after

  same_key : (t i : String) (a b : String) → (str_eq a t && str_eq b i) ≡ true → (a ≡ t) × (b ≡ i)
  same_key t i a b h = (ground (arith, str_eq_iff a t), ground (arith, str_eq_iff b i))

  found-some :
      (o : Option ScheduleRow) (r : ScheduleRow) → found_schedule names o ≡ ok r → o ≡ some r
  found-some none r h = absurd (err-ok h)
  found-some (some q) r h = ap some (ok-inj h)

  changed-Newer :
      (state : ScheduleState) (now : ℕ) (next : Option ℕ) (r row : ScheduleRow) {u : Unit {0}}
      → fail_if (state_eq r.state archived && not (state_eq state archived)) conflict ≡ ok u
      → r ≡ row
      → Newer row (changed names state now next r)
  changed-Newer state now next r row {u = u} o e =
      subst (λ (x : ScheduleRow). Newer x (changed names state now next r)) e
        (record { grown = omega arith; stays = λ a. still state (rw a at o) })
    where
      still :
          (q : ScheduleState) → fail_if (not (state_eq q archived)) conflict ≡ ok u → q ≡ archived
      still archived h = refl
      still active h = absurd (err-ok h)
      still paused h = absurd (err-ok h)

  upserted-Newer :
      (req : UpsertScheduleRequest) (spec_hash : String) (now : ℕ) (next : Option ℕ)
      (existing : Option ScheduleRow) (row : ScheduleRow)
      → check_existing names req.expected_generation existing ≡ ok tt
      → existing ≡ some row
      → Newer row (upserted names req spec_hash now next existing)
  upserted-Newer req spec_hash now next none row c e = absurd (none-some e)
  upserted-Newer req spec_hash now next (some r) row c e =
      subst (λ (x : ScheduleRow). Newer x (upserted names req spec_hash now next (some r)))
        (some-injective e)
        (record { grown = omega arith; stays = λ a. absurd (err-ok (rw a at c)) })

  pub Change-Kept :
      (t i : String) (row : ScheduleRow) (rows after : Schedules)
      → find_schedule t i rows ≡ some row
      → Change rows after
      → Kept t i row after
  unfolding upsert_schedule mutate_schedule_state
  Change-Kept t i row rows after found (upserts req spec_hash now run h) =
      let existing : Option ScheduleRow = find_schedule req.tenant_id req.schedule_id rows in
      let (next, _, h1) =
        first_passes (of_fire (initial_schedule_fire names.load req.trigger now)) _ h in
      let (_, checked, h2) =
        first_passes (check_existing names req.expected_generation existing) _ h1 in
      subst (Kept t i row) (ap (λ (p : Schedules × Option Occurrence). p.0) (ok-inj h2)) (
        store-Kept t i row (upserted names req spec_hash now next existing) rows found (λ e.
          let (p, q) = same_key t i req.tenant_id req.schedule_id e in
          upserted-Newer req spec_hash now next existing row checked (rw (p, q) found)))
  Change-Kept t i row rows after found (mutates tenant id expected state submit now run h) =
      let (r, f, h1) = first_passes (found_schedule names (find_schedule tenant id rows)) _ h in
      let (_, e, h2) =
        first_passes (fail_if (not (is_expected expected r.generation)) conflict) _ h1 in
      let (_, unlocked, h3) =
        first_passes (fail_if (state_eq r.state archived && not (state_eq state archived)) conflict)
          _ h2 in
      let (next, _, h4) =
        first_passes (of_fire (initial_schedule_fire names.load r.trigger now)) _ h3 in
      let at : find_schedule tenant id rows ≡ some r =
        found-some (find_schedule tenant id rows) r f in
      let own : (r.tenant_id ≡ tenant) × (r.schedule_id ≡ id) =
        same_key tenant id r.tenant_id r.schedule_id (find_schedule-key tenant id rows at) in
      subst (Kept t i row) (ap (λ (p : Schedules × Option Occurrence). p.0) (ok-inj h4)) (
        store-Kept t i row (changed names state now next r) rows found (λ e.
          let mine : (r.tenant_id ≡ t) × (r.schedule_id ≡ i) =
            same_key t i r.tenant_id r.schedule_id e in
          changed-Newer state now next r row unlocked
            (some-injective (sym at ∙ (rw (sym own.0 ∙ mine.0, sym own.1 ∙ mine.1) found)))))

  Newer-then : {a b c : ScheduleRow} → Newer a b → Newer b c → Newer a c
  Newer-then n m = record {
    grown = omega (arith, n.grown, m.grown);
    stays = λ a. m.stays (n.stays a);
  }

  pub Kept-then :
      (t i : String) (row : ScheduleRow) (rows after : Schedules)
      → Kept t i row rows
      → Changes rows after
      → Kept t i row after
  Kept-then t i row rows after k no_change = k
  Kept-then t i row rows after (untouched f) (then_changes {middle = middle} c more) =
      Kept-then t i row middle after (Change-Kept t i row rows middle f c) more
  Kept-then t i row rows after (renewed new f n) (then_changes {middle = middle} c more) =
      again (Kept-then t i new middle after (Change-Kept t i new rows middle f c) more)
    where
      again : Kept t i new after → Kept t i row after
      again (untouched f) = renewed new f n
      again (renewed newest f m) = renewed newest f (Newer-then n m)
