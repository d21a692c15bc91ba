-- ===== src/Leases/Exclusive.antt =====
-- Two workers that ask for one execution (src/modules/leases/leases.repository.ts).
use zolt.Prelude.{
  one_less, select_first-updated, updated_first-found, sym, subst, Option-cases, inl, inr,
  select_first-test, refl, select_first-insert, exists-none, ◌+◌, ◌∙◌, ap, Option, update,
  updated_first, insert, ltb, true, suc, updated_first-none, update-none, exists, ℕ, ◌<◌, ◌≡◌,
  false, none, some, arith,
}
use zolt.Schema.{execution_queued, Db, Execution, Lease}
use zolt.Monad.{World, Result, Env, ok, calm, running}
use zolt.Executions.Repository.{get_execution_by_id}
use zolt.Leases.{
  is_valid_at, Option, update, taken_by, updated_first, insert, ltb, leases_execution, true,
  execution_queued, take_over_lease, suc, insert_lease, renewed, renewable, exists, update_lease,
  extend_lease, acquire_execution_lease, find_lease_by_execution_id, renew_lease,
}

-- Where no round trip fails: while the lease of an execution is valid, nobody acquires it, and nothing is
-- written.
pub acquire_refused :
    (id worker duration : ℕ) (d : Db) (env : Env) {e : Execution} {l : Lease}
    → get_execution_by_id id d ≡ some e
    → find_lease_by_execution_id id d ≡ some l
    → env.now < l.lease_expires_at
    → acquire_execution_lease id worker duration (calm d env) ≡ (ok none, calm d env)
unfolding acquire_execution_lease running
acquire_refused id worker duration d env found held valid = ground arith

-- Where no round trip fails: if no lease of the execution is held by the worker and still valid, its
-- renewal finds no row and writes nothing.
pub renewal_refused :
    (id worker duration : ℕ) (d : Db) (env : Env)
    → exists (renewable id worker env.now) d.leases ≡ false
    → renew_lease id worker duration (calm d env) ≡ (ok none, calm d env)
unfolding renew_lease extend_lease update_lease running
renewal_refused id worker duration d env none_held = ground (
  arith,
  update-none (renewable id worker env.now) (renewed duration env.now) d.leases none_held,
  updated_first-none (renewable id worker env.now) (renewed duration env.now) d.leases none_held,
)

abbrev new_lease : ℕ → ℕ → ℕ → ℕ → Db → Lease
new_lease id worker duration now d = record {
  id = d.next_id;
  execution_id = id;
  worker_id = worker;
  lease_expires_at = now + duration;
  created_at = now;
  updated_at = now;
}

abbrev with_lease : Lease → Db → Db
with_lease l d = record d { leases = insert l d.leases; next_id = suc d.next_id }

abbrev with_taken : ℕ → ℕ → ℕ → ℕ → Db → Db
with_taken id worker duration now d = record d {
  leases = update (leases_execution id) (taken_by worker duration now) d.leases;
}

-- No lease yet: one is inserted.
acquire-fresh :
    (id worker duration : ℕ) (d : Db) (env : Env) {e : Execution}
    → get_execution_by_id id d ≡ some e
    → execution_queued e.status ≡ true
    → find_lease_by_execution_id id d ≡ none
    → exists (leases_execution id) d.leases ≡ false
    → acquire_execution_lease id worker duration (calm d env) ≡ (
      ok (some (new_lease id worker duration env.now d)),
      calm
          (record d {
            leases = insert (new_lease id worker duration env.now d) d.leases;
            next_id = suc d.next_id;
          })
          env,
    )
unfolding acquire_execution_lease insert_lease running
acquire-fresh id worker duration d env found due free none_held =
    rw (found, due, free, none_held, one_less env.connections)

-- An expired lease: the first of the rows is taken over.
acquire-expired :
    (id worker duration : ℕ) (d : Db) (env : Env) {e : Execution} {l : Lease}
    → get_execution_by_id id d ≡ some e
    → execution_queued e.status ≡ true
    → find_lease_by_execution_id id d ≡ some l
    → ltb env.now l.lease_expires_at ≡ false
    → acquire_execution_lease id worker duration (calm d env) ≡ (
      ok (updated_first (leases_execution id) (taken_by worker duration env.now) d.leases),
      calm
          (record d {
            leases = update (leases_execution id) (taken_by worker duration env.now) d.leases;
          })
          env,
    )
unfolding acquire_execution_lease take_over_lease update_lease running
acquire-expired id worker duration d env found due held expired =
    rw (found, due, held, expired, one_less env.connections)

-- What an acquisition grants: a lease of the worker, which the database then holds for the execution.
record Granted (id worker expires_at : ℕ) (d : Db) (env : Env) (r : Result (Option Lease) × World)
    : Type 0 where
  pub lease : Lease
  pub after : Db
  pub outcome : r ≡ (ok (some lease), calm after env)
  pub same_worker : lease.worker_id ≡ worker
  pub until : lease.lease_expires_at ≡ expires_at
  pub held : find_lease_by_execution_id id after ≡ some lease
  pub same_executions : after.executions ≡ d.executions

fresh-Granted :
    (id worker duration : ℕ) (d : Db) (env : Env) {e : Execution}
    → get_execution_by_id id d ≡ some e
    → execution_queued e.status ≡ true
    → find_lease_by_execution_id id d ≡ none
    → Granted id worker
        (env.now + duration)
        d
        env
        (acquire_execution_lease id worker duration (calm d env))
unfolding find_lease_by_execution_id
fresh-Granted id worker duration d env found due free = record {
  lease = new_lease id worker duration env.now d;
  after = with_lease (new_lease id worker duration env.now d) d;
  outcome = acquire-fresh id worker duration d env found due free (exists-none _ d.leases free);
  same_worker = refl;
  until = refl;
  held =
      select_first-insert (leases_execution id) (new_lease id worker duration env.now d) d.leases
        free (ground arith);
  same_executions = refl;
}

expired-Granted :
    (id worker duration : ℕ) (d : Db) (env : Env) {e : Execution} {l : Lease}
    → get_execution_by_id id d ≡ some e
    → execution_queued e.status ≡ true
    → find_lease_by_execution_id id d ≡ some l
    → ltb env.now l.lease_expires_at ≡ false
    → Granted id worker
        (env.now + duration)
        d
        env
        (acquire_execution_lease id worker duration (calm d env))
unfolding find_lease_by_execution_id
expired-Granted id worker duration d env {l} found due held expired = record {
  lease = taken_by worker duration env.now l;
  after = with_taken id worker duration env.now d;
  outcome =
      acquire-expired id worker duration d env found due held expired
      ∙ ap (λ o. (ok o, calm (with_taken id worker duration env.now d) env))
          (updated_first-found (leases_execution id) (taken_by worker duration env.now) d.leases
            held);
  same_worker = refl;
  until = refl;
  held =
      select_first-updated (leases_execution id) (leases_execution id)
        (taken_by worker duration env.now) d.leases (λ x. refl) held
        (select_first-test (leases_execution id) d.leases held);
  same_executions = refl;
}

acquire-Granted :
    (id worker duration : ℕ) (d : Db) (env : Env) {e : Execution}
    → get_execution_by_id id d ≡ some e
    → execution_queued e.status ≡ true
    → is_valid_at env.now (find_lease_by_execution_id id d) ≡ false
    → Granted id worker
        (env.now + duration)
        d
        env
        (acquire_execution_lease id worker duration (calm d env))
acquire-Granted id worker duration d env found due lapsed =
    elim (Option-cases (find_lease_by_execution_id id d)) [
      | inl free ↦ fresh-Granted id worker duration d env found due free
      | inr (l, held) ↦
          expired-Granted id worker duration d env found due held
            (sym (ap (is_valid_at env.now) held) ∙ lapsed)
    ]

same_row :
    (id : ℕ) (c d : Db)
    → c.executions ≡ d.executions
    → get_execution_by_id id c ≡ get_execution_by_id id d
unfolding get_execution_by_id
same_row id c d h = rw h

-- Where no round trip fails: an execution that is QUEUED and has no valid lease is granted to the worker
-- that asks, until its duration has passed: any worker that asks for it before that gets nothing and
-- writes nothing.
pub acquire-excludes :
    (id worker duration other other_duration t : ℕ) (d : Db) (env : Env) {e : Execution}
    → get_execution_by_id id d ≡ some e
    → execution_queued e.status ≡ true
    → is_valid_at env.now (find_lease_by_execution_id id d) ≡ false
    → t < env.now + duration
    → (l : Lease) × (d' : Db) × (acquire_execution_lease id worker duration (calm d env)
        ≡ (ok (some l), calm d' env))
      × (l.worker_id ≡ worker)
      × (acquire_execution_lease id other other_duration (calm d' (record env { now = t }))
          ≡ (ok none, calm d' (record env { now = t })))
acquire-excludes id worker duration other other_duration t d env found due lapsed soon =
    let g = acquire-Granted id worker duration d env found due lapsed in
    (
      g.lease,
      g.after,
      g.outcome,
      g.same_worker,
      acquire_refused id other other_duration g.after (record env { now = t })
          (same_row id g.after d g.same_executions ∙ found) g.held
          (subst (λ n. t < n) (sym g.until) soon),
    )
