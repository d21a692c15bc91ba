-- ===== src/Leases.antt =====
-- src/modules/leases/leases.repository.ts: which worker owns an execution, and until when.
pub mod Exclusive
use zolt.Prelude.{
  ℕ, suc, ◌+◌, Bool, true, false, not, ◌&&◌, Option, none, some, List, ltb, leb, ◌==◌,
  if◌then◌else◌, select, select_first, update, updated_first, exists, insert, sort_by,
}
use zolt.Schema.{Db, Execution, Lease, execution_queued, execution_running}
use zolt.Monad.{
  M, Sql, pure, throw, app_error, execution_not_found, try_catch, ◌>>=◌, ◌>>◌, on_row, branch,
  get_env, query, read, with_client, begin, commit, rollback,
}
use zolt.Executions.Repository.{get_execution_by_id}

abbrev pub leases_execution : ℕ → Lease → Bool
leases_execution id l = l.execution_id == id

unfoldable pub find_lease_by_execution_id : ℕ → Db → Option Lease
find_lease_by_execution_id id db = select_first (leases_execution id) db.leases

unfoldable pub insert_lease : ℕ → ℕ → ℕ → Sql (Option Lease)
insert_lease execution_id worker_id duration now db =
    let l : Lease = record {
      id = db.next_id;
      execution_id = execution_id;
      worker_id = worker_id;
      lease_expires_at = now + duration;
      created_at = now;
      updated_at = now;
    } in
    if exists (leases_execution execution_id) db.leases
    then none
    else some (some l, record db { leases = insert l db.leases; next_id = suc db.next_id })

unfoldable pub update_lease : (ℕ → Lease → Bool) → (ℕ → Lease → Lease) → Sql (Option Lease)
update_lease hit set now db = some (
  updated_first (hit now) (set now) db.leases,
  record db { leases = update (hit now) (set now) db.leases },
)

abbrev pub taken_by : ℕ → ℕ → ℕ → Lease → Lease
taken_by worker_id duration now l = record l {
  worker_id = worker_id;
  lease_expires_at = now + duration;
  updated_at = now;
}

unfoldable pub take_over_lease : ℕ → ℕ → ℕ → Sql (Option Lease)
unfolding update_lease
take_over_lease execution_id worker_id duration =
    update_lease (λ _. leases_execution execution_id) (taken_by worker_id duration)

-- new Date(lease_expires_at) > new Date()
abbrev pub is_valid_at : ℕ → Option Lease → Bool
is_valid_at now none = false
is_valid_at now (some l) = ltb now l.lease_expires_at

abbrev pub write_lease : ℕ → ℕ → ℕ → Option Lease → Sql (Option Lease)
write_lease execution_id worker_id duration none = insert_lease execution_id worker_id duration
write_lease execution_id worker_id duration (some _) =
    take_over_lease execution_id worker_id duration

abbrev pub acquire_locked : ℕ → ℕ → ℕ → M (Option Lease)
acquire_locked execution_id worker_id duration = do
  lease ← read (λ now db. find_lease_by_execution_id execution_id db)
  now ← get_env (λ e. e.now)
  branch (is_valid_at now lease) (rollback >> pure none)
      (do written ← query (write_lease execution_id worker_id duration lease); commit; pure written)

unfoldable pub acquire_execution_lease : ℕ → ℕ → ℕ → M (Option Lease)
acquire_execution_lease execution_id worker_id duration = with_client (
    try_catch
      (do
        begin
        execution ← read (λ now db. get_execution_by_id execution_id db)
        on_row execution (throw (app_error (execution_not_found execution_id) 404)) λ e.
            branch (not (execution_queued e.status)) (rollback >> pure none)
              (acquire_locked execution_id worker_id duration))
      (λ e. rollback >> throw e))

abbrev pub renewable : ℕ → ℕ → ℕ → Lease → Bool
renewable execution_id worker_id now l =
    l.execution_id == execution_id && (l.worker_id == worker_id && ltb now l.lease_expires_at)

abbrev pub renewed : ℕ → ℕ → Lease → Lease
renewed duration now l = record l { lease_expires_at = now + duration; updated_at = now }

unfoldable pub extend_lease : ℕ → ℕ → ℕ → Sql (Option Lease)
unfolding update_lease
extend_lease execution_id worker_id duration =
    update_lease (renewable execution_id worker_id) (renewed duration)

unfoldable pub renew_lease : ℕ → ℕ → ℕ → M (Option Lease)
renew_lease execution_id worker_id duration = query (extend_lease execution_id worker_id duration)

abbrev runs : List Execution → Lease → Bool
runs es l = exists (λ e. e.id == l.execution_id && execution_running e.status) es

unfoldable pub expired_leases : ℕ → Db → List Lease
expired_leases now db =
    sort_by (λ a b. leb a.lease_expires_at b.lease_expires_at)
      (select (λ l. leb l.lease_expires_at now && runs db.executions l) db.leases)

unfoldable pub find_expired_leases : M (List Lease)
find_expired_leases = read expired_leases
