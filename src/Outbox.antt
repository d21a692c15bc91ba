-- ===== src/Outbox.antt =====
-- src/modules/outbox/outbox.repository.ts: the rows that wait to be published to the queue.
use zolt.Prelude.{
  ℕ, suc, ◌+◌, Bool, true, false, not, ◌&&◌, Option, none, some, List, [], ◌∷◌, map, ltb, leb,
  is_value, if◌then◌else◌, length, take, select, update, updated, exists, delete, insert, sort_by,
  contains,
}
use zolt.Schema.{Db, Outbox, OutboxStatus, outbox_pending, outbox_published}
use zolt.Monad.{M, Sql, pure, branch, query}

abbrev pub pending_row : Option ℕ → Option ℕ → ℕ → ℕ → Outbox
pending_row job_id execution_id id now = record {
  id = id;
  job_id = job_id;
  execution_id = execution_id;
  status = OutboxStatus.pending;
  published_at = none;
  created_at = now;
  updated_at = now;
}

abbrev insert_row : Outbox → Db → Option (Outbox × Db)
insert_row o db = some (o, record db { outbox = insert o db.outbox; next_id = suc db.next_id })

abbrev pub for_job : ℕ → Outbox → Bool
for_job job_id o = is_value job_id o.job_id

abbrev pub for_execution : ℕ → Outbox → Bool
for_execution execution_id o = is_value execution_id o.execution_id

-- job_id is unique.
unfoldable pub insert_job_outbox : ℕ → Sql Outbox
insert_job_outbox job_id now db =
    if exists (for_job job_id) db.outbox
    then none
    else insert_row (pending_row (some job_id) none db.next_id now) db

unfoldable pub create_job_outbox : ℕ → M Outbox
create_job_outbox job_id = query (insert_job_outbox job_id)

-- execution_id is unique.
unfoldable pub insert_execution_outbox : ℕ → Sql Outbox
insert_execution_outbox execution_id now db =
    if exists (for_execution execution_id) db.outbox
    then none
    else insert_row (pending_row none (some execution_id) db.next_id now) db

unfoldable pub create_execution_outbox : ℕ → M Outbox
create_execution_outbox execution_id = query (insert_execution_outbox execution_id)

-- The rows that the inner SELECT of the claim locks. `locked` are the rows that other sessions hold,
-- which SKIP LOCKED passes over.
unfoldable pub claimable : (ℕ → Bool) → ℕ → List Outbox → List Outbox
claimable locked limit rows = take limit (
    sort_by (λ a b. leb a.created_at b.created_at)
      (select (λ o. outbox_pending o.status && not (locked o.id)) rows))

abbrev pub publish : ℕ → Outbox → Outbox
publish now o = record o {
  status = OutboxStatus.published;
  published_at = some now;
  updated_at = now;
}

abbrev pub ids_of : List Outbox → List ℕ
ids_of = map (λ o. o.id)

unfoldable pub claim_rows : (ℕ → Bool) → ℕ → Sql (List Outbox)
unfolding claimable
claim_rows locked limit now db =
    let ids = ids_of (claimable locked limit db.outbox) in
    let hit = λ (o : Outbox). contains ids o.id in
    some (
      updated hit (publish now) db.outbox,
      record db { outbox = update hit (publish now) db.outbox },
    )

unfoldable pub claim_pending_outbox : (ℕ → Bool) → ℕ → M (List Outbox)
claim_pending_outbox locked limit = query (claim_rows locked limit)

abbrev oldest : Option ℕ → List Outbox → Option ℕ
oldest m [] = m
oldest none (o ∷ os) = oldest (some o.created_at) os
oldest (some t) (o ∷ os) = oldest (some (if ltb o.created_at t then o.created_at else t)) os

pub record OutboxStats : Type 0 where
  pub pending_count : ℕ
  pub oldest_created_at : Option ℕ

unfoldable pub pending_outbox_stats : Db → OutboxStats
pending_outbox_stats db =
    let rows = select (λ o. outbox_pending o.status) db.outbox in
    record { pending_count = length rows; oldest_created_at = oldest none rows }

-- published_at < NOW() - retention
abbrev pub published_before : ℕ → ℕ → Option ℕ → Bool
published_before retention now none = false
published_before retention now (some t) = ltb (t + retention) now

abbrev pub prunable : ℕ → ℕ → Outbox → Bool
prunable retention now o =
    outbox_published o.status && published_before retention now o.published_at

unfoldable pub prune_rows : ℕ → Sql ℕ
prune_rows retention now db = some (
  length (select (prunable retention now) db.outbox),
  record db { outbox = delete (prunable retention now) db.outbox },
)

unfoldable pub delete_published_outbox_before : ℕ → M ℕ
delete_published_outbox_before retention = query (prune_rows retention)

abbrev pub unpublish : ℕ → Outbox → Outbox
unpublish now o = record o { status = OutboxStatus.pending; published_at = none; updated_at = now }

unfoldable pub reset_rows : List ℕ → Sql (List Outbox)
reset_rows ids now db =
    let hit = λ (o : Outbox). contains ids o.id && outbox_published o.status in
    some (
      updated hit (unpublish now) db.outbox,
      record db { outbox = update hit (unpublish now) db.outbox },
    )

abbrev is_empty : List ℕ → Bool
is_empty [] = true
is_empty (_ ∷ _) = false

unfoldable pub reset_outbox_to_pending : List ℕ → M (List Outbox)
reset_outbox_to_pending ids = branch (is_empty ids) (pure []) (query (reset_rows ids))
