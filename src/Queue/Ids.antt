-- ===== src/Queue/Ids.antt =====
-- The texts of src/infrastructure/queue/queue.ts: the ids of the queue entries and the error of a duplicate. The
-- text of the id of a row is a parameter; a UUID is written in one way.
use zolt.Prelude.{
  sym, ap, ℕ, ◌≡◌, Bool, true, false, ◌||◌, ◌&&◌, ◌==◌, [], ◌∷◌, ◌++◌, Text, codes, arith,
}
use zolt.Monad.{QueueId, job_queue_id, execution_queue_id}

-- getJobQueueId and getExecutionQueueId
unfoldable pub queue_id_text : (ℕ → Text) → QueueId → Text
queue_id_text uuid (job_queue_id n) = codes "job-" ++ uuid n
queue_id_text uuid (execution_queue_id n) = codes "exec-" ++ uuid n

unfoldable pub starts_with : Text → Text → Bool
starts_with [] ys = true
starts_with (x ∷ xs) [] = false
starts_with (x ∷ xs) (y ∷ ys) = x == y && starts_with xs ys

-- message.includes(...)
unfoldable pub includes : Text → Text → Bool
unfolding starts_with
includes part [] = starts_with part []
includes part (y ∷ ys) = starts_with part (y ∷ ys) || includes part ys

unfoldable pub is_duplicate_job_error : Text → Bool
unfolding includes
is_duplicate_job_error message =
    includes (codes "already exists") message || includes (codes "duplicate") message

abbrev head_of : Text → ℕ
head_of [] = 0
head_of (x ∷ xs) = x

abbrev tail_of : Text → Text
tail_of [] = []
tail_of (x ∷ xs) = xs

same_rest : (p xs ys : Text) → p ++ xs ≡ p ++ ys → xs ≡ ys
same_rest [] xs ys h = h
same_rest (x ∷ p) xs ys h = same_rest p xs ys (ap tail_of h)

first_differs : (P : Type 0) → ◌≡◌ {A = ℕ} 106 101 → P
first_differs P h = ground arith

-- The first characters differ.
other_start : (xs ys : Text) (P : Type 0) → codes "job-" ++ xs ≡ codes "exec-" ++ ys → P
other_start xs ys P h = first_differs P (ap head_of h)

-- Two entries of the queue have one id just if they stand for the same row: a job and an execution never share
-- an id, and so none is taken for another as a duplicate.
pub queue_id_text-injective :
    (uuid : ℕ → Text)
    → ((n m : ℕ) → uuid n ≡ uuid m → n ≡ m)
    → (a b : QueueId) → queue_id_text uuid a ≡ queue_id_text uuid b
    → a ≡ b
unfolding queue_id_text
queue_id_text-injective uuid inj (job_queue_id n) (job_queue_id m) h =
    ap job_queue_id (inj n m (same_rest (codes "job-") (uuid n) (uuid m) h))
queue_id_text-injective uuid inj (execution_queue_id n) (execution_queue_id m) h =
    ap execution_queue_id (inj n m (same_rest (codes "exec-") (uuid n) (uuid m) h))
queue_id_text-injective uuid inj (job_queue_id n) (execution_queue_id m) h =
    other_start (uuid n) (uuid m) _ h
queue_id_text-injective uuid inj (execution_queue_id n) (job_queue_id m) h =
    other_start (uuid m) (uuid n) _ (sym h)
