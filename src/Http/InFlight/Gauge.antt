-- ===== src/Http/InFlight/Gauge.antt =====
-- What the gauge and the counter of src/middleware/metrics.middleware.ts count, told from the events alone.
use zolt.Prelude.{
  inr, inl, Bool-cases, ==→eq, count, not, ap, sym, subst, ◌∙◌, ℕ, zero, suc, ◌+◌, ◌-◌, ◌≡◌, refl,
  Bool, true, false, List, [], ◌∷◌, ◌++◌, Text, if◌then◌else◌, arith, text_eq, codes, ◌==◌,
  contains, delete, length,
}
use zolt.Http.InFlight.{
  settles, no_requests, arrives, on_events, on_event, HttpEvent, set_final, track_request, is_final,
  finalize, HttpMetrics,
}

-- What an observer of the events knows: the number of the requests that have come in, those for the metrics left
-- out, the numbers of those whose response has not ended, and how many responses have ended complete.
pub record Seen : Type 0 where
  pub arrived : ℕ
  pub waiting : List ℕ
  pub complete : ℕ

abbrev pub seen_next : Seen → HttpEvent → Seen
seen_next s (arrives path) =
    if text_eq path (codes "/metrics")
    then s
    else record { arrived = suc s.arrived; waiting = s.arrived ∷ s.waiting; complete = s.complete }
seen_next s (settles n complete) =
    if contains s.waiting n
    then record {
      arrived = s.arrived;
      waiting = delete (λ m. m == n) s.waiting;
      complete = if complete then suc s.complete else s.complete;
    }
    else s

abbrev pub seen : Seen → List HttpEvent → Seen
seen s [] = s
seen s (e ∷ es) = seen (seen_next s e) es

abbrev pub nothing_seen : Seen
nothing_seen = record { arrived = 0; waiting = []; complete = 0 }

-- How often a number stands in a list.
abbrev times : ℕ → List ℕ → ℕ
times n xs = count (λ m. m == n) xs

abbrev once_if : Bool → ℕ
once_if b = if b then 0 else 1

contains-times : (n : ℕ) (xs : List ℕ) → contains xs n ≡ not (times n xs == 0)
unfolding contains
contains-times n [] = refl
contains-times n (x ∷ xs) = ground (arith, contains-times n xs)

length-delete : (n : ℕ) (xs : List ℕ) → length (delete (λ m. m == n) xs) + times n xs ≡ length xs
unfolding delete
length-delete n [] = refl
length-delete n (x ∷ xs) = ground (arith, length-delete n xs)

times-delete :
    (k n : ℕ) (xs : List ℕ) → times k (delete (λ m. m == n) xs) ≡ (if k == n then 0 else times k xs)
unfolding delete
times-delete k n [] = ground arith
times-delete k n (x ∷ xs) = ground (arith, times-delete k n xs)

is_final-new :
    (k : ℕ) (bs : List Bool)
    → is_final k (bs ++ (false ∷ [])) ≡ (if length bs == k then false else is_final k bs)
unfolding is_final
is_final-new zero [] = refl
is_final-new (suc k) [] = ground arith
is_final-new zero (b ∷ bs) = ground arith
is_final-new (suc k) (b ∷ bs) = ground (arith, is_final-new k bs)

is_final-beyond : (bs : List Bool) → is_final (length bs) bs ≡ true
unfolding is_final
is_final-beyond [] = refl
is_final-beyond (b ∷ bs) = is_final-beyond bs

is_final-set :
    (k n : ℕ) (bs : List Bool)
    → is_final k (set_final n bs) ≡ (if k == n then true else is_final k bs)
unfolding is_final set_final
is_final-set k n [] = ground arith
is_final-set zero zero (b ∷ bs) = refl
is_final-set (suc k) zero (b ∷ bs) = ground arith
is_final-set zero (suc n) (b ∷ bs) = ground arith
is_final-set (suc k) (suc n) (b ∷ bs) = ground (arith, is_final-set k n bs)

is_final-at : (k : ℕ) (bs : List Bool) → (length bs == k) ≡ true → is_final k bs ≡ true
is_final-at k bs h = subst (λ n. is_final n bs ≡ true) (==→eq (length bs) k h) (is_final-beyond bs)

new_times :
    (k : ℕ) (bs : List Bool) (c : ℕ)
    → c ≡ once_if (is_final k bs)
    → (if length bs == k then suc c else c) ≡ once_if (is_final k (bs ++ (false ∷ [])))
new_times k bs c h = elim (Bool-cases (length bs == k)) [
  | inl e ↦ rw (is_final-new k bs, e) (ap suc (h ∙ ap once_if (is_final-at k bs e)))
  | inr e ↦ rw (is_final-new k bs, e) h
]

length-new : (bs : List Bool) → length (bs ++ (false ∷ [])) ≡ suc (length bs)
length-new [] = refl
length-new (b ∷ bs) = ap suc (length-new bs)

length-set : (n : ℕ) (bs : List Bool) → length (set_final n bs) ≡ length bs
unfolding set_final
length-set n [] = refl
length-set zero (b ∷ bs) = refl
length-set (suc n) (b ∷ bs) = ap suc (length-set n bs)

-- The gauge and the counter are what the observer has counted, and the flags tell which numbers it holds for open.
record Agrees (m : HttpMetrics) (s : Seen) : Type 0 where
  pub gauge : m.in_flight ≡ length s.waiting
  pub counter : m.completed ≡ s.complete
  pub number : length m.finalized ≡ s.arrived
  pub flags : (k : ℕ) → times k s.waiting ≡ once_if (is_final k m.finalized)

arrives-Agrees :
    (path : Text) (m : HttpMetrics) (s : Seen)
    → Agrees m s
    → Agrees (track_request path m) (seen_next s (arrives path))
unfolding track_request
arrives-Agrees path m s a = tracked (text_eq path (codes "/metrics"))
  where
    new_flag :
        (k : ℕ)
        → times k (s.arrived ∷ s.waiting) ≡ once_if (is_final k (m.finalized ++ (false ∷ [])))
    new_flag k =
        subst
          (λ l.
            (if l == k then suc (times k s.waiting) else times k s.waiting)
            ≡ once_if (is_final k (m.finalized ++ (false ∷ []))))
          a.number (new_times k m.finalized (times k s.waiting) (a.flags k))

    tracked :
        (b : Bool)
        → Agrees
            (if b then m else record m {
              in_flight = suc m.in_flight;
              finalized = m.finalized ++ (false ∷ []);
            })
            (if b then s else record {
              arrived = suc s.arrived;
              waiting = s.arrived ∷ s.waiting;
              complete = s.complete;
            })
    tracked true = a
    tracked false = record {
      gauge = ap suc a.gauge;
      counter = a.counter;
      number = length-new m.finalized ∙ ap suc a.number;
      flags = new_flag;
    }

settles-Agrees :
    (n : ℕ) (b : Bool) (m : HttpMetrics) (s : Seen)
    → Agrees m s
    → Agrees (finalize n b m) (seen_next s (settles n b))
unfolding finalize
settles-Agrees n b m s a =
    subst
      (λ held. Agrees (finalize n b m) (
        if held
        then record {
          arrived = s.arrived;
          waiting = delete (λ m. m == n) s.waiting;
          complete = if b then suc s.complete else s.complete;
        }
        else s))
      (sym held_open) (settled (is_final n m.finalized) refl)
  where
    opposite : (f : Bool) → not (once_if f == 0) ≡ not f
    opposite true = refl
    opposite false = refl

    held_open : contains s.waiting n ≡ not (is_final n m.finalized)
    held_open =
        contains-times n s.waiting
        ∙ ap (λ c. not (c == 0)) (a.flags n)
        ∙ opposite (is_final n m.finalized)

    settled_flag :
        (k : ℕ)
        → times k (delete (λ m. m == n) s.waiting) ≡ once_if (is_final k (set_final n m.finalized))
    settled_flag k =
        times-delete k n s.waiting ∙ ground (arith, a.flags k, is_final-set k n m.finalized)

    settled :
        (f : Bool)
        → is_final n m.finalized ≡ f
        → Agrees
            (if f then m else record {
              in_flight = m.in_flight - 1;
              completed = if b then suc m.completed else m.completed;
              finalized = set_final n m.finalized;
            })
            (if not f
              then record {
                arrived = s.arrived;
                waiting = delete (λ m. m == n) s.waiting;
                complete = if b then suc s.complete else s.complete;
              }
              else s)
    settled true h = a
    settled false h = record {
      gauge = omega (arith, length-delete n s.waiting, a.flags n ∙ ap once_if h, a.gauge);
      counter = ap (λ c. if b then suc c else c) a.counter;
      number = length-set n m.finalized ∙ a.number;
      flags = settled_flag;
    }

on_event-Agrees :
    (e : HttpEvent) (m : HttpMetrics) (s : Seen)
    → Agrees m s
    → Agrees (on_event e m) (seen_next s e)
unfolding on_event
on_event-Agrees (arrives path) m s a = arrives-Agrees path m s a
on_event-Agrees (settles n b) m s a = settles-Agrees n b m s a

kept :
    (es : List HttpEvent) (m : HttpMetrics) (s : Seen)
    → Agrees m s
    → Agrees (on_events es m) (seen s es)
unfolding on_events
kept [] m s a = a
kept (e ∷ es) m s a = kept es (on_event e m) (seen_next s e) (on_event-Agrees e m s a)

-- The gauge and the counter are what an observer of the events counts.
pub record IsCounted (es : List HttpEvent) (m : HttpMetrics) : Type 0 where
  pub gauge : m.in_flight ≡ length (seen nothing_seen es).waiting
  pub counter : m.completed ≡ (seen nothing_seen es).complete

-- In whatever order requests come in and their responses finish or close, be it both and repeatedly: the gauge is the
-- number of the requests, those for /metrics left out, whose response has not ended, and the counter is the number of
-- the responses that were complete when they first ended.
pub on_events-IsCounted : (es : List HttpEvent) → IsCounted es (on_events es no_requests)
unfolding is_final
on_events-IsCounted es =
    let a =
      kept es no_requests nothing_seen
        (record { gauge = refl; counter = refl; number = refl; flags = λ k. refl }) in
    record { gauge = a.gauge; counter = a.counter }
