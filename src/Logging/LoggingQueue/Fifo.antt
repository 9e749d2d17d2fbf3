-- ===== src/Logging/LoggingQueue/Fifo.antt =====
-- `LoggingQueue` (src/logging/logging-queue.cc) with one worker that empties it by passes, as
-- `ClientQueueProcessor` does, and any number of threads that push meanwhile.
use mathlib.Core.List.{reverse, reverse-cons, reverse-append}
use residue.Logging.LoggingQueue.{
  LoggingQueue, Slot, queue1, queue2, initial, at, store, dispatch_items, backlog_items, pop_back,
  push, pull, size, backlog_size, switch_context,
}
use residue.Prelude.{
  ℕ, zero, suc, ◌≡◌, refl, sym, ap, ◌∙◌, ◌≢◌, ◌⊎◌, inl, inr, Option, none, some, List, [], ◌∷◌,
  ◌++◌, append_assoc, append-nil, arith, length, length-append,
}

-- The worker: what is left of its pass, and what it has taken, oldest first.
pub record Worker {ℓ} (A : Type ℓ) : Type ℓ where
  pub queue : LoggingQueue A
  pub remaining : ℕ
  pub taken : List A

-- What happens next: a thread pushes a request, or the worker goes one step on.
pub data Event {ℓ} (A : Type ℓ) : Type ℓ where
  pushes : A → Event A
  works : Event A

module _ {ℓ} {A : Type ℓ} where
  -- The two pointers never agree.
  abbrev pub IsSplit : LoggingQueue A → Type 0
  IsSplit q = q.backlog_queue ≢ q.dispatch_queue

  -- The requests that wait, oldest first.
  unfoldable pub to_list : LoggingQueue A → List A
  to_list q = reverse (dispatch_items q) ++ reverse (backlog_items q)

  -- `pop_back` takes the last item off, and finds none in the empty deque only.
  pub pop_back_lem :
      (xs : List A)
      → ((xs ≡ []) × (pop_back xs ≡ none))
        ⊎ ((a : A) × (rest : List A) × (pop_back xs ≡ some (a, rest)) × (xs ≡ rest ++ a ∷ []))
  unfolding pop_back
  pop_back_lem [] = inl (refl, refl)
  pop_back_lem (x ∷ xs) = elim (pop_back_lem xs) [
    | inl (e, p) ↦ inr (x, [], rw (p, pop_back) refl, ap (◌∷◌ x) e)
    | inr (a, rest, p, e) ↦ inr (a, x ∷ rest, rw (p, pop_back) refl, ap (◌∷◌ x) e)
  ]

  reverse-snoc : (xs : List A) (a : A) → reverse (xs ++ a ∷ []) ≡ a ∷ reverse xs
  reverse-snoc xs a = reverse-append xs (a ∷ [])

  abbrev pub after_pull : Worker A → ℕ → Option (A × LoggingQueue A) → Worker A
  after_pull w n none = record w { remaining = n }
  after_pull w n (some (a, q)) = record { queue = q; remaining = n; taken = w.taken ++ a ∷ [] }

  -- `processRequestQueue`: as many pulls as its snapshot of the size said, then the switch.
  unfoldable pub work_at : ℕ → Worker A → Worker A
  work_at zero w = let q = switch_context w.queue in record w { queue = q; remaining = size q }
  work_at (suc n) w = after_pull w n (pull w.queue)

  unfoldable pub step : Worker A → Event A → Worker A
  unfolding work_at
  step w (pushes a) = record w { queue = push w.queue a }
  step w works = work_at w.remaining w

  unfoldable pub run : Worker A → List (Event A) → Worker A
  run w [] = w
  run w (e ∷ es) = run (step w e) es

  abbrev pub start : Worker A
  start = record { queue = initial; remaining = 0; taken = [] }

  abbrev pub pushed : List (Event A) → List A
  pushed [] = []
  pushed (pushes a ∷ es) = a ∷ pushed es
  pushed (works ∷ es) = pushed es

  pub record Inv (w : Worker A) : Type ℓ where
    pub split : IsSplit w.queue
    pub snapshot : w.remaining ≡ size w.queue

  at-store_self : (q : LoggingQueue A) (s : Slot) (items : List A) → at (store q s items) s ≡ items
  at-store_self q queue1 items = refl
  at-store_self q queue2 items = refl

  at-store_ne :
      (q : LoggingQueue A) (s t : Slot) (items : List A) → s ≢ t → at (store q s items) t ≡ at q t
  at-store_ne q queue1 queue1 items h = absurd (h refl)
  at-store_ne q queue1 queue2 items h = refl
  at-store_ne q queue2 queue1 items h = refl
  at-store_ne q queue2 queue2 items h = absurd (h refl)

  pub to_list-push :
      (q : LoggingQueue A) (a : A) → IsSplit q → to_list (push q a) ≡ to_list q ++ a ∷ []
  unfolding to_list push
  to_list-push q a h =
      rw
        (
          at-store_ne q q.backlog_queue q.dispatch_queue (a ∷ backlog_items q) h,
          at-store_self q q.backlog_queue (a ∷ backlog_items q),
          reverse-cons a (backlog_items q),
        )
        (sym (append_assoc (reverse (dispatch_items q)) (reverse (backlog_items q)) (a ∷ [])))

  size-push : (q : LoggingQueue A) (a : A) → IsSplit q → size (push q a) ≡ size q
  unfolding size push
  size-push q a h = ap length (at-store_ne q q.backlog_queue q.dispatch_queue _ h)

  -- A pull hands over the oldest request that waits, while any is left of the pass.
  pub pull_lem :
      (q : LoggingQueue A) (n : ℕ)
      → IsSplit q
      → size q ≡ suc n
      → (a : A) × (r : LoggingQueue A) × (pull q ≡ some (a, r))
        × (to_list q ≡ a ∷ to_list r)
        × (size r ≡ n)
        × (backlog_size r ≡ backlog_size q)
        × IsSplit r
  unfolding pull size backlog_size to_list
  pull_lem q n h e = elim (pop_back_lem (dispatch_items q)) [
    | inl (empty, _) ↦ absurd (omega (arith, ap length empty))
    | inr (a, rest, p, split) ↦
        let d = q.dispatch_queue in
        let self = at-store_self q d rest in
        (
          a,
          store q d rest,
          rw (p, pull) refl,
          rw (self, at-store_ne q d q.backlog_queue rest (λ s. h (sym s)))
              (ap (λ l. reverse l ++ reverse (backlog_items q)) split
                ∙ ap (λ l. l ++ reverse (backlog_items q)) (reverse-snoc rest a)),
          omega (arith, ap length split, length-append rest (a ∷ []), ap length self),
          ap length (at-store_ne q d q.backlog_queue rest (λ s. h (sym s))),
          h,
        )
  ]

  pub nil_of_length : (xs : List A) → length xs ≡ 0 → xs ≡ []
  nil_of_length [] h = refl
  nil_of_length (x ∷ xs) h = absurd (omega arith)

  -- The switch keeps the order where the pass has emptied the dispatched half.
  to_list-switch : (q : LoggingQueue A) → size q ≡ 0 → to_list (switch_context q) ≡ to_list q
  unfolding switch_context size to_list
  to_list-switch q e = rw (nil_of_length (dispatch_items q) e) (append-nil _)

  pub step-Inv : (w : Worker A) (e : Event A) → Inv w → Inv (step w e)
  unfolding step
  step-Inv w (pushes a) i = record {
    split = unfold push in i.split;
    snapshot = i.snapshot ∙ sym (size-push w.queue a i.split);
  }
  step-Inv w works i = work_at-Inv w.remaining i.snapshot
    where
      work_at-Inv : (n : ℕ) → n ≡ size w.queue → Inv (work_at n w)
      work_at-Inv zero e = record {
        split = unfold switch_context in (λ s. i.split (sym s));
        snapshot = refl;
      }
      work_at-Inv (suc n) e =
          let (a, r, p, order, left, same, split) = pull_lem w.queue n i.split (sym e) in
          rw (p, work_at) (record { split = split; snapshot = sym left })

  -- One step adds to the whole what is pushed in it.
  abbrev pub whole : Worker A → List A
  whole w = w.taken ++ to_list w.queue

  whole-step : (w : Worker A) (e : Event A) → Inv w → whole (step w e) ≡ whole w ++ pushed (e ∷ [])
  unfolding step
  whole-step w (pushes a) i =
      ap (λ l. w.taken ++ l) (to_list-push w.queue a i.split) ∙ sym (append_assoc w.taken _ _)
  whole-step w works i = work_at-whole w.remaining i.snapshot ∙ sym (append-nil _)
    where
      work_at-whole : (n : ℕ) → n ≡ size w.queue → whole (work_at n w) ≡ whole w
      work_at-whole zero e = ap (λ l. w.taken ++ l) (to_list-switch w.queue (sym e))
      work_at-whole (suc n) e =
          let (a, r, p, order, left, same, split) = pull_lem w.queue n i.split (sym e) in
          rw (p, work_at)
            (append_assoc w.taken (a ∷ []) (to_list r) ∙ ap (λ l. w.taken ++ l) (sym order))

  pushed_split :
      (e : Event A) (es : List (Event A)) → pushed (e ∷ []) ++ pushed es ≡ pushed (e ∷ es)
  pushed_split (pushes a) es = refl
  pushed_split works es = refl

  pub start-Inv : Inv start
  unfolding size
  start-Inv = record { split = λ e. cc; snapshot = refl }

  pub run-whole :
      (es : List (Event A)) (w : Worker A)
      → Inv w
      → (whole (run w es) ≡ whole w ++ pushed es) × Inv (run w es)
  unfolding run
  run-whole [] w i = (sym (append-nil _), i)
  run-whole (e ∷ es) w i =
      let (order, inv) = run-whole es (step w e) (step-Inv w e i) in
      (order ∙ ap (λ l. l ++ pushed es) (whole-step w e i) ∙ pushed-cons, inv)
    where
      pushed-cons : (whole w ++ pushed (e ∷ [])) ++ pushed es ≡ whole w ++ pushed (e ∷ es)
      pushed-cons =
          append_assoc (whole w) _ (pushed es) ∙ ap (λ l. whole w ++ l) (pushed_split e es)

  -- Whatever the interleaving of pushes with the worker's pulls and switches, the requests that the
  -- worker has taken, followed by those that still wait, are the requests that were pushed, each
  -- once and in the order in which they came.
  pub fifo : (es : List (Event A)) → whole (run start es) ≡ pushed es
  unfolding to_list
  fifo es = (run-whole es start start-Inv).0
