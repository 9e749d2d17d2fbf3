-- ===== src/Logging/LoggingQueue/Drain.antt =====
-- `LoggingQueue` (src/logging/logging-queue.cc) when no more requests are pushed.
use mathlib.Core.List.{reverse}
use residue.Logging.LoggingQueue.{
  LoggingQueue, dispatch_items, backlog_items, size, backlog_size, switch_context,
}
use residue.Logging.LoggingQueue.Fifo.{
  Worker, Event, works, Inv, start, start-Inv, step, step-Inv, run, run-whole, whole, pushed,
  to_list, work_at, pull_lem, nil_of_length,
}
use residue.Prelude.{
  ℕ, zero, suc, ◌+◌, ◌≤◌, ◌<◌, ◌≡◌, refl, sym, ap, ◌∙◌, ◌⊎◌, inl, List, [], ◌∷◌, ◌++◌, append-nil,
  arith, length, replicate, length-append, length-reverse,
}

module _ {ℓ} {A : Type ℓ} where
  abbrev Sizes : Worker A → ℕ → ℕ → Type 0
  Sizes w d b = (size w.queue ≡ d) × (backlog_size w.queue ≡ b)

  length-to_list : (q : LoggingQueue A) → length (to_list q) ≡ size q + backlog_size q
  unfolding to_list size backlog_size
  length-to_list q = omega (
    arith,
    length-append (reverse (dispatch_items q)) (reverse (backlog_items q)),
    length-reverse (dispatch_items q),
    length-reverse (backlog_items q),
  )

  -- A step of the worker takes one request of its pass, or starts a pass over the backlog.
  work-Sizes :
      (w : Worker A) (d b : ℕ)
      → Inv w
      → Sizes w d b
      → Sizes (step w works) (elim d [ zero ↦ b | suc n ↦ n ]) (elim d [ zero ↦ 0 | suc n ↦ b ])
  unfolding step
  work-Sizes w zero b i s = go w.remaining (i.snapshot ∙ s.0)
    where
      go : (n : ℕ) → n ≡ 0 → Sizes (work_at n w) b 0
      go zero e = (
        unfold size backlog_size switch_context in s.1,
        unfold size backlog_size switch_context in s.0,
      )
      go (suc n) e = absurd (omega arith)
  work-Sizes w (suc d) b i s = go w.remaining (i.snapshot ∙ s.0)
    where
      go : (n : ℕ) → n ≡ suc d → Sizes (work_at n w) d b
      go zero e = absurd (omega arith)
      go (suc n) e =
          let (a, r, p, order, left, same, split) =
            pull_lem w.queue n i.split (omega (arith, s.0)) in
          rw (p, work_at) (omega arith, same ∙ s.1)

  drain :
      (k d b : ℕ) (w : Worker A)
      → Inv w
      → Sizes w d b
      → (d + b < k) ⊎ ((b ≡ 0) × (d ≤ k))
      → to_list (run w (replicate k works)).queue ≡ []
  unfolding run
  drain zero d b w i s h =
      nil_of_length (to_list w.queue) (omega (arith, length-to_list w.queue, s.0, s.1))
  drain (suc k) zero b w i s h =
      drain k b 0 (step w works) (step-Inv w works i) (work-Sizes w zero b i s) (omega arith)
  drain (suc k) (suc d) b w i s h =
      drain k d b (step w works) (step-Inv w works i) (work-Sizes w (suc d) b i s) (omega arith)

  pushed_works : (k : ℕ) → pushed {A = A} (replicate k works) ≡ []
  pushed_works zero = refl
  pushed_works (suc k) = pushed_works k

  run-append : (es fs : List (Event A)) (w : Worker A) → run w (es ++ fs) ≡ run (run w es) fs
  unfolding run
  run-append [] fs w = refl
  run-append (e ∷ es) fs w = run-append es fs (step w e)

  -- After any interleaving, with no more pushes, one step more than requests were pushed is enough
  -- for the worker to have taken all of them, in the order in which they were pushed.
  pub drained :
      (es : List (Event A)) (k : ℕ)
      → length (pushed es) < k
      → (run start (es ++ replicate k works)).taken ≡ pushed es
  drained es k h = rw (run-append es (replicate k works) start) (sym (append-nil _) ∙ all)
    where
      w : Worker A
      w = run start es

      before : (whole w ≡ pushed es) × Inv w
      before = unfold to_list in run-whole es start start-Inv

      few : size w.queue + backlog_size w.queue < k
      few = omega (
        arith,
        h,
        ap length before.0,
        length-append w.taken (to_list w.queue),
        length-to_list w.queue,
      )

      after : Worker A
      after = run w (replicate k works)

      none_left : to_list after.queue ≡ []
      none_left = drain k _ _ w before.1 (refl, refl) (inl few)

      all : after.taken ++ [] ≡ pushed es
      all =
          ap (λ l. after.taken ++ l) (sym none_left)
          ∙ (run-whole (replicate k works) w before.1).0
          ∙ ap (λ l. whole w ++ l) (pushed_works k)
          ∙ append-nil (whole w)
          ∙ before.0
