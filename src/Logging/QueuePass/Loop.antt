-- ===== src/Logging/QueuePass/Loop.antt =====
-- The loop of `ClientQueueProcessor::processRequestQueue`
-- (src/logging/client-queue-processor.cc) on a queue that nothing else changes.
use residue.Logging.LoggingQueue.{LoggingQueue, size}
use residue.Logging.LoggingQueue.Fifo.{IsSplit, to_list, pull_lem}
use residue.Logging.QueuePass.{pull_all}
use residue.Prelude.{ℕ, zero, suc, ◌≡◌, refl, some, List, [], ◌∷◌, take, drop}

-- The requests one after the other.
abbrev pub process_list {ℓ κ} : {A : Type ℓ} {S : Type κ} → (A → S → S) → List A → S → S
process_list process [] s = s
process_list process (a ∷ rest) s = process_list process rest (process a s)

pull_all_count {ℓ κ} :
    {A : Type ℓ} {S : Type κ} (process : A → S → S) (n : ℕ) (q : LoggingQueue A) (s : S)
    → IsSplit q
    → size q ≡ n
    → (q' : LoggingQueue A) × (pull_all process n q s
        ≡ some (q', process_list process (take n (to_list q)) s))
      × (to_list q' ≡ drop n (to_list q))
      × (size q' ≡ 0)
unfolding pull_all
pull_all_count process zero q s split e = (q, refl, refl, e)
pull_all_count process (suc n) q s split e =
    let (a, r, p, order, left, same, split') = pull_lem q n split e in
    let (q', done, rest, none_left) = pull_all_count process n r (process a s) split' left in
    (q', rw (p, pull_all, order) done, rw order rest, none_left)

-- The loop of a pass never pulls from an empty deque: it processes the oldest requests, as many as
-- the queue had dispatched, in the order in which they came, leaves none of them, and all the others.
pub pull_all_lem {ℓ κ} :
    {A : Type ℓ} {S : Type κ} (process : A → S → S) (q : LoggingQueue A) (s : S)
    → IsSplit q
    → (q' : LoggingQueue A) × (pull_all process (size q) q s
        ≡ some (q', process_list process (take (size q) (to_list q)) s))
      × (to_list q' ≡ drop (size q) (to_list q))
      × (size q' ≡ 0)
pull_all_lem process q s split = pull_all_count process (size q) q s split refl
