-- ===== src/Downloader/Workers/Ends.antt =====
-- The number of turns that the workers take, counted by a budget.
use litestream.Prelude.{
  ℕ, zero, suc, ◌+◌, ◌*◌, ◌<◌, ◌≤◌, ◌≡◌, refl, ap, inl, inr, ◌==◌, List, Result, ok, err, length,
  Bool-cases, arith,
}
use litestream.Downloader.{WalDownloadInput}
use litestream.Downloader.Workers.{
  Worker, idle, fetching, waiting, stopped, Group, set_worker, start_group, after_send, send_output,
  Turn, take_input, no_input, fetch, send,
}
use litestream.Downloader.Workers.Holding.{set_worker-cases}

-- Turns that a worker may still need for what it has at hand, and to return.
abbrev weight : Worker → ℕ
weight idle = 1
weight (fetching x) = 3
weight (waiting x r) = 2
weight (stopped e) = 0

total : ℕ → (ℕ → Worker) → ℕ
total zero workers = 0
total (suc n) workers = total n workers + weight (workers n)

total-set_worker_of_le :
    (n : ℕ) (workers : ℕ → Worker) (i : ℕ) (w : Worker)
    → n ≤ i
    → total n (set_worker workers i w) ≡ total n workers
unfolding total
total-set_worker_of_le zero workers i w le = refl
total-set_worker_of_le (suc n) workers i w le = elim (set_worker-cases workers i w n) [
  | inl (e, _) ↦ absurd (omega arith)
  | inr (_, q) ↦ omega (arith, total-set_worker_of_le n workers i w (omega arith), ap weight q)
]

total-set_worker :
    (n : ℕ) (workers : ℕ → Worker) (i : ℕ) (w : Worker)
    → i < n
    → total n (set_worker workers i w) + weight (workers i) ≡ total n workers + weight w
unfolding total
total-set_worker zero workers i w lt = absurd (omega arith)
total-set_worker (suc n) workers i w lt = elim (set_worker-cases workers i w n) [
  | inl (e, q) ↦ omega (
    arith,
    total-set_worker_of_le n workers i w (omega arith),
    ap weight q,
    ap (λ k. weight (workers k)) e,
  )
  | inr (other, q) ↦ omega (arith, total-set_worker n workers i w (omega arith), ap weight q)
]

total-start : (n : ℕ) → total n (λ i. idle) ≡ n
unfolding total
total-start zero = refl
total-start (suc n) = omega (arith, total-start n)

abbrev budget : ℕ → Group → ℕ
budget n g = total n g.workers + 3 * length g.input

after_send-lt :
    {n : ℕ} (g : Group) (d : List (ℕ × Result (List ℕ))) (i : ℕ) {x : WalDownloadInput}
    {r : Result (List ℕ)} (v : Result (List ℕ))
    → i < n
    → g.workers i ≡ waiting x r
    → budget n (after_send i v (record g { next_index = g.next_index + 1; delivered = d }))
      < budget n g
unfolding after_send
after_send-lt {n} g d i (ok path) lt e =
    omega (arith, total-set_worker n g.workers i idle lt, ap weight e)
after_send-lt {n} g d i (err y) lt e =
    omega (arith, total-set_worker n g.workers i (stopped _) lt, ap weight e)

module _ (n max_index : ℕ) (download : WalDownloadInput → Result (List ℕ)) where
  Turn-lt : {g h : Group} → Turn n max_index download g h → budget n h < budget n g
  Turn-lt {g} (take_input i lt e q) =
      omega (arith, total-set_worker n g.workers i (fetching _) lt, ap weight e, ap length q)
  Turn-lt {g} (no_input i lt e q) =
      omega (arith, total-set_worker n g.workers i (stopped _) lt, ap weight e)
  Turn-lt {g} (fetch i lt e) =
      omega (arith, total-set_worker n g.workers i (waiting _ _) lt, ap weight e)
  Turn-lt {g} (send i {x} {r} lt e q) = elim (Bool-cases (g.next_index == max_index)) [
    | inl last ↦
        unfold send_output in
        rw last (omega (arith, total-set_worker n g.workers i idle lt, ap weight e))
    | inr more ↦ unfold send_output in rw more (after_send-lt g _ i r lt e)
  ]

  -- `k` turns, one after another.
  pub data Turns (s : Group) : ℕ → Group → Type 0 where
    none_yet : Turns s 0 s
    again : {k : ℕ} {g h : Group} → Turns s k g → Turn n max_index download g h → Turns s (k + 1) h

  Turns-le : {s g : Group} {k : ℕ} → Turns s k g → k + budget n g ≤ budget n s
  Turns-le none_yet = omega arith
  Turns-le (again t u) = omega (arith, Turns-le t, Turn-lt u)

  -- The workers end: from the start they make at most three turns for each input, and one for each
  -- worker.
  pub Turns-start-le :
      (min_index : ℕ) (inputs : List WalDownloadInput) {g : Group} {k : ℕ}
      → Turns (start_group min_index inputs) k g
      → k ≤ n + 3 * length inputs
  unfolding start_group
  Turns-start-le min_index inputs t = omega (arith, Turns-le t, total-start n)
