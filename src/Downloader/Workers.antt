-- ===== src/Downloader/Workers.antt =====
-- The goroutines of `WALDownloader.downloader` and the calls of `Next`, as a step relation: each
-- constructor is one choice of a worker's `select`, or the part of it that runs under the lock.
pub mod Holding
pub mod Order
pub mod Send
pub mod Progress
pub mod Ends
use litestream.Prelude.{
  ℕ, ◌+◌, ◌<◌, ◌≡◌, Bool, true, false, ◌==◌, if◌then◌else◌, Option, none, some, List, [], ◌∷◌, ◌++◌,
  Error, canceled, Result, ok, err,
}
use litestream.Downloader.{WalDownloadInput}

-- Where a worker is: before the receive from the input channel, in downloadWAL, behind it with its
-- result, or returned.
pub data Worker : Type 0 where
  idle : Worker
  fetching : WalDownloadInput → Worker
  waiting : WalDownloadInput → Result (List ℕ) → Worker
  stopped : Option Error → Worker

-- The fields of WALDownloader that the workers share. `input` is what is left in the closed input
-- channel; `delivered` is what calls of Next have received from the output channel.
pub record Group : Type 0 where
  pub input : List WalDownloadInput
  pub next_index : ℕ
  pub closed : Bool
  pub is_canceled : Bool
  pub workers : ℕ → Worker
  pub delivered : List (ℕ × Result (List ℕ))

unfoldable pub set_worker : (ℕ → Worker) → ℕ → Worker → ℕ → Worker
set_worker workers i w j = if j == i then w else workers j

-- At the end of WALDownloader.init.
unfoldable pub start_group : ℕ → List WalDownloadInput → Group
start_group min_index inputs = record {
  input = inputs;
  next_index = min_index;
  closed = false;
  is_canceled = false;
  workers = λ i. idle;
  delivered = [];
}

abbrev pub move_to : Group → ℕ → Worker → Group
move_to g i w = record g { workers = set_worker g.workers i w }

-- `return err` behind the update of nextIndex: an error ends the worker, and the group's context is
-- canceled with it.
unfoldable pub after_send : ℕ → Result (List ℕ) → Group → Group
after_send i (ok path) g = move_to g i idle
after_send i (err e) g = record (move_to g i (stopped (some e))) { is_canceled = true }

-- The send to the output channel, and what follows it under the lock.
unfoldable pub send_output : ℕ → ℕ → WalDownloadInput → Result (List ℕ) → Group → Group
send_output max_index i x r g =
    let sent = record g { delivered = g.delivered ++ (x.index, r) ∷ [] } in
    if g.next_index == max_index
    then move_to (record sent { closed = true }) i idle
    else after_send i r (record sent { next_index = g.next_index + 1 })

-- `n` workers, and what downloadWAL returns for an input.
module _ (n max_index : ℕ) (download : WalDownloadInput → Result (List ℕ)) where
  -- What a worker, or the caller for it, does.
  pub data Turn (g : Group) : Group → Type 0 where
    take_input :
        (i : ℕ) {x : WalDownloadInput} {rest : List WalDownloadInput}
        → i < n
        → g.workers i ≡ idle
        → g.input ≡ x ∷ rest
        → Turn g (record (move_to g i (fetching x)) { input = rest })
    no_input :
        (i : ℕ) → i < n → g.workers i ≡ idle → g.input ≡ [] → Turn g (move_to g i (stopped none))
    fetch :
        (i : ℕ) {x : WalDownloadInput}
        → i < n
        → g.workers i ≡ fetching x
        → Turn g (move_to g i (waiting x (download x)))
    send :
        (i : ℕ) {x : WalDownloadInput} {r : Result (List ℕ)}
        → i < n
        → g.workers i ≡ waiting x r
        → g.next_index ≡ x.index
        → Turn g (send_output max_index i x r g)

  -- With what happens once the context is canceled, and the cancellation by Close.
  pub data Step (g : Group) : Group → Type 0 where
    turn : {h : Group} → Turn g h → Step g h
    stop :
        (i : ℕ)
        → i < n
        → g.is_canceled ≡ true
        → g.workers i ≡ idle
        → Step g (move_to g i (stopped (some canceled)))
    give_up :
        (i : ℕ) {x : WalDownloadInput} {r : Result (List ℕ)}
        → i < n
        → g.is_canceled ≡ true
        → g.workers i ≡ waiting x r
        → Step g (move_to g i (stopped (some canceled)))
    cancel : Step g (record g { is_canceled = true })

  pub data Reach (s : Group) : Group → Type 0 where
    here : Reach s s
    next : {g h : Group} → Reach s g → Step g h → Reach s h
