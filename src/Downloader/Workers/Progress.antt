-- ===== src/Downloader/Workers/Progress.antt =====
-- All runs of the workers: what `Next` has received, and what the workers can do next.
use litestream.Prelude.{
  ℕ, ◌+◌, ◌<◌, ◌≤◌, ◌≡◌, refl, sym, ap, ◌∙◌, subst, inl, inr, true, false, none, some, Option-cases,
  List, [], ◌∷◌, ◌++◌, map, Result, length, length-append, arith,
}
use litestream.Downloader.{WalDownloadInput}
use litestream.Downloader.Input.{Sequential}
use litestream.Downloader.Workers.{
  Worker, idle, fetching, waiting, stopped, Group, start_group, Turn, take_input, no_input, fetch,
  send, Step, turn, stop, give_up, cancel, Reach, here, next,
}
use litestream.Downloader.Workers.Holding.{In, In-append, held}
use litestream.Downloader.Workers.Order.{
  InOrder, outcome, release-InOrder, fetch-InOrder, cancel-InOrder, take-InOrder,
  pending-Sequential,
}
use litestream.Downloader.Workers.Send.{send-InOrder}

module _ (n min_index max_index : ℕ) (download : WalDownloadInput → Result (List ℕ))
    (inputs : List WalDownloadInput) where
  -- What Next has received, and what a closed output channel means.
  abbrev pub Received : Group → Type 0
  Received g =
      (done : List WalDownloadInput) × (rest : List WalDownloadInput) × (inputs ≡ done ++ rest)
      × (g.delivered ≡ map (outcome download) done)
      × (g.closed ≡ true → (rest ≡ []) × ((i : ℕ) → held (g.workers i) ≡ none))

  -- A worker can take an input, download it, send or return.
  abbrev pub CanTurn : Group → Type 0
  CanTurn g = (h : Group) × Turn n max_index download g h

  start-InOrder :
      min_index ≤ max_index
      → InOrder n min_index max_index download inputs (start_group min_index inputs)
  unfolding start_group
  start-InOrder le = record {
    done = [];
    pend = [];
    split = refl;
    delivered = refl;
    holding = record { mine = λ i x h. cc; result = λ i x r h. cc; distinct = λ i j x y h k e. cc };
    at_next = λ c. (omega arith, le);
    ended = λ c. cc;
    owned = λ c x k. elim k [ ];
    busy = λ c i e k. cc;
  }

  module _ (seq : Sequential min_index inputs)
      (size : min_index + length inputs ≡ max_index + 1) where
    Turn-InOrder :
        {g h : Group}
        → Turn n max_index download g h
        → InOrder n min_index max_index download inputs g
        → InOrder n min_index max_index download inputs h
    Turn-InOrder (take_input i lt e q) o =
        take-InOrder n min_index max_index download inputs seq o i lt e q
    Turn-InOrder (no_input i lt e q) o =
        release-InOrder n min_index max_index download inputs o i (stopped none) refl
          (λ c. (ap held e, q))
    Turn-InOrder (fetch i lt e) o = fetch-InOrder n min_index max_index download inputs o i e
    Turn-InOrder (send i lt e q) o =
        send-InOrder n min_index max_index download inputs seq size o i e q

    Step-InOrder :
        {g h : Group}
        → Step n max_index download g h
        → InOrder n min_index max_index download inputs g
        → InOrder n min_index max_index download inputs h
    Step-InOrder (turn t) o = Turn-InOrder t o
    Step-InOrder (stop i lt c e) o =
        release-InOrder n min_index max_index download inputs o i _ refl (λ d. cc)
    Step-InOrder (give_up i lt c e) o =
        release-InOrder n min_index max_index download inputs o i _ refl (λ d. cc)
    Step-InOrder cancel o = cancel-InOrder n min_index max_index download inputs o

    Reach-InOrder :
        {g : Group}
        → min_index ≤ max_index
        → Reach n max_index download (start_group min_index inputs) g
        → InOrder n min_index max_index download inputs g
    Reach-InOrder le here = start-InOrder le
    Reach-InOrder le (next r s) = Step-InOrder s (Reach-InOrder le r)

    -- For inputs with the indexes from `min_index` to `max_index`, and whatever the workers and the
    -- caller do: what Next has received is what downloadWAL gives for the first inputs, one for
    -- each and in their order; and once the output channel is closed, it is that of all inputs and
    -- no worker has anything left to send.
    pub Reach-Received :
        {g : Group}
        → min_index ≤ max_index
        → Reach n max_index download (start_group min_index inputs) g
        → Received g
    Reach-Received {g} le r =
        let o = Reach-InOrder le r in
        (
          o.done,
          o.pend ++ g.input,
          o.split,
          o.delivered,
          λ c. (
            o.ended c,
            λ i. elim (Option-cases (held (g.workers i))) [
              | inl e ↦ e
              | inr (x, e) ↦
                  absurd
                    (subst (In x) (o.ended c) (In-append x o.pend g.input (o.holding.mine i x e)))
            ],
          ),
        )

    go_on :
        {g : Group} (o : InOrder n min_index max_index download inputs g)
        → 0 < n
        → g.is_canceled ≡ false
        → g.closed ≡ false
        → (pend : List WalDownloadInput) → o.pend ≡ pend
        → (input : List WalDownloadInput) → g.input ≡ input
        → CanTurn g
    go_on {g} o some_worker live open_still (x ∷ pend) e input q =
        let (i, lt, h) = o.owned live x (subst (In x) (sym e) (inl refl)) in
        let s = pending-Sequential n min_index max_index download inputs seq o in
        let first = (subst (λ p. Sequential (min_index + length o.done) (p ++ g.input)) e s).0 in
        holding_first i lt h (g.workers i) refl ((o.at_next open_still).0 ∙ sym first)
      where
        holding_first :
            (i : ℕ)
            → i < n
            → held (g.workers i) ≡ some x
            → (w : Worker) → g.workers i ≡ w
            → g.next_index ≡ x.index
            → CanTurn g
        holding_first i lt h idle w at = cc
        holding_first i lt h (stopped y) w at = cc
        holding_first i lt h (fetching y) w at = (_, fetch i lt w)
        holding_first i lt h (waiting y r) w at =
            let same : x ≡ y = cc in
            (_, send i lt w (at ∙ ap (λ (v : WalDownloadInput). v.index) same))
    go_on {g} o some_worker live open_still [] e (y ∷ rest) q = free (g.workers 0) refl
      where
        free : (w : Worker) → g.workers 0 ≡ w → CanTurn g
        free idle w = (_, take_input 0 some_worker w q)
        free (stopped z) w = cc (o.busy live 0 z w)
        free (fetching z) w = absurd (subst (In z) e (o.holding.mine 0 z (ap held w)))
        free (waiting z r) w = absurd (subst (In z) e (o.holding.mine 0 z (ap held w)))
    go_on {g} o some_worker live open_still [] e [] q =
        let at = o.at_next open_still in
        absurd (
          omega (
            arith,
            size,
            at.0,
            at.1,
            ap length o.split,
            length-append o.done (o.pend ++ g.input),
            length-append o.pend g.input,
            ap length e,
            ap length q,
          ))

    -- With at least one worker, the workers never come to a stop before the output channel is
    -- closed, unless the context is canceled: one of them can take an input, download, send, or
    -- return for want of input.
    pub Reach-CanTurn :
        {g : Group}
        → 0 < n
        → min_index ≤ max_index
        → Reach n max_index download (start_group min_index inputs) g
        → g.is_canceled ≡ false
        → g.closed ≡ false
        → CanTurn g
    Reach-CanTurn {g} some_worker le r live open_still =
        let o = Reach-InOrder le r in go_on o some_worker live open_still o.pend refl g.input refl
