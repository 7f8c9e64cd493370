-- ===== src/Downloader/Workers/Order.antt =====
-- What holds between two steps of the workers; the steps but a send.
use mathlib.Core.List.{append_assoc}
use litestream.Prelude.{
  ℕ, ◌+◌, ◌<◌, ◌≤◌, ◌≡◌, refl, sym, ap, ◌∙◌, subst, inl, inr, true, false, Option, none, some, List,
  [], ◌∷◌, ◌++◌, map, Error, Result, length, arith,
}
use litestream.Downloader.{WalDownloadInput}
use litestream.Downloader.Input.{Sequential}
use litestream.Downloader.Workers.{Worker, idle, fetching, waiting, stopped, Group, move_to}
use litestream.Downloader.Workers.Holding.{
  In, held, In-snoc, Sequential-range, Sequential-drop, Sequential-take, set_worker-cases, Holding,
  release-Holding, fetch-Holding, take-Holding,
}

-- What Next receives for an input.
abbrev pub outcome : (WalDownloadInput → Result (List ℕ)) → WalDownloadInput → ℕ × Result (List ℕ)
outcome download x = (x.index, download x)

module _ (n min_index max_index : ℕ) (download : WalDownloadInput → Result (List ℕ))
    (all : List WalDownloadInput) where
  -- The inputs are those that Next has received, those that the workers took, and those in the
  -- channel, in this order; what happens until the context is canceled is in the last two fields.
  pub record InOrder (g : Group) : Type 0 where
    pub done : List WalDownloadInput
    pub pend : List WalDownloadInput
    pub split : all ≡ done ++ (pend ++ g.input)
    pub delivered : g.delivered ≡ map (outcome download) done
    pub holding : Holding download pend g.workers
    pub at_next :
        g.closed ≡ false → (g.next_index ≡ min_index + length done) × (g.next_index ≤ max_index)
    pub ended : g.closed ≡ true → pend ++ g.input ≡ []
    pub owned :
        g.is_canceled ≡ false
        → (x : WalDownloadInput) → In x pend
        → (i : ℕ) × (i < n) × (held (g.workers i) ≡ some x)
    pub busy :
        g.is_canceled ≡ false → (i : ℕ) (e : Option Error) → g.workers i ≡ stopped e → g.input ≡ []

  pub release-InOrder :
      {g : Group}
      → InOrder g
      → (i : ℕ) (w : Worker) → held w ≡ none
      → (g.is_canceled ≡ false → (held (g.workers i) ≡ none) × (g.input ≡ []))
      → InOrder (move_to g i w)
  release-InOrder {g} o i w free live = record {
    done = o.done;
    pend = o.pend;
    split = o.split;
    delivered = o.delivered;
    holding = release-Holding download o.holding i w free;
    at_next = o.at_next;
    ended = o.ended;
    owned = λ c x k.
        let (j, lt, h) = o.owned c x k in
        elim (set_worker-cases g.workers i w j) [
          | inl (a, q) ↦ cc (ap (λ k. held (g.workers k)) a, (live c).0)
          | inr (a, q) ↦ (j, lt, ap held q ∙ h)
        ];
    busy = λ c j e k. (live c).1;
  }

  pub fetch-InOrder :
      {g : Group} {x : WalDownloadInput}
      → InOrder g
      → (i : ℕ) → g.workers i ≡ fetching x
      → InOrder (move_to g i (waiting x (download x)))
  fetch-InOrder {g} {x} o i e = record {
    done = o.done;
    pend = o.pend;
    split = o.split;
    delivered = o.delivered;
    holding = fetch-Holding download o.holding i x e;
    at_next = o.at_next;
    ended = o.ended;
    owned = λ c y k.
        let (j, lt, h) = o.owned c y k in
        elim (set_worker-cases g.workers i (waiting x (download x)) j) [
          | inl (a, q) ↦ (j, lt, ap held q ∙ (ap held (sym (ap g.workers a ∙ e)) ∙ h))
          | inr (a, q) ↦ (j, lt, ap held q ∙ h)
        ];
    busy = λ c j y k. elim (set_worker-cases g.workers i (waiting x (download x)) j) [
      | inl (a, q) ↦ cc
      | inr (a, q) ↦ o.busy c j y (sym q ∙ k)
    ];
  }

  pub cancel-InOrder : {g : Group} → InOrder g → InOrder (record g { is_canceled = true })
  cancel-InOrder o = record {
    done = o.done;
    pend = o.pend;
    split = o.split;
    delivered = o.delivered;
    holding = o.holding;
    at_next = o.at_next;
    ended = o.ended;
    owned = λ c. cc;
    busy = λ c. cc;
  }

  module _ (seq : Sequential min_index all) where
    -- The indexes of the inputs that Next has not received.
    pub pending-Sequential :
        {g : Group} (o : InOrder g) → Sequential (min_index + length o.done) (o.pend ++ g.input)
    pending-Sequential {g} o =
        Sequential-drop min_index o.done (o.pend ++ g.input)
          (subst (Sequential min_index) o.split seq)

    pub take-InOrder :
        {g : Group} {x : WalDownloadInput} {rest : List WalDownloadInput}
        → InOrder g
        → (i : ℕ) → i < n
        → g.workers i ≡ idle
        → g.input ≡ x ∷ rest
        → InOrder (record (move_to g i (fetching x)) { input = rest })
    take-InOrder {g} {x} {rest} o i lt e q =
        let move : o.pend ++ g.input ≡ (o.pend ++ x ∷ []) ++ rest =
          ap (λ l. o.pend ++ l) q ∙ sym (append_assoc o.pend (x ∷ []) rest) in
        let s = pending-Sequential o in
        let behind =
          Sequential-drop (min_index + length o.done) o.pend (x ∷ rest)
            (subst (λ l. Sequential (min_index + length o.done) (o.pend ++ l)) q s) in
        let front = Sequential-take (min_index + length o.done) o.pend g.input s in
        record {
          done = o.done;
          pend = o.pend ++ x ∷ [];
          split = o.split ∙ ap (λ l. o.done ++ l) move;
          delivered = o.delivered;
          holding = take-Holding download o.holding i x (λ y k same. omega (
            arith,
            (Sequential-range (min_index + length o.done) o.pend y front k).1,
            behind.0,
            same,
          ));
          at_next = o.at_next;
          ended = λ c. sym move ∙ o.ended c;
          owned = λ c y k. elim (In-snoc y x o.pend k) [
            | inl old ↦
                let (j, small, h) = o.owned c y old in
                elim (set_worker-cases g.workers i (fetching x) j) [
                  | inl (a, r) ↦ cc (ap held (ap g.workers a ∙ e))
                  | inr (a, r) ↦ (j, small, ap held r ∙ h)
                ]
            | inr new ↦ elim (set_worker-cases g.workers i (fetching x) i) [
              | inl (a, r) ↦ (i, lt, ap held r ∙ ap some (sym new))
              | inr (a, r) ↦ absurd (a refl)
            ]
          ];
          busy = λ c j y k. elim (set_worker-cases g.workers i (fetching x) j) [
            | inl (a, r) ↦ cc
            | inr (a, r) ↦ cc (o.busy c j y (sym r ∙ k))
          ];
        }
