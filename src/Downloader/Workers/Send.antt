-- ===== src/Downloader/Workers/Send.antt =====
-- A send to the output channel, and what holds between two steps.
use mathlib.Core.List.{append_assoc, map-append}
use litestream.Prelude.{
  ℕ, suc, ◌+◌, ◌<◌, ◌≤◌, ◌≡◌, refl, sym, ap, ◌∙◌, subst, ◌≢◌, inl, inr, false, ◌==◌, ==_iff, Option,
  none, some, List, [], ◌∷◌, ◌++◌, map, Error, Result, ok, err, length, length-append, Bool-cases,
  arith,
}
use litestream.Downloader.{WalDownloadInput}
use litestream.Downloader.Input.{Sequential}
use litestream.Downloader.Workers.{
  Worker, idle, waiting, stopped, Group, set_worker, after_send, send_output,
}
use litestream.Downloader.Workers.Holding.{
  In, held, In-append, Sequential-range, Sequential-take, set_worker-cases, Holding, send-Holding,
}
use litestream.Downloader.Workers.Order.{InOrder, outcome, pending-Sequential}

first_of :
    (m : ℕ) (pend : List WalDownloadInput) (x : WalDownloadInput)
    → Sequential m pend
    → In x pend
    → x.index ≡ m
    → (rest : List WalDownloadInput) × (pend ≡ x ∷ rest)
      × ((z : WalDownloadInput) → In z rest → z.index ≢ x.index)
first_of m [] x s k e = elim k [ ]
first_of m (y ∷ pend) x s (inr k) e =
    absurd (omega (arith, (Sequential-range (suc m) pend x s.2 k).0, e))
first_of m (y ∷ pend) x s (inl q) e =
    (pend, rw q, λ z k same. omega (arith, (Sequential-range (suc m) pend z s.2 k).0, same, e))

nil_of_length : {A : Type 0} (xs : List A) → length xs ≡ 0 → xs ≡ []
nil_of_length [] h = refl
nil_of_length (x ∷ xs) h = absurd (omega arith)

module _ (n min_index max_index : ℕ) (download : WalDownloadInput → Result (List ℕ))
    (all : List WalDownloadInput) (seq : Sequential min_index all)
    (size : min_index + length all ≡ max_index + 1) {g : Group}
    (o : InOrder n min_index max_index download all g) (i : ℕ) {x : WalDownloadInput}
    {r : Result (List ℕ)} (e : g.workers i ≡ waiting x r) (q : g.next_index ≡ x.index) where
  holds : held (g.workers i) ≡ some x
  holds = ap held e

  still_open : g.closed ≡ false
  still_open = elim (Bool-cases g.closed) [
    | inr c ↦ c
    | inl c ↦
        absurd (subst (In x) (o.ended c) (In-append x o.pend g.input (o.holding.mine i x holds)))
  ]

  sent_first :
      (rest : List WalDownloadInput) × (o.pend ≡ x ∷ rest)
      × ((z : WalDownloadInput) → In z rest → z.index ≢ x.index)
  sent_first =
      first_of (min_index + length o.done) o.pend x
        (Sequential-take (min_index + length o.done) o.pend g.input
          (pending-Sequential n min_index max_index download all seq o))
        (o.holding.mine i x holds) (sym q ∙ (o.at_next still_open).0)

  sent-split : all ≡ (o.done ++ x ∷ []) ++ (sent_first.0 ++ g.input)
  sent-split =
      o.split
      ∙ ap (λ p. o.done ++ (p ++ g.input)) sent_first.1
      ∙ sym (append_assoc o.done (x ∷ []) (sent_first.0 ++ g.input))

  sent-delivered : g.delivered ++ (x.index, r) ∷ [] ≡ map (outcome download) (o.done ++ x ∷ [])
  sent-delivered =
      ap (λ d. d ++ (x.index, r) ∷ []) o.delivered
      ∙ ap (λ v. map (outcome download) o.done ++ (x.index, v) ∷ []) (o.holding.result i x r e)
      ∙ sym (map-append (outcome download) o.done (x ∷ []))

  sent-Holding :
      (w : Worker) → held w ≡ none → Holding download sent_first.0 (set_worker g.workers i w)
  sent-Holding w free =
      send-Holding download (subst (λ p. Holding download p g.workers) sent_first.1 o.holding) i
        holds w free

  sent_owned :
      (w : Worker)
      → g.is_canceled ≡ false
      → (z : WalDownloadInput) → In z sent_first.0
      → (j : ℕ) × (j < n) × (held (set_worker g.workers i w j) ≡ some z)
  sent_owned w c z k =
      let (j, lt, h) = o.owned c z (subst (In z) (sym sent_first.1) (inr k)) in
      elim (set_worker-cases g.workers i w j) [
        | inl (a, b) ↦
            absurd (sent_first.2 z k (ap index_of (sym h ∙ ap (λ m. held (g.workers m)) a ∙ holds)))
        | inr (a, b) ↦ (j, lt, ap held b ∙ h)
      ]
    where
      index_of : Option WalDownloadInput → ℕ
      index_of none = 0
      index_of (some v) = v.index

  sent_length : min_index + length all ≡ g.next_index + 1 + length (sent_first.0 ++ g.input)
  sent_length = omega (
    arith,
    ap length sent-split,
    length-append (o.done ++ x ∷ []) (sent_first.0 ++ g.input),
    length-append o.done (x ∷ []),
    (o.at_next still_open).0,
  )

  sent_busy :
      (w : Worker)
      → ((y : Option Error) → w ≢ stopped y)
      → g.is_canceled ≡ false
      → (j : ℕ) (y : Option Error) → set_worker g.workers i w j ≡ stopped y
      → g.input ≡ []
  sent_busy w runs c j y k = elim (set_worker-cases g.workers i w j) [
    | inl (a, b) ↦ absurd (runs y (sym b ∙ k))
    | inr (a, b) ↦ o.busy c j y (sym b ∙ k)
  ]

  next_at :
      (g.next_index == max_index) ≡ false
      → (g.next_index + 1 ≡ min_index + length (o.done ++ x ∷ [])) × (g.next_index + 1 ≤ max_index)
  next_at more =
      let now = o.at_next still_open in
      let other : g.next_index ≢ max_index =
        λ same. cc (more, (==_iff g.next_index max_index).1 same) in
      omega (arith, now.0, now.1, length-append o.done (x ∷ []), other)

  after-InOrder :
      (v : Result (List ℕ))
      → (g.next_index == max_index) ≡ false
      → InOrder n min_index max_index download all (
          after_send i v (record g {
            next_index = g.next_index + 1;
            delivered = g.delivered ++ (x.index, r) ∷ [];
          }))
  unfolding after_send
  after-InOrder (ok path) more = record {
    done = o.done ++ x ∷ [];
    pend = sent_first.0;
    split = sent-split;
    delivered = sent-delivered;
    holding = sent-Holding idle refl;
    at_next = λ c. next_at more;
    ended = λ c. cc (still_open, c);
    owned = sent_owned idle;
    busy = sent_busy idle (λ y. λ z. cc);
  }
  after-InOrder (err y) more = record {
    done = o.done ++ x ∷ [];
    pend = sent_first.0;
    split = sent-split;
    delivered = sent-delivered;
    holding = sent-Holding (stopped (some y)) refl;
    at_next = λ c. next_at more;
    ended = λ c. cc (still_open, c);
    owned = λ c. cc;
    busy = λ c. cc;
  }

  pub send-InOrder : InOrder n min_index max_index download all (send_output max_index i x r g)
  unfolding send_output after_send
  send-InOrder = elim (Bool-cases (g.next_index == max_index)) [
    | inl last ↦ rw last (record {
      done = o.done ++ x ∷ [];
      pend = sent_first.0;
      split = sent-split;
      delivered = sent-delivered;
      holding = sent-Holding idle refl;
      at_next = λ c. cc;
      ended = λ c.
          nil_of_length (sent_first.0 ++ g.input)
            (omega (arith, sent_length, size, (==_iff g.next_index max_index).0 last));
      owned = sent_owned idle;
      busy = sent_busy idle (λ y. λ z. cc);
    })
    | inr more ↦ rw more (after-InOrder r more)
  ]
