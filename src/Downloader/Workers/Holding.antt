-- ===== src/Downloader/Workers/Holding.antt =====
-- Which inputs the workers have at hand.
use litestream.Prelude.{
  ℕ, suc, ◌+◌, ◌<◌, ◌≤◌, ◌≡◌, refl, sym, ap, ◌∙◌, ◌≢◌, ◌⊎◌, inl, inr, ◌==◌, ==_iff, Option, none,
  some, List, [], ◌∷◌, ◌++◌, Result, length, Bool-cases, arith, subst,
}
use litestream.Downloader.{WalDownloadInput}
use litestream.Downloader.Input.{Sequential}
use litestream.Downloader.Workers.{Worker, idle, fetching, waiting, stopped, set_worker}

-- The input is an element of the list.
abbrev pub In : WalDownloadInput → List WalDownloadInput → Type 0
In x [] = ⊥
In x (y ∷ ys) = (x ≡ y) ⊎ In x ys

abbrev pub held : Worker → Option WalDownloadInput
held idle = none
held (fetching x) = some x
held (waiting x r) = some x
held (stopped e) = none

pub In-append : (x : WalDownloadInput) (xs ys : List WalDownloadInput) → In x xs → In x (xs ++ ys)
In-append x [] ys k = elim k [ ]
In-append x (y ∷ xs) ys (inl e) = inl e
In-append x (y ∷ xs) ys (inr k) = inr (In-append x xs ys k)

pub In-last : (x : WalDownloadInput) (xs : List WalDownloadInput) → In x (xs ++ x ∷ [])
In-last x [] = inl refl
In-last x (y ∷ xs) = inr (In-last x xs)

pub In-snoc :
    (x y : WalDownloadInput) (xs : List WalDownloadInput) → In x (xs ++ y ∷ []) → In x xs ⊎ (x ≡ y)
In-snoc x y [] (inl e) = inr e
In-snoc x y [] (inr k) = elim k [ ]
In-snoc x y (z ∷ xs) (inl e) = inl (inl e)
In-snoc x y (z ∷ xs) (inr k) = elim (In-snoc x y xs k) [ inl l ↦ inl (inr l) | inr e ↦ inr e ]

-- Sequential inputs have the indexes from the first on.
pub Sequential-range :
    (n : ℕ) (xs : List WalDownloadInput) (x : WalDownloadInput)
    → Sequential n xs
    → In x xs
    → (n ≤ x.index) × (x.index < n + length xs)
Sequential-range n [] x s k = elim k [ ]
Sequential-range n (y ∷ xs) x s (inl e) =
    omega (arith, s.0, ap (λ (z : WalDownloadInput). z.index) e)
Sequential-range n (y ∷ xs) x s (inr k) =
    let r = Sequential-range (suc n) xs x s.2 k in omega (arith, r.0, r.1)

pub Sequential-drop :
    (n : ℕ) (xs ys : List WalDownloadInput)
    → Sequential n (xs ++ ys)
    → Sequential (n + length xs) ys
Sequential-drop n [] ys s = subst (λ k. Sequential k ys) (omega arith) s
Sequential-drop n (x ∷ xs) ys s =
    subst (λ k. Sequential k ys) (omega arith) (Sequential-drop (suc n) xs ys s.2)

pub Sequential-take :
    (n : ℕ) (xs ys : List WalDownloadInput) → Sequential n (xs ++ ys) → Sequential n xs
Sequential-take n [] ys s = tt
Sequential-take n (x ∷ xs) ys s = (s.0, s.1, Sequential-take (suc n) xs ys s.2)

pub set_worker-cases :
    (workers : ℕ → Worker) (i : ℕ) (w : Worker) (j : ℕ)
    → ((j ≡ i) × (set_worker workers i w j ≡ w))
      ⊎ ((j ≢ i) × (set_worker workers i w j ≡ workers j))
unfolding set_worker
set_worker-cases workers i w j = elim (Bool-cases (j == i)) [
  | inl e ↦ inl ((==_iff j i).0 e, rw e)
  | inr e ↦ inr ((λ z. cc (e, (==_iff j i).1 z)), rw e)
]

module _ (download : WalDownloadInput → Result (List ℕ)) where
  -- No two workers hold inputs of one index, all that they hold is in the list, and behind
  -- downloadWAL they have its result.
  pub record Holding (pend : List WalDownloadInput) (workers : ℕ → Worker) : Type 0 where
    pub mine : (i : ℕ) (x : WalDownloadInput) → held (workers i) ≡ some x → In x pend
    pub result :
        (i : ℕ) (x : WalDownloadInput) (r : Result (List ℕ))
        → workers i ≡ waiting x r
        → r ≡ download x
    pub distinct :
        (i j : ℕ) (x y : WalDownloadInput)
        → held (workers i) ≡ some x
        → held (workers j) ≡ some y
        → x.index ≡ y.index
        → i ≡ j

  module _ {pend : List WalDownloadInput} {workers : ℕ → Worker} (h : Holding pend workers)
      (i : ℕ) where
    -- A worker lets go of what it holds.
    pub release-Holding : (w : Worker) → held w ≡ none → Holding pend (set_worker workers i w)
    release-Holding w e = record {
      mine = λ j x k. elim (set_worker-cases workers i w j) [
        | inl (_, q) ↦ cc
        | inr (_, q) ↦ h.mine j x (cc)
      ];
      result = λ j x r k. elim (set_worker-cases workers i w j) [
        | inl (_, q) ↦ cc (e, ap held (sym q ∙ k))
        | inr (_, q) ↦ h.result j x r (cc)
      ];
      distinct = λ j k x y p q same. elim (set_worker-cases workers i w j) [
        | inl (_, a) ↦ cc
        | inr (_, a) ↦ elim (set_worker-cases workers i w k) [
          | inl (_, b) ↦ cc
          | inr (_, b) ↦ h.distinct j k x y (cc) (cc) same
        ]
      ];
    }

    -- A worker has fetched what it holds.
    pub fetch-Holding :
        (x : WalDownloadInput)
        → workers i ≡ fetching x
        → Holding pend (set_worker workers i (waiting x (download x)))
    fetch-Holding x e =
        let same_held : (j : ℕ)
            → held (set_worker workers i (waiting x (download x)) j) ≡ held (workers j) =
          λ j. elim (set_worker-cases workers i (waiting x (download x)) j) [
            | inl (a, q) ↦ cc (q, e, a)
            | inr (_, q) ↦ cc
          ] in
        record {
          mine = λ j y k. h.mine j y (sym (same_held j) ∙ k);
          result = λ j y r k. elim (set_worker-cases workers i (waiting x (download x)) j) [
            | inl (_, q) ↦ cc
            | inr (_, q) ↦ h.result j y r (cc)
          ];
          distinct = λ j k y z p q same.
              h.distinct j k y z (sym (same_held j) ∙ p) (sym (same_held k) ∙ q) same;
        }

    -- An idle worker takes an input with an index of its own.
    pub take-Holding :
        (x : WalDownloadInput)
        → ((y : WalDownloadInput) → In y pend → y.index ≢ x.index)
        → Holding (pend ++ x ∷ []) (set_worker workers i (fetching x))
    take-Holding x fresh = record {
      mine = λ j y k. elim (set_worker-cases workers i (fetching x) j) [
        | inl (_, q) ↦ subst (λ z. In z (pend ++ x ∷ [])) (cc) (In-last x pend)
        | inr (_, q) ↦ In-append y pend (x ∷ []) (h.mine j y (cc))
      ];
      result = λ j y r k. elim (set_worker-cases workers i (fetching x) j) [
        | inl (_, q) ↦ cc
        | inr (_, q) ↦ h.result j y r (cc)
      ];
      distinct = λ j k y z p q same. elim (set_worker-cases workers i (fetching x) j) [
        | inl (a, c) ↦ elim (set_worker-cases workers i (fetching x) k) [
          | inl (b, d) ↦ cc
          | inr (b, d) ↦
              let e : x ≡ y = cc in
              absurd (
                fresh z (h.mine k z (cc))
                  (sym same ∙ ap (λ (v : WalDownloadInput). v.index) (sym e)))
        ]
        | inr (a, c) ↦ elim (set_worker-cases workers i (fetching x) k) [
          | inl (b, d) ↦
              let e : x ≡ z = cc in
              absurd
                (fresh y (h.mine j y (cc)) (same ∙ ap (λ (v : WalDownloadInput). v.index) (sym e)))
          | inr (b, d) ↦ h.distinct j k y z (cc) (cc) same
        ]
      ];
    }

  -- The worker that holds the first input of the list lets go of it.
  pub send-Holding :
      {x : WalDownloadInput} {pend : List WalDownloadInput} {workers : ℕ → Worker}
      → Holding (x ∷ pend) workers
      → (i : ℕ) → held (workers i) ≡ some x
      → (w : Worker) → held w ≡ none
      → Holding pend (set_worker workers i w)
  send-Holding {x} {pend} {workers} h i e w free =
      let rest = release-Holding h i w free in
      record {
        mine = λ j y k. elim (set_worker-cases workers i w j) [
          | inl (_, q) ↦ cc
          | inr (other, q) ↦ elim (h.mine j y (cc)) [
            | inl first ↦
                absurd
                  (other (h.distinct j i y x (cc) e (ap (λ (v : WalDownloadInput). v.index) first)))
            | inr later ↦ later
          ]
        ];
        result = rest.result;
        distinct = rest.distinct;
      }
