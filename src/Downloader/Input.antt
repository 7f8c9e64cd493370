-- ===== src/Downloader/Input.antt =====
-- wal_downloader.go: what `initInputCh` leaves in the input channel.
use mathlib.Core.List.{append_assoc, append-nil, map-append}
use litestream.Prelude.{
  ℕ, suc, ◌+◌, ◌-◌, ◌≡◌, refl, sym, ap, subst, ◌≢◌, inl, inr, true, false, Option, List, [], ◌∷◌,
  ◌++◌, map, Error, ok, ◌==◌, ==_iff, ltb, length, length-append, Bool-cases, arith, if◌then◌else◌,
}
use litestream.Text.{Text}
use litestream.Client.{WalSegmentInfo, Listing, ReplicaClient}
use litestream.Downloader.{WalDownloadInput, flush_offsets, finish_input, input_loop, init_input_ch}

-- The inputs from the index `n` on, each with at least one offset.
abbrev pub Sequential : ℕ → List WalDownloadInput → Type 0
Sequential n [] = Unit
Sequential n (i ∷ inputs) = (i.index ≡ n) × (i.offsets ≢ []) × Sequential (suc n) inputs

-- Index and offset of each segment of the inputs, in order.
abbrev pub segments_of : List WalDownloadInput → List (ℕ × ℕ)
segments_of [] = []
segments_of (i ∷ inputs) = map (λ o. (i.index, o)) i.offsets ++ segments_of inputs

-- The listed segments from `min_index` on, up to the first one past `max_index`.
abbrev pub wanted : ℕ → ℕ → List WalSegmentInfo → List (ℕ × ℕ)
wanted min_index max_index [] = []
wanted min_index max_index (info ∷ itr) =
    let rest = wanted min_index max_index itr in
    if ltb info.index min_index
    then rest
    else if ltb max_index info.index
    then []
    else (info.index, info.offset) ∷ rest

Sequential-append :
    (n : ℕ) (a : List WalDownloadInput) (i : WalDownloadInput)
    → Sequential n a
    → i.index ≡ n + length a
    → i.offsets ≢ []
    → Sequential n (a ++ i ∷ [])
Sequential-append n [] i s e h = (omega arith, h, tt)
Sequential-append n (j ∷ a) i s e h = (s.0, s.1, Sequential-append (suc n) a i s.2 (omega arith) h)

segments_of-append :
    (a : List WalDownloadInput) (i : WalDownloadInput)
    → segments_of (a ++ i ∷ []) ≡ segments_of a ++ map (λ o. (i.index, o)) i.offsets
segments_of-append [] i = append-nil _
segments_of-append (j ∷ a) i = rw (
  segments_of-append a i,
  append_assoc (map (λ o. (j.index, o)) j.offsets) (segments_of a)
      (map (λ o. (i.index, o)) i.offsets),
)

-- Between two rounds of the loop: the offsets at hand belong to the last index, and there are some
-- as soon as there is a last index.
record Sending (min_index next : ℕ) (offsets : List ℕ) (sent : List WalDownloadInput) : Type 0 where
  sequential : Sequential min_index sent
  none_yet : offsets ≡ [] → (next ≡ min_index) × (sent ≡ [])
  reached : offsets ≢ [] → next ≡ min_index + length sent + 1

flushed : (next : ℕ) (offsets : List ℕ) (sent : List WalDownloadInput) → List WalDownloadInput
flushed next offsets sent = flush_offsets (next - 1) offsets sent

flush-Sequential :
    (min_index next : ℕ) (offsets : List ℕ) (sent : List WalDownloadInput)
    → Sending min_index next offsets sent
    → Sequential min_index (flush_offsets (next - 1) offsets sent)
      × (next ≡ min_index + length (flush_offsets (next - 1) offsets sent))
      × (segments_of (flush_offsets (next - 1) offsets sent)
          ≡ segments_of sent ++ map (λ o. (next - 1, o)) offsets)
unfolding flush_offsets
flush-Sequential min_index next [] sent s =
    let e = s.none_yet refl in
    (s.sequential, omega (arith, ap length e.1), sym (append-nil (segments_of sent)))
flush-Sequential min_index next (o ∷ offsets) sent s =
    let e = s.reached (λ z. cc) in
    let i : WalDownloadInput = record { index = next - 1; offsets = o ∷ offsets } in
    (
      Sequential-append min_index sent i s.sequential (omega arith) (λ z. cc),
      omega (arith, length-append sent (i ∷ [])),
      segments_of-append sent i,
    )

-- What the loop has sent when it returns without an error.
abbrev pub Sent : ℕ → ℕ → List (ℕ × ℕ) → List WalDownloadInput → Type 0
Sent min_index max_index all inputs =
    Sequential min_index inputs
    × (min_index + length inputs ≡ max_index + 1)
    × (segments_of inputs ≡ all)

-- The segments so far: those that were sent, and those at hand.
abbrev so_far : ℕ → List ℕ → List WalDownloadInput → List (ℕ × ℕ)
so_far next offsets sent = segments_of sent ++ map (λ o. (next - 1, o)) offsets

snoc_ne : {A : Type 0} (xs : List A) (x : A) → xs ++ x ∷ [] ≢ []
snoc_ne [] x e = cc
snoc_ne (y ∷ xs) x e = cc

so_far_same :
    (next : ℕ) (offsets : List ℕ) (sent : List WalDownloadInput) (info : WalSegmentInfo)
    (rest : List (ℕ × ℕ))
    → info.index + 1 ≡ next
    → so_far next (offsets ++ info.offset ∷ []) sent ++ rest
      ≡ so_far next offsets sent ++ (info.index, info.offset) ∷ rest
so_far_same next offsets sent info rest e =
    let at : next - 1 ≡ info.index = omega arith in rw at (simp (map-append, append_assoc))

module _ {min_index : ℕ} (next : ℕ) (offsets : List ℕ) (sent : List WalDownloadInput)
    (info : WalSegmentInfo) (s : Sending min_index next offsets sent) where
  add_same :
      ltb info.index min_index ≡ false
      → (info.index + 1 == next) ≡ true
      → Sending min_index next (offsets ++ info.offset ∷ []) sent
  add_same not_low same = record {
    sequential = s.sequential;
    none_yet = λ z. absurd (snoc_ne offsets info.offset z);
    reached = λ _. s.reached (λ z. ground (arith, s.none_yet z));
  }

  add_following :
      Sending min_index (next + 1) (info.offset ∷ []) (flush_offsets (next - 1) offsets sent)
  add_following =
      let f = flush-Sequential min_index next offsets sent s in
      record { sequential = f.0; none_yet = λ z. cc; reached = λ _. omega (arith, f.1) }

  so_far_following :
      (rest : List (ℕ × ℕ))
      → info.index ≡ next
      → so_far (next + 1) (info.offset ∷ []) (flush_offsets (next - 1) offsets sent) ++ rest
        ≡ so_far next offsets sent ++ (info.index, info.offset) ∷ rest
  so_far_following rest e =
      let f = flush-Sequential min_index next offsets sent s in
      let at : next + 1 - 1 ≡ info.index = omega arith in
      rw (at, f.2) (append_assoc (so_far next offsets sent) ((info.index, info.offset) ∷ []) rest)

module _ (min_index max_index : ℕ) (close : Option Error) {inputs : List WalDownloadInput} where
  finish_input-Sent :
      (next : ℕ) (offsets : List ℕ) (sent : List WalDownloadInput)
      → Sending min_index next offsets sent
      → finish_input max_index close next offsets sent ≡ (inputs, ok tt)
      → Sent min_index max_index (so_far next offsets sent) inputs
  unfolding finish_input
  finish_input-Sent next offsets sent s h = elim (Bool-cases (next == max_index + 1)) [
    | inr e ↦ cc (ap (λ r. r.1) (rw e at h))
    | inl e ↦
        let f = flush-Sequential min_index next offsets sent s in
        subst (Sent min_index max_index (so_far next offsets sent)) (ap (λ r. r.0) (rw e at h))
          (f.0, omega (arith, f.1, (==_iff next (max_index + 1)).0 e), f.2)
  ]

  input_loop-Sent :
      (next : ℕ) (offsets : List ℕ) (sent : List WalDownloadInput) (itr : List WalSegmentInfo)
      → Sending min_index next offsets sent
      → input_loop min_index max_index close next offsets sent itr ≡ (inputs, ok tt)
      → Sent min_index max_index (so_far next offsets sent ++ wanted min_index max_index itr) inputs
  unfolding input_loop
  input_loop-Sent next offsets sent [] s h =
      rw (append-nil (so_far next offsets sent)) (finish_input-Sent next offsets sent s h)
  input_loop-Sent next offsets sent (info ∷ itr) s h =
      elim (Bool-cases (ltb info.index min_index)) [
        | inl low ↦ rw low (input_loop-Sent next offsets sent itr s (rw (input_loop, low) at h))
        | inr not_low ↦ elim (Bool-cases (ltb max_index info.index)) [
          | inl high ↦
              rw (not_low, high, append-nil (so_far next offsets sent))
                (finish_input-Sent next offsets sent s (rw (input_loop, not_low, high) at h))
          | inr not_high ↦ elim (Bool-cases (info.index + 1 == next)) [
            | inl same ↦
                let again =
                  input_loop-Sent next (offsets ++ info.offset ∷ []) sent itr
                    (add_same next offsets sent info s not_low same)
                    (rw (input_loop, not_low, not_high, same) at h) in
                rw (not_low, not_high)
                  (subst (λ all. Sent min_index max_index all inputs)
                    (so_far_same next offsets sent info (wanted min_index max_index itr)
                      ((==_iff (info.index + 1) next).0 same))
                    again)
            | inr other ↦ elim (Bool-cases (info.index == next)) [
              | inr gap ↦ cc (ap (λ r. r.1) (rw (input_loop, not_low, not_high, other, gap) at h))
              | inl following ↦
                  let again =
                    input_loop-Sent (next + 1) (info.offset ∷ [])
                      (flush_offsets (next - 1) offsets sent) itr
                      (add_following next offsets sent info s)
                      (rw (input_loop, not_low, not_high, other, following) at h) in
                  rw (not_low, not_high)
                    (subst (λ all. Sent min_index max_index all inputs)
                      (so_far_following next offsets sent info s (wanted min_index max_index itr)
                        ((==_iff info.index next).0 following))
                      again)
            ]
          ]
        ]
      ]

-- `initInputCh`, when it succeeds: the input channel holds each index from `min_index` to
-- `max_index` once, in order and with at least one offset, and together the inputs hold exactly
-- the listed segments of these indexes, in the order of the listing up to the first segment past
-- `max_index`.
pub init_input_ch-Sent :
    (client : ReplicaClient) (generation : Text) (min_index max_index : ℕ)
    (segments : Listing WalSegmentInfo) (inputs : List WalDownloadInput)
    → client.wal_segments generation ≡ ok segments
    → init_input_ch client generation min_index max_index ≡ (inputs, ok tt)
    → Sequential min_index inputs
      × (min_index + length inputs ≡ max_index + 1)
      × (segments_of inputs ≡ wanted min_index max_index segments.items)
unfolding init_input_ch
init_input_ch-Sent client generation min_index max_index segments inputs e h =
    input_loop-Sent min_index max_index segments.close min_index [] [] segments.items start
      (rw (e, init_input_ch) at h)
  where
    start : Sending min_index min_index [] []
    start = record { sequential = tt; none_yet = λ _. (refl, refl); reached = λ z. absurd (z refl) }
