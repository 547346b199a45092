-- ===== src/Push/Queue/Drop.antt =====
-- What the bounded queues keep (internal/push/client.go).
use mathlib.Core.List.{append_assoc, append-nil}
use native.Mathlib.Nat.{zero-add, suc-add}
use hstongapi4go.Common.{
  Bool, Option, none, some, ◌≢◌, ◌==◌, sym, inl, inr, Bool-cases, length-drop, ℕ, zero, suc, ◌+◌,
  ◌-◌, ◌≡◌, refl, ap, ◌∙◌, ◌≤◌, ◌<◌, true, false, List, [], ◌∷◌, ◌++◌, arith, length, length-append,
  drop, ltb,
}
use hstongapi4go.Push.Queue.{
  try_send, try_drop, take_away, enqueue, Handlers, dispatch, report, dispatch_buffer, error_buffer,
}

module _ {A : Type 0} where
  -- A producer's sends, one after the other, with no consumer.
  pub enqueue_all : ℕ → List A → List A → List A
  enqueue_all cap [] ch = ch
  enqueue_all cap (n ∷ ns) ch = enqueue_all cap ns (enqueue cap 0 0 n ch)

  take_away-drop : (k : ℕ) (ch : List A) → take_away k ch ≡ drop k ch
  unfolding take_away
  take_away-drop zero ch = refl
  take_away-drop (suc k) [] = refl
  take_away-drop (suc k) (x ∷ ch) = take_away-drop k ch

  try_drop-drop : (ch : List A) → try_drop ch ≡ drop 1 ch
  unfolding try_drop
  try_drop-drop [] = refl
  try_drop-drop (x ∷ ch) = refl

  drop-nil : (k : ℕ) → drop {A = A} k [] ≡ []
  drop-nil zero = refl
  drop-nil (suc k) = refl

  drop-drop : (j k : ℕ) (ch : List A) → drop j (drop k ch) ≡ drop (k + j) ch
  drop-drop j zero ch = ap (λ n. drop n ch) (sym (zero-add j))
  drop-drop j (suc k) [] = drop-nil j ∙ sym (drop-nil (suc k + j))
  drop-drop j (suc k) (x ∷ ch) = drop-drop j k ch ∙ ap (λ n. drop n (x ∷ ch)) (sym (suc-add k j))

  drop-append_le : (k : ℕ) (xs ys : List A) → k ≤ length xs → drop k xs ++ ys ≡ drop k (xs ++ ys)
  drop-append_le zero xs ys h = refl
  drop-append_le (suc k) [] ys h = absurd (omega arith)
  drop-append_le (suc k) (x ∷ xs) ys h = drop-append_le k xs ys (omega arith)

  -- What the producer's send leaves in the channel.
  abbrev pub Sent : ℕ → ℕ → A → List A → List A → Type 0
  Sent cap most n ch after =
      (k : ℕ) × (after ≡ drop k ch ++ (n ∷ [])) × (k ≤ most) × (length after ≤ cap)

  try_send_room :
      (cap : ℕ) (n : A) (ch : List A) → length ch < cap → try_send cap n ch ≡ (true, ch ++ (n ∷ []))
  unfolding try_send
  try_send_room cap n ch h = ground arith

  try_send_full :
      (cap : ℕ) (n : A) (ch : List A) → cap ≤ length ch → try_send cap n ch ≡ (false, ch)
  unfolding try_send
  try_send_full cap n ch h = ground arith

  -- What the channel is before the third select.
  emptied :
      (gap1 gap2 : ℕ) (ch : List A)
      → take_away gap2 (try_drop (take_away gap1 ch)) ≡ drop (gap1 + 1 + gap2) ch
  emptied gap1 gap2 ch =
      rw (take_away-drop gap1 ch, try_drop-drop (drop gap1 ch))
        (take_away-drop gap2 (drop 1 (drop gap1 ch))
          ∙ (ap (drop gap2) (drop-drop 1 gap1 ch) ∙ drop-drop gap2 (gap1 + 1) ch))

  pub enqueue_room :
      (cap gap1 gap2 : ℕ) (n : A) (ch : List A)
      → length ch < cap
      → enqueue cap gap1 gap2 n ch ≡ ch ++ (n ∷ [])
  unfolding enqueue
  enqueue_room cap gap1 gap2 n ch h = rw (try_send_room cap n ch h) refl

  pub enqueue_full :
      (cap gap1 gap2 : ℕ) (n : A) (ch : List A)
      → 0 < cap
      → length ch ≡ cap
      → enqueue cap gap1 gap2 n ch ≡ drop (gap1 + 1 + gap2) ch ++ (n ∷ [])
  unfolding enqueue
  enqueue_full cap gap1 gap2 n ch pos e = rw (try_send_full cap n ch (omega arith)) (
      ap (λ x. (try_send cap n x).1) (emptied gap1 gap2 ch)
      ∙ ap (λ x. x.1)
          (try_send_room cap n (drop (gap1 + 1 + gap2) ch)
            (omega (arith, length-drop (gap1 + 1 + gap2) ch))))

  -- dispatch and report always place the newest entry: whatever the consumer takes between their
  -- selects, the channel afterwards is what stood in it without some of its oldest entries, in the same
  -- order, and then the new one; the producer itself removes at most one of them, and the channel's
  -- capacity is kept. For a channel of positive capacity that is not over it.
  pub enqueue_lem :
      (cap gap1 gap2 : ℕ) (n : A) (ch : List A)
      → 0 < cap
      → length ch ≤ cap
      → Sent cap (gap1 + gap2 + 1) n ch (enqueue cap gap1 gap2 n ch)
  enqueue_lem cap gap1 gap2 n ch pos room = elim (Bool-cases (ltb (length ch) cap)) [
    | inl h ↦
        let less : length ch < cap = ground arith in
        rw (enqueue_room cap gap1 gap2 n ch less)
          (0, refl, omega arith, omega (arith, length-append ch (n ∷ [])))
    | inr h ↦
        let full : length ch ≡ cap = ground arith in
        let m = gap1 + 1 + gap2 in
        rw (enqueue_full cap gap1 gap2 n ch pos full) (
          m,
          refl,
          omega arith,
          omega (arith, length-append (drop m ch) (n ∷ []), length-drop m ch),
        )
  ]

  -- The newest entries of a list, at most so many.
  abbrev pub newest : ℕ → List A → List A
  newest cap xs = drop (length xs - cap) xs

  enqueue-newest :
      (cap : ℕ) (n : A) (xs : List A)
      → 0 < cap
      → enqueue cap 0 0 n (newest cap xs) ≡ newest cap (xs ++ (n ∷ []))
  enqueue-newest cap n xs pos = elim (Bool-cases (ltb (length xs) cap)) [
    | inl h ↦
        let less : length xs < cap = ground arith in
        let a : length xs - cap ≡ 0 = omega arith in
        let b : length (xs ++ n ∷ []) - cap ≡ 0 = omega (arith, length-append xs (n ∷ [])) in
        rw (a, b) (enqueue_room cap 0 0 n xs less)
    | inr h ↦
        let k = length xs - cap in
        let most : cap ≤ length xs = ground arith in
        let b : length (xs ++ n ∷ []) - cap ≡ k + 1 = omega (arith, length-append xs (n ∷ [])) in
        enqueue_full cap 0 0 n (drop k xs) pos (omega (arith, length-drop k xs))
        ∙ (ap (λ l. l ++ (n ∷ [])) (drop-drop 1 k xs)
            ∙ (drop-append_le (k + 1) xs (n ∷ []) (omega arith)
                ∙ ap (λ m. drop m (xs ++ n ∷ [])) (sym b)))
  ]

  -- With no consumer, a channel of positive capacity that starts empty holds the newest entries of all
  -- that were sent, up to its capacity, in the order in which they were sent.
  pub enqueue_all-newest :
      (cap : ℕ) (ns xs : List A)
      → 0 < cap
      → enqueue_all cap ns (newest cap xs) ≡ newest cap (xs ++ ns)
  unfolding enqueue_all
  enqueue_all-newest cap [] xs pos = ap (newest cap) (sym (append-nil xs))
  enqueue_all-newest cap (n ∷ ns) xs pos = rw (enqueue-newest cap n xs pos) (
      enqueue_all-newest cap ns (xs ++ (n ∷ [])) pos
      ∙ ap (newest cap) (append_assoc xs (n ∷ []) ns))

  -- dispatch of a notification whose type has a handler places it in that handler's queue, whatever the
  -- handler takes between the selects: the queue afterwards is what stood in it without some of its
  -- oldest entries, in the same order, and then the new one; at most one entry more is gone than the
  -- handler took, the queue holds at most 64, and no other handler's queue changes. For a queue that
  -- is not over its capacity.
  pub dispatch_lem :
      (gap1 gap2 t u : ℕ) (n : A) (handlers : Handlers A) (ch : List A)
      → handlers t ≡ some ch
      → u ≢ t
      → length ch ≤ dispatch_buffer
      → (after : List A) × (dispatch gap1 gap2 t (some n) handlers t ≡ some after)
        × Sent dispatch_buffer (gap1 + gap2 + 1) n ch after
        × (dispatch gap1 gap2 t (some n) handlers u ≡ handlers u)
  unfolding dispatch
  dispatch_lem gap1 gap2 t u n handlers ch h d room =
      let same : (t == t) ≡ true = ground arith in
      (
        enqueue dispatch_buffer gap1 gap2 n ch,
        rw (same, h) refl,
        enqueue_lem dispatch_buffer gap1 gap2 n ch (omega arith) room,
        ground arith,
      )

  -- report on a channel that is not over its capacity keeps at most 16 errors; a nil error and a client
  -- that is closed leave the channel as it is.
  pub report_lem :
      (gap1 gap2 : ℕ) (closed : Bool) (e : Option A) (ch : List A)
      → length ch ≤ error_buffer
      → length (report gap1 gap2 closed e ch) ≤ error_buffer
  unfolding report
  report_lem gap1 gap2 closed none ch room = room
  report_lem gap1 gap2 true (some e) ch room = room
  report_lem gap1 gap2 false (some e) ch room =
      let (k, same, few, kept) = enqueue_lem error_buffer gap1 gap2 e ch (omega arith) room in kept
