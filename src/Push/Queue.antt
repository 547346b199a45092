-- ===== src/Push/Queue.antt =====
-- The bounded queues of internal/push/client.go: dispatch and report never block, and drop the oldest
-- entry of a full channel. A channel is the list of what it holds, the oldest first. The producer's
-- three selects are separate steps, since a consumer may take between them.
pub mod Drop
use hstongapi4go.Common.{
  ℕ, zero, suc, Bool, true, false, Option, none, some, ◌==◌, List, [], ◌∷◌, ◌++◌, length, ltb,
  if◌then◌else◌,
}

-- dispatchBuffer and errorBuffer
abbrev pub dispatch_buffer : ℕ
dispatch_buffer = 64

abbrev pub error_buffer : ℕ
error_buffer = 16

module _ {A : Type 0} where
  -- `select { case ch <- n: default: }`, and whether the send was taken.
  unfoldable pub try_send : ℕ → A → List A → Bool × List A
  try_send cap n ch = if ltb (length ch) cap then (true, ch ++ (n ∷ [])) else (false, ch)

  -- `select { case <-ch: default: }`
  unfoldable pub try_drop : List A → List A
  try_drop [] = []
  try_drop (x ∷ ch) = ch

  -- What the consumer does between two selects: it takes some entries, the oldest first.
  unfoldable pub take_away : ℕ → List A → List A
  take_away zero ch = ch
  take_away (suc k) [] = []
  take_away (suc k) (x ∷ ch) = take_away k ch

  -- `dispatch` for a handler that is registered, and `report`; `gap1` and `gap2` are what the consumer
  -- takes before the second select and before the third.
  unfoldable pub enqueue : ℕ → ℕ → ℕ → A → List A → List A
  enqueue cap gap1 gap2 n ch =
      let first = try_send cap n ch in
      if first.0
      then first.1
      else (try_send cap n (take_away gap2 (try_drop (take_away gap1 first.1)))).1

-- The queues of the handlers, by notification type, which is the bit pattern of its int32; `none` where
-- no handler is registered.
abbrev pub Handlers : Type 0 → Type 0
Handlers A = ℕ → Option (List A)

module _ {A : Type 0} where
  -- `dispatch` of a notification of type t; a nil notification is `none`.
  unfoldable pub dispatch : ℕ → ℕ → ℕ → Option A → Handlers A → Handlers A
  dispatch gap1 gap2 t none handlers u = handlers u
  dispatch gap1 gap2 t (some n) handlers u =
      if u == t
      then elim (handlers u) [
        | none ↦ none
        | some ch ↦ some (enqueue dispatch_buffer gap1 gap2 n ch)
      ]
      else handlers u

  -- `report`; a nil error is `none`.
  unfoldable pub report : ℕ → ℕ → Bool → Option A → List A → List A
  report gap1 gap2 closed none ch = ch
  report gap1 gap2 closed (some e) ch = if closed then ch else enqueue error_buffer gap1 gap2 e ch
