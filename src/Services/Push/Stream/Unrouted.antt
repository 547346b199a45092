-- ===== src/Services/Push/Stream/Unrouted.antt =====
-- How often an update that nobody wanted is reported (pkg/services/push.go).
use hstongapi4go.Common.{
  ℕ, ◌+◌, ◌≤◌, ◌≡◌, refl, ap, ◌∙◌, sym, true, false, not, ◌||◌, List, [], ◌∷◌, ◌++◌, length, arith,
  ltb, lt→ltb, Bool-cases, inl, inr, length-append,
}
use mathlib.Core.Path.{subst}
use hstongapi4go.Common.Bytes.{Bytes}
use hstongapi4go.Common.Text.{contains, bytes_eq, eq_of_bytes_eq}
use hstongapi4go.Services.Push.Delivery.Backlog.{one_more}
use hstongapi4go.Services.Push.Stream.{
  ErrorStream, new_stream, report_error, note_unrouted, record_unrouted, unrouted_report_cap,
}

-- An update that found no subscription, and what the reader of the stream takes meanwhile.
pub record Stray : Type 0 where
  pub gap1 : ℕ
  pub gap2 : ℕ
  pub id : Bytes
  pub security_code : Bytes

unfoldable pub record_all : List Stray → ErrorStream × ℕ → ErrorStream × ℕ
record_all [] s = s
record_all (u ∷ us) s =
    let out = record_unrouted u.gap1 u.gap2 u.id u.security_code s.0 in
    record_all us (out.0, one_more out.1 s.1)

-- How many identifiers come up that did not come up before.
abbrev pub new_ids : List Bytes → List Stray → ℕ
new_ids before [] = 0
new_ids before (u ∷ us) = one_more (not (contains u.id before)) (new_ids (u.id ∷ before) us)

contains-snoc :
    (y x : Bytes) (xs : List Bytes) → contains y (xs ++ (x ∷ [])) ≡ (contains y xs || bytes_eq y x)
unfolding contains
contains-snoc y x [] = ground arith
contains-snoc y x (z ∷ xs) = ground (arith, contains-snoc y x xs)

-- The stream remembers what came up.
abbrev Remembers : ErrorStream → List Bytes → Type 0
Remembers s before = (y : Bytes) → contains y s.seen_ids ≡ contains y before

reported_seen :
    (gap1 gap2 : ℕ) (id code : Bytes) (s : ErrorStream)
    → (record_unrouted gap1 gap2 id code s).0.seen_ids ≡ (note_unrouted id s).seen_ids
unfolding record_unrouted report_error
reported_seen gap1 gap2 id code s = ground arith

noted_old :
    (id : Bytes) (s : ErrorStream) (before : List Bytes)
    → Remembers s before
    → contains id s.seen_ids ≡ true
    → Remembers (note_unrouted id s) (id ∷ before)
unfolding note_unrouted contains
noted_old id s before h known y =
    rw (known, h y)
      (elim (Bool-cases (bytes_eq y id)) [
        | inl e ↦ rw e (ap (λ x. contains x before) (eq_of_bytes_eq y id e) ∙ sym (h id) ∙ known)
        | inr e ↦ rw e refl
      ])

noted_new :
    (id : Bytes) (s : ErrorStream) (before : List Bytes)
    → Remembers s before
    → contains id s.seen_ids ≡ false
    → ltb (length s.seen_ids) unrouted_report_cap ≡ true
    → Remembers (note_unrouted id s) (id ∷ before)
unfolding note_unrouted contains
noted_new id s before h fresh room y =
    rw (fresh, room, contains-snoc y id s.seen_ids, h y) (ground arith)

length-noted :
    (id : Bytes) (s : ErrorStream)
    → ltb (length s.seen_ids) unrouted_report_cap ≡ true
    → length (note_unrouted id s).seen_ids
      ≡ one_more (not (contains id s.seen_ids)) (length s.seen_ids)
unfolding note_unrouted
length-noted id s room = elim (Bool-cases (contains id s.seen_ids)) [
  | inl e ↦ rw e refl
  | inr e ↦ rw (e, room) (length-append s.seen_ids (id ∷ []))
]

length-noted_old :
    (id : Bytes) (s : ErrorStream)
    → contains id s.seen_ids ≡ true
    → (note_unrouted id s).seen_ids ≡ s.seen_ids
unfolding note_unrouted
length-noted_old id s e = rw e refl

is_reported :
    (gap1 gap2 : ℕ) (id code : Bytes) (s : ErrorStream)
    → (record_unrouted gap1 gap2 id code s).1 ≡ not (contains id s.seen_ids)
unfolding record_unrouted
is_reported gap1 gap2 id code s = ground arith

record_all_from :
    (us : List Stray) (s : ErrorStream) (n : ℕ) (before : List Bytes)
    → Remembers s before
    → length s.seen_ids + new_ids before us ≤ unrouted_report_cap
    → (record_all us (s, n)).1 ≡ n + new_ids before us
unfolding record_all
record_all_from [] s n before h room = omega arith
record_all_from (u ∷ us) s n before h room =
    let out = record_unrouted u.gap1 u.gap2 u.id u.security_code s in
    let same = reported_seen u.gap1 u.gap2 u.id u.security_code s in
    let told = is_reported u.gap1 u.gap2 u.id u.security_code s in
    let more = new_ids (u.id ∷ before) us in
    elim (Bool-cases (contains u.id s.seen_ids)) [
      | inl e ↦
          let old : contains u.id before ≡ true = sym (h u.id) ∙ e in
          let kept : length out.0.seen_ids ≡ length s.seen_ids =
            ap (λ l. length l) (same ∙ length-noted_old u.id s e) in
          let few : length s.seen_ids + one_more (not true) more ≤ unrouted_report_cap =
            subst (λ b. length s.seen_ids + one_more (not b) more ≤ unrouted_report_cap) old room in
          ap (λ b. (record_all us (out.0, one_more b n)).1) (told ∙ ap not e)
          ∙ record_all_from us out.0 n (u.id ∷ before)
              (λ y. ap (contains y) same ∙ noted_old u.id s before h e y) (omega (arith, kept, few))
          ∙ ap (λ b. n + one_more (not b) more) (sym old)
      | inr e ↦
          let new : contains u.id before ≡ false = sym (h u.id) ∙ e in
          let few : length s.seen_ids + one_more (not false) more ≤ unrouted_report_cap =
            subst (λ b. length s.seen_ids + one_more (not b) more ≤ unrouted_report_cap) new room in
          let space : ltb (length s.seen_ids) unrouted_report_cap ≡ true =
            lt→ltb _ _ (omega (arith, few)) in
          let grown : length out.0.seen_ids ≡ length s.seen_ids + 1 =
            ap (λ l. length l) same
            ∙ length-noted u.id s space
            ∙ ap (λ b. one_more (not b) (length s.seen_ids)) e in
          ap (λ b. (record_all us (out.0, one_more b n)).1) (told ∙ ap not e)
          ∙ record_all_from us out.0 (n + 1) (u.id ∷ before)
              (λ y. ap (contains y) same ∙ noted_new u.id s before h e space y)
              (omega (arith, grown, few))
          ∙ (omega arith)
          ∙ ap (λ b. n + one_more (not b) more) (sym new)
    ]

-- Whatever updates that no subscription wants come to a new orchestration, and whatever the reader of
-- the error stream takes meanwhile, recordUnrouted reports as many of them as identifiers come up that
-- did not come up before. For at most 64 such identifiers.
pub record_all_lem :
    (us : List Stray)
    → new_ids [] us ≤ unrouted_report_cap
    → (record_all us (new_stream, 0)).1 ≡ new_ids [] us
record_all_lem us room = record_all_from us new_stream 0 [] (λ y. refl) (omega arith) ∙ omega arith
