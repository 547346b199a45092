-- ===== src/Services/Account/Walk.antt =====
-- The walk over the pages of a fund journal ends and gathers every row (pkg/services/account.go).
use hstongapi4go.Common.{
  ℕ, zero, suc, ◌+◌, ◌≤◌, ◌≡◌, refl, ap, ◌∙◌, sym, true, false, Option, some, List, [], ◌∷◌, ◌++◌,
  length, if◌then◌else◌, arith, Bool-cases, inl, inr, ◌⊎◌, ◌≢◌,
}
use mathlib.Core.List.{append_assoc, append-nil}
use hstongapi4go.Common.Int.{ℤ}
use hstongapi4go.Common.Bytes.{Bytes}
use hstongapi4go.Common.Text.{bytes_eq, bytes_eq_refl, eq_of_bytes_eq}
use hstongapi4go.Domain.Symbol.{is_empty}
use hstongapi4go.Errs.{GoError, nil_error}
use hstongapi4go.Resilience.Retry.{is_nil}
use hstongapi4go.Services.Account.{
  Page, Walked, has_none, is_last, walk_pages, walk_fund_jour_pages, max_pages, clamp_page_size,
}

is_empty-some : (b : Bytes) → b ≢ [] → is_empty b ≡ false
is_empty-some [] h = absurd (h refl)
is_empty-some (x ∷ b) h = refl

bytes_eq-ne : (a b : Bytes) → a ≢ b → bytes_eq a b ≡ false
bytes_eq-ne a b h = elim (Bool-cases (bytes_eq a b)) [
  | inl e ↦ absurd (h (eq_of_bytes_eq a b e))
  | inr e ↦ e
]

module _ {E : Type 0} where
  -- The rows that the pages hold.
  abbrev pub rows : List (List E) → List E
  rows [] = []
  rows (es ∷ pages) = es ++ rows pages

  pub rows-append : (ps qs : List (List E)) → rows (ps ++ qs) ≡ rows ps ++ rows qs
  rows-append [] qs = refl
  rows-append (p ∷ ps) qs = rw (rows-append ps qs) (sym (append_assoc p (rows ps) (rows qs)))

  -- A page that leads on has rows and the cursor of another page; the last page names no next page,
  -- or itself.
  abbrev pub LeadsOn : Bytes → Page E → Type 0
  LeadsOn cursor p = (1 ≤ length p.entries) × (p.next ≢ []) × (p.next ≢ cursor)

  abbrev pub IsFinal : Bytes → Page E → Type 0
  IsFinal cursor p = (p.next ≡ []) ⊎ (p.next ≡ cursor)

  -- The pages of the journal behind a cursor, as the Gateway numbers them.
  abbrev pub Holds : (Bytes → Page E) → Bytes → List (List E) → Type 0
  Holds book cursor [] = ⊥
  Holds book cursor (es ∷ []) = IsFinal cursor (book cursor) × ((book cursor).entries ≡ es)
  Holds book cursor (es ∷ fs ∷ pages) =
      LeadsOn cursor (book cursor)
      × ((book cursor).entries ≡ es)
      × Holds book (book cursor).next (fs ∷ pages)

  has_none-long : (es : List E) → 1 ≤ length es → has_none es ≡ false
  has_none-long [] h = absurd (omega arith)
  has_none-long (e ∷ es) h = refl

  is_last-LeadsOn : (cursor : Bytes) (p : Page E) → LeadsOn cursor p → is_last cursor p ≡ false
  unfolding is_last
  is_last-LeadsOn cursor p (rows', some_next, other) =
      rw
        (
          has_none-long p.entries rows',
          is_empty-some p.next some_next,
          bytes_eq-ne p.next cursor other,
        )
        refl

  is_last-IsFinal : (cursor : Bytes) (p : Page E) → IsFinal cursor p → is_last cursor p ≡ true
  unfolding is_last
  is_last-IsFinal cursor p (inl e) =
      rw e (elim (Bool-cases (has_none p.entries)) [ inl b ↦ rw b refl | inr b ↦ rw b refl ])
  is_last-IsFinal cursor p (inr e) = rw (e, bytes_eq_refl cursor) (ground arith)

-- The world counts the fetches and keeps the pages that came.
pub record Journal {E W : Type 0} (fetch : ℕ → Bytes → W → Option (Page E × W)) (fetches : W → ℕ)
    (came : W → List (List E)) : Type 0 where
  pub returns :
      (size : ℕ) (cursor : Bytes) (w : W)
      → (p : Page E) × (w' : W) × (fetch size cursor w ≡ some (p, w'))
        × (fetches w' ≡ fetches w + 1)
        × (came w' ≡ (if is_nil p.error then came w ++ (p.entries ∷ []) else came w))

module _ {E W : Type 0} (ctx_err : W → GoError) (fetch : ℕ → Bytes → W → Option (Page E × W))
    (fetches : W → ℕ) (came : W → List (List E)) (laws : Journal fetch fetches came) where
  -- What the walk returns with `n` fetches left, when `all` are the rows of the pages so far.
  abbrev pub Ends : ℕ → W → Option (Walked E W) → List E → Type 0
  Ends n w result before =
      (out : Walked E W) × (result ≡ some out)
      × (fetches out.world ≤ fetches w + n)
      × (out.all ≡ before ++ rows (came out.world))

  gathered :
      (before all : List E) (w w' : W) (p : Page E)
      → all ≡ before ++ rows (came w)
      → came w' ≡ came w ++ (p.entries ∷ [])
      → all ++ p.entries ≡ before ++ rows (came w')
  gathered before all w w' p h c =
      ap (λ l. l ++ p.entries) h
      ∙ append_assoc before (rows (came w)) p.entries
      ∙ ap (λ l. before ++ (rows (came w) ++ l)) (sym (append-nil p.entries))
      ∙ ap (λ l. before ++ l) (sym (rows-append (came w) (p.entries ∷ [])))
      ∙ ap (λ l. before ++ rows l) (sym c)

  walk_pages-Ends :
      (n size : ℕ) (cursor : Bytes) (all : List E) (w : W) (before : List E)
      → all ≡ before ++ rows (came w)
      → Ends n w (walk_pages ctx_err fetch n size cursor all w) before
  unfolding walk_pages
  walk_pages-Ends zero size cursor all w before h =
      (record { all = all; error = nil_error; world = w }, refl, omega arith, h)
  walk_pages-Ends (suc n) size cursor all w before h =
      let (p, w', same, count, kept) = laws.returns size cursor w in
      elim (Bool-cases (is_nil (ctx_err w))) [
        | inr c ↦ rw c (record { all = all; error = ctx_err w; world = w }, refl, omega arith, h)
        | inl c ↦
            rw (c, same)
              (elim (Bool-cases (is_nil p.error)) [
                | inr e ↦ rw e (
                  record { all = all; error = p.error; world = w' },
                  refl,
                  omega (arith, count),
                  h
                      ∙ ap (λ l. before ++ rows l)
                          (sym
                            (kept ∙ ap (λ b. if b then came w ++ (p.entries ∷ []) else came w) e)),
                )
                | inl e ↦
                    let more =
                      gathered before all w w' p h
                        (kept ∙ ap (λ b. if b then came w ++ (p.entries ∷ []) else came w) e) in
                    rw e (elim (Bool-cases (is_last cursor p)) [
                      | inl l ↦ rw l (
                        record { all = all ++ p.entries; error = nil_error; world = w' },
                        refl,
                        omega (arith, count),
                        more,
                      )
                      | inr l ↦ rw l (
                          let (out, same', few, got) =
                            walk_pages-Ends n size p.next (all ++ p.entries) w' before more in
                          (out, same', omega (arith, few, count), got))
                    ])
              ])
      ]

  -- The walk over a fund journal returns after at most 1000 fetches, and its rows are those of the
  -- pages that came, in order, also when a fetch or the context ends it with an error. For fetches
  -- that return, and a world that counts them and keeps the pages that came without an error, none
  -- at the start.
  pub walk_fund_jour_pages-Ends :
      (page_size : ℤ) (cursor : Bytes) (w : W)
      → came w ≡ []
      → Ends max_pages w (walk_fund_jour_pages ctx_err fetch page_size cursor w) []
  unfolding walk_fund_jour_pages
  walk_fund_jour_pages-Ends page_size cursor w h =
      walk_pages-Ends max_pages (clamp_page_size page_size) cursor [] w [] (ap rows (sym h))

module _ {E W : Type 0} (ctx_err : W → GoError) (fetch : ℕ → Bytes → W → Option (Page E × W))
    (fetches : W → ℕ) (book : Bytes → Page E) where
  walk_pages_complete :
      ((v : W) → is_nil (ctx_err v) ≡ true)
      → ((c : Bytes) → is_nil (book c).error ≡ true)
      → ((size : ℕ) (c : Bytes) (v : W)
          → (v' : W) × (fetch size c v ≡ some (book c, v')) × (fetches v' ≡ fetches v + 1))
      → (pages : List (List E)) (n size : ℕ) (cursor : Bytes) (all : List E) (w : W)
      → Holds book cursor pages
      → length pages ≤ n
      → (w' : W) × (walk_pages ctx_err fetch n size cursor all w
          ≡ some (record { all = all ++ rows pages; error = nil_error; world = w' }))
        × (fetches w' ≡ fetches w + length pages)
  unfolding walk_pages
  walk_pages_complete lives fine answers [] n size cursor all w held few = absurd held
  walk_pages_complete lives fine answers (es ∷ pages) zero size cursor all w held few =
      absurd (omega arith)
  walk_pages_complete lives fine answers (es ∷ []) (suc n) size cursor all w held few =
      let (w', same, count) = answers size cursor w in
      rw (lives w, same, fine cursor, is_last-IsFinal cursor (book cursor) held.0)
        (
          w',
          ap (λ l. some (record { all = all ++ l; error = nil_error; world = w' }))
              (held.1 ∙ sym (append-nil es)),
          omega (arith, count),
        )
  walk_pages_complete lives fine answers (es ∷ fs ∷ pages) (suc n) size cursor all w held few =
      let (v, same, count) = answers size cursor w in
      rw (lives w, same, fine cursor, is_last-LeadsOn cursor (book cursor) held.0)
        (let (w', end, total) =
            walk_pages_complete lives fine answers (fs ∷ pages) n size (book cursor).next
              (all ++ (book cursor).entries) v held.2 (omega arith) in
          (
            w',
            end
                ∙ ap (λ l. some (record { all = l; error = nil_error; world = w' }))
                    (append_assoc all (book cursor).entries (rows (fs ∷ pages))
                      ∙ ap (λ l. all ++ (l ++ rows (fs ∷ pages))) held.1),
            omega (arith, count, total),
          ))

  -- If the Gateway holds a journal in at most 1000 pages, where each but the last has rows and the
  -- cursor of the next, and the last names no next page or itself, the walk returns all their rows in order, without an error and with one fetch for each
  -- page. For a context that does not end and fetches that return without an error what the
  -- Gateway holds behind the cursor.
  pub walk_fund_jour_pages_complete :
      ((v : W) → is_nil (ctx_err v) ≡ true)
      → ((c : Bytes) → is_nil (book c).error ≡ true)
      → ((size : ℕ) (c : Bytes) (v : W)
          → (v' : W) × (fetch size c v ≡ some (book c, v')) × (fetches v' ≡ fetches v + 1))
      → (pages : List (List E)) (page_size : ℤ) (cursor : Bytes) (w : W) → Holds book cursor pages
      → length pages ≤ max_pages
      → (w' : W) × (walk_fund_jour_pages ctx_err fetch page_size cursor w
          ≡ some (record { all = rows pages; error = nil_error; world = w' }))
        × (fetches w' ≡ fetches w + length pages)
  unfolding walk_fund_jour_pages
  walk_fund_jour_pages_complete lives fine answers pages page_size cursor w =
      walk_pages_complete lives fine answers pages max_pages (clamp_page_size page_size) cursor [] w
