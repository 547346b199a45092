-- ===== src/Domain/Symbol/Markets.antt =====
-- The market of a code (pkg/domain/symbol.go).
use hstongapi4go.Common.{
  ℕ, ◌-◌, ◌≡◌, ◌≢◌, refl, sym, ◌∙◌, ◌<◌, true, false, List, [], ◌∷◌, ◌++◌, arith, length,
  length-append, drop-append, All, Bool-cases, inl, inr, leb,
}
use hstongapi4go.Common.Int.{ℤ}
use hstongapi4go.Common.Bytes.{Bytes}
use hstongapi4go.Common.Text.{codes, bytes_eq_refl, has_suffix, last_or, last-has_suffix}
use hstongapi4go.Domain.Symbol.{
  market_hk, market_us, market_shenzhen_connect, market_shanghai_connect, new_symbol,
  market_from_code,
}

abbrev pub markets : List Bytes
markets = market_hk ∷ market_us ∷ market_shenzhen_connect ∷ market_shanghai_connect ∷ []

has_suffix-append : (c s : Bytes) → has_suffix (c ++ s) s ≡ true
unfolding has_suffix
has_suffix-append c s =
    let cut : length (c ++ s) - length s ≡ length c = omega (arith, length-append c s) in
    let fits : leb (length s) (length (c ++ s)) ≡ true = ground (arith, length-append c s) in
    rw (fits, cut, drop-append (length c) c s refl) (bytes_eq_refl s)

last-append : (d x : ℕ) (c s : Bytes) → last_or d (c ++ (x ∷ s)) ≡ last_or x s
last-append d x [] s = refl
last-append d x (y ∷ c) s = last-append y x c s

other_suffix :
    (x : ℕ) (c s t : Bytes)
    → last_or x s ≢ last_or 0 t
    → 0 < length t
    → has_suffix (c ++ (x ∷ s)) t ≡ false
other_suffix x c s t n p = elim (Bool-cases (has_suffix (c ++ (x ∷ s)) t)) [
  | inl h ↦ absurd (n (sym (last-append 0 x c s) ∙ last-has_suffix (c ++ (x ∷ s)) t 0 h p))
  | inr h ↦ h
]

-- The market that MarketFromCode finds in the full code of a symbol is the symbol's market, for each
-- of the four markets, whatever the code, also one that ends like a full code itself.
pub market_from_code-new_symbol :
    (c : Bytes) (t : ℤ) → All (λ m. market_from_code (new_symbol m c t).full_code ≡ m) markets
unfolding market_from_code new_symbol
market_from_code-new_symbol c t = (
  rw (has_suffix-append c (codes ".HK")) refl,
  (
    rw
        (
          other_suffix b'.' c (codes "US") (codes ".HK") (λ e. omega arith) (omega arith),
          has_suffix-append c (codes ".US"),
        )
        refl,
    (
      rw
          (
            other_suffix b'.' c (codes "SZ") (codes ".HK") (λ e. omega arith) (omega arith),
            other_suffix b'.' c (codes "SZ") (codes ".US") (λ e. omega arith) (omega arith),
            has_suffix-append c (codes ".SZ"),
          )
          refl,
      (
        rw
            (
              other_suffix b'.' c (codes "SH") (codes ".HK") (λ e. omega arith) (omega arith),
              other_suffix b'.' c (codes "SH") (codes ".US") (λ e. omega arith) (omega arith),
              other_suffix b'.' c (codes "SH") (codes ".SZ") (λ e. omega arith) (omega arith),
              has_suffix-append c (codes ".SH"),
            )
            refl,
        tt,
      ),
    ),
  ),
)
