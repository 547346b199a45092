-- ===== src/Services/Push/Keys.antt =====
-- The keys of pkg/services/push.go: under which an update is routed, and under which subscriptions
-- share one request. Codes are ASCII, as strings.ToUpper and strings.TrimSpace see them.
pub mod Sorted
use hstongapi4go.Common.{
  ℕ, ◌-◌, Bool, true, false, not, ◌&&◌, ◌||◌, Option, none, some, List, [], ◌∷◌, ◌++◌, map, ltb,
  leb, length, ◌==◌, if◌then◌else◌,
}
use hstongapi4go.Common.Int.{ℤ, pos, negsuc}
use hstongapi4go.Common.Bytes.{Bytes}
use hstongapi4go.Common.Decimal.{itoa}
use hstongapi4go.Common.Text.{codes, contains, has_suffix, trim_suffix}
use hstongapi4go.Domain.Symbol.{is_empty}
use hstongapi4go.Services.Validation.{bytes_less}

-- `Security` of pkg/services/market.go.
pub record Security : Type 0 where
  pub code : Bytes
  pub data_type : ℤ

abbrev upper_byte : ℕ → ℕ
upper_byte b = if leb b'a' b && leb b b'z' then b - 32 else b

abbrev is_space : ℕ → Bool
is_space b = leb 9 b && leb b 13 || b == 32

abbrev trim_left : Bytes → Bytes
trim_left [] = []
trim_left (b ∷ bs) = if is_space b then trim_left bs else b ∷ bs

-- A byte in front of what is trimmed on the right: it stays if it is no space or something follows.
abbrev keep_left : ℕ → Bytes → Bytes
keep_left b [] = if is_space b then [] else b ∷ []
keep_left b (c ∷ cs) = b ∷ c ∷ cs

abbrev trim_right : Bytes → Bytes
trim_right [] = []
trim_right (b ∷ bs) = keep_left b (trim_right bs)

-- `strings.TrimSpace`.
unfoldable pub trim_space : Bytes → Bytes
trim_space bs = trim_right (trim_left bs)

abbrev pub market_suffixes : List Bytes
market_suffixes = codes ".HK" ∷ codes ".US" ∷ codes ".SZ" ∷ codes ".SH" ∷ []

-- The loop over the suffixes.
abbrev pub strip_first : List Bytes → Bytes → Bytes
strip_first [] u = u
strip_first (s ∷ rest) u =
    if ltb (length s) (length u) && has_suffix u s then trim_suffix u s else strip_first rest u

unfoldable pub normalise_routing_key : Bytes → Bytes
normalise_routing_key code = strip_first market_suffixes (map upper_byte (trim_space code))

-- The keys of the codes that are not empty, each once: the loops of `securityKeys` and of
-- `updateRoutingKeys`, with the keys seen.
unfoldable pub distinct_keys : List Bytes → List Bytes → List Bytes
distinct_keys seen [] = []
distinct_keys seen (c ∷ cs) =
    let k = normalise_routing_key c in
    let rest = distinct_keys seen cs in
    let rest' = distinct_keys (k ∷ seen) cs in
    if is_empty c then rest else if contains k seen then rest else k ∷ rest'

unfoldable pub security_keys : List Security → List Bytes
security_keys ss = distinct_keys [] (map (λ s. s.code) ss)

-- The notifyId and the code inside the payload.
unfoldable pub update_routing_keys : Bytes → Bytes → List Bytes
update_routing_keys id security_code = distinct_keys [] (id ∷ security_code ∷ [])

-- `sort.Strings`: there is one sorted list of the same strings.
unfoldable pub insert : Bytes → List Bytes → List Bytes
insert x [] = x ∷ []
insert x (y ∷ ys) = if bytes_less y x then y ∷ insert x ys else x ∷ y ∷ ys

unfoldable pub sort : List Bytes → List Bytes
sort [] = []
sort (x ∷ xs) = insert x (sort xs)

-- `strings.Join`.
unfoldable pub join : Bytes → List Bytes → Bytes
join sep [] = []
join sep (x ∷ []) = x
join sep (x ∷ y ∷ ys) = x ++ (sep ++ join sep (y ∷ ys))

abbrev pub part : Security → Bytes
part s = s.code ++ (0 ∷ itoa s.data_type)

unfoldable pub canonical_push_key : ℤ → List Security → Bytes
canonical_push_key topic ss = itoa topic ++ (0 ∷ join (1 ∷ []) (sort (map part ss)))
