-- ===== src/Push/Freshness.antt =====
-- internal/push/freshness.go: the last activity of each topic, and whether it has gone quiet. Times
-- are nanoseconds of one clock, which the operations take as an argument.
pub mod History
use hstongapi4go.Common.{
  ℕ, zero, suc, ◌+◌, ◌-◌, ◌*◌, ◌≡◌, refl, ◌≤◌, ◌<◌, Bool, true, false, Option, none, some, List, [],
  ◌∷◌, arith, ltb, ◌==◌, if◌then◌else◌, ◌≢◌,
}
use hstongapi4go.Common.Int.{ℤ, pos, negsuc}

pub record FreshnessEntry : Type 0 where
  pub last_seq : ℕ
  pub last_seen : ℕ
  pub topic_id : ℤ

-- The map of the monitor, by topic.
abbrev pub Entries : Type 0
Entries = List (ℤ × FreshnessEntry)

pub record FreshnessMonitor : Type 0 where
  pub entries : Entries
  pub tol : ℕ

abbrev pub same_topic : ℤ → ℤ → Bool
same_topic (pos a) (pos b) = a == b
same_topic (negsuc a) (negsuc b) = a == b
same_topic (pos a) (negsuc b) = false
same_topic (negsuc a) (pos b) = false

pub find : ℤ → Entries → Option FreshnessEntry
find t [] = none
find t ((u, e) ∷ es) = if same_topic u t then some e else find t es

pub put : ℤ → FreshnessEntry → Entries → Entries
put t e [] = (t, e) ∷ []
put t e ((u, d) ∷ es) =
    let rest = put t e es in if same_topic u t then (u, e) ∷ es else (u, d) ∷ rest

-- 5 * time.Minute
abbrev pub default_tol : ℕ
default_tol = 300000000000

-- `NewFreshnessMonitor`.
pub new_monitor : ℤ → FreshnessMonitor
new_monitor (pos zero) = record { entries = []; tol = default_tol }
new_monitor (pos (suc n)) = record { entries = []; tol = suc n }
new_monitor (negsuc n) = record { entries = []; tol = default_tol }

zero_entry : FreshnessEntry
zero_entry = record { last_seq = 0; last_seen = 0; topic_id = pos 0 }

entry_or_zero : Option FreshnessEntry → FreshnessEntry
unfolding zero_entry
entry_or_zero none = zero_entry
entry_or_zero (some e) = e

seen : FreshnessEntry → ℤ → ℕ → ℕ → FreshnessEntry
seen e t seq now = record {
  last_seq = if ltb e.last_seq seq then seq else e.last_seq;
  last_seen = now;
  topic_id = t;
}

-- `Record`.
pub observe : ℕ → ℤ → ℕ → FreshnessMonitor → FreshnessMonitor
unfolding seen entry_or_zero
observe now t seq m = record m {
  entries = put t (seen (entry_or_zero (find t m.entries)) t seq now) m.entries;
}

pub data Status : Type 0 where
  unknown_topic : Status
  stale fresh : FreshnessEntry → Status

pub status_of : ℕ → ℕ → Option FreshnessEntry → Status
status_of now tol none = unknown_topic
status_of now tol (some e) = if ltb tol (now - e.last_seen) then stale e else fresh e

-- `Check`.
pub check : ℕ → ℤ → FreshnessMonitor → Status
unfolding status_of
check now t m = status_of now m.tol (find t m.entries)

-- `Clear`.
pub clear : FreshnessMonitor → FreshnessMonitor
clear m = record m { entries = [] }

-- Records of activity: the time, the topic and the sequence number of each.
abbrev pub Activity : Type 0
Activity = ℕ × ℤ × ℕ

pub observe_all : List Activity → FreshnessMonitor → FreshnessMonitor
observe_all [] m = m
observe_all ((now, t, seq) ∷ rest) m = observe_all rest (observe now t seq m)
