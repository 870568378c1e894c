-- ===== src/Login/Counts.antt =====
-- InMemoryCharacterCountRegistry of internal/loginserver/registry/charactercounts.go: how many
-- characters an account has on each game server, as far as a fresh report says.
pub mod Sweep
pub mod Laws
mod Tests
use l2go.Prelude.{
  ℕ, ◌+◌, Bool, Option, none, some, List, [], ◌∷◌, ◌==◌, if◌then◌else◌, ltb, leb, String, string_eq,
  nat_eq,
}
use l2go.Prelude.Dict.{Dict, lookup, insert, delete}
use l2go.Prelude.Nested.{Nested, nested_lookup, nested_insert, or_empty, is_empty}

pub record CountInfo : Type 0 where
  pub count : ℕ
  pub timestamp : ℕ

-- account -> server id -> count. `time.Since(t) > ttl` is `t + ttl < now`.
pub record Counts : Type 0 where
  pub reports : Nested String ℕ CountInfo
  pub cache_ttl : ℕ

pub new_counts : ℕ → Counts
new_counts ttl = record { reports = []; cache_ttl = ttl }

pub is_old : CountInfo → ℕ → ℕ → Bool
is_old info ttl now = ltb (info.timestamp + ttl) now

pub set_character_count : Counts → ℕ → String → ℕ → ℕ → Counts
set_character_count r now account server_id n = record r {
  reports = nested_insert account server_id (record { count = n; timestamp = now }) r.reports;
}

abbrev pub fresh_count : Option CountInfo → ℕ → ℕ → ℕ
fresh_count none ttl now = 0
fresh_count (some info) ttl now = if is_old info ttl now then 0 else info.count

pub get_character_count : Counts → ℕ → String → ℕ → ℕ
get_character_count r now account server_id =
    fresh_count (nested_lookup account server_id r.reports) r.cache_ttl now

pub fresh_counts : ℕ → ℕ → Dict ℕ CountInfo → Dict ℕ ℕ → Dict ℕ ℕ
fresh_counts ttl now [] result = result
fresh_counts ttl now ((server_id, info) ∷ m) result =
    fresh_counts ttl now m
      (if is_old info ttl now then result else insert server_id info.count result)

pub get_character_counts : Counts → ℕ → String → Dict ℕ ℕ
get_character_counts r now account =
    fresh_counts r.cache_ttl now (or_empty (lookup account r.reports)) []

-- One account in the loop of ClearServer or CleanupExpired, which drops the accounts left empty.
pub keep : String → Dict ℕ CountInfo → Nested String ℕ CountInfo → Nested String ℕ CountInfo
keep account s rest = if is_empty s then rest else (account, s) ∷ rest

-- The loop of the two, over the accounts.
pub sweep :
    (Dict ℕ CountInfo → Dict ℕ CountInfo) → Nested String ℕ CountInfo → Nested String ℕ CountInfo
sweep f [] = []
sweep f ((account, s) ∷ m) = keep account (f s) (sweep f m)

pub clear_server : Counts → ℕ → Counts
clear_server r server_id = record r { reports = sweep (delete server_id) r.reports }

pub clear_account : Counts → String → Counts
clear_account r account = record r { reports = delete account r.reports }

pub drop_old : ℕ → ℕ → Dict ℕ CountInfo → Dict ℕ CountInfo
drop_old ttl now [] = []
drop_old ttl now ((server_id, info) ∷ s) =
    if is_old info ttl now then drop_old ttl now s else (server_id, info) ∷ drop_old ttl now s

pub cleanup_expired : Counts → ℕ → Counts
cleanup_expired r now = record r { reports = sweep (drop_old r.cache_ttl now) r.reports }
