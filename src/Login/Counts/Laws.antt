-- ===== src/Login/Counts/Laws.antt =====
-- The registry refines a partial function of account and server.
use l2go.Prelude.{
  ℕ, ◌≤◌, ◌≡◌, refl, ap, ◌&&◌, Option, none, some, List, [], ◌∷◌, ◌==◌, if◌then◌else◌, String,
  string_eq, nat_eq, arith,
}
use l2go.Prelude.Dict.{Dict, lookup, insert, delete, lookup-insert, lookup-delete}
use l2go.Prelude.Nested.{
  Nested, nested_lookup, nested_insert, or_empty, nested_lookup-insert, nested_lookup-drop,
}
use l2go.Login.Counts.{
  CountInfo, Counts, is_old, set_character_count, fresh_count, get_character_count, sweep,
  new_counts, clear_server, clear_account, drop_old, cleanup_expired,
}
use l2go.Login.Counts.Sweep.{
  Distinct, insert-Distinct, delete-Distinct, fresh, lookup-drop_old, drop_old-Distinct,
  lookup-sweep, sweep-Distinct,
}

pub record WellFormed (m : Nested String ℕ CountInfo) : Type 0 where
  pub accounts : Distinct m
  pub servers : (a : String) → Distinct (or_empty (lookup a m))

pub data Event : Type 0 where
  reports_count : ℕ → String → ℕ → ℕ → Event
  clears_server : ℕ → Event
  clears_account : String → Event
  cleans_up : ℕ → Event

unfoldable pub step : Counts → Event → Counts
step r (reports_count now a server n) = set_character_count r now a server n
step r (clears_server server) = clear_server r server
step r (clears_account a) = clear_account r a
step r (cleans_up now) = cleanup_expired r now

unfoldable pub run : Counts → List Event → Counts
run r [] = r
run r (e ∷ es) = run (step r e) es

-- The last report of an account's characters on a server, unless it was cleared since.
abbrev pub Reports : Type 0
Reports = String → ℕ → Option CountInfo

pub note : ℕ → Reports → Event → Reports
note ttl f (reports_count now a server n) = λ b t.
    if string_eq.beq a b && (server == t)
    then some (record { count = n; timestamp = now })
    else f b t
note ttl f (clears_server server) = λ b t. if server == t then none else f b t
note ttl f (clears_account a) = λ b t. if string_eq.beq a b then none else f b t
note ttl f (cleans_up now) = λ b t. fresh (f b t) ttl now

pub noted : ℕ → Reports → List Event → Reports
noted ttl f [] = f
noted ttl f (e ∷ es) = noted ttl (note ttl f e) es

record Refines (ttl : ℕ) (r : Counts) (f : Reports) : Type 0 where
  pub kept_ttl : r.cache_ttl ≡ ttl
  pub well_formed : WellFormed r.reports
  pub held : (a : String) (t : ℕ) → nested_lookup a t r.reports ≡ f a t

insert-WellFormed :
    (a : String) (t : ℕ) (info : CountInfo) (m : Nested String ℕ CountInfo)
    → WellFormed m
    → WellFormed (nested_insert a t info m)
unfolding nested_insert
insert-WellFormed a t info m w = record {
  accounts = insert-Distinct a (insert t info (or_empty (lookup a m))) m w.accounts;
  servers = λ b. ground (
    arith,
    lookup-insert a b (insert t info (or_empty (lookup a m))) m,
    insert-Distinct t info (or_empty (lookup a m)) (w.servers a),
    w.servers b,
  );
}

sweep-WellFormed :
    (f : Dict ℕ CountInfo → Dict ℕ CountInfo) (m : Nested String ℕ CountInfo)
    → f [] ≡ []
    → ((s : Dict ℕ CountInfo) → Distinct s → Distinct (f s))
    → WellFormed m
    → WellFormed (sweep f m)
sweep-WellFormed f m e keeps w = record {
  accounts = sweep-Distinct f m w.accounts;
  servers = λ a. rw (lookup-sweep f a m e w.accounts) (keeps (or_empty (lookup a m)) (w.servers a));
}

nested_lookup_lem :
    (a : String) (t : ℕ) (m : Nested String ℕ CountInfo)
    → nested_lookup a t m ≡ lookup t (or_empty (lookup a m))
unfolding nested_lookup
nested_lookup_lem a t m = refl

nested_lookup-sweep :
    (f : Dict ℕ CountInfo → Dict ℕ CountInfo) (a : String) (t : ℕ) (m : Nested String ℕ CountInfo)
    → f [] ≡ []
    → Distinct m
    → nested_lookup a t (sweep f m) ≡ lookup t (f (or_empty (lookup a m)))
unfolding nested_lookup
nested_lookup-sweep f a t m e d = ap (lookup t) (lookup-sweep f a m e d)

step-Refines :
    (ttl : ℕ) (r : Counts) (f : Reports) (e : Event)
    → Refines ttl r f
    → Refines ttl (step r e) (note ttl f e)
unfolding step note set_character_count clear_server clear_account cleanup_expired
step-Refines ttl r f (reports_count now a server n) h = record {
  kept_ttl = h.kept_ttl;
  well_formed =
      insert-WellFormed a server (record { count = n; timestamp = now }) r.reports h.well_formed;
  held = λ b t. ground (
    arith,
    h.held b t,
    nested_lookup-insert a b server t (record { count = n; timestamp = now }) r.reports,
  );
}
step-Refines ttl r f (clears_server server) h = record {
  kept_ttl = h.kept_ttl;
  well_formed =
      sweep-WellFormed (delete server) r.reports (unfold delete in refl) (delete-Distinct server)
        h.well_formed;
  held = λ b t. ground (
    arith,
    nested_lookup-sweep (delete server) b t r.reports (unfold delete in refl)
        h.well_formed.accounts,
    lookup-delete server t (or_empty (lookup b r.reports)),
    nested_lookup_lem b t r.reports,
    h.held b t,
  );
}
step-Refines ttl r f (clears_account a) h = record {
  kept_ttl = h.kept_ttl;
  well_formed = record {
    accounts = delete-Distinct a r.reports h.well_formed.accounts;
    servers = λ b. ground (arith, lookup-delete a b r.reports, h.well_formed.servers b);
  };
  held = λ b t. ground (arith, h.held b t, nested_lookup-drop a b t r.reports);
}
step-Refines ttl r f (cleans_up now) h = record {
  kept_ttl = h.kept_ttl;
  well_formed =
      sweep-WellFormed (drop_old r.cache_ttl now) r.reports (unfold drop_old in refl)
        (drop_old-Distinct r.cache_ttl now) h.well_formed;
  held = λ b t. ground (
    arith,
    nested_lookup-sweep (drop_old r.cache_ttl now) b t r.reports (unfold drop_old in refl)
        h.well_formed.accounts,
    lookup-drop_old r.cache_ttl now t (or_empty (lookup b r.reports)) (h.well_formed.servers b),
    nested_lookup_lem b t r.reports,
    h.held b t,
    h.kept_ttl,
  );
}

run-Refines :
    (ttl : ℕ) (r : Counts) (f : Reports) (es : List Event)
    → Refines ttl r f
    → Refines ttl (run r es) (noted ttl f es)
unfolding run noted
run-Refines ttl r f [] h = h
run-Refines ttl r f (e ∷ es) h =
    run-Refines ttl (step r e) (note ttl f e) es (step-Refines ttl r f e h)

new_counts-Refines : (ttl : ℕ) → Refines ttl (new_counts ttl) (λ a t. none)
unfolding new_counts nested_lookup lookup
new_counts-Refines ttl = record {
  kept_ttl = refl;
  well_formed = record { accounts = tt; servers = λ a. tt };
  held = λ a t. refl;
}

-- After any reports, clearings and clean-ups, the count given for an account on a server is that of
-- the last report that was not cleared since, and 0 without one or when it is older than the limit.
pub get_character_count-run :
    (ttl : ℕ) (es : List Event) (now : ℕ) (a : String) (server : ℕ)
    → get_character_count (run (new_counts ttl) es) now a server
      ≡ fresh_count (noted ttl (λ b t. none) es a server) ttl now
unfolding get_character_count
get_character_count-run ttl es now a server =
    let h = run-Refines ttl (new_counts ttl) (λ b t. none) es (new_counts-Refines ttl) in
    ground (arith, h.held a server, h.kept_ttl)

-- A clean-up is not seen by any count that is asked for at the same time or later.
pub get_character_count-cleanup_expired :
    (ttl : ℕ) (es : List Event) (now later : ℕ) (a : String) (server : ℕ)
    → now ≤ later
    → let r = run (new_counts ttl) es in
      get_character_count (cleanup_expired r now) later a server
      ≡ get_character_count r later a server
unfolding get_character_count is_old step note
get_character_count-cleanup_expired ttl es now later a server le =
    let h = run-Refines ttl (new_counts ttl) (λ b t. none) es (new_counts-Refines ttl) in
    let h' =
      step-Refines ttl (run (new_counts ttl) es) (noted ttl (λ b t. none) es) (cleans_up now) h in
    ground (arith, h.held a server, h'.held a server, h.kept_ttl, h'.kept_ttl)
