-- ===== src/Aguiadk/RunStore/Examples.antt =====
-- The store of paused runs on small inputs: tests, and uses of the theorems.
use adk_go_pkg.Base.{
  ℕ, ◌+◌, ◌-◌, ◌≤◌, none, some, List, [], ◌∷◌, Bytes, bytes, str_eq, length, leb, if◌then◌else◌,
  ◌≡◌, refl, arith,
}
use adk_go_pkg.Base.Int.{pos}
use adk_go_pkg.Base.Map.{lookup, insert, delete, has_key, unique}
use adk_go_pkg.Value.{Value}
use adk_go_pkg.Aguiadk.RunStore.{
  PausedRun, RunEntry, RunStore, new_with_max_entries, purge_expired, save, load, load_and_delete,
  Call, save_run, claim_run, stored, tick, run_calls,
}
use adk_go_pkg.Aguiadk.RunStore.Purge.{live}
use adk_go_pkg.Aguiadk.RunStore.Bounds.{IsValid, new_with_max_entries-IsValid, run_calls-IsValid}
use adk_go_pkg.Aguiadk.RunStore.Evict.{IsVictim, lookup-save_full}
use adk_go_pkg.Aguiadk.RunStore.Expiry.{load-save}
use adk_go_pkg.Aguiadk.RunStore.Claims.{claims, saves, held, claims-le-saves}
use adk_go_pkg.Aguiadk.RunStore.Approvals.{
  ResumeEntry, approvals_from_resume, Decided, lookup-approvals,
}

abbrev Store : Type 0
Store = RunStore ℕ ℕ

abbrev run_of : Bytes → PausedRun ℕ ℕ
run_of id = record {
  thread_id = bytes "thread";
  run_id = id;
  session_id = bytes "session";
  pending = [];
  requested_input = none;
  state = (bytes "step", 3) ∷ (bytes "try", 1) ∷ [];
}

-- Two runs at most, each for ten units of time.
abbrev two : Store
two = new_with_max_entries (pos 10) (pos 2)

abbrev traffic : List (ℕ × Call ℕ ℕ)
traffic =
    (1, save_run (bytes "a") (run_of (bytes "a")))
    ∷ (2, save_run (bytes "b") (run_of (bytes "b")))
    ∷ (3, save_run (bytes "c") (run_of (bytes "c")))
    ∷ (4, claim_run (bytes "b"))
    ∷ (5, claim_run (bytes "b"))
    ∷ (20, tick)
    ∷ []

run_calls-IsValid_example : IsValid (run_calls traffic two)
run_calls-IsValid_example =
    run_calls-IsValid traffic two (new_with_max_entries-IsValid (pos 10) (pos 2))

-- The entry that was saved first makes room for the third.
evicts_first :
    length
      (run_calls
        ((1, save_run (bytes "a") (run_of (bytes "a")))
          ∷ (2, save_run (bytes "b") (run_of (bytes "b")))
          ∷ (3, save_run (bytes "c") (run_of (bytes "c")))
          ∷ [])
        two).runs
    ≡ 2
unfolding run_calls save insert has_key new_with_max_entries str_eq delete
evicts_first = refl

claims-le-saves_example :
    claims (bytes "b") traffic two ≤ held (bytes "b") two + saves (bytes "b") traffic
claims-le-saves_example = claims-le-saves (bytes "b") traffic two

one_claim : claims (bytes "b") traffic two ≡ 1
unfolding claims new_with_max_entries save insert has_key delete str_eq load_and_delete lookup
one_claim = refl

load-save_example :
    ((load (bytes "a") 8 (save (bytes "a") (run_of (bytes "a")) 5 two)).1
      ≡ (if leb 10 (8 - 5) then none else some (run_of (bytes "a"))))
    × ((load_and_delete (bytes "a") 8 (save (bytes "a") (run_of (bytes "a")) 5 two)).1
        ≡ (if leb 10 (8 - 5) then none else some (run_of (bytes "a"))))
unfolding new_with_max_entries unique str_eq
load-save_example = load-save (bytes "a") (run_of (bytes "a")) 5 8 two refl

-- Both places are taken.
abbrev full : Store
full = record {
  runs =
      (bytes "a", record { run = run_of (bytes "a"); at = 4 })
      ∷ (bytes "b", record { run = run_of (bytes "b"); at = 2 })
      ∷ [];
  ttl = 10;
  max_entries = 2;
}

lookup-save_full_example :
    (v : Bytes) × (e : RunEntry ℕ ℕ) × IsVictim v e (purge_expired 5 full).runs
    × ((j : Bytes)
        → lookup j (save (bytes "c") (run_of (bytes "c")) 5 full).runs ≡ (
            if str_eq (bytes "c") j
            then some (record { run = run_of (bytes "c"); at = 5 })
            else if str_eq v j
            then none
            else live 10 5 (lookup j full.runs)))
unfolding unique purge_expired has_key str_eq stored insert
lookup-save_full_example =
    lookup-save_full (bytes "c") (run_of (bytes "c")) 5 full refl refl (omega arith) (omega arith)

abbrev decisions : List (ResumeEntry ℕ)
decisions =
    record { interrupt_id = bytes "i"; status = bytes "resolved"; payload = Value.null }
    ∷ record { interrupt_id = bytes "i"; status = bytes "cancelled"; payload = Value.null }
    ∷ []

lookup-approvals_example :
    Decided
      (bytes "resolved")
      (bytes "i")
      decisions
      (lookup (bytes "i") (approvals_from_resume (bytes "resolved") decisions))
lookup-approvals_example = lookup-approvals (bytes "resolved") (bytes "i") decisions
