-- ===== src/Aguiadk/RunStore/Keys.antt =====
-- RunKey joins two client-supplied identifiers by a bar.
use adk_go_pkg.Base.{[], ◌∷◌, ◌++◌, Bytes, bytes, ◌≡◌, ◌≢◌, arith, All, append_assoc}
use adk_go_pkg.Aguiadk.RunStore.{run_key}

abbrev pub HasNoBar : Bytes → Type 0
HasNoBar = All (λ c. c ≢ b'|')

-- Two runs have one key only if they are one run, provided that the thread identifiers hold no bar.
pub run_key_injective :
    (thread thread' run run' : Bytes)
    → HasNoBar thread
    → HasNoBar thread'
    → run_key thread run ≡ run_key thread' run'
    → (thread ≡ thread') × (run ≡ run')
unfolding run_key
run_key_injective [] [] run run' h h' e = ground arith
run_key_injective [] (c ∷ t) run run' h h' e = ground arith
run_key_injective (c ∷ t) [] run run' h h' e = ground arith
run_key_injective (c ∷ t) (c' ∷ t') run run' h h' e =
    ground (arith, run_key_injective t t' run run')

-- A bar can be moved from the thread to the run: the two runs then share a key.
pub run_key_collides :
    (a b c : Bytes) → run_key (a ++ (bytes "|" ++ b)) c ≡ run_key a (b ++ (bytes "|" ++ c))
unfolding run_key
run_key_collides a b c = append_assoc a (bytes "|" ++ b) (bytes "|" ++ c)
