-- ===== src/Main/Startup.antt =====
-- src/main.cpp: the loop that starts the adapters one after the other, with its waits, and the start
-- of the subscriber server behind it. Whether an attempt to start an adapter succeeds, and whether
-- the server can bind its port, are arguments. `running` has the adapters on which `start` has been
-- called and `stop` has not been since: a failed start may leave a socket that reconnects.
use lob.Prelude.{ℕ, zero, suc, ◌*◌, Bool, true, false, List, [], ◌∷◌, ltb, ◌==◌, if◌then◌else◌}

abbrev pub max_start_attempts : ℕ
max_start_attempts = 10

abbrev pub backoff_cap_sec : ℕ
backoff_cap_sec = 300

-- `std::min(backoffSec * 2, kBackoffCapSec)`
abbrev pub next_backoff : ℕ → ℕ
next_backoff backoff = if ltb backoff_cap_sec (backoff * 2) then backoff_cap_sec else backoff * 2

-- The attempts that are left, from the number of the next one: whether one succeeds, and the waits.
unfoldable pub start_adapter : (ℕ → Bool) → ℕ → ℕ → ℕ → Bool × List ℕ
start_adapter starts zero attempt backoff = (false, [])
start_adapter starts (suc left) attempt backoff =
    let (started, waits) = start_adapter starts left (suc attempt) (next_backoff backoff) in
    if starts attempt then (true, []) else (started, backoff ∷ waits)

abbrev pub set_running : ℕ → Bool → (ℕ → Bool) → ℕ → Bool
set_running i up running j = if j == i then up else running j

-- `stop` of the adapters before `n`.
unfoldable pub stop_before : ℕ → (ℕ → Bool) → ℕ → Bool
stop_before zero running = running
stop_before (suc n) running = set_running n false (stop_before n running)

-- The adapters from `i` on, of which `left` are left.
unfoldable pub start_runtimes : (ℕ → ℕ → Bool) → ℕ → ℕ → (ℕ → Bool) → Bool × (ℕ → Bool)
unfolding start_adapter stop_before
start_runtimes starts zero i running = (true, running)
start_runtimes starts (suc left) i running =
    let (started, waits) = start_adapter (starts i) max_start_attempts 1 30 in
    let up = set_running i true running in
    let rest = start_runtimes starts left (suc i) up in
    if started then rest else (false, stop_before i (set_running i false up))

-- `main` from the start of the first adapter to its loop of statistics: whether it gets there.
unfoldable pub start_all : (ℕ → ℕ → Bool) → Bool → ℕ → Bool × (ℕ → Bool)
unfolding start_runtimes
start_all starts bound n =
    let (started, running) = start_runtimes starts n 0 (λ _. false) in
    if started
    then if bound then (true, running) else (false, stop_before n running)
    else (false, running)
