-- ===== src/Main/Stopped.antt =====
-- What is running when the start of the server (src/main.cpp) has gone through or is given up.

use mathlib.Core.Path.{subst}
use native.Mathlib.Decide.{dec_lt}
use lob.Prelude.{
  ℕ, zero, suc, ◌+◌, ◌<◌, ◌≤◌, ◌≡◌, ◌⊎◌, refl, Bool, true, false, inl, inr, ltb, if◌then◌else◌,
  arith, Bool-cases,
}
use lob.Main.Startup.{
  max_start_attempts, next_backoff, start_adapter, set_running, stop_before, start_runtimes,
  start_all,
}

-- The adapters before `n` are running, and no others.
abbrev pub FirstRunning : ℕ → (ℕ → Bool) → Type 0
FirstRunning n running = (j : ℕ) → running j ≡ ltb j n

abbrev pub NoneRunning : (ℕ → Bool) → Type 0
NoneRunning running = (j : ℕ) → running j ≡ false

-- One of the attempts from `attempt` on, of which there are `left`, succeeds.
abbrev Succeeds : (ℕ → Bool) → ℕ → ℕ → Type 0
Succeeds starts attempt left = (k : ℕ) × (attempt ≤ k) × (k < attempt + left) × (starts k ≡ true)

abbrev Fails : (ℕ → Bool) → ℕ → ℕ → Type 0
Fails starts attempt left = (k : ℕ) → attempt ≤ k → k < attempt + left → starts k ≡ false

start_adapter-answer :
    (starts : ℕ → Bool) (left attempt backoff : ℕ)
    → let (started, waits) = start_adapter starts left attempt backoff in
      ((started ≡ true) × Succeeds starts attempt left)
      ⊎ ((started ≡ false) × Fails starts attempt left)
unfolding start_adapter
start_adapter-answer starts zero attempt backoff = inr (refl, λ k le lt. absurd (omega arith))
start_adapter-answer starts (suc left) attempt backoff = elim (Bool-cases (starts attempt)) [
  | inl up ↦ rw up (inl (refl, (attempt, omega arith, omega arith, up)))
  | inr down ↦
      rw down (later down (start_adapter-answer starts left (suc attempt) (next_backoff backoff)))
]
  where
    later :
        {started : Bool}
        → starts attempt ≡ false
        → ((started ≡ true) × Succeeds starts (suc attempt) left)
          ⊎ ((started ≡ false) × Fails starts (suc attempt) left)
        → ((started ≡ true) × Succeeds starts attempt (suc left))
          ⊎ ((started ≡ false) × Fails starts attempt (suc left))
    later down (inl (e, (k, le, lt, up))) = inl (e, (k, omega arith, omega arith, up))
    later down (inr (e, fails)) = inr (
      e,
      λ k le lt. elim (dec_lt attempt k) [
        | yes above ↦ fails k (omega arith) (omega arith)
        | no last ↦ subst (λ m. starts m ≡ false) (omega arith) down
      ],
    )

stop_before_lem :
    (n : ℕ) (running : ℕ → Bool) (j : ℕ)
    → stop_before n running j ≡ (if ltb j n then false else running j)
unfolding stop_before
stop_before_lem zero running j = ground arith
stop_before_lem (suc n) running j = ground (arith, stop_before_lem n running j)

stop_before-NoneRunning :
    (n : ℕ) (running : ℕ → Bool) → FirstRunning n running → NoneRunning (stop_before n running)
stop_before-NoneRunning n running h j = ground (arith, stop_before_lem n running j, h j)

-- `start_runtimes` starts all adapters that are left, or has met one that does not start.
abbrev pub AllSucceed : (ℕ → ℕ → Bool) → ℕ → ℕ → Type 0
AllSucceed starts i n = (j : ℕ) → i ≤ j → j < n → Succeeds (starts j) 1 max_start_attempts

abbrev pub OneFails : (ℕ → ℕ → Bool) → ℕ → Type 0
OneFails starts n = (j : ℕ) × (j < n) × Fails (starts j) 1 max_start_attempts

abbrev Started : (ℕ → ℕ → Bool) → ℕ → ℕ → Bool × (ℕ → Bool) → Type 0
Started starts i n (started, running) =
    ((started ≡ true) × FirstRunning n running × AllSucceed starts i n)
    ⊎ ((started ≡ false) × NoneRunning running × OneFails starts n)

start_runtimes-Started :
    (starts : ℕ → ℕ → Bool) (left i : ℕ) (running : ℕ → Bool)
    → FirstRunning i running
    → Started starts i (i + left) (start_runtimes starts left i running)
unfolding start_runtimes
start_runtimes-Started starts zero i running h =
    inl (refl, λ j. ground (arith, h j), λ j le lt. absurd (omega arith))
start_runtimes-Started starts (suc left) i running h =
    let up = set_running i true running in
    elim (start_adapter-answer (starts i) max_start_attempts 1 30) [
      | inl (e, some_attempt) ↦ rw e (
          more some_attempt
            (start_runtimes-Started starts left (suc i) up (λ j. ground (arith, h j))))
      | inr (e, no_attempt) ↦ rw e (
          inr (
            refl,
            λ j. ground (arith, stop_before_lem i (set_running i false up) j, h j),
            (i, omega arith, no_attempt),
          ))
    ]
  where
    more :
        {r : Bool × (ℕ → Bool)}
        → Succeeds (starts i) 1 max_start_attempts
        → Started starts (suc i) (suc i + left) r
        → Started starts i (i + suc left) r
    more first (inl (e, run, all)) = inl (
      e,
      λ j. ground (arith, run j),
      λ j le lt. elim (dec_lt i j) [
        | yes above ↦ all j (omega arith) (omega arith)
        | no last ↦ subst (λ m. Succeeds (starts m) 1 max_start_attempts) (omega arith) first
      ],
    )
    more first (inr (e, run, (j, lt, fails))) = inr (e, run, (j, omega arith, fails))

-- `main` reaches its loop just if the subscriber server is bound and each of the `n` adapters starts
-- in one of its ten attempts, and then just these adapters are running; otherwise it returns, and none
-- is running, not even one whose start has failed.
pub start_all-running :
    (starts : ℕ → ℕ → Bool) (bound : Bool) (n : ℕ)
    → let (started, running) = start_all starts bound n in
      ((started ≡ true) × FirstRunning n running × AllSucceed starts 0 n × (bound ≡ true))
      ⊎ ((started ≡ false) × NoneRunning running × (OneFails starts n ⊎ (bound ≡ false)))
unfolding start_all
start_all-running starts bound n =
    let all_of : 0 + n ≡ n = omega arith in
    let result = start_runtimes starts n 0 (λ _. false) in
    elim (subst (λ m. Started starts 0 m result) all_of
      (start_runtimes-Started starts n 0 (λ _. false) (λ j. ground arith))) [
        | inl (e, run, all) ↦ elim (Bool-cases bound) [
          | inl b ↦ rw (e, b) (inl (refl, run, all, refl))
          | inr nb ↦ rw (e, nb) (inr (refl, stop_before-NoneRunning n _ run, inr refl))
        ]
        | inr (e, run, one) ↦ rw e (inr (refl, run, inl one))
      ]
