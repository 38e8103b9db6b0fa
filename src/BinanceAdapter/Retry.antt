-- ===== src/BinanceAdapter/Retry.antt =====
-- src/binance_adapter.cpp: what the retry loops guarantee, whatever happens while they wait.
use mathlib.Core.Bool.{false≢true}
use mathlib.Core.Path.{subst}
use lob.Prelude.{
  ◌⊎◌, inl, inr, Bool-cases, ℕ, zero, suc, ◌≡◌, ◌+◌, ◌*◌, ◌<◌, refl, ap, Bool, true, false, ◌||◌,
  List, [], ◌∷◌, ◌==◌, arith,
}
use lob.OrderBook.Side.{if_two}
use lob.BinanceAdapter.{Feed, HttpResponse, fetch_and_apply_snapshot}
use lob.BinanceAdapter.Fetch.{fetch_and_apply_snapshot-Synced}
use lob.BinanceAdapter.Start.{Attempts, fetch_attempts}

no_shift : (n : ℕ) → n + 0 ≡ n
no_shift n = omega arith

shift : (n k : ℕ) → n + suc k ≡ n + 1 + k
shift n k = omega arith

-- A symbol whose live updates can be applied.
pub record IsReady (f : Feed) : Type 0 where
  pub live : f.metrics.live_ready ≡ true
  pub applied : f.book.snapshot_applied ≡ true
  pub drained : f.buffer ≡ []

fetch-IsReady :
    (response : HttpResponse) (f : Feed)
    → (fetch_and_apply_snapshot response f).1 ≡ true
    → IsReady (fetch_and_apply_snapshot response f).0
fetch-IsReady response f h =
    let (_, s) = fetch_and_apply_snapshot-Synced response f h in
    record { live = s.live; applied = s.applied; drained = s.drained }

-- The multiples base * attempt, base * (attempt + 1), ...
unfoldable pub multiples : ℕ → ℕ → ℕ → List ℕ
multiples base zero attempt = []
multiples base (suc n) attempt = base * attempt ∷ multiples base n (attempt + 1)

module _ (base : ℕ) (respond : ℕ → HttpResponse) (meanwhile : ℕ → Feed → Feed)
    (stopped : ℕ → Bool) where
  Succeeds : Attempts → Type 0
  Succeeds r = r.succeeded ≡ true → IsReady r.feed

  -- If the loop succeeds, the symbol is live, has a snapshot and an empty buffer.
  pub fetch_attempts-IsReady :
      (left attempt : ℕ) (f : Feed)
      → (fetch_attempts base respond meanwhile stopped left attempt f).succeeded ≡ true
      → IsReady (fetch_attempts base respond meanwhile stopped left attempt f).feed
  unfolding fetch_attempts Succeeds
  fetch_attempts-IsReady zero attempt f = λ h. absurd (false≢true h)
  fetch_attempts-IsReady (suc left) attempt f =
      let (f', done) = fetch_and_apply_snapshot (respond attempt) f in
      if_two Succeeds done (λ e _. fetch-IsReady (respond attempt) f e)
        (λ _.
          if_two Succeeds (stopped attempt || left == 0) (λ _ h. absurd (false≢true h))
            (λ _. fetch_attempts-IsReady left (attempt + 1) (meanwhile attempt f')))

  -- From `attempt` on, with `left` attempts to go, k attempts fail and are followed by a wait, and the
  -- next one gives the result and ends the loop: it succeeds, or a stop was asked for, or none is left.
  unfoldable pub EndsAfter : (k left attempt : ℕ) → Feed → Feed × Bool → Type 0
  EndsAfter zero left attempt f result =
      (fetch_and_apply_snapshot (respond attempt) f ≡ result)
      × ((result.1 ≡ true) ⊎ ((stopped attempt ≡ true) ⊎ (left ≡ 1)))
  EndsAfter (suc k) zero attempt f result = false ≡ true
  EndsAfter (suc k) (suc left) attempt f result =
      ((fetch_and_apply_snapshot (respond attempt) f).1 ≡ false)
      × (stopped attempt ≡ false)
      × EndsAfter k left (attempt + 1)
          (meanwhile attempt (fetch_and_apply_snapshot (respond attempt) f).0) result

  Ended : (left attempt : ℕ) → Feed → Attempts → Type 0
  Ended left attempt f r =
      (k : ℕ) × (k < left)
      × EndsAfter k left attempt f (r.feed, r.succeeded)
      × (r.delays_ms ≡ multiples base k attempt)

  Ended-later :
      (left attempt : ℕ) (f : Feed) (rest : Attempts)
      → (fetch_and_apply_snapshot (respond attempt) f).1 ≡ false
      → stopped attempt ≡ false
      → Ended left
          (attempt + 1)
          (meanwhile attempt (fetch_and_apply_snapshot (respond attempt) f).0)
          rest
      → Ended (suc left) attempt f (record rest { delays_ms = base * attempt ∷ rest.delays_ms })
  unfolding Ended EndsAfter multiples
  Ended-later left attempt f rest failed on (k, lt, ends, waits) =
      (suc k, omega arith, (failed, on, ends), ap (λ xs. base * attempt ∷ xs) waits)

  -- The loop ends after at most the given number of attempts: k attempts fail, each followed by a wait
  -- of base times its number in ms, and no stop is asked for; the next one succeeds, or comes with a
  -- stop, or is the last, and the loop returns what it gives without another wait.
  pub fetch_attempts-ends :
      (left attempt : ℕ) (f : Feed)
      → 0 < left
      → let r = fetch_attempts base respond meanwhile stopped left attempt f in
        (k : ℕ) × (k < left)
        × EndsAfter k left attempt f (r.feed, r.succeeded)
        × (r.delays_ms ≡ multiples base k attempt)
  unfolding fetch_attempts Ended EndsAfter multiples
  fetch_attempts-ends zero attempt f some_left = absurd (omega arith)
  fetch_attempts-ends (suc left) attempt f some_left =
      let (f', done) = fetch_and_apply_snapshot (respond attempt) f in
      if_two (Ended (suc left) attempt f) done
        (λ won. (0, omega arith, (ap (λ b. (f', b)) won, inl refl), refl))
        (λ failed.
          if_two (Ended (suc left) attempt f) (stopped attempt || left == 0)
            (λ last. (0, omega arith, (ap (λ b. (f', b)) failed, inr (last_one last)), refl))
            (λ more. Ended-later left attempt f _ failed (ground (arith, more)) (
              fetch_attempts-ends left (attempt + 1) (meanwhile attempt f')
                (ground (arith, more)))))
    where
      last_one : (stopped attempt || left == 0) ≡ true → (stopped attempt ≡ true) ⊎ (suc left ≡ 1)
      last_one e = elim (Bool-cases (stopped attempt)) [
        | inl stop ↦ inl stop
        | inr on ↦ inr (ground (arith, e, on))
      ]

  Wins : Attempts → Type 0
  Wins r = r.succeeded ≡ true

  -- If what holds of the feed before an attempt, when that fails, leads after the wait to what holds
  -- before the next, holds at the start, and makes the response to one of the attempts succeed, a loop
  -- that is not stopped succeeds.
  pub fetch_attempts-succeeds :
      (P : ℕ → Feed → Type 0) (k left attempt : ℕ) (f : Feed)
      → ((n : ℕ) (g : Feed)
          → P n g
          → (fetch_and_apply_snapshot (respond n) g).1 ≡ false
          → P (n + 1) (meanwhile n (fetch_and_apply_snapshot (respond n) g).0))
      → ((n : ℕ) → stopped n ≡ false)
      → ((g : Feed)
          → P (attempt + k) g
          → (fetch_and_apply_snapshot (respond (attempt + k)) g).1 ≡ true)
      → P attempt f
      → k < left
      → (fetch_attempts base respond meanwhile stopped left attempt f).succeeded ≡ true
  unfolding fetch_attempts Wins
  fetch_attempts-succeeds P k zero attempt f keep on good p few = absurd (omega arith)
  fetch_attempts-succeeds P zero (suc left) attempt f keep on good p few =
      let won =
        subst (λ n. P n f → (fetch_and_apply_snapshot (respond n) f).1 ≡ true) (no_shift attempt)
          (good f) p in
      rw won refl
  fetch_attempts-succeeds P (suc k) (suc left) attempt f keep on good p few =
      let (f', done) = fetch_and_apply_snapshot (respond attempt) f in
      if_two Wins done (λ _. refl)
        (λ failed.
          if_two Wins (stopped attempt || left == 0)
            (λ e. absurd (ground (arith, on attempt, few, e)))
            (λ _.
              fetch_attempts-succeeds P k left (attempt + 1) (meanwhile attempt f') keep on
                (subst (λ n. (g : Feed) → P n g → (fetch_and_apply_snapshot (respond n) g).1 ≡ true)
                  (shift attempt k) good)
                (keep attempt f p failed) (omega arith)))
