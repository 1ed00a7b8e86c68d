-- ===== src/Agentapi/Jobs/Play/Ends.antt =====
-- How driving a run ends (agentapi/jobs.go).
use deadlocker.Base.{ℕ, zero, suc, ◌+◌, ◌-◌, ◌*◌, ◌≤◌, ◌<◌, ◌≡◌, ◌≢◌, arith}
use deadlocker.Agentapi.Jobs.Play.{Runs, stepped, out_of_fuel, play, play_all}

module _ {W R : Type 0} (runs : Runs W R) where
  play-ends :
      (fuel deadline : ℕ) (r : R) (stalls : ℕ) (w : W)
      → stalls ≤ 80
      → 81 * runs.left w r + (80 - stalls) < fuel
      → (play runs fuel deadline r stalls w).1 ≢ out_of_fuel
  unfolding play
  play-ends zero deadline r stalls w bounded enough = absurd (omega arith)
  play-ends (suc fuel) deadline r stalls w bounded enough =
      let w1 = (runs.step w r).0 in
      let w2 = (runs.wait w1 250).0 in
      let after_step : (runs.step w r).1 ≡ stepped
          → (play runs fuel deadline r 0 w1).1 ≢ out_of_fuel =
        λ e.
          play-ends fuel deadline r 0 w1 (omega arith) (omega (arith, runs.left-stepped w r e)) in
      let after_wait : stalls + 1 ≤ 80
          → (play runs fuel deadline r (stalls + 1) w2).1 ≢ out_of_fuel =
        λ le.
          play-ends fuel deadline r (stalls + 1) w2 le
            (omega (arith, runs.left-step w r, runs.left-wait w1 r 250)) in
      ground (arith, after_step, after_wait)

  -- Driving a run always comes to an end: the loop leaves by one of the function's own returns, whatever
  -- the run, the server and the clock do, as long as every step that is submitted takes one off the steps
  -- that are left.
  pub play_all-ends : (budget : ℕ) (r : R) (w : W) → (play_all runs budget r w).1 ≢ out_of_fuel
  unfolding play_all
  play_all-ends budget r w =
      play-ends (81 * (runs.left w r + 1)) (runs.now w + budget) r 0 w (omega arith) (omega arith)
