-- ===== src/Rpc/Attempts.antt =====
-- `Client.__connect` (boofuzz/monitors/pedrpc.py): five attempts more after one that fails. The
-- counter of the attempts belongs to the client, and nothing sets it back.
use boofuzz.Base.{
  ℕ, zero, suc, ◌+◌, ◌≤◌, ◌<◌, ◌≡◌, ◌≢◌, Bool, ◌==◌, if◌then◌else◌, arith, inl, inr, Bool-cases,
}

-- How it ends: with a connection, or with a BoofuzzRpcError.
pub data Connecting : Type 0 where
  connected refused out_of_fuel : Connecting

-- Where it stops: the end, the client's counter and the world.
pub record Stop (W : Type 0) : Type 0 where
  pub how : Connecting
  pub retry : ℕ
  pub world : W

module _ {W : Type 0} (attempt : W → Bool × W) where
  -- `__connect`, which disconnects, tries a new socket, and calls itself after an error.
  unfoldable pub connect : ℕ → ℕ → W → Stop W
  connect zero retry w = record { how = out_of_fuel; retry = retry; world = w }
  connect (suc fuel) retry w =
      let (done, w') = attempt w in
      let again = connect fuel (retry + 1) w' in
      if done
      then record { how = connected; retry = retry; world = w' }
      else if retry == 5
      then record { how = refused; retry = retry; world = w' }
      else again

  -- How a stop relates to the counter and the attempts at the start.
  abbrev pub EndsConnecting : (W → ℕ) → ℕ → W → Stop W → Type 0
  EndsConnecting attempts retry w stop =
      (stop.how ≢ out_of_fuel)
      × (attempts stop.world + retry ≡ attempts w + stop.retry + 1)
      × (stop.retry ≤ 5)
      × (stop.how ≡ refused → stop.retry ≡ 5)

  -- Connecting ends: it makes one attempt more than it counts, and counts to 5 at most over the whole
  -- life of the client, and it only gives up at 5.
  pub connect-EndsConnecting :
      (attempts : W → ℕ)
      → ((w : W) → attempts (attempt w).1 ≡ attempts w + 1)
      → (fuel retry : ℕ) (w : W) → retry ≤ 5
      → 5 < fuel + retry
      → EndsConnecting attempts retry w (connect fuel retry w)
  unfolding connect
  connect-EndsConnecting attempts counts zero retry w h enough = absurd (omega arith)
  connect-EndsConnecting attempts counts (suc fuel) retry w h enough =
      elim (Bool-cases (attempt w).0) [
        | inl done ↦ rw done ((λ e. cc), omega (arith, counts w), h, λ e. cc)
        | inr failed ↦ rw failed (elim (Bool-cases (retry == 5)) [
          | inl last ↦ rw last ((λ e. cc), omega (arith, counts w), h, λ e. ground arith)
          | inr more ↦ rw more (
              let below : retry < 5 = ground arith in
              let (ends, number, within, gives_up) =
                connect-EndsConnecting attempts counts fuel (retry + 1) (attempt w).1 (omega arith)
                  (omega arith) in
              (ends, omega (arith, number, counts w), within, gives_up))
        ])
      ]
