-- ===== src/Desktop/RiotOperations/Tracking.antt =====
-- The loop that waits for League Client comes to an end.
use laap.Base.{
  zero, suc, arith, ◌<◌, ◌≤◌, ◌≢◌, ◌*◌, Bool, Bool-cases, not, ◌&&◌, ◌||◌, Option, inl, inr, leb,
  none, some, true, ℕ, ◌+◌, ◌≡◌,
}
use laap.Desktop.Action.{Act, continue, Result, gets, modify, ok, pure, thrown, ◌>>=◌}
use laap.Desktop.RiotOperations.{
  track, rounds, poll_until, look, pass_time, Snapshot, Provider, World, poll, poll_until,
  take_snapshot,
}

-- the loop did not stop for want of rounds
abbrev Ended : Result Provider (Option Bool) → Type 0
Ended (ok none p) = ⊥
Ended (ok (some detected) p) = Unit
Ended (thrown c p) = Unit

continue-Ended :
    {B : Type 0} (r : Result Provider B) (f : B → Act Provider (Option Bool))
    → ((b : B) (p : Provider) → Ended (f b p))
    → Ended (continue r f)
continue-Ended (ok b p) f k = k b p
continue-Ended (thrown c p) f k = tt

module _ {A : Type 0} (w : World A) where
  look-Ended :
      (deadline n : ℕ) (s : Snapshot) (p : Provider)
      → leb deadline (w.now n) ≡ true
      → Ended (look w deadline n s p)
  unfolding look ◌>>=◌ modify pure
  look-Ended deadline n s p late = elim (Bool-cases (s.league_client || s.league_game)) [
    | inl found ↦ rw found tt
    | inr missing ↦ rw (missing, late) tt
  ]

  poll-Ended :
      (deadline n : ℕ) (p : Provider) → leb deadline (w.now n) ≡ true → Ended (poll w deadline n p)
  unfolding poll ◌>>=◌ modify gets pure
  poll-Ended deadline n p late =
      elim (Bool-cases ((pass_time w n p).mounted && not (pass_time w n p).stop_tracking)) [
        | inl on ↦ rw on (
            continue-Ended (take_snapshot w (pass_time w n p)) (look w deadline n)
              (λ s q. look-Ended deadline n s q late))
        | inr off ↦ rw off tt
      ]

  -- a round that may go on
  next-Ended :
      (deadline n k : ℕ) (r : Result Provider (Option Bool))
      → ((p : Provider) → Ended (poll_until w k deadline (n + 1) p))
      → Ended (
          continue r λ found. elim found [
            | some detected ↦ pure (some detected)
            | none ↦ poll_until w k deadline (n + 1)
          ])
  unfolding pure
  next-Ended deadline n k (ok (some d) p) later = tt
  next-Ended deadline n k (ok none p) later = later p
  next-Ended deadline n k (thrown c p) later = tt

  last-Ended :
      (deadline n k : ℕ) (r : Result Provider (Option Bool))
      → Ended r
      → Ended (
          continue r λ found. elim found [
            | some detected ↦ pure (some detected)
            | none ↦ poll_until w k deadline (n + 1)
          ])
  unfolding pure
  last-Ended deadline n k (ok (some d) p) e = tt
  last-Ended deadline n k (ok none p) e = absurd e
  last-Ended deadline n k (thrown c p) e = tt

  poll_until-Ended :
      (k deadline n j m : ℕ) (p : Provider)
      → leb deadline (w.now m) ≡ true
      → m ≡ n + j
      → j < k
      → Ended (poll_until w k deadline n p)
  unfolding poll_until ◌>>=◌
  poll_until-Ended zero deadline n j m p late here few = absurd (omega arith)
  poll_until-Ended (suc k) deadline n zero m p late here few =
      let now : m ≡ n = omega arith in
      last-Ended deadline n k (poll w deadline n p) (poll-Ended deadline n p (rw now at late))
  poll_until-Ended (suc k) deadline n (suc j) m p late here few =
      next-Ended deadline n k (poll w deadline n p)
        (λ q. poll_until-Ended k deadline (n + 1) j m q late (omega arith) (omega arith))

  clock : ((n : ℕ) → w.now n + 1000 ≤ w.now (suc n)) → (n : ℕ) → w.now 0 + 1000 * n ≤ w.now n
  clock later zero = omega arith
  clock later (suc n) = omega (arith, clock later n, later n)

  -- Where each round waits for a second or more, the tracking loop ends within the rounds that it is
  -- given: it detects the client, gives up, is stopped, or throws.
  pub track-ends :
      ((n : ℕ) → w.now n + 1000 ≤ w.now (suc n))
      → w.started ≤ w.now 0
      → (p q : Provider) → track w p ≢ ok none q
  unfolding track
  track-ends later first p q stuck =
      let late : leb (w.started + 120000) (w.now 120) ≡ true = ground (arith, clock later 120) in
      rw stuck at
        (poll_until-Ended rounds (w.started + 120000) 0 120 120 p late (omega arith) (omega arith))
