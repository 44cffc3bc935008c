-- ===== src/Upload/Retry/Ends.antt =====
-- The clock of `withRetry` and the number of its calls (public_upload.js).
use gokapiplus.Base.{
  ℕ, zero, suc, ◌+◌, ◌-◌, ◌/◌, ◌≤◌, ◌<◌, ◌≡◌, refl, Option, some, List, [], arith, Bool-cases, inl,
  inr, leb, leb→le,
}
use gokapiplus.Upload.Retry.{
  Error, thrown, Calls, Outcome, Notice, Reply-cases, Verdict-cases, wait, again, judge, retry_loop,
  with_retry, enough,
}

module _ {ℓ} {A : Type ℓ} (env : Calls A) (retries : ℕ) where
  -- What `setTimeout` and the clock give: time does not run back, and a wait takes five seconds.
  pub record Clock : Type ℓ where
    pub forward : (k : ℕ) → env.elapsed k ≤ env.elapsed (suc k)
    pub waited :
        (k attempt : ℕ) (e : Error)
        → env.reply k ≡ thrown e
        → judge env retries k attempt e ≡ wait
        → env.elapsed k + 5000 ≤ env.elapsed (suc k)

  -- The waits that the minute still has room for at call `k`.
  abbrev waits_left : ℕ → ℕ
  waits_left k = (64999 - env.elapsed k) / 5000

  wait-early :
      (k attempt : ℕ) (e : Error) → judge env retries k attempt e ≡ wait → env.elapsed k < 60000
  unfolding judge
  wait-early k attempt e h = ground arith

  pub again-before :
      (k attempt : ℕ) (e : Error) → judge env retries k attempt e ≡ again → attempt < retries
  unfolding judge
  again-before k attempt e h = ground arith

  -- The loop returns, and has made at most `most` calls.
  abbrev Ends : ℕ → Option (Outcome A) → Type ℓ
  Ends most r = (o : Outcome A) × (r ≡ some o) × (o.calls ≤ most)

  Ends-le : {m n : ℕ} (r : Option (Outcome A)) → m ≤ n → Ends m r → Ends n r
  Ends-le r h (o, same, few) = (o, same, omega arith)

  module _ (clock : Clock) where
    waits-fewer :
        (k attempt : ℕ) (e : Error)
        → env.reply k ≡ thrown e
        → judge env retries k attempt e ≡ wait
        → waits_left (suc k) + 1 ≤ waits_left k
    waits-fewer k attempt e threw h =
        omega (arith, wait-early k attempt e h, clock.waited k attempt e threw h)

    loop-Ends :
        (fuel k attempt : ℕ) (last : Error) (notices : List Notice)
        → attempt ≤ retries + 1
        → retries + 1 + waits_left k < fuel + attempt
        → Ends
            (k + (retries + 1 - attempt) + waits_left k)
            (retry_loop env retries fuel k attempt last notices)
    unfolding retry_loop
    loop-Ends zero k attempt last notices low h = absurd (omega arith)
    loop-Ends (suc fuel) k attempt last notices low h = elim (Bool-cases (leb attempt retries)) [
      | inr over ↦ rw over (_, refl, omega arith)
      | inl more ↦ elim (Bool-cases (env.aborted_before k)) [
        | inl aborted ↦ rw (more, aborted) (_, refl, omega arith)
        | inr on ↦ elim (Reply-cases (env.reply k)) [
          | inl (v, good) ↦
              rw (more, on, good) (_, refl, omega (arith, leb→le attempt retries more))
          | inr (e, bad) ↦ elim (Verdict-cases (judge env retries k attempt e)) [
            | inl stopped ↦
                rw (more, on, bad, stopped) (_, refl, omega (arith, leb→le attempt retries more))
            | inr (inl waits) ↦
                let fewer = waits-fewer k attempt e bad waits in
                rw (more, on, bad, waits)
                  (Ends-le _ (omega arith) (loop-Ends fuel (suc k) attempt e _ low (omega arith)))
            | inr (inr again') ↦
                let before = again-before k attempt e again' in
                let later = clock.forward k in
                rw (more, on, bad, again')
                  (Ends-le _ (omega arith)
                    (loop-Ends fuel (suc k) (suc attempt) e _ (omega arith) (omega arith)))
          ]
        ]
      ]
    ]

-- With a clock that does not run back and waits that take five seconds, the retry loop returns
-- after at most twelve calls more than the number of retries.
pub with_retry_ends {ℓ} :
    {A : Type ℓ} (env : Calls A) (retries : ℕ)
    → Clock env retries
    → (o : Outcome A) × (with_retry env retries ≡ some o) × (o.calls ≤ retries + 12)
unfolding with_retry
with_retry_ends env retries clock =
    Ends-le env retries _ (omega arith)
      (loop-Ends env retries clock (enough retries) 0 1 _ [] (omega arith) (omega arith))
