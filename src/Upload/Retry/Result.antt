-- ===== src/Upload/Retry/Result.antt =====
-- What `withRetry` returns or throws, and when it gives up (public_upload.js).
use gokapiplus.Base.{
  ℕ, zero, suc, ◌≤◌, ◌<◌, ◌≡◌, ◌≢◌, sym, ap, ◌∙◌, subst, refl, ◌⊎◌, true, ◌||◌, Option, none, some,
  List, [], arith, Bool-cases, inl, inr, le→leb, le_cases,
}
use gokapiplus.Upload.Retry.Ends.{Clock, again-before, with_retry_ends}
use gokapiplus.Upload.Retry.{
  Error, Reply, ok, thrown, Reply-cases, Verdict-cases, Calls, Outcome, Notice, Verdict, stop, wait,
  again, judge, retry_loop, with_retry, enough, has_status, cancelled,
}

module _ {ℓ} {A : Type ℓ} (env : Calls A) where
  -- Every call before the n-th threw.
  abbrev pub AllThrew : ℕ → Type ℓ
  AllThrew n = (m : ℕ) → m < n → (e : Error) × (env.reply m ≡ thrown e)

  -- A value is that of the last call; an error is that of the last call, or tells of an abortion
  -- that came before the next one.
  abbrev pub Explains : Reply A → ℕ → Type ℓ
  Explains (ok v) calls = (n : ℕ) × (calls ≡ suc n) × (env.reply n ≡ ok v) × AllThrew n
  Explains (thrown e) calls =
      AllThrew calls
      × (((n : ℕ) × (calls ≡ suc n) × (env.reply n ≡ thrown e))
          ⊎ ((e ≡ cancelled) × (env.aborted_before calls ≡ true)))

-- Errors after which the code never goes on: the server refused with 400 or 401.
abbrev pub IsRefusal : Error → Type 0
IsRefusal e = (has_status e 400 || has_status e 401) ≡ true

module _ {ℓ} {A : Type ℓ} (env : Calls A) (retries : ℕ) where
  AllThrew-suc :
      (n : ℕ) (e : Error) → env.reply n ≡ thrown e → AllThrew env n → AllThrew env (suc n)
  AllThrew-suc n e h before m lt = elim (le_cases m n (omega arith)) [
    | inl same ↦ rw same (e, h)
    | inr below ↦ before m below
  ]

  abbrev Explained : Option (Outcome A) → Type ℓ
  Explained none = Unit
  Explained (some o) = Explains env o.result o.calls

  loop_explains :
      (fuel k attempt : ℕ) (last : Error) (notices : List Notice)
      → attempt ≤ retries
      → AllThrew env k
      → Explained (retry_loop env retries fuel k attempt last notices)
  unfolding retry_loop
  loop_explains zero k attempt last notices low before = tt
  loop_explains (suc fuel) k attempt last notices low before =
      elim (Bool-cases (env.aborted_before k)) [
        | inl aborted ↦ rw (le→leb attempt retries low, aborted) (before, inr (refl, aborted))
        | inr on ↦ elim (Reply-cases (env.reply k)) [
          | inl (v, good) ↦ rw (le→leb attempt retries low, on, good) (k, refl, good, before)
          | inr (e, bad) ↦
              let threw = AllThrew-suc k e bad before in
              elim (Verdict-cases (judge env retries k attempt e)) [
                | inl stopped ↦
                    rw (le→leb attempt retries low, on, bad, stopped) (threw, inl (k, refl, bad))
                | inr (inl waits) ↦
                    rw (le→leb attempt retries low, on, bad, waits)
                      (loop_explains fuel (suc k) attempt e _ low threw)
                | inr (inr again') ↦
                    rw (le→leb attempt retries low, on, bad, again')
                      (loop_explains fuel (suc k) (suc attempt) e _
                        (again-before env retries k attempt e again') threw)
              ]
        ]
      ]

  refusal-stops : (k attempt : ℕ) (e : Error) → IsRefusal e → judge env retries k attempt e ≡ stop
  unfolding judge
  refusal-stops k attempt e h = ground arith

  abbrev Within : ℕ → Option (Outcome A) → Type 0
  Within n none = Unit
  Within n (some o) = o.calls ≤ n

  module _ (n : ℕ) (refusal : Error) (refused : env.reply n ≡ thrown refusal)
      (final : IsRefusal refusal) where
    goes_on :
        (k attempt : ℕ) (e : Error) (v : Verdict)
        → env.reply k ≡ thrown e
        → judge env retries k attempt e ≡ v
        → v ≢ stop
        → k ≤ n
        → suc k ≤ n
    goes_on k attempt e v bad judged on low = elim (le_cases k n low) [
      | inl same ↦
          let e' : thrown e ≡ thrown refusal = sym bad ∙ (ap env.reply same ∙ refused) in
          let same_error : refusal ≡ e = cc e' in
          absurd (on (sym judged ∙ refusal-stops k attempt e (subst IsRefusal same_error final)))
      | inr below ↦ below
    ]

    loop-Within :
        (fuel k attempt : ℕ) (last : Error) (notices : List Notice)
        → attempt ≤ retries
        → k ≤ n
        → Within (suc n) (retry_loop env retries fuel k attempt last notices)
    unfolding retry_loop
    loop-Within zero k attempt last notices low before = tt
    loop-Within (suc fuel) k attempt last notices low before =
        elim (Bool-cases (env.aborted_before k)) [
          | inl aborted ↦ rw (le→leb attempt retries low, aborted) (omega arith)
          | inr on ↦ elim (Reply-cases (env.reply k)) [
            | inl (v, good) ↦ rw (le→leb attempt retries low, on, good) (omega arith)
            | inr (e, bad) ↦ elim (Verdict-cases (judge env retries k attempt e)) [
              | inl stopped ↦ rw (le→leb attempt retries low, on, bad, stopped) (omega arith)
              | inr (inl waits) ↦
                  rw (le→leb attempt retries low, on, bad, waits)
                    (loop-Within fuel (suc k) attempt e _ low
                      (goes_on k attempt e wait bad waits (λ s. cc) before))
              | inr (inr again') ↦
                  rw (le→leb attempt retries low, on, bad, again')
                    (loop-Within fuel (suc k) (suc attempt) e _
                      (again-before env retries k attempt e again')
                      (goes_on k attempt e again bad again' (λ s. cc) before))
            ]
          ]
        ]

-- With a clock that does not run back, waits that take five seconds and at least one retry, the
-- loop returns the value of its last call, all earlier calls having thrown, or throws what its
-- last call threw, or the abortion that it met before the next one.
pub with_retry-Explains {ℓ} :
    {A : Type ℓ} (env : Calls A) (retries : ℕ)
    → Clock env retries
    → 1 ≤ retries
    → (o : Outcome A) × (with_retry env retries ≡ some o) × Explains env o.result o.calls
unfolding with_retry
with_retry-Explains env retries clock h =
    let (o, same, few) = with_retry_ends env retries clock in
    (
      o,
      same,
      subst (Explained env retries) same
          (loop_explains env retries (enough retries) 0 1 _ [] h (λ m lt. absurd (omega arith))),
    )

-- With a clock that does not run back, waits that take five seconds and at least one retry, after
-- an answer of 400 or 401 there is no further call.
pub with_retry_refused {ℓ} :
    {A : Type ℓ} (env : Calls A) (retries : ℕ)
    → Clock env retries
    → 1 ≤ retries
    → (n : ℕ) (e : Error) → env.reply n ≡ thrown e
    → IsRefusal e
    → (o : Outcome A) × (with_retry env retries ≡ some o) × (o.calls ≤ suc n)
unfolding with_retry
with_retry_refused env retries clock h n e refused final =
    let (o, same, few) = with_retry_ends env retries clock in
    (
      o,
      same,
      subst (Within env retries (suc n)) same
          (loop-Within env retries n e refused final (enough retries) 0 1 _ [] h (omega arith)),
    )
