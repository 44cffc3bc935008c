-- ===== src/Upload/Retry.antt =====
-- `withRetry` of public_upload.js: a request is repeated on failure, and waits for a slot while
-- the server limits the rate.
pub mod Ends
pub mod Result
use gokapiplus.Base.{
  ℕ, zero, suc, ◌+◌, ◌≤◌, ◌≡◌, refl, ◌⊎◌, inl, inr, Bool, true, false, ◌&&◌, ◌||◌, Option, none,
  some, List, [], ◌∷◌, ◌++◌, ltb, leb, ◌==◌, if◌then◌else◌,
}
use gokapiplus.Base.Text.{Text, codes, same_text}

-- An `Error`; `status` is undefined on most of them.
pub record Error : Type 0 where
  pub message : Text
  pub status : Option ℕ

abbrev pub cancelled : Error
cancelled = record { message = codes "Cancelled"; status = none }

pub data Reply {ℓ} (A : Type ℓ) : Type ℓ where
  ok : A → Reply A
  thrown : Error → Reply A

pub Reply-cases {ℓ} :
    {A : Type ℓ} (r : Reply A) → ((v : A) × (r ≡ ok v)) ⊎ ((e : Error) × (r ≡ thrown e))
Reply-cases (ok v) = inl (v, refl)
Reply-cases (thrown e) = inr (e, refl)

-- What the calls of `fn` meet: the reply of the k-th call, whether the signal was aborted before it
-- and after it, and the milliseconds since the start when it has failed.
pub record Calls {ℓ} (A : Type ℓ) : Type ℓ where
  pub reply : ℕ → Reply A
  pub aborted_before : ℕ → Bool
  pub aborted_after : ℕ → Bool
  pub elapsed : ℕ → ℕ

abbrev pub has_status : Error → ℕ → Bool
has_status e n = elim e.status [ none ↦ false | some m ↦ m == n ]

abbrev pub max_wait_time : ℕ
max_wait_time = 60000

-- The calls of `onWait` and `onRetry`.
pub data Notice : Type 0 where
  waiting : Notice
  retrying : ℕ → Error → Notice

pub record Outcome {ℓ} (A : Type ℓ) : Type ℓ where
  pub result : Reply A
  pub calls : ℕ
  pub notices : List Notice

-- How the loop goes on after the k-th call.
pub data Verdict : Type 0 where
  stop wait again : Verdict

pub Verdict-cases : (v : Verdict) → (v ≡ stop) ⊎ ((v ≡ wait) ⊎ (v ≡ again))
Verdict-cases stop = inl refl
Verdict-cases wait = inr (inl refl)
Verdict-cases again = inr (inr refl)

module _ {ℓ} {A : Type ℓ} (env : Calls A) (retries : ℕ) where
  -- The `catch` block, up to the pause or the throw.
  unfoldable pub judge : ℕ → ℕ → Error → Verdict
  unfolding same_text
  judge k attempt e =
      if same_text e.message (codes "Cancelled") || env.aborted_after k
      then stop
      else if has_status e 429 && ltb (env.elapsed k) max_wait_time
      then wait
      else if has_status e 400 || has_status e 401
      then stop
      else if ltb attempt retries
      then again
      else stop

  -- `onRetry` is told before the status is looked at, and on the last attempt not at all.
  unfoldable pub noticed : ℕ → ℕ → Error → List Notice
  unfolding same_text
  noticed k attempt e =
      if same_text e.message (codes "Cancelled") || env.aborted_after k
      then []
      else if has_status e 429 && ltb (env.elapsed k) max_wait_time
      then waiting ∷ []
      else if ltb attempt retries
      then retrying attempt e ∷ []
      else []

  -- The loop; `none` is out of fuel. With no attempt left the last error is thrown again.
  unfoldable pub retry_loop : ℕ → ℕ → ℕ → Error → List Notice → Option (Outcome A)
  unfolding judge noticed
  retry_loop zero k attempt last notices = none
  retry_loop (suc fuel) k attempt last notices =
      if leb attempt retries
      then (if env.aborted_before k
          then some (record { result = thrown cancelled; calls = k; notices = notices })
          else elim (env.reply k) [
            | ok v ↦ some (record { result = ok v; calls = suc k; notices = notices })
            | thrown e ↦
                let told = notices ++ noticed k attempt e in
                elim (judge k attempt e) [
                  | stop ↦ some (record { result = thrown e; calls = suc k; notices = told })
                  | wait ↦ retry_loop fuel (suc k) attempt e told
                  | again ↦ retry_loop fuel (suc k) (suc attempt) e told
                ]
          ])
      else some (record { result = thrown last; calls = k; notices = notices })

abbrev undefined : Error
undefined = record { message = []; status = none }

-- Twelve waits of five seconds fit before the minute is over, and every other round is an attempt.
abbrev pub enough : ℕ → ℕ
enough retries = 14 + retries

unfoldable pub with_retry {ℓ} : {A : Type ℓ} → Calls A → ℕ → Option (Outcome A)
unfolding retry_loop
with_retry env retries = retry_loop env retries (enough retries) 0 1 undefined []
