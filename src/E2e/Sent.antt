-- ===== src/E2e/Sent.antt =====
-- One step of an upload with end-to-end encryption: a block and its post (end2end_admin.js).
use gokapiplus.Base.Text.{Text}
use gokapiplus.Upload.Chunks.{Bytes}
use gokapiplus.E2e.Chunks.{
  Sealed, sealed, refused, Block, Post, Ending, succeeded, not_encrypted, not_posted, Upload,
  Outside, after_post, after_seal,
}
use gokapiplus.Base.{
  ℕ, suc, ◌+◌, ◌*◌, ◌≤◌, ◌≡◌, refl, ap, ◌∙◌, Bool, true, false, Option, none, some, List, [], ◌∷◌,
  ◌++◌, append_assoc, append-nil, ◌==◌, length, drop, arith, Option-cases, ◌⊎◌, inl, inr,
}

abbrev pub joined : List Block → Bytes
joined [] = []
joined (b ∷ bs) = b.plain ++ joined bs

Sealed-cases :
    (s : Sealed) → ((err : Text) × (s ≡ refused err)) ⊎ ((body : Bytes) × (s ≡ sealed body))
Sealed-cases (refused err) = inl (err, refl)
Sealed-cases (sealed body) = inr (body, refl)

module _ (out : Outside) (chunk_size total chunks : ℕ) where
  -- What the encryption is told of the chunk at an index.
  abbrev pub Asked : ℕ → Block → Type 0
  Asked index b = (b.last ≡ (suc index == chunks)) × (length b.plain ≤ chunk_size)

  abbrev pub seal : ℕ → Block → Sealed
  seal index b = out.encrypt index (length b.plain) b.last b.plain

  -- The posts follow one another without gap from `written` on, and each carries what the
  -- encryption made of its block; only the last block may have failed.
  abbrev pub Sent : Ending → ℕ → ℕ → List Block → List Post → Type 0
  Sent ending index written [] [] = Unit
  Sent ending index written [] (p ∷ ps) = ⊥
  Sent ending index written (b ∷ bs) [] =
      Asked index b
      × (bs ≡ [])
      × ((err : Text) × (seal index b ≡ refused err) × (ending ≡ not_encrypted err))
  Sent ending index written (b ∷ bs) (p ∷ ps) =
      Asked index b
      × (seal index b ≡ sealed p.body)
      × (p.total ≡ total)
      × (p.offset ≡ written)
      × ((out.answer p ≡ none)
          ⊎ ((err : Text) × (out.answer p ≡ some err) × (ending ≡ not_posted err) × (bs ≡ [])))
      × Sent ending (suc index) (written + length p.body) bs ps

  module _ (file : Bytes) where
    abbrev pub behind : ℕ → Bytes
    behind index = drop (index * chunk_size) file

    abbrev pub Uploaded : ℕ → ℕ → Upload → Type 0
    Uploaded index written u =
        Sent u.ending index written u.blocks u.posts
        × ((rest : Bytes) × (joined u.blocks ++ rest ≡ behind index))
        × (u.ending ≡ succeeded
            → (joined u.blocks ≡ behind index) × (index + length u.blocks ≡ chunks))

    -- A block that is not the last is followed by what the next ones read.
    abbrev pub Joins : ℕ → Block → Type 0
    Joins index b =
        (b.last ≡ false → b.plain ++ behind (suc index) ≡ behind index)
        × (b.last ≡ true → (b.plain ≡ behind index) × (suc index ≡ chunks))

    abbrev pub Later : ℕ → Bool → (ℕ → Option Upload) → Type 0
    Later index is_last rest =
        is_last ≡ false → (w : ℕ) → (u : Upload) × (rest w ≡ some u) × Uploaded (suc index) w u

    abbrev pub GoesOn : ℕ → ℕ → Option Upload → Type 0
    GoesOn index written o = (u : Upload) × (o ≡ some u) × Uploaded index written u

    after_post_lem :
        (index written : ℕ) (is_last : Bool) (plain body : Bytes) (rest : ℕ → Option Upload)
        → let b : Block = record { plain = plain; last = is_last } in
          let p : Post = record { total = total; offset = written; body = body } in
          Asked index b
          → seal index b ≡ sealed body
          → out.answer p ≡ none
          → Joins index b
          → Later index is_last rest
          → GoesOn index written
              (after_post out chunk_size total (length file) chunks file b p rest written none)
    unfolding after_post
    after_post_lem index written true plain body rest asked e answer joins later =
        let (whole, at) = joins.1 refl in
        let all = append-nil plain ∙ whole in
        (
          _,
          refl,
          (
            (asked, e, refl, refl, inl answer, tt),
            ([], append-nil _ ∙ all),
            λ h. (all, omega (arith, at)),
          ),
        )
    after_post_lem index written false plain body rest asked e answer joins later =
        let (u, same, (sent, (left, before), through)) = later refl (written + length body) in
        let on = joins.0 refl in
        rw same (
          _,
          refl,
          (
            (asked, e, refl, refl, inl answer, sent),
            (left, append_assoc plain _ left ∙ ap (λ t. plain ++ t) before ∙ on),
            λ h.
                let (all, count) = through h in
                (ap (λ t. plain ++ t) all ∙ on, omega (arith, count)),
          ),
        )

    pub after_seal_lem :
        (index written : ℕ) (b : Block) (rest : ℕ → Option Upload)
        → Asked index b
        → Joins index b
        → ((rem : Bytes) × (b.plain ++ rem ≡ behind index))
        → Later index b.last rest
        → GoesOn index written (
            after_seal out chunk_size total (length file) chunks file b rest written (seal index b))
    unfolding after_seal
    after_seal_lem index written b rest asked joins (rem, prefix) later =
        let alone = ap (λ t. t ++ rem) (append-nil b.plain) ∙ prefix in
        elim (Sealed-cases (seal index b)) [
          | inl (err, e) ↦
              rw e (_, refl, ((asked, refl, (err, e, refl)), (rem, alone), λ h. absurd cc))
          | inr (body, e) ↦
              let p : Post = record { total = total; offset = written; body = body } in
              elim (Option-cases (out.answer p)) [
                | inr (err, answer) ↦
                    rw (e, answer)
                      (
                        _,
                        refl,
                        (
                          (asked, e, refl, refl, inr (err, answer, refl, refl), tt),
                          (rem, alone),
                          λ h. absurd cc,
                        ),
                      )
                | inl answer ↦
                    rw (e, answer)
                      (after_post_lem index written b.last b.plain body rest asked e answer joins
                        later)
              ]
        ]
