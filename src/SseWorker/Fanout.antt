-- ===== src/SseWorker/Fanout.antt =====
-- Who receives what the worker posts (sse-worker.js).
use gokapiplus.Base.{
  ℕ, ◌≡◌, ◌≢◌, Option, none, some, List, [], ◌∷◌, arith, ◌↔◌, inl, inr, In, ap, ◌∙◌, ◌==◌, ==_iff,
  Bool-cases,
}
use gokapiplus.Base.Text.{Text}
use gokapiplus.SseWorker.{
  Worker, requested, received, Request, handle, Message, message, Post, broadcast, broadcast_except,
}

module _ (m n : Message) (q : ℕ) where
  broadcast_to : (ps : List ℕ) → In (q, n) (broadcast m ps) → In q ps × (n ≡ m)
  unfolding broadcast
  broadcast_to [] h = absurd h
  broadcast_to (p ∷ ps) (inl e) = (inl (ap (λ (t : Post). t.0) e), ap (λ (t : Post). t.1) e)
  broadcast_to (p ∷ ps) (inr h) = let (found, same) = broadcast_to ps h in (inr found, same)

  broadcast_from : (ps : List ℕ) → In q ps → n ≡ m → In (q, n) (broadcast m ps)
  unfolding broadcast
  broadcast_from [] h same = absurd h
  broadcast_from (p ∷ ps) (inl e) same = inl (λ i. (e i, same i))
  broadcast_from (p ∷ ps) (inr h) same = inr (broadcast_from ps h same)

  -- A message to everybody reaches exactly the ports.
  pub In-broadcast : (ps : List ℕ) → In (q, n) (broadcast m ps) ↔ (In q ps × (n ≡ m))
  In-broadcast ps = (broadcast_to ps, λ h. broadcast_from ps h.0 h.1)

module _ (m n : Message) (sender q : ℕ) where
  except_to :
      (ps : List ℕ) → In (q, n) (broadcast_except m sender ps) → In q ps × (q ≢ sender) × (n ≡ m)
  unfolding broadcast_except
  except_to [] h = absurd h
  except_to (p ∷ ps) h = elim (Bool-cases (p == sender)) [
    | inl same ↦ let (found, apart, e) = except_to ps (rw same at h) in (inr found, apart, e)
    | inr other ↦ elim (rw other at h) [
      | inl e ↦ (
        inl (ap (λ (t : Post). t.0) e),
        λ s. absurd (ground (arith, ap (λ (t : Post). t.0) e)),
        ap (λ (t : Post). t.1) e,
      )
      | inr r ↦ let (found, apart, e) = except_to ps r in (inr found, apart, e)
    ]
  ]

  except_from :
      (ps : List ℕ) → In q ps → q ≢ sender → n ≡ m → In (q, n) (broadcast_except m sender ps)
  unfolding broadcast_except
  except_from [] h apart same = absurd h
  except_from (p ∷ ps) (inl here) apart same = elim (Bool-cases (p == sender)) [
    | inl e ↦ absurd (apart (here ∙ (==_iff p sender).0 e))
    | inr other ↦ rw other (inl (λ i. (here i, same i)))
  ]
  except_from (p ∷ ps) (inr h) apart same = elim (Bool-cases (p == sender)) [
    | inl e ↦ rw e (except_from ps h apart same)
    | inr other ↦ rw other (inr (except_from ps h apart same))
  ]

  -- A message to all others reaches exactly the ports that are not the sender.
  pub In-broadcast_except :
      (ps : List ℕ) → In (q, n) (broadcast_except m sender ps) ↔ (In q ps × (q ≢ sender) × (n ≡ m))
  In-broadcast_except ps = (except_to ps, λ h. except_from ps h.0 h.1 h.2)

-- The messages that a tab sends on behalf of its file list.
abbrev relayed : Request → Option Message
relayed (Request.file_added item) = some (Message.file_added item)
relayed (Request.file_deleted id) = some (Message.file_deleted id)
relayed _ = none

-- A file added or deleted in one tab is told to exactly the other tabs, as it was sent, and
-- nothing else is posted.
pub relay_reaches_others :
    (w : Worker) (sender : ℕ) (r : Request) (m n : Message) (q : ℕ)
    → relayed r ≡ some m
    → In (q, n) (handle (requested sender r) w).1 ↔ (In q w.ports × (q ≢ sender) × (n ≡ m))
unfolding handle
relay_reaches_others w sender (Request.file_added item) m n q h =
    let e : Message.file_added item ≡ m = cc in
    rw (← e) (In-broadcast_except (Message.file_added item) n sender q w.ports)
relay_reaches_others w sender (Request.file_deleted id) m n q h =
    let e : Message.file_deleted id ≡ m = cc in
    rw (← e) (In-broadcast_except (Message.file_deleted id) n sender q w.ports)
relay_reaches_others w sender _ m n q h = cc

-- A message of the server is posted to exactly the connected tabs.
pub received_reaches_all :
    (w : Worker) (i : ℕ) (text : Text) (n : Message) (q : ℕ)
    → In (q, n) (handle (received i text) w).1 ↔ (In q w.ports × (n ≡ message text))
unfolding handle
received_reaches_all w i text n q = In-broadcast (message text) n q w.ports
