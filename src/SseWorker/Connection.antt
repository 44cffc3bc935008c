-- ===== src/SseWorker/Connection.antt =====
-- The worker's one connection and its timer (sse-worker.js).
use gokapiplus.Base.{
  ℕ, ◌≡◌, refl, Bool, true, false, Option, none, some, List, [], ◌∷◌, ◌⊎◌, inl, inr, ==_refl,
}
use gokapiplus.SseWorker.{
  Worker, Event, connected, requested, port_closed, opened, received, failed, timer_fired, Request,
  handle, CanHappen, Reach, start, next, remove, connect, close_source, on_error, remove_port,
  shut_down, on_connect,
}

abbrev current : Option ℕ → List ℕ
current none = []
current (some i) = i ∷ []

-- Tabs, source and timer that fit together: no tab, an open connection, a pending reconnection.
pub data Agree : List ℕ → Option ℕ → Bool → Type 0 where
  idle : Agree [] none false
  open_for : {p : ℕ} {ps : List ℕ} {i : ℕ} → Agree (p ∷ ps) (some i) false
  waiting : {p : ℕ} {ps : List ℕ} → Agree (p ∷ ps) none true

-- No connection and no timer without tabs; with tabs exactly one of the two; and what is
-- connected is the current source alone.
pub record IsSound (w : Worker) : Type 0 where
  pub only : w.live ≡ current w.source
  pub agree : Agree w.ports w.source w.reconnect_timer

abbrev worker : List ℕ → Option ℕ → Bool → ℕ → List ℕ → Worker
worker ps s t n l = record { ports = ps; source = s; reconnect_timer = t; created = n; live = l }

remove_self : (i : ℕ) → remove i (i ∷ []) ≡ []
unfolding remove
remove_self i = rw (==_refl i)

on_error-Agree :
    (k : ℕ) {ps : List ℕ} {s : Option ℕ} {t : Bool} (n : ℕ) (l : List ℕ)
    → l ≡ current s
    → Agree ps s t
    → IsSound (on_error k (worker ps s t n l)).0
unfolding on_error
on_error-Agree k n l e idle = record { only = e; agree = idle }
on_error-Agree k n l e (open_for {p} {ps} {i}) = record {
  only = rw e (remove_self i);
  agree = waiting;
}
on_error-Agree k n l e waiting = record { only = e; agree = waiting }

closed-IsSound :
    (s : Option ℕ) (n : ℕ) (l : List ℕ)
    → l ≡ current s
    → IsSound (close_source (worker [] s false n l))
unfolding close_source
closed-IsSound none n l e = record { only = e; agree = idle }
closed-IsSound (some i) n l e = record { only = rw e (remove_self i); agree = idle }

shut_down-IsSound :
    (port : ℕ) (ps : List ℕ) (s : Option ℕ) (t : Bool) (n : ℕ) (l : List ℕ)
    → l ≡ current s
    → IsSound (shut_down port (worker ps s t n l)).0
unfolding shut_down close_source
shut_down-IsSound port ps none t n l e = record { only = e; agree = idle }
shut_down-IsSound port ps (some i) t n l e = record { only = rw e (remove_self i); agree = idle }

left-IsSound :
    (port : ℕ) (ps qs : List ℕ) {p : ℕ} {s : Option ℕ} {t : Bool} (n : ℕ) (l : List ℕ)
    → remove port (p ∷ ps) ≡ qs
    → l ≡ current s
    → Agree (p ∷ ps) s t
    → IsSound (remove_port port (worker (p ∷ ps) s t n l)).0
unfolding remove_port
left-IsSound port ps [] {s} n l same e h = rw same (closed-IsSound s n l e)
left-IsSound port ps (q ∷ qs) n l same e open_for = rw same (record { only = e; agree = open_for })
left-IsSound port ps (q ∷ qs) n l same e waiting = rw same (record { only = e; agree = waiting })

remove_port-Agree :
    (port : ℕ) {ps : List ℕ} {s : Option ℕ} {t : Bool} (n : ℕ) (l : List ℕ)
    → l ≡ current s
    → Agree ps s t
    → IsSound (remove_port port (worker ps s t n l)).0
remove_port-Agree port n l e idle =
    unfold remove_port remove close_source in record { only = e; agree = idle }
remove_port-Agree port n l e (open_for {p} {ps}) =
    left-IsSound port ps (remove port (p ∷ ps)) n l refl e open_for
remove_port-Agree port n l e (waiting {p} {ps}) =
    left-IsSound port ps (remove port (p ∷ ps)) n l refl e waiting

on_connect-Agree :
    (port : ℕ) {ps : List ℕ} {s : Option ℕ} {t : Bool} (n : ℕ) (l : List ℕ)
    → l ≡ current s
    → Agree ps s t
    → IsSound (on_connect port (worker ps s t n l)).0
unfolding on_connect connect
on_connect-Agree port n l e idle = record { only = rw e; agree = open_for }
on_connect-Agree port n l e open_for = record { only = e; agree = open_for }
on_connect-Agree port n l e waiting = record { only = e; agree = waiting }

reconnect-Agree :
    {ps : List ℕ} {s : Option ℕ} {t : Bool} (n : ℕ) (l : List ℕ)
    → l ≡ current s
    → Agree ps s t
    → t ≡ true
    → IsSound (connect (worker ps s t n l)).0
unfolding connect
reconnect-Agree n l e idle h = cc
reconnect-Agree n l e open_for h = cc
reconnect-Agree n l e waiting h = record { only = rw e; agree = open_for }

handle-IsSound : (e : Event) {w : Worker} → CanHappen e w → IsSound w → IsSound (handle e w).0
unfolding handle
handle-IsSound (connected port) {w} c h = on_connect-Agree port w.created w.live h.only h.agree
handle-IsSound (requested port Request.close) {w} c h =
    remove_port-Agree port w.created w.live h.only h.agree
handle-IsSound (requested port Request.shutdown) {w} c h =
    shut_down-IsSound port w.ports w.source w.reconnect_timer w.created w.live h.only
handle-IsSound (requested port Request.other) c h = h
handle-IsSound (requested port (Request.file_added item)) c h = h
handle-IsSound (requested port (Request.file_deleted id)) c h = h
handle-IsSound (port_closed port) {w} c h = remove_port-Agree port w.created w.live h.only h.agree
handle-IsSound (opened i) c h = h
handle-IsSound (received i text) c h = h
handle-IsSound (failed i k) {w} c h = on_error-Agree k w.created w.live h.only h.agree
handle-IsSound timer_fired {w} c h = reconnect-Agree w.created w.live h.only h.agree c

-- However tabs come and go and the connection fails, the worker stays sound.
pub Reach-IsSound : {w : Worker} → Reach w → IsSound w
Reach-IsSound start = record { only = refl; agree = idle }
Reach-IsSound (next e r c) = handle-IsSound e c (Reach-IsSound r)

-- With no tab, nothing is connected and nothing scheduled; with a tab, either the one connection
-- that is open is the source, or none is open and the reconnection is scheduled.
abbrev pub IsServed : List ℕ → Worker → Type 0
IsServed [] w = (w.live ≡ []) × (w.reconnect_timer ≡ false)
IsServed (p ∷ ps) w =
    ((i : ℕ) × (w.source ≡ some i) × (w.live ≡ i ∷ []) × (w.reconnect_timer ≡ false))
    ⊎ ((w.live ≡ []) × (w.reconnect_timer ≡ true))

served :
    {ps : List ℕ} {s : Option ℕ} {t : Bool} (n : ℕ) (l : List ℕ)
    → l ≡ current s
    → Agree ps s t
    → IsServed ps (worker ps s t n l)
served n l e idle = (e, refl)
served n l e (open_for {i}) = inl (i, refl, e, refl)
served n l e waiting = inr (e, refl)

-- In every state that the worker can reach: without tabs nothing is connected and no timer runs;
-- with tabs either exactly the one current connection is open and no timer runs, or none is open
-- and the reconnection is scheduled.
pub Reach-IsServed : {w : Worker} → Reach w → IsServed w.ports w
Reach-IsServed {w} r = let h = Reach-IsSound r in served w.created w.live h.only h.agree
