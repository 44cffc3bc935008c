-- ===== src/SseWorker/Examples.antt =====
-- Runs of the worker (sse-worker.js).
use gokapiplus.Base.{ℕ, ◌≡◌, refl, ◌↔◌, ◌≢◌, In, inl, inr, arith}
use gokapiplus.Base.Text.{codes}
use gokapiplus.SseWorker.{
  Worker, init, CanHappen, Reach, start, next, handle, connected, requested, Request, Message,
  on_connect, connect,
}
use gokapiplus.SseWorker.Connection.{IsServed, Reach-IsServed}
use gokapiplus.SseWorker.Fanout.{relay_reaches_others}

-- A tab opens, then a second one.
abbrev one_tab : Worker
one_tab = (handle (connected 1) init).0

abbrev two_tabs_open : Worker
two_tabs_open = (handle (connected 2) one_tab).0

two_is_new : CanHappen (connected 2) one_tab
unfolding handle on_connect connect
two_is_new (inl e) = absurd (omega arith)
two_is_new (inr h) = h

abbrev one : ℕ
one = 1

abbrev two : ℕ
two = 2

two_tabs-Reach : Reach two_tabs_open
unfolding handle on_connect connect
two_tabs-Reach = next (connected 2) (next (connected 1) start (λ h. h)) two_is_new

Reach-IsServed_example : IsServed two_tabs_open.ports two_tabs_open
Reach-IsServed_example = Reach-IsServed two_tabs-Reach

relay_reaches_others_example :
    In
      (1, Message.file_deleted (codes "f"))
      (handle (requested 2 (Request.file_deleted (codes "f"))) two_tabs_open).1
    ↔ (In 1 two_tabs_open.ports
        × (one ≢ two)
        × (Message.file_deleted (codes "f") ≡ Message.file_deleted (codes "f")))
relay_reaches_others_example =
    relay_reaches_others two_tabs_open 2 (Request.file_deleted (codes "f"))
      (Message.file_deleted (codes "f")) (Message.file_deleted (codes "f")) 1 refl
