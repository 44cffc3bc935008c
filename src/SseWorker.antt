-- ===== src/SseWorker.antt =====
-- The SharedWorker that fans one SSE connection out to all tabs
-- (internal/webserver/web/static/js/sse-worker.js). A port is a number; `live` holds the
-- EventSources that were created and not closed, which the browser keeps connected.
pub mod Connection
pub mod Fanout
mod Examples
use gokapiplus.Base.{
  ℕ, suc, ◌+◌, ◌≡◌, ◌≢◌, refl, Bool, true, false, not, ◌&&◌, ◌||◌, Option, none, some, List, [],
  ◌∷◌, ◌++◌, map, ltb, ◌==◌, if◌then◌else◌, length, In,
}
use gokapiplus.Base.Text.{Text, codes}

abbrev pub debug_output : Bool
debug_output = false

pub data Level : Type 0 where
  log warn error : Level

-- What the worker posts to a tab. Of a log entry's detail the number of ports is kept.
pub data Message : Type 0 where
  entry : Level → Text → Option ℕ → Message
  message : Text → Message
  failure : ℕ → ℕ → Message
  shutdown : Message
  file_added file_deleted : Text → Message

abbrev pub Post : Type 0
Post = ℕ × Message

pub record Worker : Type 0 where
  pub ports : List ℕ
  pub source : Option ℕ
  pub reconnect_timer : Bool
  pub created : ℕ
  pub live : List ℕ

abbrev pub init : Worker
init = record { ports = []; source = none; reconnect_timer = false; created = 0; live = [] }

-- A failing `postMessage` is swallowed, so every port is tried.
unfoldable pub broadcast : Message → List ℕ → List Post
broadcast m [] = []
broadcast m (port ∷ ports) = (port, m) ∷ broadcast m ports

unfoldable pub broadcast_except : Message → ℕ → List ℕ → List Post
broadcast_except m sender [] = []
broadcast_except m sender (port ∷ ports) =
    let rest = broadcast_except m sender ports in if port == sender then rest else (port, m) ∷ rest

abbrev is_log : Level → Bool
is_log log = true
is_log _ = false

unfoldable pub broadcast_log : Level → Text → Option ℕ → List ℕ → List Post
broadcast_log level text detail ports =
    if is_log level && not debug_output then [] else broadcast (entry level text detail) ports

unfoldable pub remove : ℕ → List ℕ → List ℕ
remove x [] = []
remove x (y ∷ ys) = if y == x then ys else y ∷ remove x ys

-- `source.close(); source = null`, when there is one.
unfoldable pub close_source : Worker → Worker
close_source w = elim w.source [
  | none ↦ w
  | some i ↦ record w { source = none; live = remove i w.live }
]

-- `ports.length === 0`.
abbrev pub no_ports : List ℕ → Bool
no_ports [] = true
no_ports (port ∷ ports) = false

unfoldable pub connect : Worker → Worker × List Post
connect w = (
  record w {
    reconnect_timer = false;
    source = some w.created;
    created = suc w.created;
    live = w.created ∷ w.live;
  },
  broadcast_log log (codes "[sse-worker] Opening SSE connection") (some (length w.ports)) w.ports,
)

unfoldable pub on_open : Worker → Worker × List Post
on_open w = (w, broadcast_log log (codes "[sse-worker] SSE connection established") none w.ports)

unfoldable pub on_message : Text → Worker → Worker × List Post
on_message text w = (w, broadcast (message text) w.ports)

-- `source.onerror`. With no source, reading its state throws, and nothing happens.
unfoldable pub on_error : ℕ → Worker → Worker × List Post
on_error ready_state w = elim w.source [
  | none ↦ (w, [])
  | some i ↦ (
    record w {
      source = none;
      live = remove i w.live;
      reconnect_timer = not (no_ports w.ports) || w.reconnect_timer;
    },
    broadcast_log error (codes "[sse-worker] SSE connection error") (some (length w.ports)) w.ports
        ++ (broadcast (failure ready_state (length w.ports)) w.ports
            ++ (if no_ports w.ports
                then []
                else broadcast_log log (codes "[sse-worker] Reconnecting in 5000ms")
                    (some (length w.ports)) w.ports)),
  )
]

unfoldable pub remove_port : ℕ → Worker → Worker × List Post
remove_port port w =
    let ports = remove port w.ports in
    let dropped = record w { ports = ports } in
    let posts = broadcast_log log (codes "[sse-worker] Port removed") (some (length ports)) ports in
    if no_ports ports
    then (close_source (record dropped { reconnect_timer = false }), posts)
    else (dropped, posts)

unfoldable pub shut_down : ℕ → Worker → Worker × List Post
shut_down port w =
    let closed = close_source (record w { reconnect_timer = false }) in
    (
      record closed { ports = [] },
      broadcast_log log (codes "[sse-worker] Shutdown requested, closing all ports")
            (some (length w.ports)) w.ports
          ++ broadcast_except shutdown port w.ports,
    )

abbrev is_none : Option ℕ → Bool
is_none none = true
is_none (some i) = false

unfoldable pub on_connect : ℕ → Worker → Worker × List Post
on_connect port w =
    let added = record w { ports = w.ports ++ port ∷ [] } in
    let posts =
      broadcast_log log (codes "[sse-worker] Port added") (some (length added.ports)) added.ports in
    if is_none w.source && not w.reconnect_timer
    then (let (w', more) = connect added in (w', posts ++ more))
    else (added, posts)

-- What a tab sends: `type` is "close", "shutdown", "fileAdded", "fileDeleted" or anything else.
pub data Request : Type 0 where
  close shutdown other : Request
  file_added file_deleted : Text → Request

unfoldable pub on_request : ℕ → Request → Worker → Worker × List Post
on_request port Request.close w = remove_port port w
on_request port Request.shutdown w = shut_down port w
on_request port Request.other w = (w, [])
on_request port (Request.file_added item) w =
    (w, broadcast_except (Message.file_added item) port w.ports)
on_request port (Request.file_deleted id) w =
    (w, broadcast_except (Message.file_deleted id) port w.ports)

-- What happens to the worker, in any order that the browser allows.
pub data Event : Type 0 where
  connected : ℕ → Event
  requested : ℕ → Request → Event
  port_closed : ℕ → Event
  opened : ℕ → Event
  received : ℕ → Text → Event
  failed : ℕ → ℕ → Event
  timer_fired : Event

unfoldable pub handle : Event → Worker → Worker × List Post
unfolding connect close_source on_open on_message on_error remove_port shut_down on_connect
    on_request
handle (connected port) w = on_connect port w
handle (requested port request) w = on_request port request w
handle (port_closed port) w = remove_port port w
handle (opened i) w = on_open w
handle (received i text) w = on_message text w
handle (failed i ready_state) w = on_error ready_state w
handle timer_fired w = connect w

-- A closed EventSource fires no event, a cleared timer does not fire, and a new port is new.
abbrev pub CanHappen : Event → Worker → Type 0
CanHappen (connected port) w = ¬ In port w.ports
CanHappen (opened i) w = In i w.live
CanHappen (received i text) w = In i w.live
CanHappen (failed i ready_state) w = In i w.live
CanHappen timer_fired w = w.reconnect_timer ≡ true
CanHappen _ w = Unit

pub data Reach : Worker → Type 0 where
  start : Reach init
  next : {w : Worker} (e : Event) → Reach w → CanHappen e w → Reach (handle e w).0

two_tabs :
    (handle
      (requested 1 (Request.file_added (codes "f")))
      (handle (connected 2) (handle (connected 1) init).0).0).1
    ≡ (2, Message.file_added (codes "f")) ∷ []
unfolding handle broadcast_except broadcast_log
two_tabs = refl
