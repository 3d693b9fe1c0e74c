-- ===== src/Server/Accept.antt =====
-- `hsed_server_run` of backend/src/server.c: the listening socket and the accept loop. What the
-- system answers is given turn by turn, and what is asked of it is a list of actions.
pub mod Closed
pub mod Paths
pub mod LongPath
use hsed.Base.{
  ℕ, ℤ, pos, negsuc, Bool, true, false, Option, none, some, List, [], ◌∷◌, ◌++◌, codes,
  if◌then◌else◌,
}
use hsed.Util.{copied}
use hsed.Server.{Settings}

-- `sizeof(addr.sun_path)`.
abbrev pub sun_path_size : ℕ
sun_path_size = 108

-- `unlink` comes with whether it succeeds; `bind`, `create` and `accept` are the calls that do;
-- `hand_over` is a thread that runs `handle_connection` on the socket, and so owns it.
pub data Action : Type 0 where
  unlink : Bool → List ℕ → Action
  bind : List ℕ → Action
  chmod : List ℕ → ℕ → Action
  create accept close : ℤ → Action
  hand_over : ℤ → Settings → Action
  log : List ℕ → Action

-- What `poll` and, where it is ready, `accept`, `malloc` and `pthread_create` give.
pub data Client : Type 0 where
  refused : Client
  client : ℤ → Bool → Option (List ℕ) → Client

pub data Waiting : Type 0 where
  interrupted failing timeout : Waiting
  ready : Client → Waiting

-- A turn of the loop: whether the flag is set, and what `poll` gives. A thread that is not created
-- comes with `strerror(errno)`.
pub record Turn : Type 0 where
  pub shutdown : Bool
  pub waiting : Waiting

-- The answers of the first `unlink`, of `socket`, `bind` and `listen`, and of the `unlink` behind
-- them; a failure comes with `strerror(errno)`, but for `unlink`, whose result is ignored.
pub record Setup : Type 0 where
  pub clears : Bool
  pub socket : ℤ
  pub socket_error : Option (List ℕ)
  pub bind_error : Option (List ℕ)
  pub listen_error : Option (List ℕ)
  pub removes : Bool
  pub turns : List Turn

-- The result of the function, or `serving` where the turns end before the loop does.
pub data Served : Type 0 where
  returned : ℤ → Served
  serving : Served

-- A socket that `accept` gave.
unfoldable pub handle_client : Settings → Client → List Action
handle_client cfg refused = []
handle_client cfg (client fd false error) = accept fd ∷ close fd ∷ []
handle_client cfg (client fd true none) = accept fd ∷ hand_over fd cfg ∷ []
handle_client cfg (client fd true (some reason)) =
    accept fd ∷ log (codes "pthread_create failed: " ++ reason) ∷ close fd ∷ []

-- What stands behind the loop.
abbrev pub finish : Bool → ℤ → List ℕ → List Action
finish removes listen_fd socket_path =
    close listen_fd ∷ unlink removes socket_path ∷ log (codes "shut down") ∷ []

-- What a turn does after `poll`; `rest` are the turns behind it.
unfoldable pub handle_turn :
    Settings → Bool → ℤ → List ℕ → Waiting → List Action × Served → List Action × Served
unfolding handle_client
handle_turn cfg removes listen_fd socket_path interrupted rest = rest
handle_turn cfg removes listen_fd socket_path failing rest =
    (finish removes listen_fd socket_path, returned (pos 0))
handle_turn cfg removes listen_fd socket_path timeout rest = rest
handle_turn cfg removes listen_fd socket_path (ready c) (actions, served) =
    (handle_client cfg c ++ actions, served)

unfoldable pub accept_loop : Settings → Bool → ℤ → List ℕ → List Turn → List Action × Served
unfolding handle_turn
accept_loop cfg removes listen_fd socket_path [] = ([], serving)
accept_loop cfg removes listen_fd socket_path (turn ∷ turns) =
    let rest = accept_loop cfg removes listen_fd socket_path turns in
    if turn.shutdown
    then (finish removes listen_fd socket_path, returned (pos 0))
    else handle_turn cfg removes listen_fd socket_path turn.waiting rest

listening : Settings → Setup → List ℕ → Option (List ℕ) → List Action × Served
unfolding accept_loop
listening cfg setup socket_path (some reason) = (
  log (codes "listen() failed: " ++ reason)
      ∷ close setup.socket
      ∷ unlink setup.removes socket_path
      ∷ [],
  returned (negsuc 0),
)
listening cfg setup socket_path none =
    let (actions, served) = accept_loop cfg setup.removes setup.socket socket_path setup.turns in
    (log (codes "listening on " ++ socket_path) ∷ actions, served)

bound : Settings → Setup → List ℕ → Option (List ℕ) → List Action × Served
unfolding listening
bound cfg setup socket_path (some reason) = (
  log (codes "bind(" ++ (socket_path ++ (codes ") failed: " ++ reason))) ∷ close setup.socket ∷ [],
  returned (negsuc 0),
)
bound cfg setup socket_path none =
    let (actions, served) = listening cfg setup socket_path setup.listen_error in
    (bind (copied socket_path sun_path_size) ∷ chmod socket_path 384 ∷ actions, served)

created : Settings → Setup → List ℕ → Option (List ℕ) → List Action × Served
unfolding bound
created cfg setup socket_path (some reason) =
    (log (codes "socket() failed: " ++ reason) ∷ [], returned (negsuc 0))
created cfg setup socket_path none =
    let (actions, served) = bound cfg setup socket_path setup.bind_error in
    (create setup.socket ∷ actions, served)

unfoldable pub server_run : Settings → Setup → List ℕ → List Action × Served
unfolding created
server_run cfg setup socket_path =
    let (actions, served) = created cfg setup socket_path setup.socket_error in
    (unlink setup.clears socket_path ∷ actions, served)
