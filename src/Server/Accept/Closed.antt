-- ===== src/Server/Accept/Closed.antt =====
-- The sockets of the daemon: none is left open.
use hsed.Base.{
  ℕ, ◌≡◌, refl, ◌∙◌, inl, inr, ℤ, eqb_ℤ, Bool, true, false, Bool-cases, Option, none, some, List,
  [], ◌∷◌, ◌++◌, if◌then◌else◌, codes,
}
use hsed.Util.{copied}
use hsed.Server.{Settings}
use hsed.Server.Accept.{
  Action, unlink, bind, chmod, create, accept, close, hand_over, log, Client, refused, client,
  Waiting, interrupted, failing, timeout, ready, Turn, Setup, Served, returned, serving,
  handle_client, handle_turn, sun_path_size, accept_loop, listening, bound, created, server_run,
}

-- Whether the server's own thread holds a socket after these actions, when `b` tells whether it did
-- before.
abbrev pub owned : ℤ → Bool → List Action → Bool
owned fd b [] = b
owned fd b (create f ∷ actions) = owned fd (if eqb_ℤ f fd then true else b) actions
owned fd b (accept f ∷ actions) = owned fd (if eqb_ℤ f fd then true else b) actions
owned fd b (close f ∷ actions) = owned fd (if eqb_ℤ f fd then false else b) actions
owned fd b (hand_over f cfg ∷ actions) = owned fd (if eqb_ℤ f fd then false else b) actions
owned fd b (unlink removes path ∷ actions) = owned fd b actions
owned fd b (bind path ∷ actions) = owned fd b actions
owned fd b (chmod path mode ∷ actions) = owned fd b actions
owned fd b (log s ∷ actions) = owned fd b actions

owned-append :
    (fd : ℤ) (xs : List Action) (b : Bool) (ys : List Action)
    → owned fd b (xs ++ ys) ≡ owned fd (owned fd b xs) ys
owned-append fd [] b ys = refl
owned-append fd (create f ∷ xs) b ys = owned-append fd xs (if eqb_ℤ f fd then true else b) ys
owned-append fd (accept f ∷ xs) b ys = owned-append fd xs (if eqb_ℤ f fd then true else b) ys
owned-append fd (close f ∷ xs) b ys = owned-append fd xs (if eqb_ℤ f fd then false else b) ys
owned-append fd (hand_over f cfg ∷ xs) b ys =
    owned-append fd xs (if eqb_ℤ f fd then false else b) ys
owned-append fd (unlink removes path ∷ xs) b ys = owned-append fd xs b ys
owned-append fd (bind path ∷ xs) b ys = owned-append fd xs b ys
owned-append fd (chmod path mode ∷ xs) b ys = owned-append fd xs b ys
owned-append fd (log s ∷ xs) b ys = owned-append fd xs b ys

-- Where the function has returned, its thread does not hold the socket.
abbrev pub Leaves : ℤ → Bool → List Action × Served → Type 0
Leaves fd b (actions, returned code) = owned fd b actions ≡ false
Leaves fd b (actions, serving) = Unit

-- Closing the listening socket leaves nothing open.
abbrev OnlyListening : ℤ → ℤ → Bool → Type 0
OnlyListening listen_fd fd b = (if eqb_ℤ listen_fd fd then false else b) ≡ false

closes :
    (c d b : Bool)
    → (if d then false else b) ≡ false
    → (if d then false else (if c then false else (if c then true else b))) ≡ false
closes true true b h = refl
closes true false b h = refl
closes false true b h = refl
closes false false b h = h

handle_client-OnlyListening :
    (cfg : Settings) (listen_fd fd : ℤ) (b : Bool) (c : Client)
    → OnlyListening listen_fd fd b
    → OnlyListening listen_fd fd (owned fd b (handle_client cfg c))
unfolding handle_client
handle_client-OnlyListening cfg listen_fd fd b refused h = h
handle_client-OnlyListening cfg listen_fd fd b (client f false error) h =
    closes (eqb_ℤ f fd) (eqb_ℤ listen_fd fd) b h
handle_client-OnlyListening cfg listen_fd fd b (client f true none) h =
    closes (eqb_ℤ f fd) (eqb_ℤ listen_fd fd) b h
handle_client-OnlyListening cfg listen_fd fd b (client f true (some reason)) h =
    closes (eqb_ℤ f fd) (eqb_ℤ listen_fd fd) b h

Leaves-append :
    (fd : ℤ) (b : Bool) (xs ys : List Action) (served : Served)
    → Leaves fd (owned fd b xs) (ys, served)
    → Leaves fd b (xs ++ ys, served)
Leaves-append fd b xs ys (returned code) h = owned-append fd xs b ys ∙ h
Leaves-append fd b xs ys serving h = tt

handle_turn-Leaves :
    (cfg : Settings) (removes : Bool) (listen_fd fd : ℤ) (socket_path : List ℕ) (w : Waiting)
    (b : Bool) (rest : List Action × Served)
    → OnlyListening listen_fd fd b
    → ((b' : Bool) → OnlyListening listen_fd fd b' → Leaves fd b' rest)
    → Leaves fd b (handle_turn cfg removes listen_fd socket_path w rest)
unfolding handle_turn
handle_turn-Leaves cfg removes listen_fd fd socket_path interrupted b rest h later = later b h
handle_turn-Leaves cfg removes listen_fd fd socket_path failing b rest h later = h
handle_turn-Leaves cfg removes listen_fd fd socket_path timeout b rest h later = later b h
handle_turn-Leaves cfg removes listen_fd fd socket_path (ready c) b (actions, served) h later =
    Leaves-append fd b (handle_client cfg c) actions served (
      later (owned fd b (handle_client cfg c)) (handle_client-OnlyListening cfg listen_fd fd b c h))

accept_loop-Leaves :
    (cfg : Settings) (removes : Bool) (listen_fd fd : ℤ) (socket_path : List ℕ) (turns : List Turn)
    (b : Bool)
    → OnlyListening listen_fd fd b
    → Leaves fd b (accept_loop cfg removes listen_fd socket_path turns)
unfolding accept_loop
accept_loop-Leaves cfg removes listen_fd fd socket_path [] b h = tt
accept_loop-Leaves cfg removes listen_fd fd socket_path (turn ∷ turns) b h =
    elim (Bool-cases turn.shutdown) [
      | inl stops ↦ rw stops h
      | inr goes ↦ rw goes (
          handle_turn-Leaves cfg removes listen_fd fd socket_path turn.waiting b _ h
            (λ b' h'. accept_loop-Leaves cfg removes listen_fd fd socket_path turns b' h'))
    ]

Leaves-cons :
    (fd : ℤ) (b : Bool) (xs : List Action) (r : List Action × Served)
    → Leaves fd (owned fd b xs) r
    → Leaves fd b (xs ++ r.0, r.1)
Leaves-cons fd b xs (ys, served) h = Leaves-append fd b xs ys served h

only_listening : (d : Bool) → (if d then false else (if d then true else false)) ≡ false
only_listening true = refl
only_listening false = refl

-- Whatever the system answers, when the accept loop has returned, with 0 or -1, the server has closed
-- each socket that it opened or accepted, or handed it to the thread of a connection.
pub server_run-Leaves :
    (cfg : Settings) (setup : Setup) (socket_path : List ℕ) (fd : ℤ)
    → Leaves fd false (server_run cfg setup socket_path)
unfolding server_run created bound listening
server_run-Leaves cfg setup socket_path fd =
    Leaves-cons fd false (unlink setup.clears socket_path ∷ [])
      (created cfg setup socket_path setup.socket_error) (creates setup.socket_error)
  where
    d : Bool
    d = eqb_ℤ setup.socket fd

    listens :
        (e : Option (List ℕ))
        → Leaves fd (if d then true else false) (listening cfg setup socket_path e)
    listens (some reason) = only_listening d
    listens none =
        Leaves-cons fd (if d then true else false) (log (codes "listening on " ++ socket_path) ∷ [])
          (accept_loop cfg setup.removes setup.socket socket_path setup.turns)
          (accept_loop-Leaves cfg setup.removes setup.socket fd socket_path setup.turns
            (if d then true else false) (only_listening d))

    binds :
        (e : Option (List ℕ))
        → Leaves fd (if d then true else false) (bound cfg setup socket_path e)
    binds (some reason) = only_listening d
    binds none =
        Leaves-cons fd (if d then true else false)
          (bind (copied socket_path sun_path_size) ∷ chmod socket_path 384 ∷ [])
          (listening cfg setup socket_path setup.listen_error) (listens setup.listen_error)

    creates : (e : Option (List ℕ)) → Leaves fd false (created cfg setup socket_path e)
    creates (some reason) = refl
    creates none =
        Leaves-cons fd false (create setup.socket ∷ [])
          (bound cfg setup socket_path setup.bind_error) (binds setup.bind_error)
