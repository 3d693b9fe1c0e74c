-- ===== src/Server/Accept/Paths.antt =====
-- The name of the socket in the file system.
use hsed.Base.{
  ℕ, ◌<◌, ◌≡◌, refl, sym, ap, subst, ◌∙◌, ◌⊎◌, inl, inr, ℤ, Bool, true, false, Bool-cases, Option,
  none, some, List, [], ◌∷◌, ◌++◌, length, codes, if◌then◌else◌,
}
use hsed.Libc.{str_eq}
use hsed.Libc.Strings.{str_eq_refl}
use hsed.Util.{copied, copied_whole}
use hsed.Server.{Settings}
use hsed.Server.Accept.{
  Action, unlink, bind, chmod, create, accept, close, hand_over, log, Client, refused, client,
  Waiting, interrupted, failing, timeout, ready, Turn, Setup, Served, returned, serving,
  handle_client, handle_turn, accept_loop, listening, bound, created, server_run, sun_path_size,
}

-- Whether there is a socket of this name after these actions, and `none` or its mode.
abbrev pub named : List ℕ → Bool → List Action → Bool
named path b [] = b
named path b (bind p ∷ actions) = named path (if str_eq p path then true else b) actions
named path b (unlink false p ∷ actions) = named path b actions
named path b (unlink true p ∷ actions) = named path (if str_eq p path then false else b) actions
named path b (chmod p mode ∷ actions) = named path b actions
named path b (create f ∷ actions) = named path b actions
named path b (accept f ∷ actions) = named path b actions
named path b (close f ∷ actions) = named path b actions
named path b (hand_over f cfg ∷ actions) = named path b actions
named path b (log s ∷ actions) = named path b actions

-- Whether a mode was set for this name.
abbrev pub restricted : List ℕ → List Action → Bool
restricted path [] = false
restricted path (chmod p mode ∷ actions) = if str_eq p path then true else restricted path actions
restricted path (bind p ∷ actions) = restricted path actions
restricted path (unlink removes p ∷ actions) = restricted path actions
restricted path (create f ∷ actions) = restricted path actions
restricted path (accept f ∷ actions) = restricted path actions
restricted path (close f ∷ actions) = restricted path actions
restricted path (hand_over f cfg ∷ actions) = restricted path actions
restricted path (log s ∷ actions) = restricted path actions

-- Where the function has returned, there is no socket of this name.
abbrev pub Unnamed : List ℕ → Bool → List Action × Served → Type 0
Unnamed path b (actions, returned code) = named path b actions ≡ false
Unnamed path b (actions, serving) = Unit

pub named-handle_client :
    (path : List ℕ) (b : Bool) (cfg : Settings) (c : Client) (rest : List Action)
    → named path b (handle_client cfg c ++ rest) ≡ named path b rest
unfolding handle_client
named-handle_client path b cfg refused rest = refl
named-handle_client path b cfg (client fd false error) rest = refl
named-handle_client path b cfg (client fd true none) rest = refl
named-handle_client path b cfg (client fd true (some reason)) rest = refl

handle_turn-Unnamed :
    (cfg : Settings) (listen_fd : ℤ) (path : List ℕ) (b : Bool) (w : Waiting)
    (rest : List Action × Served)
    → Unnamed path b rest
    → Unnamed path b (handle_turn cfg true listen_fd path w rest)
unfolding handle_turn
handle_turn-Unnamed cfg listen_fd path b interrupted rest h = h
handle_turn-Unnamed cfg listen_fd path b timeout rest h = h
handle_turn-Unnamed cfg listen_fd path b failing rest h = rw (str_eq_refl path)
handle_turn-Unnamed cfg listen_fd path b (ready c) (actions, returned code) h =
    named-handle_client path b cfg c actions ∙ h
handle_turn-Unnamed cfg listen_fd path b (ready c) (actions, serving) h = tt

accept_loop-Unnamed :
    (cfg : Settings) (listen_fd : ℤ) (path : List ℕ) (b : Bool) (turns : List Turn)
    → Unnamed path b (accept_loop cfg true listen_fd path turns)
unfolding accept_loop
accept_loop-Unnamed cfg listen_fd path b [] = tt
accept_loop-Unnamed cfg listen_fd path b (turn ∷ turns) = elim (Bool-cases turn.shutdown) [
  | inl stops ↦ rw (stops, str_eq_refl path)
  | inr goes ↦ rw goes (
      handle_turn-Unnamed cfg listen_fd path b turn.waiting _
        (accept_loop-Unnamed cfg listen_fd path b turns))
]

named-append :
    (path : List ℕ) (xs : List Action) (b : Bool) (ys : List Action)
    → named path b (xs ++ ys) ≡ named path (named path b xs) ys
named-append path [] b ys = refl
named-append path (bind p ∷ xs) b ys = named-append path xs (if str_eq p path then true else b) ys
named-append path (unlink false p ∷ xs) b ys = named-append path xs b ys
named-append path (unlink true p ∷ xs) b ys =
    named-append path xs (if str_eq p path then false else b) ys
named-append path (chmod p mode ∷ xs) b ys = named-append path xs b ys
named-append path (create f ∷ xs) b ys = named-append path xs b ys
named-append path (accept f ∷ xs) b ys = named-append path xs b ys
named-append path (close f ∷ xs) b ys = named-append path xs b ys
named-append path (hand_over f cfg ∷ xs) b ys = named-append path xs b ys
named-append path (log s ∷ xs) b ys = named-append path xs b ys

Unnamed-append :
    (path : List ℕ) (b b' : Bool) (xs : List Action) (r : List Action × Served)
    → named path b xs ≡ b'
    → Unnamed path b' r
    → Unnamed path b (xs ++ r.0, r.1)
Unnamed-append path b b' xs (ys, returned code) e h =
    named-append path xs b ys ∙ ap (λ c. named path c ys) e ∙ h
Unnamed-append path b b' xs (ys, serving) e h = tt

-- With a path that fits `sun_path`, the socket's name is gone from the file system when the accept
-- loop has returned, with 0 or -1, where the last `unlink` succeeds, and the first one does or
-- nothing had the name before.
pub server_run-Unnamed :
    (cfg : Settings) (setup : Setup) (socket_path : List ℕ) (before : Bool)
    → length socket_path < sun_path_size
    → setup.removes ≡ true
    → (setup.clears ≡ true) ⊎ (before ≡ false)
    → Unnamed socket_path before (server_run cfg setup socket_path)
unfolding server_run created bound listening
server_run-Unnamed cfg setup socket_path before fits removes clears =
    Unnamed-append socket_path before false (unlink setup.clears socket_path ∷ [])
      (created cfg setup socket_path setup.socket_error) (cleared setup.clears clears)
      (creates setup.socket_error)
  where
    same : str_eq socket_path socket_path ≡ true
    same = str_eq_refl socket_path

    whole : copied socket_path sun_path_size ≡ socket_path
    whole = copied_whole socket_path sun_path_size fits

    cleared :
        (c : Bool)
        → (c ≡ true) ⊎ (before ≡ false)
        → named socket_path before (unlink c socket_path ∷ []) ≡ false
    cleared true h = rw same refl
    cleared false (inl h) = cc
    cleared false (inr h) = h

    listens : (e : Option (List ℕ)) → Unnamed socket_path true (listening cfg setup socket_path e)
    listens (some reason) = rw (removes, same) refl
    listens none =
        Unnamed-append socket_path true true (log (codes "listening on " ++ socket_path) ∷ [])
          (accept_loop cfg setup.removes setup.socket socket_path setup.turns) refl
          (subst
            (λ r. Unnamed socket_path true (accept_loop cfg r setup.socket socket_path setup.turns))
            (sym removes) (accept_loop-Unnamed cfg setup.socket socket_path true setup.turns))

    binds : (e : Option (List ℕ)) → Unnamed socket_path false (bound cfg setup socket_path e)
    binds (some reason) = refl
    binds none =
        Unnamed-append socket_path false true
          (bind (copied socket_path sun_path_size) ∷ chmod socket_path 384 ∷ [])
          (listening cfg setup socket_path setup.listen_error) (rw (whole, same))
          (listens setup.listen_error)

    creates : (e : Option (List ℕ)) → Unnamed socket_path false (created cfg setup socket_path e)
    creates (some reason) = refl
    creates none =
        Unnamed-append socket_path false false (create setup.socket ∷ [])
          (bound cfg setup socket_path setup.bind_error) refl (binds setup.bind_error)
