-- ===== src/Server/Accept/LongPath.antt =====
-- A socket path that does not fit `sun_path`.
use hsed.Base.{
  ℕ, ◌≤◌, ◌≡◌, refl, sym, ap, subst, ◌∙◌, inl, inr, ℤ, Bool, true, false, Bool-cases, none, some,
  List, [], ◌∷◌, ◌++◌, length, length-take, take, if◌then◌else◌, arith,
}
use hsed.Libc.{str_eq}
use hsed.Libc.Strings.{str_eq→eq, str_eq_refl}
use hsed.Util.{copied, copied-take}
use hsed.Server.{Settings}
use hsed.Server.Accept.{
  Action, unlink, bind, chmod, Client, refused, client, Waiting, interrupted, failing, timeout,
  ready, Turn, Setup, Served, serving, handle_client, handle_turn, accept_loop, listening, bound,
  created, server_run, sun_path_size,
}
use hsed.Server.Accept.Paths.{named, restricted, named-handle_client}

restricted-handle_client :
    (path : List ℕ) (cfg : Settings) (c : Client) (rest : List Action)
    → restricted path (handle_client cfg c ++ rest) ≡ restricted path rest
unfolding handle_client
restricted-handle_client path cfg refused rest = refl
restricted-handle_client path cfg (client fd false error) rest = refl
restricted-handle_client path cfg (client fd true none) rest = refl
restricted-handle_client path cfg (client fd true (some reason)) rest = refl

-- Another name is left as it was, and its mode too.
handle_turn-other :
    (cfg : Settings) (removes : Bool) (listen_fd : ℤ) (path other : List ℕ) (b : Bool) (w : Waiting)
    (rest : List Action × Served)
    → str_eq path other ≡ false
    → (named other b rest.0 ≡ b) × (restricted other rest.0 ≡ false)
    → let r = handle_turn cfg removes listen_fd path w rest in
      (named other b r.0 ≡ b) × (restricted other r.0 ≡ false)
unfolding handle_turn
handle_turn-other cfg removes listen_fd path other b interrupted rest differs h = h
handle_turn-other cfg removes listen_fd path other b timeout rest differs h = h
handle_turn-other cfg false listen_fd path other b failing rest differs h = (refl, refl)
handle_turn-other cfg true listen_fd path other b failing rest differs h = (rw differs, refl)
handle_turn-other cfg removes listen_fd path other b (ready c) (actions, served) differs h = (
  named-handle_client other b cfg c actions ∙ h.0,
  restricted-handle_client other cfg c actions ∙ h.1,
)

unlink-other :
    (removes : Bool) (path other : List ℕ) (b : Bool) (rest : List Action)
    → str_eq path other ≡ false
    → named other b (unlink removes path ∷ rest) ≡ named other b rest
unlink-other false path other b rest differs = refl
unlink-other true path other b rest differs = rw differs refl

accept_loop-other :
    (cfg : Settings) (removes : Bool) (listen_fd : ℤ) (path other : List ℕ) (b : Bool)
    (turns : List Turn)
    → str_eq path other ≡ false
    → let r = accept_loop cfg removes listen_fd path turns in
      (named other b r.0 ≡ b) × (restricted other r.0 ≡ false)
unfolding accept_loop
accept_loop-other cfg removes listen_fd path other b [] differs = (refl, refl)
accept_loop-other cfg removes listen_fd path other b (turn ∷ turns) differs =
    elim (Bool-cases turn.shutdown) [
      | inl stops ↦ rw stops (unlink-other removes path other b _ differs, refl)
      | inr goes ↦ rw goes (
          handle_turn-other cfg removes listen_fd path other b turn.waiting _ differs
            (accept_loop-other cfg removes listen_fd path other b turns differs))
    ]

-- A socket of this name is there, and no mode was set for it.
abbrev IsLeft : List ℕ → Bool → List Action × Served → Type 0
IsLeft path b r = (named path b r.0 ≡ true) × (restricted path r.0 ≡ false)

-- With a path of 108 bytes or more, where `socket`, `bind` and `listen` succeed, the socket that is
-- bound has the first 107 bytes as its name: no mode is set for it, and it is still there whenever
-- the loop stops.
pub server_run_long :
    (cfg : Settings) (setup : Setup) (socket_path : List ℕ) (before : Bool)
    → sun_path_size ≤ length socket_path
    → setup.socket_error ≡ none
    → setup.bind_error ≡ none
    → setup.listen_error ≡ none
    → let (actions, served) = server_run cfg setup socket_path in
      let cut = take 107 socket_path in
      (named cut before actions ≡ true) × (restricted cut actions ≡ false)
unfolding server_run created bound listening
server_run_long cfg setup socket_path before long made binds listens =
    let left : IsLeft cut before (created cfg setup socket_path setup.socket_error) =
      subst (λ e. IsLeft cut before (created cfg setup socket_path e)) (sym made)
        (subst (λ e. IsLeft cut before (bound cfg setup socket_path e)) (sym binds)
          (subst
            (λ e. IsLeft cut before (
              bind (copied socket_path sun_path_size)
                  ∷ chmod socket_path 384
                  ∷ (listening cfg setup socket_path e).0,
              serving,
            ))
            (sym listens)
            (
              ap (λ c. named cut c acts) bound_here ∙ loop.0,
              ap (λ c. if c then true else restricted cut acts) differs ∙ loop.1,
            ))) in
    (unlink-other setup.clears socket_path cut before _ differs ∙ left.0, left.1)
  where
    cut : List ℕ
    cut = take 107 socket_path

    differs : str_eq socket_path cut ≡ false
    differs = elim (Bool-cases (str_eq socket_path cut)) [
      | inl same ↦ absurd (
          omega
            (arith, ap length (str_eq→eq socket_path cut same), length-take 107 socket_path, long))
      | inr other ↦ other
    ]

    acts : List Action
    acts = (accept_loop cfg setup.removes setup.socket socket_path setup.turns).0

    loop : (named cut true acts ≡ true) × (restricted cut acts ≡ false)
    loop = accept_loop-other cfg setup.removes setup.socket socket_path cut true setup.turns differs

    bound_here : (if str_eq (copied socket_path sun_path_size) cut then true else before) ≡ true
    bound_here =
        ap (λ s. if str_eq s cut then true else before)
          (copied-take socket_path sun_path_size (omega arith))
        ∙ ap (λ c. if c then true else before) (str_eq_refl cut)
