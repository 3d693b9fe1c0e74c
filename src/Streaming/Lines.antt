-- ===== src/Streaming/Lines.antt =====
-- The lines that the callbacks of a stream send, where what was sent can be seen in a world.
use mathlib.Core.List.{append-nil, append_assoc}
use hsed.Base.{◌≡◌, sym, ap, ◌∙◌, ℕ, ℤ, Bool, Option, none, some, List, [], ◌∷◌, ◌++◌}
use hsed.Protocol.{linef}
use hsed.Tracer.Session.{
  Write, Action, resume, seize, cont, interrupt, await, detach, report, attached,
}
use hsed.Server.Stream.{stream_write_cb}
use hsed.Streaming.{attached_text, send_if, perform, perform_all}

-- What was sent on the connection so far: a line that is sent comes behind the others, and the calls
-- of the tracer send nothing.
pub record Log (W : Type 0) (send : W → List ℕ → W × Bool) (act : W → Action → W) : Type 0 where
  pub sent : W → List (List ℕ)
  pub sends : (w : W) (s : List ℕ) → sent (send w s).0 ≡ sent w ++ s ∷ []
  pub acts : (w : W) (a : Action) → sent (act w a) ≡ sent w

abbrev pub listed : Option (List ℕ) → List (List ℕ)
listed none = []
listed (some s) = s ∷ []

-- The lines of one action, and of all of them.
abbrev pub line_of : (Write → Bool) → ℤ → ℤ → Action → List (List ℕ)
line_of room pid fd attached = linef (attached_text pid fd) ∷ []
line_of room pid fd (report r) = listed (stream_write_cb (room r) r.tid r.ret r.bytes r.is_writev)
line_of room pid fd (resume tid sig) = []
line_of room pid fd (seize tid) = []
line_of room pid fd (cont tid) = []
line_of room pid fd (interrupt tid) = []
line_of room pid fd (await tid) = []
line_of room pid fd (detach tid) = []

abbrev pub lines_of : (Write → Bool) → ℤ → ℤ → List Action → List (List ℕ)
lines_of room pid fd [] = []
lines_of room pid fd (action ∷ actions) = line_of room pid fd action ++ lines_of room pid fd actions

module _ {W : Type 0} (send : W → List ℕ → W × Bool) (act : W → Action → W)
    (L : Log W send act) where
  send_if-listed :
      (w : W) (line : Option (List ℕ)) → L.sent (send_if send act w line) ≡ L.sent w ++ listed line
  unfolding send_if
  send_if-listed w none = sym (append-nil (L.sent w))
  send_if-listed w (some s) = L.sends w s

  quiet : (w : W) (a : Action) → L.sent (act w a) ≡ L.sent w ++ []
  quiet w a = L.acts w a ∙ sym (append-nil (L.sent w))

  perform-line_of :
      (room : Write → Bool) (pid fd : ℤ) (w : W) (action : Action)
      → L.sent (perform send act room pid fd w action) ≡ L.sent w ++ line_of room pid fd action
  unfolding perform
  perform-line_of room pid fd w attached = L.sends w (linef (attached_text pid fd))
  perform-line_of room pid fd w (report r) = send_if-listed w _
  perform-line_of room pid fd w (resume tid sig) = quiet w (resume tid sig)
  perform-line_of room pid fd w (seize tid) = quiet w (seize tid)
  perform-line_of room pid fd w (cont tid) = quiet w (cont tid)
  perform-line_of room pid fd w (interrupt tid) = quiet w (interrupt tid)
  perform-line_of room pid fd w (await tid) = quiet w (await tid)
  perform-line_of room pid fd w (detach tid) = quiet w (detach tid)

  pub perform_all-lines_of :
      (room : Write → Bool) (pid fd : ℤ) (w : W) (actions : List Action)
      → L.sent (perform_all send act room pid fd w actions)
        ≡ L.sent w ++ lines_of room pid fd actions
  unfolding perform_all
  perform_all-lines_of room pid fd w [] = sym (append-nil (L.sent w))
  perform_all-lines_of room pid fd w (action ∷ actions) =
      perform_all-lines_of room pid fd (perform send act room pid fd w action) actions
      ∙ ap (λ t. t ++ lines_of room pid fd actions) (perform-line_of room pid fd w action)
      ∙ append_assoc (L.sent w) (line_of room pid fd action) (lines_of room pid fd actions)
