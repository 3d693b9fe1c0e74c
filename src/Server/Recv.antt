-- ===== src/Server/Recv.antt =====
-- `recv_line` of backend/src/server.c: one line from the socket, a byte at a time.
use hsed.Base.{
  ℕ, suc, ◌+◌, ◌-◌, ◌<◌, ◌≡◌, sym, ap, inl, inr, Bool-cases, take_all, ◌∙◌, ◌≢◌, false, List, [],
  ◌∷◌, ◌++◌, length, length-append, take, ltb, ◌==◌, if◌then◌else◌, arith,
}
use mathlib.Core.List.{append-nil, append_assoc}

-- What one call of `recv` for one byte gives.
pub data RecvEvent : Type 0 where
  byte : ℕ → RecvEvent
  interrupted closed failing : RecvEvent

-- A line and the events behind it; `ended` is the result -1; `waiting` means that the events ran out.
pub data Received : Type 0 where
  line : List ℕ → List RecvEvent → Received
  ended waiting : Received

-- The loop; `buf` is what is stored so far, so its length is `i`.
unfoldable pub recv_loop : ℕ → List RecvEvent → List ℕ → Received
recv_loop bufsize [] buf = waiting
recv_loop bufsize (closed ∷ events) buf = ended
recv_loop bufsize (interrupted ∷ events) buf = recv_loop bufsize events buf
recv_loop bufsize (failing ∷ events) buf = ended
recv_loop bufsize (byte c ∷ events) buf =
    let more =
      recv_loop bufsize events (if ltb (length buf + 1) bufsize then buf ++ c ∷ [] else buf) in
    if c == 10 then line buf events else more

unfoldable pub recv_line : ℕ → List RecvEvent → Received
unfolding recv_loop
recv_line bufsize events = recv_loop bufsize events []

-- The bytes that arrive, whatever interrupts the calls.
abbrev pub Arrives : List ℕ → List RecvEvent → List RecvEvent → Type 0
Arrives s [] rest = ⊥
Arrives [] (byte c ∷ events) rest = (c ≡ 10) × (events ≡ rest)
Arrives (d ∷ s) (byte c ∷ events) rest = (c ≡ d) × (c ≢ 10) × Arrives s events rest
Arrives s (interrupted ∷ events) rest = Arrives s events rest
Arrives s (closed ∷ events) rest = ⊥
Arrives s (failing ∷ events) rest = ⊥

not_newline : (c : ℕ) → c ≢ 10 → (c == 10) ≡ false
not_newline c h = ground arith

recv_loop_lem :
    (bufsize : ℕ) (s : List ℕ) (events rest : List RecvEvent) (buf : List ℕ)
    → length buf < bufsize
    → Arrives s events rest
    → recv_loop bufsize events buf ≡ line (buf ++ take (bufsize - 1 - length buf) s) rest
unfolding recv_loop
recv_loop_lem bufsize s [] rest buf h a = absurd a
recv_loop_lem bufsize [] (byte c ∷ events) rest buf h a =
    rw (a.0, a.1)
      (ap (λ t. line t rest)
        (sym (append-nil buf)
          ∙ ap (◌++◌ buf) (sym (take_all (bufsize - 1 - length buf) [] (omega arith)))))
recv_loop_lem bufsize (d ∷ s) (byte c ∷ events) rest buf h a =
    elim (Bool-cases (ltb (length buf + 1) bufsize)) [
      | inl room ↦
          let more : bufsize - 1 - length buf ≡ suc (bufsize - 1 - length (buf ++ d ∷ [])) =
            ground (arith, length-append buf (d ∷ [])) in
          rw (a.0, not_newline d (λ e. a.1 (a.0 ∙ e)), room)
            (recv_loop_lem bufsize s events rest (buf ++ d ∷ [])
                (ground (arith, length-append buf (d ∷ []))) a.2
              ∙ ap (λ t. line t rest)
                  (append_assoc buf (d ∷ []) _ ∙ ap (λ n. buf ++ take n (d ∷ s)) (sym more)))
      | inr full ↦
          let none_left : bufsize - 1 - length buf ≡ 0 = ground arith in
          rw (a.0, not_newline d (λ e. a.1 (a.0 ∙ e)), full)
            (recv_loop_lem bufsize s events rest buf h a.2
              ∙ ap (λ t. line t rest)
                  (ap (λ n. buf ++ take n s) none_left
                    ∙ ap (λ n. buf ++ take n (d ∷ s)) (sym none_left)))
    ]
recv_loop_lem bufsize [] (interrupted ∷ events) rest buf h a =
    recv_loop_lem bufsize [] events rest buf h a
recv_loop_lem bufsize (d ∷ s) (interrupted ∷ events) rest buf h a =
    recv_loop_lem bufsize (d ∷ s) events rest buf h a
recv_loop_lem bufsize [] (closed ∷ events) rest buf h a = absurd a
recv_loop_lem bufsize (d ∷ s) (closed ∷ events) rest buf h a = absurd a
recv_loop_lem bufsize [] (failing ∷ events) rest buf h a = absurd a
recv_loop_lem bufsize (d ∷ s) (failing ∷ events) rest buf h a = absurd a

-- When the bytes of a line and its newline arrive, interrupted or not, `recv_line` gives the line,
-- cut to the buffer less one byte for the NUL, and leaves what comes behind the newline.
pub recv_line_lem :
    (bufsize : ℕ) (s : List ℕ) (events rest : List RecvEvent)
    → 0 < bufsize
    → Arrives s events rest
    → recv_line bufsize events ≡ line (take (bufsize - 1) s) rest
unfolding recv_line
recv_line_lem bufsize s events rest h a =
    recv_loop_lem bufsize s events rest [] h a ∙ ap (λ n. line (take n s) rest) (omega arith)

-- The events that are left are fewer.
recv_loop-shrinks :
    (bufsize : ℕ) (events rest : List RecvEvent) (buf s : List ℕ)
    → recv_loop bufsize events buf ≡ line s rest
    → length rest < length events
unfolding recv_loop
recv_loop-shrinks bufsize [] rest buf s e = cc
recv_loop-shrinks bufsize (closed ∷ events) rest buf s e = cc
recv_loop-shrinks bufsize (failing ∷ events) rest buf s e = cc
recv_loop-shrinks bufsize (interrupted ∷ events) rest buf s e =
    omega (arith, recv_loop-shrinks bufsize events rest buf s e)
recv_loop-shrinks bufsize (byte c ∷ events) rest buf s e = elim (Bool-cases (c == 10)) [
  | inl newline ↦ omega (arith, ap length (same_rest (rw newline at e)))
  | inr other ↦ omega (
    arith,
    recv_loop-shrinks bufsize events rest
        (if ltb (length buf + 1) bufsize then buf ++ c ∷ [] else buf) s (rw other at e),
  )
]
  where
    same_rest : line buf events ≡ line s rest → events ≡ rest
    same_rest e = cc

pub recv_line-shrinks :
    (bufsize : ℕ) (events rest : List RecvEvent) (s : List ℕ)
    → recv_line bufsize events ≡ line s rest
    → length rest < length events
unfolding recv_line
recv_line-shrinks bufsize events rest s e = recv_loop-shrinks bufsize events rest [] s e
