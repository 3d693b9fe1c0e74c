-- ===== src/Protocol/Send.antt =====
-- What `hsed_send_line` puts on the socket.
use mathlib.Core.List.{append_assoc, append-nil}
use hsed.Base.{
  ℕ, zero, suc, ◌+◌, ◌<◌, ◌≤◌, ◌≡◌, refl, sym, ap, ◌∙◌, inl, inr, ◌⊎◌, ◌≢◌, false, List, [], ◌∷◌,
  ◌++◌, length, length-append, length-take, length-drop, drop_all, take, drop, take-append-drop,
  ltb, ltb→lt, Bool-cases, arith,
}
use hsed.Protocol.{
  SendStatus, failed, waiting, SendEvent, accepts, interrupted, failing, sent, Sending, chunk_at,
  send_loop, send_line,
}

drop-append :
    (xs ys whole t : List ℕ)
    → xs ++ ys ≡ whole ++ t
    → length xs ≤ length whole
    → ys ≡ drop (length xs) whole ++ t
drop-append [] ys whole t e h = e
drop-append (x ∷ xs) ys [] t e h = absurd (omega arith)
drop-append (x ∷ xs) ys (w ∷ whole) t e h = drop-append xs ys whole t (cc) (omega arith)

-- The next chunk is what comes next of the text and its newline.
chunk_next :
    (json wire rest : List ℕ)
    → wire ++ rest ≡ json ++ 10 ∷ []
    → length wire < length json + 1
    → (more : List ℕ) × (rest ≡ chunk_at json (length wire) ++ more)
unfolding chunk_at
chunk_next json wire rest e h =
    let split = drop-append wire rest json (10 ∷ []) e (omega arith) in
    elim (Bool-cases (ltb (length wire) (length json))) [
      | inl inside ↦ rw inside (10 ∷ [], split)
      | inr over ↦ rw over ([], rw (drop_all (length wire) json (ground arith)) at split)
    ]

-- One more chunk, or a part of it, goes out in the right place.
advance_wire :
    (n : ℕ) (json wire rest : List ℕ)
    → wire ++ rest ≡ json ++ 10 ∷ []
    → length wire < length json + 1
    → (more : List ℕ) × ((wire ++ take n (chunk_at json (length wire))) ++ more ≡ json ++ 10 ∷ [])
advance_wire n json wire rest e h =
    let (more, split) = chunk_next json wire rest e h in
    let chunk = chunk_at json (length wire) in
    (
      drop n chunk ++ more,
      append_assoc wire (take n chunk) (drop n chunk ++ more)
          ∙ ap (◌++◌ wire) (
              sym (append_assoc (take n chunk) (drop n chunk) more)
              ∙ ap (λ t. t ++ more) (take-append-drop n chunk)
              ∙ sym split)
          ∙ e,
    )

-- What was sent is the beginning of the line and its newline, and all of it where the result is 0.
abbrev pub SendsPrefix : List ℕ → Sending → Type 0
SendsPrefix json r =
    (unsent : List ℕ) × (r.wire ++ unsent ≡ json ++ 10 ∷ []) × (r.status ≡ sent → unsent ≡ [])

all_sent :
    (json wire rest : List ℕ)
    → wire ++ rest ≡ json ++ 10 ∷ []
    → ltb (length wire) (length json + 1) ≡ false
    → rest ≡ []
all_sent json wire [] e h = refl
all_sent json wire (c ∷ rest) e h =
    absurd
      (ground (arith, ap length e, length-append wire (c ∷ rest), length-append json (10 ∷ [])))

send_loop-SendsPrefix :
    (json : List ℕ) (events : List SendEvent) (wire rest : List ℕ)
    → wire ++ rest ≡ json ++ 10 ∷ []
    → SendsPrefix json (send_loop json events wire)
unfolding send_loop
send_loop-SendsPrefix json [] wire rest e =
    elim (Bool-cases (ltb (length wire) (length json + 1))) [
      | inl more ↦ rw more (rest, e, λ w. cc)
      | inr done ↦ rw done (rest, e, λ _. all_sent json wire rest e done)
    ]
send_loop-SendsPrefix json (accepts n ∷ events) wire rest e =
    elim (Bool-cases (ltb (length wire) (length json + 1))) [
      | inl more ↦
          let (rest', e') =
            advance_wire n json wire rest e (ltb→lt (length wire) (length json + 1) more) in
          rw more (
            send_loop-SendsPrefix json events (wire ++ take n (chunk_at json (length wire))) rest'
              e')
      | inr done ↦ rw done (rest, e, λ _. all_sent json wire rest e done)
    ]
send_loop-SendsPrefix json (interrupted ∷ events) wire rest e =
    elim (Bool-cases (ltb (length wire) (length json + 1))) [
      | inl more ↦ rw more (send_loop-SendsPrefix json events wire rest e)
      | inr done ↦ rw done (rest, e, λ _. all_sent json wire rest e done)
    ]
send_loop-SendsPrefix json (failing ∷ events) wire rest e =
    elim (Bool-cases (ltb (length wire) (length json + 1))) [
      | inl more ↦ rw more (rest, e, λ w. cc)
      | inr done ↦ rw done (rest, e, λ _. all_sent json wire rest e done)
    ]

-- Either the result is 0 and the whole line is out, or it is not and a beginning of it is.
abbrev pub SendOutcome : List ℕ → Sending → Type 0
SendOutcome json r =
    ((r.status ≡ sent) × (r.wire ≡ json ++ 10 ∷ []))
    ⊎ ((r.status ≢ sent) × ((unsent : List ℕ) × (r.wire ++ unsent ≡ json ++ 10 ∷ [])))

status_cases : (s : SendStatus) → (s ≡ sent) ⊎ (s ≢ sent)
status_cases sent = inl refl
status_cases failed = inr (λ e. cc)
status_cases waiting = inr (λ e. cc)

outcome_of : (json : List ℕ) (r : Sending) → SendsPrefix json r → SendOutcome json r
outcome_of json r (unsent, split, all) = elim (status_cases r.status) [
  | inl ok ↦ inl (ok, sym (append-nil r.wire) ∙ ap (◌++◌ r.wire) (sym (all ok)) ∙ split)
  | inr stopped ↦ inr (stopped, (unsent, split))
]

-- Whatever the kernel does, the socket gets the text and its newline, in order and once, where the
-- result is 0, and a beginning of that otherwise.
pub send_line_lem :
    (json : List ℕ) (events : List SendEvent) → SendOutcome json (send_line json events)
unfolding send_line
send_line_lem json events =
    outcome_of json _ (send_loop-SendsPrefix json events [] (json ++ 10 ∷ []) refl)

-- The calls of `send` that take at least one byte, where none fails.
abbrev pub progress : List SendEvent → ℕ
progress [] = 0
progress (accepts zero ∷ events) = progress events
progress (accepts (suc n) ∷ events) = suc (progress events)
progress (interrupted ∷ events) = progress events
progress (failing ∷ events) = 0

chunk_at-pos : (json : List ℕ) (n : ℕ) → 0 < length (chunk_at json n)
unfolding chunk_at
chunk_at-pos json n = ground (arith, length-drop n json)

send_loop-sent :
    (json : List ℕ) (events : List SendEvent) (wire : List ℕ)
    → length json + 1 ≤ length wire + progress events
    → (send_loop json events wire).status ≡ sent
unfolding send_loop
send_loop-sent json [] wire h = ground arith
send_loop-sent json (accepts zero ∷ events) wire h =
    rw append-nil (ground (arith, send_loop-sent json events wire h))
send_loop-sent json (accepts (suc n) ∷ events) wire h =
    let chunk = chunk_at json (length wire) in
    ground (
      arith,
      send_loop-sent json events (wire ++ take (suc n) chunk),
      length-append wire (take (suc n) chunk),
      length-take (suc n) chunk,
      chunk_at-pos json (length wire),
    )
send_loop-sent json (interrupted ∷ events) wire h =
    ground (arith, send_loop-sent json events wire h)
send_loop-sent json (failing ∷ events) wire h = ground arith

-- As many calls of `send` that take at least one byte as there are bytes in the line and its newline,
-- before a call fails, bring `hsed_send_line` to the result 0.
pub send_line-sent :
    (json : List ℕ) (events : List SendEvent)
    → length json + 1 ≤ progress events
    → (send_line json events).status ≡ sent
unfolding send_line
send_line-sent json events h = send_loop-sent json events [] (omega arith)
