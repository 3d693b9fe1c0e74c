-- ===== src/Server/Stream.antt =====
-- The callbacks of a stream in backend/src/server.c: the check for a stop request, and the line that
-- carries one captured write.
use hsed.Base.{
  ℕ, ◌+◌, ◌-◌, ◌≤◌, ◌<◌, ◌≡◌, ap, ℤ, Bool, true, false, not, Option, none, some, List, [], ◌∷◌,
  ◌++◌, length, length-append, take, take_all, length-take, codes, c_string, show_ℕ, show_ℤ, leb,
  if◌then◌else◌, arith, Bool-cases, inl, inr,
}
use hsed.Libc.{contains}
use hsed.Base64.{encode, encoded_len}
use hsed.Base64.RoundTrip.{length-c_string-encode, encoded_len-le}
use hsed.Protocol.{linef, linef_buffer, snprintf}

-- `recv` with MSG_DONTWAIT: bytes (none where the client is gone), or an error, which tells whether
-- it is EAGAIN or EWOULDBLOCK.
pub data Polled : Type 0 where
  received : List ℕ → Polled
  failing : Bool → Polled

-- `true` is the result 1, to go on.
unfoldable pub stream_poll_cb : Polled → Bool
stream_poll_cb (received []) = false
stream_poll_cb (failing would_block) = would_block
stream_poll_cb (received (c ∷ s)) = not (contains (c ∷ s) (codes "STOP"))

unfoldable pub write_text : ℤ → ℤ → ℕ → Bool → List ℕ → List ℕ
write_text tid ret captured is_writev b64 =
    codes "{\"type\":\"write\",\"tid\":"
    ++ (show_ℤ tid
        ++ (codes ",\"ret\":"
            ++ (show_ℤ ret
                ++ (codes ",\"captured\":"
                    ++ (show_ℕ captured
                        ++ (codes ",\"is_writev\":"
                            ++ ((if is_writev then codes "true" else codes "false")
                                ++ (codes ",\"data_b64\":\"" ++ (b64 ++ codes "\"}")))))))))

abbrev pub stack_buffer : ℕ
stack_buffer = 1024

-- The line that is sent, if any: text beyond 1024 bytes wants memory.
unfoldable pub stream_write_cb : Bool → ℤ → ℤ → List ℕ → Bool → Option (List ℕ)
unfolding write_text linef
stream_write_cb has_memory tid ret buf is_writev =
    let need = encoded_len (length buf) in
    if leb need stack_buffer
    then some (linef (write_text tid ret (length buf) is_writev (c_string (encode buf))))
    else if has_memory
    then some (linef (write_text tid ret (length buf) is_writev (c_string (encode buf))))
    else none

length-write_text :
    (tid ret : ℤ) (captured : ℕ) (is_writev : Bool) (b64 : List ℕ)
    → length b64 + 2 ≤ length (write_text tid ret captured is_writev b64)
unfolding write_text
length-write_text tid ret captured is_writev b64 = omega (arith, length-append {0})

abbrev text_of : ℤ → ℤ → List ℕ → Bool → List ℕ
text_of tid ret buf is_writev = write_text tid ret (length buf) is_writev (c_string (encode buf))

-- Where there is memory and the whole text is shorter than the buffer of `hsed_send_linef`, the line
-- is the whole text.
pub stream_write_cb_whole :
    (tid ret : ℤ) (buf : List ℕ) (is_writev : Bool)
    → length (text_of tid ret buf is_writev) < linef_buffer
    → stream_write_cb true tid ret buf is_writev ≡ some (text_of tid ret buf is_writev)
unfolding stream_write_cb snprintf
stream_write_cb_whole tid ret buf is_writev h =
    let text = text_of tid ret buf is_writev in
    let whole = take_all (linef_buffer - 1) text (omega arith) in
    elim (Bool-cases (leb (encoded_len (length buf)) stack_buffer)) [
      | inl small ↦ rw small (ap some whole)
      | inr large ↦ rw large (ap some whole)
    ]

-- Where there is memory, a payload of 1536 bytes or more makes the text longer than the buffer of
-- `hsed_send_linef`: what is sent is its first 2047 bytes, without the end of the text, which holds
-- the closing quote and brace.
pub stream_write_cb_cut :
    (tid ret : ℤ) (buf : List ℕ) (is_writev : Bool)
    → 1536 ≤ length buf
    → let text = text_of tid ret buf is_writev in
      (stream_write_cb true tid ret buf is_writev ≡ some (take 2047 text))
      × (length (take 2047 text) ≡ 2047)
      × (2047 < length text)
unfolding stream_write_cb snprintf
stream_write_cb_cut tid ret buf is_writev h =
    let text = text_of tid ret buf is_writev in
    let need = length-c_string-encode buf in
    let least = length-write_text tid ret (length buf) is_writev (c_string (encode buf)) in
    let long = encoded_len-le (length buf) h in
    (
      elim (Bool-cases (leb (encoded_len (length buf)) stack_buffer)) [
        | inl small ↦ rw small
        | inr large ↦ rw large
      ],
      omega (arith, length-take 2047 text),
      omega arith,
    )
