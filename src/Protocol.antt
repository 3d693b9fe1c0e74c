-- ===== src/Protocol.antt =====
-- backend/src/protocol.c: escaping, the entry line, and sending lines. A source string is the list
-- of its bytes before the NUL; `out` in the loops is what is stored in `dst` so far, and its length
-- is the index `o`.
pub mod Reading
pub mod Object
pub mod Escape
pub mod Send
mod Examples
use hsed.Base.{
  ℕ, zero, suc, ◌+◌, ◌-◌, ◌*◌, ◌/◌, ◌%◌, min, Bool, true, false, Option, none, some, List, [], ◌∷◌,
  ◌++◌, length, take, drop, codes, show_ℕ, show_ℤ, ltb, ◌==◌, if◌then◌else◌,
}
use hsed.Entry.{Entry, path_max, name_max, cmdline_max}

infixl 5 ◌>>=◌
abbrev ◌>>=◌ {ℓ κ} : {A : Type ℓ} {B : Type κ} → Option A → (A → Option B) → Option B
none >>= f = none
some a >>= f = f a

-- `dst[o++] = c`; `none` is a store past the end of `dst`.
store : ℕ → List ℕ → ℕ → Option (List ℕ)
store dstsize out c = if ltb (length out) dstsize then some (out ++ c ∷ []) else none

abbrev hex_digit : ℕ → ℕ
hex_digit d = if ltb d 10 then 48 + d else 87 + d

-- What `"\\u%04x"` prints for a byte.
unfoldable pub unicode_escape : ℕ → List ℕ
unicode_escape c = 92 ∷ b'u' ∷ b'0' ∷ b'0' ∷ hex_digit (c / 16) ∷ hex_digit (c % 16) ∷ []

-- The `snprintf` at `dst + o`. It never stores past `dst`; `none` says that it cut its text short.
print_control : ℕ → List ℕ → ℕ → Option (List ℕ)
unfolding unicode_escape
print_control dstsize out c =
    if ltb (length out + 6) dstsize then some (out ++ unicode_escape c) else none

-- A backslash and a letter, where there is room.
escape_pair : ℕ → List ℕ → ℕ → Option (List ℕ)
unfolding store
escape_pair dstsize out c =
    if ltb (length out + 2) dstsize
    then (do out' ← store dstsize out 92; store dstsize out' c)
    else some out

-- The `switch` on one byte.
escape_byte : ℕ → List ℕ → ℕ → Option (List ℕ)
escape_byte dstsize out c =
    if c == b'"'
    then escape_pair dstsize out b'"'
    else if c == 92
    then escape_pair dstsize out 92
    else if c == 10
    then escape_pair dstsize out b'n'
    else if c == 13
    then escape_pair dstsize out b'r'
    else if c == 9
    then escape_pair dstsize out b't'
    else if ltb c 0x20
    then (if ltb (length out + 6) dstsize then print_control dstsize out c else some out)
    else store dstsize out c

-- The `for` loop over the source.
escape_loop : ℕ → List ℕ → List ℕ → Option (List ℕ)
escape_loop dstsize [] out = some out
escape_loop dstsize (c ∷ src) out =
    if ltb (length out + 2) dstsize
    then (do out' ← escape_byte dstsize out c; escape_loop dstsize src out')
    else some out

-- `hsed_json_escape`: nothing is stored in a buffer of size 0; else `dst` holds a C string.
pub data Escaped : Type 0 where
  untouched fault : Escaped
  text : List ℕ → Escaped

terminate : ℕ → Option (List ℕ) → Escaped
terminate dstsize none = fault
terminate dstsize (some out) =
    text (if ltb (length out) dstsize then out else take (dstsize - 1) out)

unfoldable pub json_escape : ℕ → List ℕ → Escaped
unfolding escape_loop escape_byte store print_control escape_pair terminate
json_escape dstsize src =
    if dstsize == 0 then untouched else terminate dstsize (escape_loop dstsize src [])

-- The C string that `snprintf` leaves in a buffer of that size.
unfoldable pub snprintf : ℕ → List ℕ → List ℕ
snprintf size s = take (size - 1) s

-- The escaped text in a local buffer, which has a size above 0.
abbrev pub escaped_in : ℕ → List ℕ → List ℕ
escaped_in size src = elim (json_escape size src) [ text s ↦ s | untouched ↦ [] | fault ↦ [] ]

-- The line that the format of `hsed_format_entry` stands for, before it is cut to the buffer.
unfoldable pub entry_line : Entry → List ℕ
unfolding json_escape
entry_line e =
    codes "{\"type\":\"entry\",\"pid\":"
    ++ (show_ℤ e.pid
        ++ (codes ",\"fd\":"
            ++ (show_ℤ e.fd
                ++ (codes ",\"mode\":\""
                    ++ (e.mode
                        ++ (codes "\",\"size\":"
                            ++ (show_ℤ e.size
                                ++ (codes ",\"uid\":"
                                    ++ (show_ℕ e.uid
                                        ++ (codes ",\"user\":\""
                                            ++ (escaped_in (name_max * 2) e.user
                                                ++ (codes "\",\"comm\":\""
                                                    ++ (escaped_in (name_max * 2) e.comm
                                                        ++ (codes "\",\"cmdline\":\""
                                                            ++ (escaped_in (cmdline_max * 2)
                                                            e.cmdline
                                                            ++ (codes "\",\"path\":\""
                                                            ++ (escaped_in (path_max * 2) e.path
                                                            ++ (codes "\",\"inode\":"
                                                            ++ (show_ℕ e.inode
                                                            ++ (codes ",\"dev_major\":"
                                                            ++ (show_ℕ e.dev_major
                                                            ++ (codes ",\"dev_minor\":"
                                                            ++ (show_ℕ e.dev_minor
                                                            ++ (codes ",\"mtime\":"
                                                            ++ (show_ℤ e.mtime
                                                            ++ codes "}")))))))))))))))))))))))))

unfoldable pub format_entry : ℕ → Entry → List ℕ
unfolding entry_line snprintf
format_entry outsize e = snprintf outsize (entry_line e)

-- What one call of `send` does: it takes some of the bytes (as many as it is ready for, and never
-- more than it was given), or fails with EINTR, or fails otherwise.
pub data SendEvent : Type 0 where
  accepts : ℕ → SendEvent
  interrupted failing : SendEvent

-- `sent` and `failed` are the results 0 and -1; `waiting` means that the events ran out.
pub data SendStatus : Type 0 where
  sent failed waiting : SendStatus

-- What went out on the socket, and how the call ended.
pub record Sending : Type 0 where
  pub status : SendStatus
  pub wire : List ℕ

-- `chunk` and `chunklen` when `n` bytes are out: the rest of the text, then the newline.
chunk_at : List ℕ → ℕ → List ℕ
chunk_at json n = if ltb n (length json) then drop n json else 10 ∷ []

-- The loop of `hsed_send_line`; `wire` is what was sent, and its length is `sent`.
send_loop : List ℕ → List SendEvent → List ℕ → Sending
unfolding chunk_at
send_loop json [] wire = record {
  status = (if ltb (length wire) (length json + 1) then waiting else sent);
  wire = wire;
}
send_loop json (accepts n ∷ events) wire =
    let rest = send_loop json events (wire ++ take n (chunk_at json (length wire))) in
    if ltb (length wire) (length json + 1) then rest else record { status = sent; wire = wire }
send_loop json (interrupted ∷ events) wire =
    let rest = send_loop json events wire in
    if ltb (length wire) (length json + 1) then rest else record { status = sent; wire = wire }
send_loop json (failing ∷ events) wire =
    if ltb (length wire) (length json + 1)
    then record { status = failed; wire = wire }
    else record { status = sent; wire = wire }

pub send_line : List ℕ → List SendEvent → Sending
unfolding send_loop
send_line json events = send_loop json events []

abbrev pub linef_buffer : ℕ
linef_buffer = 2048

-- `hsed_send_linef`: the formatted text goes through a buffer of 2048 bytes.
unfoldable pub linef : List ℕ → List ℕ
unfolding snprintf
linef formatted = snprintf linef_buffer formatted

pub send_linef : List ℕ → List SendEvent → Sending
unfolding linef send_line
send_linef formatted events = send_line (linef formatted) events
