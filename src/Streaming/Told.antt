-- ===== src/Streaming/Told.antt =====
-- What a JSON reader makes of the lines of a stream.
use hsed.Base.{
  ℕ, suc, ◌+◌, ◌-◌, ◌≤◌, ◌<◌, ◌≡◌, refl, ap, ◌∙◌, inl, inr, ℤ, pos, Bool, none, some, List, [], ◌∷◌,
  Bool-cases, length, take_all, codes, c_string, leb, show_ℕ, show_ℤ, arith,
}
use hsed.Libc.Numbers.{IsLong}
use hsed.Libc.Width.{length-show_ℤ_word, length-show_ℤ_long}
use hsed.Base64.{encode, encoded_len}
use hsed.Base64.Decode.{decode}
use hsed.Base64.RoundTrip.{IsBytes, decode-encode, length-c_string-encode, encoded_len_small}
use hsed.Base64.Plain.{escape_all-encode}
use hsed.Protocol.{linef, linef_buffer, snprintf}
use hsed.Protocol.Reading.{escape_all}
use hsed.Protocol.Object.{number, text, truth, Members, value_text, object_text, read_object}
use hsed.Protocol.Object.RoundTrip.{length-object_text, read_object-object_text}
use hsed.Protocol.Object.EntryLine.{of_type}
use hsed.Tracer.Session.{Write}
use hsed.Server.Stream.{stack_buffer, write_text, stream_write_cb}
use hsed.Streaming.{attached_text}

-- A write whose numbers are in the ranges of their types, and whose bytes fit a line.
pub record IsSmall (w : Write) : Type 0 where
  pub tid : IsLong w.tid
  pub ret : IsLong w.ret
  pub size : length w.bytes ≤ 1400
  pub bytes : IsBytes w.bytes

-- The members of a line about a write, whose last one is text in base64.
abbrev pub write_members : Write → List ℕ → Members
write_members w data_b64 =
    (codes "tid", number w.tid)
    ∷ (codes "ret", number w.ret)
    ∷ (codes "captured", number (pos (length w.bytes)))
    ∷ (codes "is_writev", truth w.is_writev)
    ∷ (codes "data_b64", text data_b64)
    ∷ []

-- A reader of JSON and base64 gets the write back from the line, as an object of the type `write`.
abbrev pub Tells : Write → List ℕ → Type 0
Tells w line =
    (data_b64 : List ℕ) × (read_object line
      ≡ some (of_type (codes "write") ∷ write_members w data_b64))
    × (decode data_b64 ≡ some w.bytes)

abbrev encoded : Write → List ℕ
encoded w = c_string (encode w.bytes)

abbrev text_of : Write → List ℕ
text_of w = write_text w.tid w.ret (length w.bytes) w.is_writev (encoded w)

write_text-object_text :
    (w : Write) → text_of w ≡ object_text (of_type (codes "write")) (write_members w (encoded w))
unfolding write_text object_text value_text escape_all show_ℤ show_ℕ
write_text-object_text w = elim (Bool-cases w.is_writev) [
  | inl e ↦ rw (e, escape_all-encode w.bytes) refl
  | inr e ↦ rw (e, escape_all-encode w.bytes) refl
]

length-text_of : (w : Write) → IsSmall w → length (text_of w) < linef_buffer
unfolding escape_all
length-text_of w h =
    rw
      (
        write_text-object_text w,
        length-object_text (of_type (codes "write")) (write_members w (encoded w)),
        escape_all-encode w.bytes,
      )
      (elim (Bool-cases w.is_writev) [
        | inl e ↦ rw e (bound 4 (omega arith))
        | inr e ↦ rw e (bound 5 (omega arith))
      ])
  where
    bound :
        (flag : ℕ)
        → flag ≤ 5
        → suc (
            4
            + 4
            + (5 + 2)
            + (3
                + 4
                + length (show_ℤ w.tid)
                + (3
                    + 4
                    + length (show_ℤ w.ret)
                    + (8
                        + 4
                        + length (show_ℤ (pos (length w.bytes)))
                        + (9 + 4 + flag + (8 + 4 + (length (encoded w) + 2)))))))
          < linef_buffer
    bound flag small = omega (
      arith,
      length-show_ℤ_long w.tid h.tid,
      length-show_ℤ_long w.ret h.ret,
      length-show_ℤ_word (length w.bytes),
      length-c_string-encode w.bytes,
      encoded_len_small (length w.bytes) h.size,
      h.size,
    )

written :
    (w : Write) (room : Bool) (line : List ℕ)
    → stream_write_cb room w.tid w.ret w.bytes w.is_writev ≡ some line
    → line ≡ linef (text_of w)
unfolding stream_write_cb
written w room line h = elim (Bool-cases (leb (encoded_len (length w.bytes)) stack_buffer)) [
  | inl small ↦ whole (rw small at h)
  | inr large ↦ elim (Bool-cases room) [
    | inl has ↦ whole (rw (large, has) at h)
    | inr lacks ↦ nothing (rw (large, lacks) at h)
  ]
]
  where
    whole : some (linef (text_of w)) ≡ some line → line ≡ linef (text_of w)
    whole e = cc

    nothing : none ≡ some line → line ≡ linef (text_of w)
    nothing e = cc

pub stream_write_cb-Tells :
    (w : Write) (room : Bool) (line : List ℕ)
    → IsSmall w
    → stream_write_cb room w.tid w.ret w.bytes w.is_writev ≡ some line
    → Tells w line
unfolding linef snprintf
stream_write_cb-Tells w room line h e = (
  encoded w,
  ap read_object (
        written w room line e
        ∙ take_all (linef_buffer - 1) (text_of w) (omega (arith, length-text_of w h))
        ∙ write_text-object_text w)
      ∙ read_object-object_text (of_type (codes "write")) (write_members w (encoded w)),
  decode-encode w.bytes h.bytes,
)

abbrev pub attached_members : ℤ → ℤ → Members
attached_members pid fd = (codes "pid", number pid) ∷ (codes "fd", number fd) ∷ []

attached_text-object_text :
    (pid fd : ℤ)
    → attached_text pid fd ≡ object_text (of_type (codes "attached")) (attached_members pid fd)
unfolding attached_text object_text value_text escape_all
attached_text-object_text pid fd = refl

length-attached_text :
    (pid fd : ℤ) → IsLong pid → IsLong fd → length (attached_text pid fd) < linef_buffer
unfolding escape_all
length-attached_text pid fd h k = rw (attached_text-object_text pid fd) (
    omega (
      arith,
      length-object_text (of_type (codes "attached")) (attached_members pid fd),
      length-show_ℤ_long pid h,
      length-show_ℤ_long fd k,
    ))

-- The line of `stream_attached_cb` is whole, and is read as an object of the type `attached`.
pub read_object-attached :
    (pid fd : ℤ)
    → IsLong pid
    → IsLong fd
    → read_object (linef (attached_text pid fd))
      ≡ some (of_type (codes "attached") ∷ attached_members pid fd)
unfolding linef snprintf
read_object-attached pid fd h k =
    ap read_object (
      take_all (linef_buffer - 1) (attached_text pid fd)
        (omega (arith, length-attached_text pid fd h k))
      ∙ attached_text-object_text pid fd)
    ∙ read_object-object_text (of_type (codes "attached")) (attached_members pid fd)
