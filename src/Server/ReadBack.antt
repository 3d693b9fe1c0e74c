-- ===== src/Server/ReadBack.antt =====
-- What a JSON reader makes of the replies in backend/src/server.c.
use mathlib.Core.List.{Sublistᴰ}
use hsed.Base.{
  ℕ, ◌-◌, ◌^◌, ◌<◌, ◌≡◌, refl, ap, ◌∙◌, ℤ, pos, true, some, List, [], ◌∷◌, length, take_all, codes,
  show_ℕ, show_ℤ, arith,
}
use hsed.Libc.Numbers.{IsLong}
use hsed.Libc.Width.{length-show_ℤ_word, length-show_ℤ_long}
use hsed.Entry.{Stats}
use hsed.Protocol.{linef, linef_buffer, snprintf, escaped_in}
use hsed.Protocol.Reading.{escape_all}
use hsed.Protocol.Escape.{json_escape_kept}
use hsed.Protocol.Object.{Json, number, truth, Members, value_text, object_text, read_object}
use hsed.Protocol.Object.RoundTrip.{length-object_text, read_object-object_text}
use hsed.Protocol.Object.EntryLine.{of_type}
use hsed.Server.{end_text, stats_text, freed_text, error_text, escaped_error}

-- A text that is short enough, and stands for an object, is read as that object behind
-- `hsed_send_linef`.
read_object-linef :
    (s : List ℕ) (member : List ℕ × Json) (members : Members)
    → s ≡ object_text member members
    → length (object_text member members) < linef_buffer
    → read_object (linef s) ≡ some (member ∷ members)
unfolding linef snprintf
read_object-linef s member members e h =
    ap (λ t. read_object (linef t)) e
    ∙ ap read_object (take_all (linef_buffer - 1) (object_text member members) (omega arith))
    ∙ read_object-object_text member members

abbrev pub count_members : ℕ → ℤ → Members
count_members count total =
    (codes "count", number (pos count)) ∷ (codes "total_bytes", number total) ∷ []

abbrev pub freed_members : ℤ → Members
freed_members freed = (codes "ok", truth true) ∷ (codes "freed", number freed) ∷ []

end-object_text :
    (count : ℕ) (total : ℤ)
    → end_text count total ≡ object_text (of_type (codes "end")) (count_members count total)
unfolding object_text value_text escape_all show_ℤ show_ℕ
end-object_text count total = refl

stats-object_text :
    (s : Stats)
    → stats_text s ≡ object_text (of_type (codes "stats")) (count_members s.count s.total_bytes)
unfolding object_text value_text escape_all show_ℤ show_ℕ
stats-object_text s = refl

freed-object_text :
    (freed : ℤ) → freed_text freed ≡ object_text (of_type (codes "result")) (freed_members freed)
unfolding object_text value_text escape_all
freed-object_text freed = refl

error-object_text :
    (kept : List ℕ)
    → error_text (escape_all kept)
      ≡ object_text (of_type (codes "error")) ((codes "message", Json.text kept) ∷ [])
unfolding object_text value_text escape_all
error-object_text kept = refl

error_read :
    (message : List ℕ)
    → (kept : List ℕ) × Sublistᴰ kept message
      × (read_object (linef (escaped_error message))
          ≡ some (of_type (codes "error") ∷ (codes "message", Json.text kept) ∷ []))
unfolding escape_all
error_read message =
    let (kept, sub, e, lt) = json_escape_kept 512 message (omega arith) in
    let size =
      length-object_text (of_type (codes "error")) ((codes "message", Json.text kept) ∷ []) in
    (
      kept,
      sub,
      read_object-linef (escaped_error message) _ _ (rw (escaped_in, e) (error-object_text kept))
          (omega (arith, size, lt)),
    )

-- The replies of a scan, of counting and of a truncation, for numbers in the ranges of their types,
-- are not cut, and a JSON reader gets the type and the numbers back from them. So it does from a
-- reply with an error whose message is escaped, as those of a truncation, a signal and a stream
-- are: it gets some of the bytes of the message, in their order.
pub replies_read :
    (count : ℕ) (total freed : ℤ) (message : List ℕ)
    → count < 2 ^ 64
    → IsLong total
    → IsLong freed
    → (read_object (linef (end_text count total))
        ≡ some (of_type (codes "end") ∷ count_members count total))
      × (read_object (linef (stats_text (record { count = count; total_bytes = total })))
          ≡ some (of_type (codes "stats") ∷ count_members count total))
      × (read_object (linef (freed_text freed))
          ≡ some (of_type (codes "result") ∷ freed_members freed))
      × ((kept : List ℕ) × Sublistᴰ kept message
          × (read_object (linef (escaped_error message))
              ≡ some (of_type (codes "error") ∷ (codes "message", Json.text kept) ∷ [])))
unfolding escape_all
replies_read count total freed message h k l =
    let counted = length-object_text (of_type (codes "end")) (count_members count total) in
    let summed = length-object_text (of_type (codes "stats")) (count_members count total) in
    let result = length-object_text (of_type (codes "result")) (freed_members freed) in
    let a = length-show_ℤ_word count h in
    let b = length-show_ℤ_long total k in
    let c = length-show_ℤ_long freed l in
    (
      read_object-linef (end_text count total) _ _ (end-object_text count total)
          (omega (arith, counted, a, b)),
      read_object-linef (stats_text (record { count = count; total_bytes = total })) _ _
          (stats-object_text (record { count = count; total_bytes = total }))
          (omega (arith, summed, a, b)),
      read_object-linef (freed_text freed) _ _ (freed-object_text freed) (omega (arith, result, c)),
      error_read message,
    )
