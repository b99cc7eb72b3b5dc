-- ===== src/Model/Pagination/RoundTrip.antt =====
-- The cursor survives its text form.
use qonto.Prelude.{
  ◌^◌, ◌<◌, ◌≡◌, ◌≢◌, refl, ap, ◌∙◌, Bytes, [], ◌∷◌, ◌++◌, none, some, length, take, drop, All,
  All-append, All-take, All-drop, length-take, length-drop, true, sym, IsByte, arith, Option-cases,
  inl, inr, Bool-cases, ◌==◌,
}
use mathlib.Core.Path.{subst}
use qonto.Prelude.Int.{ℤ}
use qonto.Go.Int64.{
  IsInt64, to_uint64, from_uint64, from_uint64-to_uint64, to_uint64-lt, wrap64_fits, wrap64-IsInt64,
  from_uint64-IsInt64,
}
use qonto.Go.Errors.{ok}
use qonto.Go.Base64
use qonto.Go.Base64.RoundTrip.{decode-encode, decode-IsByte}
use qonto.Go.Binary.{put_le, get_le, get_le-put_le, put_le-IsByte, get_le-lt}
use qonto.Go.Time.{unix_nano}
use qonto.Model.Pagination.{Cursor, encode_cursor, read_cursor, decode_cursor}

-- The 16 bytes of a cursor.
abbrev buffer : Cursor → Bytes
buffer c = put_le 8 (to_uint64 (unix_nano c.created_at)) ++ put_le 8 (to_uint64 c.id)

buffer-IsByte : (c : Cursor) → All IsByte (buffer c)
buffer-IsByte c = All-append IsByte _ _ (put_le-IsByte 8 _) (put_le-IsByte 8 _)

pub encode-ne-nil : (c : Cursor) → encode_cursor c ≢ []
unfolding encode_cursor Base64.encode put_le
encode-ne-nil c h = cc

read_int64 : (a : ℤ) → IsInt64 a → from_uint64 (get_le (put_le 8 (to_uint64 a))) ≡ a
read_int64 a h =
    ap from_uint64 (get_le-put_le 8 (to_uint64 a) (to_uint64-lt a)) ∙ from_uint64-to_uint64 a h

read_buffer : (c : Cursor) → IsInt64 c.created_at → IsInt64 c.id → read_cursor (buffer c) ≡ ok c
unfolding put_le read_cursor unix_nano
read_buffer c ht hi = λ i. ok (record {
  created_at =
      (read_int64 (unix_nano c.created_at) (wrap64-IsInt64 c.created_at)
          ∙ wrap64_fits c.created_at ht)
        i;
  id = read_int64 c.id hi i;
})

decode_step :
    (s : Bytes) {buf : Bytes}
    → s ≢ []
    → Base64.decode s ≡ some buf
    → decode_cursor s ≡ read_cursor buf
unfolding decode_cursor
decode_step [] ne e = absurd (ne refl)
decode_step (c ∷ s) ne e = ground arith

-- A cursor whose time is an int64 of nanoseconds comes back from its text exactly.
pub decode_cursor-encode_cursor :
    (c : Cursor) → IsInt64 c.created_at → IsInt64 c.id → decode_cursor (encode_cursor c) ≡ ok c
decode_cursor-encode_cursor c ht hi =
    decode_step (encode_cursor c) {buf = buffer c} (encode-ne-nil c)
      (unfold encode_cursor in decode-encode (buffer c) (buffer-IsByte c))
    ∙ read_buffer c ht hi

first_half : (buf : Bytes) → (length buf == 16) ≡ true → length (take 8 buf) ≡ 8
first_half buf h = ground (arith, length-take 8 buf)

second_half : (buf : Bytes) → (length buf == 16) ≡ true → length (take 8 (drop 8 buf)) ≡ 8
second_half buf h = ground (arith, length-take 8 (drop 8 buf), length-drop 8 buf)

decode_fails : (s : Bytes) {c : Cursor} → s ≢ [] → Base64.decode s ≡ none → decode_cursor s ≢ ok c
unfolding decode_cursor
decode_fails [] ne d e = absurd (ne refl)
decode_fails (x ∷ s) ne d e = ground arith

eight_bytes : (bs : Bytes) → All IsByte bs → length bs ≡ 8 → IsInt64 (from_uint64 (get_le bs))
eight_bytes bs h n = from_uint64-IsInt64 (get_le bs) (omega (arith, at_bound))
  where
    at_bound : get_le bs < 256 ^ 8
    at_bound = subst (λ k. get_le bs < 256 ^ k) n (get_le-lt bs h)

read_cursor-IsInt64 :
    (buf : Bytes) {c : Cursor}
    → All IsByte buf
    → read_cursor buf ≡ ok c
    → IsInt64 c.created_at × IsInt64 c.id
unfolding read_cursor
read_cursor-IsInt64 buf {c} h e = elim (Bool-cases (length buf == 16)) [
  | inr short ↦ absurd (ground arith)
  | inl full ↦ ground (
    arith,
    eight_bytes (take 8 buf) (All-take IsByte 8 buf h) (first_half buf full),
    eight_bytes (take 8 (drop 8 buf)) (All-take IsByte 8 _ (All-drop IsByte 8 buf h))
        (second_half buf full),
  )
]

-- Every text that is accepted as a cursor, the empty one aside, holds two int64s, and the text
-- that is printed for them is read as the same cursor.
pub decode_cursor_stable :
    (s : Bytes) (c : Cursor)
    → s ≢ []
    → decode_cursor s ≡ ok c
    → IsInt64 c.created_at × IsInt64 c.id × (decode_cursor (encode_cursor c) ≡ ok c)
decode_cursor_stable s c ne e = elim (Option-cases (Base64.decode s)) [
  | inl bad ↦ absurd (decode_fails s ne bad e)
  | inr (buf, d) ↦
      let (ht, hi) =
        read_cursor-IsInt64 buf (decode-IsByte s buf d) (sym (decode_step s ne d) ∙ e) in
      (ht, hi, decode_cursor-encode_cursor c ht hi)
]
