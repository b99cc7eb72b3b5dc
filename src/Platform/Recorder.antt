-- ===== src/Platform/Recorder.antt =====
-- pkg/server/middleware.go and MetricsMiddleware of pkg/server/metrics.go
use qonto.Prelude.{
  ℕ, zero, suc, ◌-◌, ◌≤◌, ◌≡◌, refl, sym, ap, ◌∙◌, true, false, Bool-cases, inl, inr, ◌&&◌, Bytes,
  codes, Option, none, some, List, [], ◌∷◌, ◌++◌, length, take, length-take, append-nil_right,
  append_assoc, ltb, if◌then◌else◌, arith,
}
use qonto.Prelude.Int.{ℤ, pos, leb_ℤ}
use qonto.Go.Strconv.{format_int}

abbrev pub max_logged_body_bytes : ℕ
max_logged_body_bytes = 1024

pub record StatusRecorder : Type 0 where
  pub status : ℤ
  pub body : Bytes

-- What a handler does to the response writer.
pub data Event : Type 0 where
  header : ℤ → Event
  chunk : Bytes → Event

unfoldable pub write_header : ℤ → StatusRecorder → StatusRecorder
write_header status r = record r { status = status }

unfoldable pub write : Bytes → StatusRecorder → StatusRecorder
write b r =
    if leb_ℤ (pos 400) r.status && ltb (length r.body) max_logged_body_bytes
    then (let remaining = max_logged_body_bytes - length r.body in
        record r {
          body = r.body ++ take (if ltb (length b) remaining then length b else remaining) b;
        })
    else r

unfoldable pub record_event : Event → StatusRecorder → StatusRecorder
unfolding write_header write
record_event (header status) r = write_header status r
record_event (chunk b) r = write b r

-- The calls of a handler, in order.
unfoldable pub served : List Event → StatusRecorder → StatusRecorder
unfolding record_event
served [] r = r
served (e ∷ es) r = served es (record_event e r)

pub data Level : Type 0 where
  info warn error : Level

unfoldable pub level_of : ℤ → Level
level_of status =
    if leb_ℤ (pos 500) status then error else if leb_ℤ (pos 400) status then warn else info

-- `trace` has the ids of the trace and the span, where the context has a valid one.
pub record LogLine : Type 0 where
  pub level : Level
  pub message : Bytes
  pub method : Bytes
  pub path : Bytes
  pub status : ℤ
  pub duration_ms : ℤ
  pub trace : Option (Bytes × Bytes)
  pub response_body : Option Bytes

-- `rec.status >= http.StatusBadRequest && len(rec.body) > 0`
abbrev pub failure_body : StatusRecorder → Option Bytes
failure_body rec =
    if leb_ℤ (pos 400) rec.status && ltb 0 (length rec.body) then some rec.body else none

abbrev pub suffix_of : Option Bytes → Bytes
suffix_of none = []
suffix_of (some body) = codes ": " ++ body

-- What `LoggingMiddleware` logs, with what it has recorded.
unfoldable pub log_line : Bytes → Bytes → StatusRecorder → ℤ → Option (Bytes × Bytes) → LogLine
unfolding level_of
log_line method path rec duration_ms trace = record {
  level = level_of rec.status;
  message =
      method
      ++ (codes " "
          ++ (path ++ (codes " -> " ++ (format_int rec.status ++ suffix_of (failure_body rec)))));
  method = method;
  path = path;
  status = rec.status;
  duration_ms = duration_ms;
  trace = trace;
  response_body = failure_body rec;
}

-- A recorder starts at 200.
abbrev pub new_recorder : StatusRecorder
new_recorder = record { status = pos 200; body = [] }

take-all : (n : ℕ) (xs : Bytes) → length xs ≤ n → take n xs ≡ xs
take-all zero [] h = refl
take-all zero (x ∷ xs) h = ground arith
take-all (suc n) [] h = refl
take-all (suc n) (x ∷ xs) h = ap (λ r. x ∷ r) (take-all n xs (omega arith))

take-zero : (n : ℕ) (xs : Bytes) → n ≡ 0 → take n xs ≡ []
take-zero zero xs h = refl
take-zero (suc n) xs h = ground arith

take-append : (n : ℕ) (xs ys : Bytes) → take n (xs ++ ys) ≡ take n xs ++ take (n - length xs) ys
take-append zero xs ys = sym (take-zero (0 - length xs) ys (omega arith))
take-append (suc n) [] ys = let same : suc n ≡ suc n - 0 = omega arith in ap (λ k. take k ys) same
take-append (suc n) (x ∷ xs) ys =
    ap (λ r. x ∷ r) (take-append n xs ys)
    ∙ (let same : n - length xs ≡ suc n - suc (length xs) = omega arith in
        ap (λ k. x ∷ (take n xs ++ take k ys)) same)

clipped : (n : ℕ) (b : Bytes) → take (if ltb (length b) n then length b else n) b ≡ take n b
clipped n b = elim (Bool-cases (ltb (length b) n)) [
  | inl short ↦ rw short (take-all (length b) b (omega arith) ∙ sym (take-all n b (ground arith)))
  | inr long ↦ rw long refl
]

left_over :
    (done : Bytes) (r : StatusRecorder)
    → r.body ≡ take 1024 done
    → ltb (length r.body) 1024 ≡ true
    → 1024 - length r.body ≡ 1024 - length done
left_over done r e h =
    let l : length r.body ≡ length (take 1024 done) = ap length e in
    ground (arith, length-take 1024 done)

at_least : (n : ℕ) → ltb n 1024 ≡ false → 1024 ≤ n
at_least n h = ground arith

filled :
    (done : Bytes) (r : StatusRecorder)
    → r.body ≡ take 1024 done
    → ltb (length r.body) 1024 ≡ false
    → 1024 - length done ≡ 0
filled done r e h =
    let l : length r.body ≡ length (take 1024 done) = ap length e in
    omega (arith, length-take 1024 done, at_least (length r.body) h)

-- One write, after `done` was sent.
write-take :
    (done b : Bytes) (r : StatusRecorder)
    → leb_ℤ (pos 400) r.status ≡ true
    → r.body ≡ take 1024 done
    → ((write b r).body ≡ take 1024 (done ++ b)) × ((write b r).status ≡ r.status)
unfolding write
write-take done b r h e = elim (Bool-cases (ltb (length r.body) 1024)) [
  | inl room ↦
      rw (h, room)
        (
          ap (λ x. r.body ++ x) (clipped (1024 - length r.body) b)
              ∙ ap (λ k. r.body ++ take k b) (left_over done r e room)
              ∙ ap (λ x. x ++ take (1024 - length done) b) e
              ∙ sym (take-append 1024 done b),
          refl,
        )
  | inr full ↦
      rw (h, full)
        (
          e
              ∙ append-nil_right (take 1024 done)
              ∙ ap (λ x. take 1024 done ++ x)
                  (sym (take-zero (1024 - length done) b (filled done r e full)))
              ∙ sym (take-append 1024 done b),
          refl,
        )
]

abbrev pub chunks : List Bytes → List Event
chunks [] = []
chunks (b ∷ bs) = chunk b ∷ chunks bs

abbrev pub join : List Bytes → Bytes
join [] = []
join (b ∷ bs) = b ++ join bs

recorded-after :
    (bs : List Bytes) (done : Bytes) (r : StatusRecorder)
    → leb_ℤ (pos 400) r.status ≡ true
    → r.body ≡ take 1024 done
    → (served (chunks bs) r).body ≡ take 1024 (done ++ join bs)
unfolding served record_event
recorded-after [] done r h e = e ∙ ap (take 1024) (append-nil_right done)
recorded-after (b ∷ bs) done r h e =
    let (body, status) = write-take done b r h e in
    recorded-after bs (done ++ b) (write b r) (ap (leb_ℤ (pos 400)) status ∙ h) body
    ∙ ap (take 1024) (append_assoc done b (join bs))

-- Of a response with an error status, the recorder keeps the first 1024 bytes that were written,
-- in however many pieces.
pub served-take :
    (status : ℤ) (bs : List Bytes) (r : StatusRecorder)
    → leb_ℤ (pos 400) status ≡ true
    → r.body ≡ []
    → (served (header status ∷ chunks bs) r).body ≡ take 1024 (join bs)
unfolding served record_event write_header
served-take status bs r h e = recorded-after bs [] (write_header status r) h e
