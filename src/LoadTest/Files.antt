-- ===== src/LoadTest/Files.antt =====
-- cmd/loadtestgen/main.go: the files that are read and written, and the command itself. Files are
-- a parameter, and so are the JSON texts and the division of a line of flags into its values.
use qonto.Prelude.{
  ℕ, zero, suc, ◌%◌, ◌≡◌, refl, String, Bytes, Bool, ◌||◌, List, [], ◌∷◌, length, append-nil_right,
  append_assoc, ap, ◌∙◌, ◌++◌, if◌then◌else◌,
}
use qonto.Prelude.Int.{ℤ, pos, leb_ℤ}
use qonto.Go.Errors.{Result, ok, err, wrap}
use qonto.Go.Action.{Action, pure, ◌>>=◌}
use qonto.Model.Money.{is_empty}
use qonto.Platform.Tracer.{trim_space}
use qonto.LoadTest.{BulkTransferBody, VegetaTarget, write_post_targets, get_target, targets_from}

-- `os.Open` and a scan of all lines; `os.Create`, `enc.Encode` on what was created; `f.Close`.
pub record Files (S : Type 0) : Type 0 where
  pub open_file : Bytes → Action S (Unit {0})
  pub scan_lines : Action S (List Bytes)
  pub create : Bytes → Action S (Unit {0})
  pub encode : VegetaTarget → Action S (Unit {0})
  pub close : Action S (Unit {0})

abbrev pub cons_line : Bytes → List Bytes → List Bytes
cons_line [] ls = ls
cons_line (c ∷ l) ls = (c ∷ l) ∷ ls

unfoldable pub kept_lines : List Bytes → List Bytes
kept_lines [] = []
kept_lines (l ∷ ls) = cons_line (trim_space l) (kept_lines ls)

-- `accountIDs[i%len(accountIDs)]`, where there is one
abbrev pub get_or : Bytes → ℕ → List Bytes → Bytes
get_or d i [] = d
get_or d zero (x ∷ xs) = x
get_or d (suc i) (x ∷ xs) = get_or d i xs

-- The deferred `Close`: its error counts only where there is no other.
abbrev pub first_error : Result (Unit {0}) → Result (Unit {0}) → Result (Unit {0})
first_error (ok _) closing = closing
first_error (err e) closing = err e

pub record Flags : Type 0 where
  pub run_id : Bytes
  pub requests : ℤ
  pub accounts : ℤ
  pub account_ids_file : Bytes
  pub transfer_cents : ℤ
  pub base_url : Bytes
  pub post_out : Bytes
  pub get_out : Bytes

-- The flags that `main` answers with its usage.
unfoldable pub are_refused : Flags → Bool
are_refused f =
    is_empty f.run_id
    || (leb_ℤ f.requests (pos 0)
        || (leb_ℤ f.accounts (pos 0)
            || (is_empty f.account_ids_file
                || (leb_ℤ f.transfer_cents (pos 0)
                    || (is_empty f.post_out || is_empty f.get_out)))))

abbrev pub to_nat : ℤ → ℕ
to_nat (pos n) = n
to_nat _ = 0

module _ {S : Type 0} (files : Files S) where
  unfoldable pub read_lines : Bytes → Action S (List Bytes)
  unfolding kept_lines
  read_lines path = files.open_file path >>= λ _ s.
      let (r, s') = files.scan_lines s in
      (elim r [ ok ls ↦ ok (kept_lines ls) | err e ↦ err e ], (files.close s').1)

  unfoldable pub encode_all : List VegetaTarget → Action S (Unit {0})
  encode_all [] s = pure tt s
  encode_all (t ∷ ts) s =
      let (r, s') = files.encode t s in
      elim r [ ok _ ↦ encode_all ts s' | err e ↦ (err (wrap "encode target for request" e), s') ]

  unfoldable pub write_targets : Bytes → List VegetaTarget → Action S (Unit {0})
  unfolding encode_all
  write_targets path targets = files.create path >>= λ _ s.
      let (r, s') = encode_all targets s in
      let (closing, s'') = files.close s' in (first_error r closing, s'')

  unfoldable pub write_get_targets : Bytes → ℕ → List Bytes → Bytes → Action S (Unit {0})
  unfolding write_targets get_target
  write_get_targets path requests account_ids base_url = write_targets path (
      targets_from (λ i. get_target base_url (get_or [] (i % length account_ids) account_ids)) 0
        requests)

  unfoldable pub write_post_file :
      (BulkTransferBody → Bytes) → Bytes → Bytes → ℕ → ℕ → ℤ → Bytes → Action S (Unit {0})
  unfolding write_targets write_post_targets
  write_post_file marshal path run_id requests accounts transfer_cents base_url =
      write_targets path
        (write_post_targets marshal run_id requests accounts transfer_cents base_url)

  -- How the command ends: by itself, with the usage and exit code 2, or by `log.Fatalf`.
  pub data Ending : Type 0 where
    finished usage : Ending
    fatal : String → Ending

  abbrev pub or_fatal : {A : Type 0} → String → (A → S → Ending × S) → Result A × S → Ending × S
  or_fatal message k (ok a, s) = k a s
  or_fatal message k (err e, s) = (fatal message, s)

  unfoldable pub generate : (BulkTransferBody → Bytes) → Flags → List Bytes → S → Ending × S
  unfolding write_post_file write_get_targets
  generate marshal f [] s = (fatal "account ids file is empty", s)
  generate marshal f (id ∷ ids) s =
      or_fatal "write post targets"
        (λ _ s'.
          or_fatal "write get targets" (λ _ s''. (finished, s''))
            (write_get_targets f.get_out (to_nat f.requests) (id ∷ ids) f.base_url s'))
        (write_post_file marshal f.post_out f.run_id (to_nat f.requests) (to_nat f.accounts)
          f.transfer_cents f.base_url s)

  unfoldable pub loadtestgen : (BulkTransferBody → Bytes) → Flags → S → Ending × S
  unfolding are_refused read_lines generate
  loadtestgen marshal f s =
      if are_refused f
      then (usage, s)
      else or_fatal "read account ids file" (generate marshal f) (read_lines f.account_ids_file s)

-- Where no call fails, what is encoded is appended, in order.
pub encode_all-append :
    {S : Type 0} (files : Files S) (written : S → List VegetaTarget)
    → ((t : VegetaTarget) (s : S)
        → ((files.encode t s).0 ≡ ok tt) × (written (files.encode t s).1 ≡ written s ++ (t ∷ [])))
    → (ts : List VegetaTarget) (s : S)
    → ((encode_all files ts s).0 ≡ ok tt) × (written (encode_all files ts s).1 ≡ written s ++ ts)
unfolding encode_all
encode_all-append files written h [] s = (refl, append-nil_right (written s))
encode_all-append files written h (t ∷ ts) s =
    let (done, here) = h t s in
    let (rest, after) = encode_all-append files written h ts (files.encode t s).1 in
    rw (done, encode_all)
      (rest, after ∙ ap (λ w. w ++ ts) here ∙ append_assoc (written s) (t ∷ []) ts)
