-- ===== src/Tests/LoadTestTests.antt =====
-- The load-test generator on files that are lists.
use qonto.Prelude.{◌≡◌, refl, codes, List, [], ◌∷◌, ◌++◌, map}
use qonto.Prelude.Int.{pos}
use qonto.Go.Errors.{ok}
use qonto.Platform.Tracer.{trim_left, trim_right}
use qonto.LoadTest.{VegetaTarget, get_target}
use qonto.LoadTest.Files.{
  Files, Flags, usage, are_refused, kept_lines, read_lines, encode_all, write_targets,
  write_get_targets, loadtestgen,
}

-- Everything that is encoded, in one list; the file of account ids has three lines, one empty.
abbrev folder : Files (List VegetaTarget)
folder = record {
  open_file = λ _ s. (ok tt, s);
  scan_lines = λ s. (ok (codes "7" ∷ codes "  " ∷ codes " 9 " ∷ []), s);
  create = λ _ s. (ok tt, s);
  encode = λ t s. (ok tt, s ++ (t ∷ []));
  close = λ s. (ok tt, s);
}

abbrev flags : Flags
flags = record {
  run_id = codes "r1";
  requests = pos 3;
  accounts = pos 2;
  account_ids_file = codes "ids";
  transfer_cents = pos 150;
  base_url = codes "http://app";
  post_out = codes "post";
  get_out = codes "get";
}

account_ids : read_lines folder (codes "ids") [] ≡ (ok (codes "7" ∷ codes "9" ∷ []), [])
unfolding read_lines kept_lines trim_left trim_right
account_ids = refl

get_urls :
    map
      (λ (t : VegetaTarget). t.url)
      (write_get_targets folder (codes "get") 3 (codes "7" ∷ codes "9" ∷ []) (codes "u") []).1
    ≡ codes "u/accounts/7/transactions?limit=20"
      ∷ codes "u/accounts/9/transactions?limit=20"
      ∷ codes "u/accounts/7/transactions?limit=20"
      ∷ []
unfolding write_get_targets write_targets encode_all get_target
get_urls = refl

no_accounts : loadtestgen folder (λ _. []) (record flags { accounts = pos 0 }) [] ≡ (usage, [])
unfolding loadtestgen are_refused
no_accounts = refl
