-- ===== src/Tests/ServiceTests.antt =====
-- Submissions one after the other, and the pages of a history.
use qonto.Prelude.{◌≤◌, ◌≡◌, refl, false, none, List, [], ◌∷◌, take, length, ltb, arith}
use qonto.Prelude.Int.{pos, ◌+ℤ◌, ◌-ℤ◌}
use qonto.Go.Int64.{add64, wrap64}
use qonto.Go.Errors.{ok}
use qonto.Model.Transfer.{total_cents, sum_from}
use qonto.Database.Schema.{Tables, TransactionRow, posting_of, add_key}
use qonto.Service.Submit.{Response, respond, status_created, status_insufficient_funds}
use qonto.Service.Outcome.{Submitted, accepted, replayed, insufficient, created}
use qonto.Service.Once.{Reached, start, next, exactly_once}
use qonto.Service.Batches.{IsBooked, one_batch_per_key}
use qonto.Service.Funds.{IsSound, Balances, balanced_ledger}
use qonto.Service.Verdict.{
  verdict, Posted, Submitted-verdict, refused_moves_nothing, accepted_posts,
}
use qonto.Service.History.{page_of}
use qonto.Service.History.Pages.{page_of-take}
use qonto.Service.History.Walk.{walk, walk_lists_all}
use qonto.Tests.Sample.{
  acme, affordable, unaffordable, opened, no_context, transfer_of_cents, items, lister,
}

abbrev posted : List TransactionRow
posted =
    record {
      id = pos 1;
      created_at = pos 0;
      posting = posting_of (pos 1) (pos 1) (transfer_of_cents 1450);
    }
    ∷ record {
      id = pos 2;
      created_at = pos 0;
      posting = posting_of (pos 1) (pos 1) (transfer_of_cents 6123800);
    }
    ∷ []

abbrev settled : Tables
settled = accepted affordable acme (pos 1) posted opened

abbrev no_content : Response
no_content = record { status_code = status_created; body = none }

accepts : Submitted affordable opened no_content settled
unfolding total_cents sum_from add64 wrap64 ◌+ℤ◌
accepts = created acme (pos 1) posted refl refl refl (omega arith) refl

abbrev refused : Tables
refused = add_key "k2" status_insufficient_funds settled

refuses : Submitted unaffordable settled (respond status_insufficient_funds) refused
unfolding total_cents sum_from add64 wrap64 ◌+ℤ◌ ◌-ℤ◌
refuses =
    insufficient {account = record acme { balance_cents = pos 10000000 -ℤ total_cents affordable }}
      refl refl refl

replays : Submitted affordable refused (respond status_created) refused
replays = replayed refl

others : Reached settled refused
others = next start refuses

exactly_once_run : (refused ≡ refused) × (respond status_created ≡ no_content)
exactly_once_run = exactly_once accepts others refl replays

opened-IsSound : IsSound opened
opened-IsSound = ((refl, tt), (omega arith, tt))

balanced_ledger_run : IsSound refused × Balances (pos 1) (pos 10000000) refused
unfolding ◌+ℤ◌
balanced_ledger_run =
    balanced_ledger (pos 1) (pos 10000000) (next (next start accepts) refuses) opened-IsSound
      (pos 10000000, refl, refl)

Submitted-verdict_run : no_content ≡ respond (verdict affordable opened)
Submitted-verdict_run = Submitted-verdict accepts

refused_moves_nothing_run :
    (refused.accounts ≡ settled.accounts)
    × (refused.batches ≡ settled.batches)
    × (refused.transactions ≡ settled.transactions)
unfolding total_cents sum_from add64 wrap64 ◌+ℤ◌ ◌-ℤ◌
refused_moves_nothing_run = refused_moves_nothing (λ e. ground arith) refuses

accepted_posts_run : Posted affordable opened settled
unfolding total_cents sum_from add64 wrap64 ◌+ℤ◌
accepted_posts_run = accepted_posts (refl, tt) (omega arith, omega arith) refl refl accepts

page_of-take_run :
    let page = page_of 2 items in
    (page.items ≡ take 2 items)
    × (length page.items ≤ 2)
    × (page.has_more ≡ ltb 2 (length items))
    × (page.has_more ≡ false → (page.items ≡ items) × (page.next_cursor ≡ []))
page_of-take_run = page_of-take 2 items

walk_lists_all_run : walk lister no_context (pos 1) 2 4 [] tt ≡ (ok items, tt)
walk_lists_all_run =
    walk_lists_all items ((refl, (refl, tt)), ((refl, tt), (tt, tt)))
      (
        ((omega arith, omega arith), (omega arith, omega arith)),
        (
          ((omega arith, omega arith), (omega arith, omega arith)),
          (((omega arith, omega arith), (omega arith, omega arith)), tt),
        ),
      )
      lister no_context (pos 1) 2 (omega arith) (λ c cursor n s. refl) tt

one_batch_per_key_run : IsBooked settled
unfolding total_cents sum_from add64 wrap64 ◌+ℤ◌
one_batch_per_key_run = one_batch_per_key (λ k. refl) (next start accepts)
