-- ===== src/Examples/Mail.antt =====
-- The routing of e-mails, and the match of a receipt, at concrete inputs.
use ynab_agent.Common.{
  ◌≡◌, ◌⊎◌, ◌++◌, Memᴰ, All, refl, String, true, false, none, some, List, [], ◌∷◌, raise,
  activity_error, get_last?,
}
use ynab_agent.Common.Int.{pos, ◌-ℤ◌, abs}
use ynab_agent.Domain.Enums.{ReceiptStatus}
use ynab_agent.Domain.Money.{from_milliunits}
use ynab_agent.Domain.Signal.{Receipt}
use ynab_agent.Domain.Transaction.{YnabSnapshot}
use ynab_agent.Dispatch.{Outside, signal_transaction, page_failure, run}
use ynab_agent.Dispatch.Classify.{InboundMessage, noise, classify}
use ynab_agent.Dispatch.Routing.{
  acts, handed_on, pages, IsAutomatic, IsNoise, IsTrusted, handling, run-IsTrusted, run-handling,
  run-never_silent,
}
use ynab_agent.Join.{confident_match}
use ynab_agent.Join.Candidates.{candidate_pool, exact_single_match}
use ynab_agent.Join.Candidates.Fits.{IsPurchase, Fits}
use ynab_agent.Join.Candidates.Matching.{exact_single_match_sound}
use ynab_agent.Examples.Samples.{coffee, now, same_text}

-- A reply of the owner on a transaction's thread.
abbrev answer_mail : InboundMessage
answer_mail = record {
  message_id = "m1";
  from_address = "owner@home";
  subject = "Re: Coffee Bar";
  body = "Dining";
  thread_id = some "th1";
  signature_verified = true;
  is_auto_reply = false;
}

abbrev owners : List String
owners = "owner@home" ∷ []

abbrev working : Outside
working = record {
  fails = λ c. false;
  thread_txn = λ thread. some "t1";
  thread_offer = λ thread. none;
  thread_balance = λ thread. none;
  kind_of = λ message. noise;
  parseaddr = λ raw. ("", raw);
  lower = same_text;
  repr = same_text;
}

routed : acts (run working answer_mail owners).1 ≡ signal_transaction "t1" answer_mail ∷ []
unfolding run classify
routed = refl

run-IsTrusted_example : IsTrusted working answer_mail owners
run-IsTrusted_example = run-IsTrusted working answer_mail owners routed

run-handling_example :
    (acts (run working answer_mail owners).1
      ≡ handling working answer_mail owners (some "t1") none none noise)
    × (pages (run working answer_mail owners).1 ≡ [])
run-handling_example = run-handling working answer_mail owners run-IsTrusted_example (λ c. refl)

-- The mail is in no known thread, and the classifier calls it noise.
abbrev unthreaded : Outside
unthreaded = record working { thread_txn = λ thread. none }

run-never_silent_example :
    (handed_on (run unthreaded answer_mail owners).1 ≡ []
      → pages (run unthreaded answer_mail owners).1 ≡ []
      → IsAutomatic unthreaded answer_mail owners ⊎ IsNoise unthreaded answer_mail owners)
    × ((run unthreaded answer_mail owners).0 ≡ raise activity_error
        → get_last? (run unthreaded answer_mail owners).1
          ≡ some (page_failure "m1" "inbound from owner@home: Re: Coffee Bar"))
run-never_silent_example = run-never_silent unthreaded answer_mail owners

-- The receipt of the coffee.
abbrev till_slip : Receipt
till_slip = record {
  id = "rc1";
  parked_at = now;
  merchant = some "Coffee Bar";
  date = some 738_000;
  total = some (from_milliunits (pos 10_010));
  line_items = [];
  split_notes = none;
  status = ReceiptStatus.parked;
  source_message_id = none;
  source_thread_id = none;
}

slip_matched :
    exact_single_match till_slip (candidate_pool till_slip (coffee ∷ []))
    ≡ some (confident_match "t1")
unfolding exact_single_match candidate_pool ◌-ℤ◌ abs
slip_matched = refl

exact_single_match_sound_example :
    (t : YnabSnapshot) × (t.ynab_id ≡ "t1")
    × Memᴰ t (coffee ∷ [])
    × IsPurchase t
    × Fits till_slip t
    × (before after : List YnabSnapshot) × (candidate_pool till_slip (coffee ∷ [])
        ≡ before ++ t ∷ after)
    × All (λ u. ¬ Fits till_slip u) before
    × All (λ u. ¬ Fits till_slip u) after
exact_single_match_sound_example = exact_single_match_sound till_slip (coffee ∷ []) slip_matched
