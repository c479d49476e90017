-- ===== src/Examples/Services.antt =====
-- The services' theorems at a case that lacks its purpose, on tables that start empty.
use organization_ai.Base.{ℕ, ◌+◌, none, some, [], true, false, ◌≡◌, refl}
use organization_ai.Base.Json.{null}
use organization_ai.Base.Result.{ok, err}
use organization_ai.Base.Query.{find}
use organization_ai.Base.Text.{is_blank, format}
use organization_ai.Domain.Enums.{DecisionOutcome, tmp_req_01}
use organization_ai.Domain.Models.{CaseSubmission, DecisionDraft, new_draft, new_case}
use organization_ai.Policy.Normalization.{normalize_case}
use organization_ai.Policy.Evaluator.{evaluate_case}
use organization_ai.Policy.Profile.{tmp_dev_001_profile}
use organization_ai.Persistence.Rows.{Database, StoredTrace}
use organization_ai.Persistence.Repository.{case_id_exists, find_trace, insert_rows}
use organization_ai.Persistence.Engine.{Constraint, case_id_unique, violates}
use organization_ai.Persistence.Engine.Keys.{IsConsistent}
use organization_ai.Persistence.Engine.Checked.{checked-IsConsistent, checked_engine}
use organization_ai.Application.History.{
  Effects, trace_rows, submit_trace, read_trace, case_row, decision_row,
}
use organization_ai.Application.Views.{trace_already_recorded}
use organization_ai.Application.Sound.{IsSound}
use organization_ai.Application.History.Duplicate.{submit_trace_duplicate}
use organization_ai.Application.History.Sound.{IsSound-insert_rows, submit_trace-IsSound}
use organization_ai.Application.History.Stored.{
  new_view, new_events, submit_trace-read_trace, find_trace-new,
}
use organization_ai.Application.History.Whole.{WritesWholeTrace, submit_trace-WritesWholeTrace}

abbrev pub effects : ℕ → Effects
effects first = record {
  clock = λ n. 1000 + n;
  new_id = λ n. first + n;
  dump_case = λ _. null;
  dump_profile = λ _. null;
}

abbrev pub alone : Database → Database
alone db = db

abbrev pub submission : CaseSubmission
submission = record {
  case_id = "case-7";
  submitted_at = 0;
  requester_role = some "member";
  purpose = none;
  expense = none;
}

abbrev pub draft : DecisionDraft
draft = record {
  outcome = DecisionOutcome.missing_fact;
  applied_rule_id = tmp_req_01;
  reason =
      "Required synthetic business fact 'purpose' is missing under temporary development profile TMP-DEV-001.";
  question = some "What is the synthetic purpose of this expense?";
  profile_id = "TMP-DEV-001";
}

abbrev pub empty : Database
empty = record { cases = []; decisions = []; events = [] }

submission_normal : normalize_case submission ≡ ok submission
unfolding normalize_case is_blank new_case
submission_normal = refl

empty_free : case_id_exists empty "case-7" ≡ false
unfolding case_id_exists
empty_free = refl

submission_decided : evaluate_case submission tmp_dev_001_profile ≡ ok draft
unfolding evaluate_case is_blank new_draft format
submission_decided = refl

pub empty-IsConsistent : IsConsistent empty
unfolding violates find
empty-IsConsistent = checked-IsConsistent empty refl

abbrev pub stored_once : Database
stored_once = insert_rows empty (trace_rows (effects 100) submission submission draft)

pub stored_once-IsConsistent : IsConsistent stored_once
unfolding violates insert_rows trace_rows find
stored_once-IsConsistent = checked-IsConsistent stored_once refl

submit_trace-read_trace_example :
    (submit_trace checked_engine (effects 100) alone submission empty
      ≡ (ok (new_view (effects 100) submission submission draft), stored_once))
    × (read_trace 100 (submit_trace checked_engine (effects 100) alone submission empty).1
        ≡ ok (new_view (effects 100) submission submission draft))
submit_trace-read_trace_example =
    submit_trace-read_trace checked_engine (effects 100) alone submission {n = submission}
      {d = draft} empty submission_normal submission_decided empty_free empty-IsConsistent
      stored_once-IsConsistent

submit_trace-WritesWholeTrace_example :
    WritesWholeTrace
      (effects 100)
      submission
      empty
      empty
      (submit_trace checked_engine (effects 100) alone submission empty)
submit_trace-WritesWholeTrace_example =
    submit_trace-WritesWholeTrace checked_engine (effects 100) alone submission empty

pub empty-IsSound : IsSound empty
unfolding find_trace
empty-IsSound t stored found = absurd (cc)

submit_trace-IsSound_example :
    IsSound (submit_trace checked_engine (effects 100) alone submission empty).1
submit_trace-IsSound_example =
    submit_trace-IsSound checked_engine (effects 100) alone submission empty empty-IsSound
      empty-IsSound empty-IsConsistent

-- Another transaction stores the case meanwhile.
abbrev raced : Database → Database
raced _ = stored_once

only_case_id :
    (k : Constraint)
    → violates (insert_rows stored_once (trace_rows (effects 200) submission submission draft)) k
      ≡ true
    → k ≡ case_id_unique
unfolding violates insert_rows trace_rows
only_case_id case_id_unique h = refl
only_case_id k h = absurd (cc)

raced_taken : case_id_exists stored_once "case-7" ≡ true
unfolding case_id_exists insert_rows trace_rows
raced_taken = refl

submit_trace_duplicate_example :
    (submit_trace checked_engine (effects 200) raced submission empty).0
    ≡ err (trace_already_recorded "case-7")
submit_trace_duplicate_example =
    submit_trace_duplicate checked_engine (effects 200) raced submission {n = submission}
      {d = draft} empty submission_normal submission_decided raced_taken only_case_id

abbrev pub stored : StoredTrace
stored = record {
  case_row = case_row (effects 100) submission submission;
  decision = some (decision_row (effects 100) draft);
  events = new_events (effects 100) submission draft;
}

pub stored_found : find_trace stored_once 100 ≡ some stored
stored_found =
    find_trace-new (effects 100) submission submission draft empty empty-IsConsistent
      stored_once-IsConsistent

pub stored_once-IsSound : IsSound stored_once
stored_once-IsSound =
    IsSound-insert_rows (effects 100) submission submission draft empty empty-IsSound
      empty-IsConsistent stored_once-IsConsistent
