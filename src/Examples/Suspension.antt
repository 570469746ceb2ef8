-- ===== src/Examples/Suspension.antt =====
-- Runs and instances for paused accounts (src/utils/account/capture/account-poll-suspension.ts).
use quota_shift.Prelude.{
  String, ◌≡◌, refl, true, false, not, ◌&&◌, ◌||◌, Option, none, some, [], ◌∷◌, if◌then◌else◌, ◌==◌,
  eqb, length, lookup, insert,
}
use quota_shift.Js.{Value, str, arr, obj, no_fields, field, items, is_empty, array_or_empty, get}
use quota_shift.Browser.{Storage}
use quota_shift.Suspension.{
  codex, read_state, with_ids, suspended_ids, distinct_from, is_account_polling_suspended,
  suspend_account_polling, resume_account_polling,
}
use quota_shift.Suspension.Laws.{suspend_resume-refine_set}
use quota_shift.Suspension.Written.{same_provider}

-- JSON on the three states that the runs write.
abbrev a_paused : Value
a_paused = obj (field "codex" (arr (items (str "a" ∷ []))) no_fields)

abbrev both_paused : Value
both_paused = obj (field "codex" (arr (items (str "a" ∷ str "b" ∷ []))) no_fields)

abbrev parse : String → Option Value
parse text =
    if text == "both" then some both_paused else if text == "one" then some a_paused else none

abbrev stringify : Value → String
stringify state = if eqb (length (array_or_empty (get state "codex"))) 2 then "both" else "one"

abbrev stored : String → Storage
stored text = record {
  entries = ("quotashift_auth_poll_suspensions_v1", text) ∷ [];
  readable = true;
  writable = true;
  removable = true;
}

suspend_test :
    suspend_account_polling parse stringify codex "b" (some (stored "one")) ≡ some (stored "both")
unfolding suspend_account_polling lookup insert get
suspend_test = refl

resume_test :
    resume_account_polling parse stringify codex "b" (some (stored "both")) ≡ some (stored "one")
unfolding resume_account_polling lookup insert get
resume_test = refl

unreadable_text_test : is_account_polling_suspended parse codex "a" (some (stored "[")) ≡ false
unfolding is_account_polling_suspended lookup insert get
unreadable_text_test = refl

suspend_resume-refine_set_example :
    (is_account_polling_suspended parse codex "b"
        (suspend_account_polling parse stringify codex "b" (some (stored "both")))
      ≡ (is_account_polling_suspended parse codex "b" (some (stored "both"))
          || (not (is_empty "b") && (same_provider codex codex && "b" == "b"))))
    × (is_account_polling_suspended parse codex "b"
          (resume_account_polling parse stringify codex "b" (some (stored "both")))
        ≡ (is_account_polling_suspended parse codex "b" (some (stored "both"))
            && not (same_provider codex codex && "b" == "b")))
unfolding read_state with_ids suspended_ids distinct_from array_or_empty get lookup insert
suspend_resume-refine_set_example =
    suspend_resume-refine_set parse stringify (stored "both") refl refl codex "b" (refl, refl)
      (refl, refl) codex "b"
