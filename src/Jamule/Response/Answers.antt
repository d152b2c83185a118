-- ===== src/Jamule/Response/Answers.antt =====
-- Which response belongs to which opcode: what `parse` of jamule/response.py may return.
use amarr.Prelude.{
  ℕ, ◌≡◌, refl, subst, ◌∙◌, sym, Bool, true, false, ◌&&◌, not, ◌==◌, if◌then◌else◌, arith,
}
use amarr.Py.Result.{Exc, Result, ok, err, communication}
use amarr.Ec.OpCode.{
  ec_op_auth_fail, ec_op_auth_ok, ec_op_auth_salt, ec_op_dload_queue, ec_op_set_preferences,
  ec_op_failed, ec_op_misc_data, ec_op_noop, ec_op_search_results, ec_op_search_progress,
  ec_op_shared_files, ec_op_stats, ec_op_strings,
}
use amarr.Ec.Tag.{Tags, has_any}
use amarr.Ec.Tag.Find.{find_custom}
use amarr.Ec.TagName.{ec_tag_prefs_categories}
use amarr.Ec.Packet.{Packet}
use amarr.Jamule.Response.{
  Response, auth_failed, auth_ok, auth_salt, error_response, strings, misc_data, noop,
  empty_preferences, prefs_categories, search_results, search_status, download_queue, shared_files,
  stats, answer, is_found, parse_search_status, response_of, parse,
}

-- The opcode that announces a response, in the protocol.
abbrev pub announced_by : Response → ℕ
announced_by (auth_failed t) = ec_op_auth_fail
announced_by (auth_ok t) = ec_op_auth_ok
announced_by (auth_salt n) = ec_op_auth_salt
announced_by (error_response t) = ec_op_failed
announced_by (strings t) = ec_op_strings
announced_by misc_data = ec_op_misc_data
announced_by noop = ec_op_noop
announced_by empty_preferences = ec_op_set_preferences
announced_by (prefs_categories l) = ec_op_set_preferences
announced_by (search_results l) = ec_op_search_results
announced_by (search_status r) = ec_op_search_progress
announced_by (download_queue l) = ec_op_dload_queue
announced_by (shared_files l) = ec_op_shared_files
announced_by (stats s) = ec_op_stats

-- A response has its opcode; an exception says nothing.
abbrev HasCode : ℕ → Result Response → Type 0
HasCode op (ok r) = op ≡ announced_by r
HasCode op (err e) = Unit {0}

record IsFor (op : ℕ) (result : Result Response) : Type 0 where
  has_code : HasCode op result

same_code : (op : ℕ) (r : Response) → (op == announced_by r) ≡ true → IsFor op (ok r)
same_code op r h = record { has_code = ground arith }

answer-IsFor :
    {A : Type 0} (op code : ℕ) (class : A → Response) (r : Result A)
    → ((a : A) → announced_by (class a) ≡ code)
    → (op == code) ≡ true
    → IsFor op (answer class r)
answer-IsFor op code class (ok a) c h =
    let e : op ≡ code = ground arith in record { has_code = e ∙ sym (c a) }
answer-IsFor op code class (err e) c h = record { has_code = tt }

-- An opcode is tested together with the tags.
code_and :
    (op code : ℕ) (more : Bool) (x : Result Response)
    → ((op == code) ≡ true → IsFor op x)
    → (op == code && more) ≡ true
    → IsFor op x
code_and op code more x f h = f (ground arith)

no_claim : (op : ℕ) (e : Exc) → IsFor op (err e)
no_claim op e = record { has_code = tt }

-- The next test runs where this one fails.
infixr 3 ◌or_else◌
◌or_else◌ :
    {op : ℕ} {test : Bool} {x y : Result Response}
    → (test ≡ true → IsFor op x)
    → IsFor op y
    → IsFor op (if test then x else y)
◌or_else◌ {test = true} h k = h refl
◌or_else◌ {test = false} h k = k

response_of-IsFor : (op : ℕ) (tags : Tags) → IsFor op (response_of op tags)
unfolding response_of parse_search_status
response_of-IsFor op tags =
    answer-IsFor op ec_op_auth_fail _ _ (λ a. refl)
    or_else answer-IsFor op ec_op_auth_ok _ _ (λ a. refl)
    or_else answer-IsFor op ec_op_auth_salt _ _ (λ a. refl)
    or_else answer-IsFor op ec_op_dload_queue _ _ (λ a. refl)
    or_else code_and op ec_op_set_preferences (not (has_any tags)) _
        (same_code op empty_preferences)
    or_else same_code op (error_response _)
    or_else same_code op misc_data
    or_else same_code op noop
    or_else code_and op ec_op_set_preferences (is_found (find_custom tags ec_tag_prefs_categories))
        _ (answer-IsFor op ec_op_set_preferences prefs_categories _ (λ a. refl))
    or_else answer-IsFor op ec_op_search_results _ _ (λ a. refl)
    or_else answer-IsFor op ec_op_search_progress _ _ (λ a. refl)
    or_else answer-IsFor op ec_op_shared_files _ _ (λ a. refl)
    or_else answer-IsFor op ec_op_stats _ _ (λ a. refl)
    or_else same_code op (strings _)
    or_else no_claim op communication

-- A response has the class that the opcode of its packet announces, whatever the tags are.
pub parse-announced_by : (p : Packet) (r : Response) → parse p ≡ ok r → p.op_code ≡ announced_by r
unfolding parse
parse-announced_by p r h = subst (HasCode p.op_code) h (response_of-IsFor p.op_code p.tags).has_code
