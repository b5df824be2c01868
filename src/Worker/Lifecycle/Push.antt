-- ===== src/Worker/Lifecycle/Push.antt =====
-- The metadata of the event that reports a push, with a hint where it failed.
use autodeploy_platform.Prelude.{
  String, Bool, ◌||◌, Option, none, some, List, [], ◌∷◌, truthy, contains, lower, truthy?, fstring,
  ◌==◌, if◌then◌else◌,
}
use autodeploy_platform.Json.{
  Json, null, bool, num, str, arr, obj, Items, nil, cons, Dict, end, field, get?, merge, dict,
  items, opt_str, or_null, json_truthy,
}
use autodeploy_platform.Session.{Environment, Outcome, ok, raised, other}

-- " ".join(texts)
unfoldable pub join : List String → String
join [] = ""
join (s ∷ []) = s
join (s ∷ ss) = fstring (s ∷ " " ∷ join ss ∷ [])

unfoldable pub characters : String → List String
characters String.[] = []
characters (String.◌∷◌ c s) = String.◌∷◌ c String.[] ∷ characters s

unfoldable pub dict_keys : Dict → List String
dict_keys end = []
dict_keys (field k v d) = k ∷ dict_keys d

abbrev and_then : String → Outcome (List String) → Outcome (List String)
and_then s (ok ss) = ok (s ∷ ss)
and_then s (raised e) = raised e

unfoldable pub item_texts : Items → Outcome (List String)
item_texts nil = ok []
item_texts (cons (str s) vs) = and_then s (item_texts vs)
item_texts (cons v vs) = raised (other "TypeError")

-- The texts that `" ".join(value or [])` goes over.
unfoldable pub iterate_texts : Json → Outcome (List String)
iterate_texts null = ok []
iterate_texts (bool b) = if b then raised (other "TypeError") else ok []
iterate_texts (num n) = if n == 0 then ok [] else raised (other "TypeError")
iterate_texts (str s) = ok (characters s)
iterate_texts (arr vs) = item_texts vs
iterate_texts (obj d) = ok (dict_keys d)

unfoldable pub keep_truthy : List String → List String
keep_truthy [] = []
keep_truthy (s ∷ ss) = let rest = keep_truthy ss in if truthy s then s ∷ rest else rest

-- `str(metadata.get("summary") or "")`
unfoldable pub summary_text : (Json → String) → Option Json → String
summary_text str_of none = ""
summary_text str_of (some (str s)) = s
summary_text str_of (some v) = if json_truthy v then str_of v else ""

unfoldable pub causes : List Json → Dict
causes texts = dict (("possible_causes", arr (items texts)) ∷ [])

-- The hint for a lowered haystack.
pub hint_for : String → Dict
hint_for haystack =
    if contains haystack "denied: requested access to the resource is denied"
      || contains haystack "denied:"
    then causes (
        str "registry authentication or token scope issue"
        ∷ str "repository permission or namespace access issue"
        ∷ str "registry plan or private repository limit"
        ∷ [])
    else if contains haystack "unauthorized"
        || contains haystack "insufficient scopes"
        || contains haystack "insufficient_scope"
    then causes (
        str "registry authentication failed"
        ∷ str "registry token does not have push permission"
        ∷ [])
    else if contains haystack "manifest unknown" || contains haystack "no such manifest"
    then causes (
        str "registry image tag was not published"
        ∷ str "registry push may have partially succeeded without a retrievable image manifest"
        ∷ [])
    else if contains haystack "repository does not exist"
    then causes (
        str "target repository does not exist"
        ∷ str "authenticated user does not have permission to create or push to the repository"
        ∷ [])
    else end

module _ (env : Environment) where
  unfoldable pub haystack_of : String → Dict → List String → String
  haystack_of message metadata tail = lower (
      join (
        keep_truthy (message ∷ summary_text env.str_of (get? "summary" metadata) ∷ join tail ∷ [])))

  abbrev finish_hint : String → Dict → Outcome (List String) → Outcome Dict
  finish_hint message metadata (raised e) = raised e
  finish_hint message metadata (ok tail) = ok (hint_for (haystack_of message metadata tail))

  unfoldable pub push_error_hint : String → Dict → Outcome Dict
  push_error_hint message metadata =
      finish_hint message metadata (iterate_texts (or_null (get? "output_tail" metadata)))

  abbrev merge_hint : Dict → Outcome Dict → Outcome Dict
  merge_hint metadata (raised e) = raised e
  merge_hint metadata (ok hint) = ok (merge metadata hint)

  -- `metadata.get("summary") or message`
  abbrev summary_or : Option Json → String → Json
  summary_or none message = str message
  summary_or (some v) message = if json_truthy v then v else str message

  unfoldable pub push_fields : Dict → Option String → String → Bool → Dict
  push_fields metadata log_path message succeeded = merge metadata (
      dict (
        ("step", str "image.push")
        ∷ ("success", bool succeeded)
        ∷ ("push_log_available", bool (truthy? log_path))
        ∷ ("push_log_path", opt_str log_path)
        ∷ ("push_output_tail", or_null (get? "output_tail" metadata))
        ∷ ("push_summary", summary_or (get? "summary" metadata) message)
        ∷ ("push_duration", or_null (get? "duration_seconds" metadata))
        ∷ ("push_attempts", or_null (get? "attempt" metadata))
        ∷ ("push_total_attempts", or_null (get? "total_attempts" metadata))
        ∷ []))

  -- `succeeded` is `status == "succeeded"`; the other status is "failed".
  unfoldable pub push_event_metadata : Dict → Option String → String → Bool → Outcome Dict
  push_event_metadata metadata log_path message succeeded =
      let fields = push_fields metadata log_path message succeeded in
      if succeeded
      then ok fields
      else (let failed_fields = merge fields (dict (("error_message", str message) ∷ [])) in
          merge_hint failed_fields (push_error_hint message failed_fields))
