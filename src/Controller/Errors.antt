-- ===== src/Controller/Errors.antt =====
-- internal/controller/errors.go: the classification of errors of the API server, and the text for a
-- permission error. `sprintf` renders a message, as Go's `fmt` does.
use Prim.Native.Char.{code}
use Prim.Native.String
use k8s_chaos.Prelude.{
  String, List, [], ◌∷◌, ◌||◌, not, Option, none, some, eqb, ◌==◌, if◌then◌else◌,
}
use k8s_chaos.Go.{
  Message, lit, GoError, error_text, is_forbidden, is_unauthorized, is_timeout, is_invalid,
  is_bad_request,
}

pub data ErrorType : Type 0 where
  permission execution validation timeout unknown : ErrorType

pub record ChaosError : Type 0 where
  pub original : GoError
  pub error_type : ErrorType
  pub resource : String
  pub verb : String
  pub namespace : String
  pub api_group : String
  pub subresource : String
  pub operation : String

-- The details that a permission error names.
pub record Details : Type 0 where
  pub resource : String
  pub verb : String
  pub namespace : String
  pub api_group : String
  pub subresource : String

-- What stands behind a literal at the start of a text.
unfoldable pub strip_prefix : String → String → Option String
strip_prefix String.[] s = some s
strip_prefix (String.◌∷◌ a p) String.[] = none
strip_prefix (String.◌∷◌ a p) (String.◌∷◌ c s) =
    let rest = strip_prefix p s in if eqb (code a) (code c) then rest else none

-- `[^"]*"`: what stands before the next quote, if there is one.
unfoldable pub before_quote : String → Option String
before_quote String.[] = none
before_quote (String.◌∷◌ c s) =
    let rest = before_quote s in
    if eqb (code c) b'"'
    then some ""
    else elim rest [ none ↦ none | some t ↦ some (String.◌∷◌ c t) ]

-- The leftmost place where a pattern matches.
unfoldable pub find_first : (String → Option String) → String → Option String
find_first match String.[] = match ""
find_first match (String.◌∷◌ c s) =
    let rest = find_first match s in elim (match (String.◌∷◌ c s)) [ some t ↦ some t | none ↦ rest ]

-- `label "([^"]*)"`, and the same with `+`.
match_quoted : String → String → Option String
unfolding strip_prefix before_quote
match_quoted label s = elim (strip_prefix label s) [ none ↦ none | some t ↦ before_quote t ]

match_quoted_some : String → String → Option String
unfolding match_quoted
match_quoted_some label s = elim (match_quoted label s) [
  | none ↦ none
  | some t ↦ if t == "" then none else some t
]

first_verb : List String → String → Option String
unfolding strip_prefix
first_verb [] s = none
first_verb (v ∷ vs) s =
    let rest = first_verb vs s in elim (strip_prefix v s) [ some _ ↦ some v | none ↦ rest ]

-- `cannot (list|get|delete|update|create|patch)`.
match_verb : String → Option String
unfolding strip_prefix first_verb
match_verb s = elim (strip_prefix "cannot " s) [
  | none ↦ none
  | some t ↦ first_verb ("list" ∷ "get" ∷ "delete" ∷ "update" ∷ "create" ∷ "patch" ∷ []) t
]

abbrev or_empty : Option String → String
or_empty none = ""
or_empty (some s) = s

-- `strings.Split(s, "/")`, cut at the first slash; the rest is for the second part.
unfoldable pub cut_slash : String → Option (String × String)
cut_slash String.[] = none
cut_slash (String.◌∷◌ c s) =
    let rest = cut_slash s in
    if eqb (code c) b'/'
    then some ("", s)
    else elim rest [ none ↦ none | some (a, b) ↦ some (String.◌∷◌ c a, b) ]

-- Resource and subresource, where the split has exactly two parts.
split_resource : String → String × String
unfolding cut_slash
split_resource full = elim (cut_slash full) [
  | none ↦ (full, "")
  | some (a, b) ↦ elim (cut_slash b) [ none ↦ (a, b) | some _ ↦ (full, "") ]
]

unfoldable pub extract_permission_details : String → Details
unfolding find_first match_quoted match_quoted_some match_verb split_resource
extract_permission_details text =
    let named = split_resource (or_empty (find_first (match_quoted_some "resource \"") text)) in
    record {
      resource = named.0;
      verb = or_empty (find_first match_verb text);
      namespace = or_empty (find_first (match_quoted_some "in namespace \"") text);
      api_group = elim (find_first (match_quoted "in API group \"") text) [
        | none ↦ ""
        | some g ↦ if g == "" then "core" else g
      ];
      subresource = named.1;
    }

-- A `ChaosError` with its type alone.
abbrev pub of_type : GoError → ErrorType → ChaosError
of_type e t = record {
  original = e;
  error_type = t;
  resource = "";
  verb = "";
  namespace = "";
  api_group = "";
  subresource = "";
  operation = "";
}

-- The text of `FormatErrorMessage` for a permission error.
infixr 60 ◌+++◌
abbrev ◌+++◌ : String → String → String
a +++ b = String.◌++◌ a b

-- `if s != "" { msg.WriteString(...) }`.
abbrev given : String → String → String
given s text = if s == "" then "" else text

unfoldable pub permission_message : ChaosError → String
permission_message ce =
    "Permission denied: cannot "
    +++ given ce.verb (ce.verb +++ " ")
    +++ (if not (ce.subresource == "")
        then ce.resource +++ "/" +++ ce.subresource
        else if not (ce.resource == "")
        then ce.resource
        else "perform operation")
    +++ given ce.namespace (" in namespace " +++ ce.namespace)
    +++ ". Missing permission: "
    +++ given ce.resource (ce.resource +++ "/")
    +++ given ce.verb ce.verb
    +++ given ce.subresource ("/" +++ ce.subresource)
    +++ ". Troubleshooting: https://github.com/neogan74/k8s-chaos/blob/main/docs/TROUBLESHOOTING.md#permission-issues. "
    +++ "Check with: kubectl auth can-i "
    +++ given ce.verb (ce.verb +++ " ")
    +++ given ce.resource ce.resource
    +++ given ce.subresource ("/" +++ ce.subresource)
    +++ " --as=system:serviceaccount:k8s-chaos-system:k8s-chaos-controller-manager"
    +++ given ce.namespace (" -n " +++ ce.namespace)
    +++ ". Fix: make manifests && kubectl apply -f config/rbac/"

-- `FormatErrorMessage` of an error that is not nil, which is also its method `Error()`.
unfoldable pub format_error_message : ChaosError → Message
unfolding permission_message
format_error_message ce = elim ce.error_type [
  | permission ↦ lit (permission_message ce)
  | _ ↦ error_text ce.original
]

module _ (sprintf : Message → String) where
  permission_error : GoError → ChaosError
  unfolding extract_permission_details
  permission_error e =
      let d = extract_permission_details (sprintf (error_text e)) in
      record {
        original = e;
        error_type = permission;
        resource = d.resource;
        verb = d.verb;
        namespace = d.namespace;
        api_group = d.api_group;
        subresource = d.subresource;
        operation = "";
      }

  -- `ClassifyError` of an error that is not nil.
  unfoldable pub classify_error : GoError → ChaosError
  unfolding permission_error
  classify_error e =
      if is_forbidden e || is_unauthorized e
      then permission_error e
      else if is_timeout e
      then of_type e timeout
      else if is_invalid e || is_bad_request e
      then of_type e validation
      else of_type e execution

  unfoldable pub wrap_k8s_error : GoError → String → ChaosError
  unfolding classify_error
  wrap_k8s_error e operation = record (classify_error e) { operation = operation }
