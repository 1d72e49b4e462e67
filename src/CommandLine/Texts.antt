-- ===== src/CommandLine/Texts.antt =====
-- pkg/cli/cmd/list.go, `formatAge` and `formatSelector`; pkg/cli/cmd/describe.go,
-- `formatSelectorMultiline`; pkg/cli/cmd/root.go, `getKubeconfigPath`. A selector, a Go map, is the list
-- of its entries in the order in which the loop meets them.
use Prim.Native.String.{◌++◌, len, slice}
use k8s_chaos.Prelude.{
  ℕ, ℤ, pos, negsuc, zero, suc, ◌-◌, ◌/◌, ◌^◌, min, String, List, [], ◌∷◌, Option, none, some, ltb,
  leb, ◌==◌, if◌then◌else◌,
}
use k8s_chaos.Go.{Message, fmt, num, int, end}

-- `time.Since(t)` at the time `now`: a signed number of nanoseconds, which saturates.
unfoldable pub since : ℕ → ℕ → ℤ
since now t =
    if leb t now then pos (min (now - t) (2 ^ 63 - 1)) else negsuc (min (t - now - 1) (2 ^ 63 - 1))

abbrev negated : ℕ → ℤ
negated zero = pos 0
negated (suc n) = negsuc n

-- The age by its largest unit, rounded towards zero; the code rounds a float64, which is off by less than
-- a few microseconds.
unfoldable pub format_duration : ℤ → Message
format_duration (pos d) =
    if ltb d 60000000000
    then fmt "%ds" (num (d / 1000000000) end)
    else if ltb d 3600000000000
    then fmt "%dm" (num (d / 60000000000) end)
    else if ltb d 86400000000000
    then fmt "%dh" (num (d / 3600000000000) end)
    else fmt "%dd" (num (d / 86400000000000) end)
format_duration (negsuc n) = fmt "%ds" (int (negated (suc n / 1000000000)) end)

unfoldable pub format_age : ℕ → ℕ → Message
unfolding since format_duration
format_age now t = format_duration (since now t)

abbrev pair : String × String → String
pair (k, v) = k ++ "=" ++ v

-- `strings.Join`.
unfoldable pub join : String → List String → String
join sep [] = ""
join sep (s ∷ []) = s
join sep (s ∷ t ∷ rest) = s ++ sep ++ join sep (t ∷ rest)

pairs : List (String × String) → List String
pairs [] = []
pairs (e ∷ es) = pair e ∷ pairs es

-- Cut to 30 bytes; labels are ASCII.
unfoldable pub format_selector : List (String × String) → String
unfolding join pairs
format_selector [] = "<none>"
format_selector (e ∷ es) =
    let result = join "," (pairs (e ∷ es)) in
    if ltb 30 (len result) then slice result 0 27 ++ "..." else result

unfoldable pub format_selector_multiline : List (String × String) → String
unfolding join pairs
format_selector_multiline [] = "<none>"
format_selector_multiline (e ∷ es) = join "\n                       " (pairs (e ∷ es))

-- The flag, or else the variable KUBECONFIG, or else the file in the home directory, where there is one.
unfoldable pub get_kubeconfig_path : String → String → Option String → String
get_kubeconfig_path kubeconfig variable home =
    if kubeconfig == ""
    then (if variable == ""
        then elim home [ none ↦ "" | some h ↦ h ++ "/.kube/config" ]
        else variable)
    else kubeconfig
